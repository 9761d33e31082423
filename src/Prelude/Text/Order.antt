-- ===== src/Prelude/Text/Order.antt =====
-- The order of `str`: by bytes, which UTF-8 makes the order of the code points.
use mathlib.Core.Path.{◌≡◌, refl}
use mathlib.Core.Bool.{Bool, true, false, ◌&&◌, ◌||◌}
use mathlib.Core.List.{[], ◌∷◌}
use native.Mathlib.Omega.{arith}
use tech_atlas.Prelude.Tests.{ltb, ◌==◌}
use tech_atlas.Prelude.Text.{Text, eq_text}

unfoldable pub text_before : Text → Text → Bool
text_before [] t = true
text_before (c ∷ s) [] = false
text_before (c ∷ s) (d ∷ t) = ltb c d || (c == d && text_before s t)

pub text_before_total : (s t : Text) → text_before s t ≡ false → text_before t s ≡ true
unfolding text_before
text_before_total [] t h = cc
text_before_total (c ∷ s) [] h = refl
text_before_total (c ∷ s) (d ∷ t) h = ground (arith, text_before_total s t)

pub text_before_trans :
    (s t u : Text) → text_before s t ≡ true → text_before t u ≡ true → text_before s u ≡ true
unfolding text_before
text_before_trans [] t u h k = refl
text_before_trans (c ∷ s) [] u h k = cc
text_before_trans (c ∷ s) (d ∷ t) [] h k = cc
text_before_trans (c ∷ s) (d ∷ t) (e ∷ u) h k = ground (arith, text_before_trans s t u)

pub text_before_antisymm :
    (s t : Text) → text_before s t ≡ true → text_before t s ≡ true → eq_text s t ≡ true
unfolding text_before eq_text
text_before_antisymm [] [] h k = refl
text_before_antisymm [] (d ∷ t) h k = cc
text_before_antisymm (c ∷ s) [] h k = cc
text_before_antisymm (c ∷ s) (d ∷ t) h k = ground (arith, text_before_antisymm s t)
