-- ===== src/Prelude/Text/Equality.antt =====
-- The Boolean test on texts decides equality.
use mathlib.Core.Path.{◌≡◌, refl}
use mathlib.Core.Logic.{◌↔◌}
use mathlib.Core.Bool.{true}
use mathlib.Core.List.{[], ◌∷◌}
use native.Mathlib.Omega.{arith}
use tech_atlas.Prelude.Text.{Text, eq_text}

pub eq_text→eq : (s t : Text) → eq_text s t ≡ true → s ≡ t
unfolding eq_text
eq_text→eq [] [] h = refl
eq_text→eq (a ∷ s) (b ∷ t) h = ground (arith, eq_text→eq s t)
eq_text→eq [] (b ∷ t) h = cc
eq_text→eq (a ∷ s) [] h = cc

pub eq_text_self : (s : Text) → eq_text s s ≡ true
unfolding eq_text
eq_text_self [] = refl
eq_text_self (a ∷ s) = ground (arith, eq_text_self s)

pub eq_text_iff : (s t : Text) → (eq_text s t ≡ true) ↔ (s ≡ t)
eq_text_iff s t = (eq_text→eq s t, λ e. rw e (eq_text_self t))
