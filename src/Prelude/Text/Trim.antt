-- ===== src/Prelude/Text/Trim.antt =====
-- Trimming: the result is trimmed, and trimming it again changes nothing.
use Prim.Native.Nat.{ℕ}
use mathlib.Core.Path.{◌≡◌, refl}
use mathlib.Core.Logic.{inl, inr}
use mathlib.Core.Bool.{false}
use mathlib.Core.List.{[], ◌∷◌}
use tech_atlas.Prelude.Tests.{Bool-cases}
use tech_atlas.Prelude.Text.{Text, is_whitespace, trim_start, keep_start, trim_end, trim}

trim_end-keep_start :
    (c : ℕ) (s : Text) → trim_end s ≡ s → trim_end (keep_start c s) ≡ keep_start c s
unfolding trim_end
trim_end-keep_start c [] h = elim (Bool-cases (is_whitespace c)) [
  | inl space ↦ rw space
  | inr solid ↦ rw solid (rw solid)
]
trim_end-keep_start c (d ∷ s) h = rw h

pub trim_end_idem : (s : Text) → trim_end (trim_end s) ≡ trim_end s
unfolding trim_end
trim_end_idem [] = refl
trim_end_idem (c ∷ s) = trim_end-keep_start c (trim_end s) (trim_end_idem s)

trim_start-keep_start :
    (c : ℕ) (s : Text) → is_whitespace c ≡ false → trim_start (keep_start c s) ≡ keep_start c s
unfolding trim_start
trim_start-keep_start c [] h = rw h (rw h)
trim_start-keep_start c (d ∷ s) h = rw h

-- Trimming the end brings no white space to the start.
trim_start-trim_end : (s : Text) → trim_start (trim_end (trim_start s)) ≡ trim_end (trim_start s)
unfolding trim_start trim_end
trim_start-trim_end [] = refl
trim_start-trim_end (c ∷ s) = elim (Bool-cases (is_whitespace c)) [
  | inl space ↦ rw space (trim_start-trim_end s)
  | inr solid ↦ rw solid (trim_start-keep_start c (trim_end s) solid)
]

pub trim_idem : (s : Text) → trim (trim s) ≡ trim s
unfolding trim
trim_idem s = rw (trim_start-trim_end s) (trim_end_idem (trim_start s))
