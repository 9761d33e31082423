-- ===== src/Prelude/Dedup.antt =====
-- `Vec::dedup`: of equal neighbours the first is kept.
use mathlib.Core.Path.{◌≡◌, refl}
use mathlib.Core.Bool.{Bool, false}
use mathlib.Core.Logic.{inl, inr}
use mathlib.Core.List.{List, [], ◌∷◌}
use tech_atlas.Prelude.Tests.{if◌then◌else◌, Bool-cases}
use tech_atlas.Prelude.Lists.{All, is_empty_list}

module _ {ℓ} {A : Type ℓ} (same : A → A → Bool) where
  -- `a` is the last element that was kept.
  unfoldable pub dedup_from : A → List A → List A
  dedup_from a [] = a ∷ []
  dedup_from a (b ∷ rest) =
      let without = dedup_from a rest in
      let with_b = a ∷ dedup_from b rest in if same a b then without else with_b

  unfoldable pub dedup_neighbours : List A → List A
  unfolding dedup_from
  dedup_neighbours [] = []
  dedup_neighbours (a ∷ rest) = dedup_from a rest

  module _ {κ} (P : A → Type κ) where
    All-dedup_from : (a : A) (rest : List A) → P a → All P rest → All P (dedup_from a rest)
    unfolding dedup_from
    All-dedup_from a [] h k = (h, tt)
    All-dedup_from a (b ∷ rest) h k = elim (Bool-cases (same a b)) [
      | inl equal ↦ rw equal (All-dedup_from a rest h k.1)
      | inr other ↦ rw other (h, All-dedup_from b rest k.0 k.1)
    ]

    pub All-dedup_neighbours : (xs : List A) → All P xs → All P (dedup_neighbours xs)
    unfolding dedup_neighbours
    All-dedup_neighbours [] h = tt
    All-dedup_neighbours (a ∷ rest) h = All-dedup_from a rest h.0 h.1

  is_empty_list-dedup_from : (a : A) (rest : List A) → is_empty_list (dedup_from a rest) ≡ false
  unfolding dedup_from
  is_empty_list-dedup_from a [] = refl
  is_empty_list-dedup_from a (b ∷ rest) = elim (Bool-cases (same a b)) [
    | inl equal ↦ rw equal (is_empty_list-dedup_from a rest)
    | inr other ↦ rw other refl
  ]

  pub is_empty_list-dedup_neighbours :
      (xs : List A) → is_empty_list (dedup_neighbours xs) ≡ is_empty_list xs
  unfolding dedup_neighbours
  is_empty_list-dedup_neighbours [] = refl
  is_empty_list-dedup_neighbours (a ∷ rest) = is_empty_list-dedup_from a rest
