-- ===== src/Prelude/Sort.antt =====
-- A stable sort by a Boolean order, the effect of `sort_by` and of ORDER BY.
use Prim.Native.Nat.{ℕ, ◌≤◌}
use mathlib.Core.Path.{◌≡◌, refl}
use mathlib.Core.Bool.{Bool, true, false}
use mathlib.Core.Logic.{inl, inr}
use mathlib.Core.List.{List, [], ◌∷◌}
use native.Mathlib.Omega.{arith}
use tech_atlas.Prelude.Tests.{if◌then◌else◌, Bool-cases}
use tech_atlas.Prelude.Lists.{count, All, filter, take, is_empty_list}

module _ {ℓ} {A : Type ℓ} (le : A → A → Bool) where
  unfoldable pub insert_by : A → List A → List A
  insert_by x [] = x ∷ []
  insert_by x (y ∷ ys) = if le x y then x ∷ y ∷ ys else y ∷ insert_by x ys

  unfoldable pub sort_by : List A → List A
  unfolding insert_by
  sort_by [] = []
  sort_by (x ∷ xs) = insert_by x (sort_by xs)

  count-insert_by :
      (p : A → Bool) (x : A) (ys : List A) → count p (insert_by x ys) ≡ count p (x ∷ ys)
  unfolding insert_by
  count-insert_by p x [] = refl
  count-insert_by p x (y ∷ ys) = ground (arith, count-insert_by p x ys)

  pub count-sort_by : (p : A → Bool) (xs : List A) → count p (sort_by xs) ≡ count p xs
  unfolding sort_by
  count-sort_by p [] = refl
  count-sort_by p (x ∷ xs) = omega (arith, count-insert_by p x (sort_by xs), count-sort_by p xs)

  module _ {κ} (P : A → Type κ) where
    pub All-insert_by : (x : A) (ys : List A) → P x → All P ys → All P (insert_by x ys)
    unfolding insert_by
    All-insert_by x [] h k = (h, tt)
    All-insert_by x (y ∷ ys) h k = elim (Bool-cases (le x y)) [
      | inl first ↦ rw first (h, k)
      | inr later ↦ rw later (k.0, All-insert_by x ys h k.1)
    ]

    pub All-sort_by : (xs : List A) → All P xs → All P (sort_by xs)
    unfolding sort_by
    All-sort_by [] h = tt
    All-sort_by (x ∷ xs) h = All-insert_by x (sort_by xs) h.0 (All-sort_by xs h.1)

-- Every earlier element is before every later one.
abbrev pub IsSortedBy {ℓ} : {A : Type ℓ} → (A → A → Bool) → List A → Type 0
IsSortedBy le [] = Unit
IsSortedBy le (x ∷ xs) = All (λ y. le x y ≡ true) xs × IsSortedBy le xs

module _ {ℓ} {A : Type ℓ} (le : A → A → Bool) (total : (x y : A) → le x y ≡ false → le y x ≡ true)
    (trans : (x y z : A) → le x y ≡ true → le y z ≡ true → le x z ≡ true) where
  pub All-trans :
      (x y : A) (zs : List A)
      → le x y ≡ true
      → All (λ z. le y z ≡ true) zs
      → All (λ z. le x z ≡ true) zs
  All-trans x y [] h k = tt
  All-trans x y (z ∷ zs) h k = (trans x y z h k.0, All-trans x y zs h k.1)

  insert_by-IsSortedBy :
      (x : A) (ys : List A) → IsSortedBy le ys → IsSortedBy le (insert_by le x ys)
  unfolding insert_by
  insert_by-IsSortedBy x [] h = (tt, tt)
  insert_by-IsSortedBy x (y ∷ ys) h = elim (Bool-cases (le x y)) [
    | inl first ↦ rw first ((first, All-trans x y ys first h.0), h)
    | inr later ↦ rw later (
      All-insert_by le (λ z. le y z ≡ true) x ys (total x y later) h.0,
      insert_by-IsSortedBy x ys h.1,
    )
  ]

  pub sort_by-IsSortedBy : (xs : List A) → IsSortedBy le (sort_by le xs)
  unfolding sort_by
  sort_by-IsSortedBy [] = tt
  sort_by-IsSortedBy (x ∷ xs) = insert_by-IsSortedBy x (sort_by le xs) (sort_by-IsSortedBy xs)

module _ {ℓ} {A : Type ℓ} where
  pub count-take-le : (p : A → Bool) (n : ℕ) (xs : List A) → count p (take n xs) ≤ count p xs
  count-take-le p ℕ.zero xs = omega arith
  count-take-le p (ℕ.suc n) [] = omega arith
  count-take-le p (ℕ.suc n) (x ∷ xs) = omega (arith, count-take-le p n xs)

  pub count-filter-le : (p q : A → Bool) (xs : List A) → count p (filter q xs) ≤ count p xs
  count-filter-le p q [] = omega arith
  count-filter-le p q (x ∷ xs) = ground (arith, count-filter-le p q xs)

  pub IsSortedBy-take :
      (le : A → A → Bool) (n : ℕ) (xs : List A) → IsSortedBy le xs → IsSortedBy le (take n xs)
  IsSortedBy-take le ℕ.zero xs h = tt
  IsSortedBy-take le (ℕ.suc n) [] h = tt
  IsSortedBy-take le (ℕ.suc n) (x ∷ xs) h = (keep n xs h.0, IsSortedBy-take le n xs h.1)
    where
      keep :
          (k : ℕ) (ys : List A) → All (λ y. le x y ≡ true) ys → All (λ y. le x y ≡ true) (take k ys)
      keep ℕ.zero ys a = tt
      keep (ℕ.suc k) [] a = tt
      keep (ℕ.suc k) (y ∷ ys) a = (a.0, keep k ys a.1)

  pub count-filter_none :
      (p q : A → Bool) (xs : List A)
      → ((x : A) → q x ≡ true → p x ≡ false)
      → count p (filter q xs) ≡ ℕ.zero
  count-filter_none p q [] h = refl
  count-filter_none p q (x ∷ xs) h = ground (arith, h x, count-filter_none p q xs h)

  pub filter-All : (q : A → Bool) (xs : List A) → All (λ x. q x ≡ true) (filter q xs)
  filter-All q [] = tt
  filter-All q (x ∷ xs) = elim (Bool-cases (q x)) [
    | inl keep ↦ rw keep (keep, filter-All q xs)
    | inr drop ↦ rw drop (filter-All q xs)
  ]

  pub All-filter {κ} :
      (P : A → Type κ) (p : A → Bool) (xs : List A) → All P xs → All P (filter p xs)
  All-filter P p [] h = tt
  All-filter P p (x ∷ xs) h = elim (Bool-cases (p x)) [
    | inl kept ↦ rw kept (h.0, All-filter P p xs h.1)
    | inr dropped ↦ rw dropped (All-filter P p xs h.1)
  ]

  pub is_empty_list-sort_by :
      (le : A → A → Bool) (xs : List A) → is_empty_list (sort_by le xs) ≡ is_empty_list xs
  unfolding sort_by insert_by
  is_empty_list-sort_by le [] = refl
  is_empty_list-sort_by le (x ∷ xs) = inserted (sort_by le xs)
    where
      inserted : (ys : List A) → is_empty_list (insert_by le x ys) ≡ false
      inserted [] = refl
      inserted (y ∷ ys) = ground arith
