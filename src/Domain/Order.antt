-- ===== src/Domain/Order.antt =====
-- Lists sorted by a Boolean order and filtered, and lists whose elements are apart.
use tech_atlas.Prelude.{
  ◌≡◌, refl, sym, ◌∙◌, Bool, true, false, not, ◌&&◌, List, [], ◌∷◌, ◌++◌, if◌then◌else◌, filter,
  All, Bool-cases, inl, inr, arith,
}
use tech_atlas.Prelude.Sort.{
  All-filter, insert_by, sort_by, IsSortedBy, All-trans, sort_by-IsSortedBy, All-insert_by,
  All-sort_by,
}

module _ {ℓ} {A : Type ℓ} where
  pub filter-filter :
      (p q : A → Bool) (xs : List A) → filter q (filter p xs) ≡ filter (λ x. p x && q x) xs
  filter-filter p q [] = refl
  filter-filter p q (x ∷ xs) = elim (Bool-cases (p x)) [
    | inl kept ↦ elim (Bool-cases (q x)) [
      | inl both ↦ rw (kept, both, filter-filter p q xs) refl
      | inr one ↦ rw (kept, one, filter-filter p q xs) refl
    ]
    | inr dropped ↦ rw (dropped, filter-filter p q xs) refl
  ]

  pub filter-cong :
      (p q : A → Bool) (xs : List A) → ((x : A) → p x ≡ q x) → filter p xs ≡ filter q xs
  filter-cong p q [] h = refl
  filter-cong p q (x ∷ xs) h = rw (h x, filter-cong p q xs h) refl

  insert_by_first :
      (le : A → A → Bool) (x : A) (ys : List A)
      → All (λ y. le x y ≡ true) ys
      → insert_by le x ys ≡ x ∷ ys
  unfolding insert_by
  insert_by_first le x [] h = refl
  insert_by_first le x (y ∷ ys) h = rw h.0 refl

module _ {ℓ} {A : Type ℓ} (le : A → A → Bool) (total : (x y : A) → le x y ≡ false → le y x ≡ true)
    (trans : (x y z : A) → le x y ≡ true → le y z ≡ true → le x z ≡ true) where
  filter-insert_by :
      (p : A → Bool) (x : A) (ys : List A)
      → IsSortedBy le ys
      → filter p (insert_by le x ys) ≡ (if p x then insert_by le x (filter p ys) else filter p ys)
  unfolding insert_by
  filter-insert_by p x [] h = ground arith
  filter-insert_by p x (y ∷ ys) h = elim (Bool-cases (le x y)) [
    | inl first ↦
        let front =
          All-filter (λ z. le x z ≡ true) p (y ∷ ys)
            (first, All-trans le total trans x y ys first h.0) in
        elim (Bool-cases (p x)) [
          | inl kept ↦ rw (first, kept) (sym (insert_by_first le x (filter p (y ∷ ys)) front))
          | inr dropped ↦ rw (first, dropped) refl
        ]
    | inr later ↦ elim (Bool-cases (p y)) [
      | inl y_kept ↦ elim (Bool-cases (p x)) [
        | inl kept ↦ rw (later, y_kept, filter-insert_by p x ys h.1, kept, later) refl
        | inr dropped ↦ rw (later, y_kept, filter-insert_by p x ys h.1, dropped) refl
      ]
      | inr y_dropped ↦ rw (later, y_dropped) (filter-insert_by p x ys h.1)
    ]
  ]

  pub filter-sort_by :
      (p : A → Bool) (xs : List A) → filter p (sort_by le xs) ≡ sort_by le (filter p xs)
  unfolding sort_by
  filter-sort_by p [] = refl
  filter-sort_by p (x ∷ xs) =
      filter-insert_by p x (sort_by le xs) (sort_by-IsSortedBy le total trans xs)
      ∙ (elim (Bool-cases (p x)) [
        | inl kept ↦ rw (kept, filter-sort_by p xs) refl
        | inr dropped ↦ rw (dropped, filter-sort_by p xs) refl
      ])

module _ {ℓ} {A : Type ℓ} where
  -- No two elements are the same.
  abbrev pub IsApart : (A → A → Bool) → List A → Type 0
  IsApart same [] = Unit
  IsApart same (x ∷ xs) = All (λ y. same x y ≡ false) xs × IsApart same xs

  pub IsApart-filter :
      (same : A → A → Bool) (p : A → Bool) (xs : List A)
      → IsApart same xs
      → IsApart same (filter p xs)
  IsApart-filter same p [] h = tt
  IsApart-filter same p (x ∷ xs) h = elim (Bool-cases (p x)) [
    | inl kept ↦ rw kept (All-filter (λ y. same x y ≡ false) p xs h.0, IsApart-filter same p xs h.1)
    | inr dropped ↦ rw dropped (IsApart-filter same p xs h.1)
  ]

  -- No later element is before an earlier one.
  abbrev pub IsStrict : (A → A → Bool) → List A → Type 0
  IsStrict le [] = Unit
  IsStrict le (x ∷ xs) = All (λ y. le y x ≡ false) xs × IsStrict le xs

  pub All-middle {κ} :
      (P : A → Type κ) (before : List A) (x : A) (later : List A)
      → All P (before ++ (x ∷ later))
      → P x
  All-middle P [] x later h = h.0
  All-middle P (y ∷ before) x later h = All-middle P before x later h.1

  filter_unchanged : (p : A → Bool) (xs : List A) → All (λ x. p x ≡ true) xs → filter p xs ≡ xs
  filter_unchanged p [] h = refl
  filter_unchanged p (x ∷ xs) h = rw (h.0, filter_unchanged p xs h.1) refl

  All-not :
      (p : A → Bool) (xs : List A) → All (λ x. p x ≡ false) xs → All (λ x. not (p x) ≡ true) xs
  All-not p [] h = tt
  All-not p (x ∷ xs) h = (ground (arith, h.0), All-not p xs h.1)

module _ {ℓ} {A : Type ℓ} (le : A → A → Bool) (total : (x y : A) → le x y ≡ false → le y x ≡ true)
    (trans : (x y z : A) → le x y ≡ true → le y z ≡ true → le x z ≡ true) where
  -- What is after an element of a strictly sorted list.
  pub filter-IsStrict :
      (before : List A) (x : A) (later : List A)
      → IsStrict le (before ++ (x ∷ later))
      → filter (λ y. not (le y x)) (before ++ (x ∷ later)) ≡ later
  filter-IsStrict [] x later h =
      let same : le x x ≡ true = ground (arith, total x x) in
      rw same (filter_unchanged (λ y. not (le y x)) later (All-not (λ y. le y x) later h.0))
  filter-IsStrict (y ∷ before) x later h =
      let after_y : le x y ≡ false = All-middle (λ z. le z y ≡ false) before x later h.0 in
      let dropped : le y x ≡ true = total x y after_y in
      rw dropped (filter-IsStrict before x later h.1)

  All-below :
      (x y : A) (zs : List A)
      → le x y ≡ true
      → All (λ z. le z y ≡ false) zs
      → All (λ z. le z x ≡ false) zs
  All-below x y [] h k = tt
  All-below x y (z ∷ zs) h k = (ground (arith, trans z x y, h, k.0), All-below x y zs h k.1)

  module _ (same : A → A → Bool)
      (antisymm : (x y : A) → le x y ≡ true → le y x ≡ true → same x y ≡ true) where
    insert_by-IsStrict :
        (x : A) (ys : List A)
        → All (λ y. same x y ≡ false) ys
        → IsStrict le ys
        → IsStrict le (insert_by le x ys)
    unfolding insert_by
    insert_by-IsStrict x [] apart h = (tt, tt)
    insert_by-IsStrict x (y ∷ ys) apart h = elim (Bool-cases (le x y)) [
      | inl first ↦
          let above : le y x ≡ false = ground (arith, antisymm x y, apart.0) in
          rw first ((above, All-below x y ys first h.0), h)
      | inr later ↦ rw later (
        All-insert_by le (λ z. le z y ≡ false) x ys later h.0,
        insert_by-IsStrict x ys apart.1 h.1,
      )
    ]

    pub sort_by-IsStrict : (xs : List A) → IsApart same xs → IsStrict le (sort_by le xs)
    unfolding sort_by
    sort_by-IsStrict [] h = tt
    sort_by-IsStrict (x ∷ xs) h =
        insert_by-IsStrict x (sort_by le xs) (All-sort_by le (λ y. same x y ≡ false) xs h.0)
          (sort_by-IsStrict xs h.1)
