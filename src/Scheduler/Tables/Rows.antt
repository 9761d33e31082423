-- ===== src/Scheduler/Tables/Rows.antt =====
-- What an UPDATE does to a table, and how many rows of a kind it leaves.
use tech_atlas.Prelude.{
  suc, ◌≤◌, ◌<◌, ◌≡◌, refl, any, Bool, true, false, some, List, [], ◌∷◌, map, arith, if◌then◌else◌,
  All, count, find, Option-cases, inl, inr, Bool-cases,
}
use tech_atlas.Scheduler.Tables.{update_rows}

module _ {ℓ} {A : Type ℓ} where
  abbrev pub changed : (A → Bool) → (A → A) → A → A
  changed chosen change x = if chosen x then change x else x

  -- A successful UPDATE rewrites exactly the chosen rows.
  pub update_rows_lem :
      (check chosen : A → Bool) (change : A → A) (xs ys : List A)
      → update_rows check chosen change xs ≡ some ys
      → ys ≡ map (changed chosen change) xs
  unfolding update_rows
  update_rows_lem check chosen change [] ys h = ground arith
  update_rows_lem check chosen change (x ∷ xs) ys h =
      elim (Option-cases (update_rows check chosen change xs)) [
        | inl stopped ↦ ground arith
        | inr (zs, e) ↦ ground (arith, update_rows_lem check chosen change xs zs e)
      ]

  -- A change that keeps a test keeps the number of rows that pass it.
  pub count-changed_same :
      (p chosen : A → Bool) (change : A → A) (xs : List A)
      → ((x : A) → chosen x ≡ true → p (change x) ≡ p x)
      → count p (map (changed chosen change) xs) ≡ count p xs
  count-changed_same p chosen change [] h = refl
  count-changed_same p chosen change (x ∷ xs) h =
      ground (arith, h x, count-changed_same p chosen change xs h)

  -- A change after which a row fails the test leaves no more rows that pass it.
  pub count-changed-le :
      (p chosen : A → Bool) (change : A → A) (xs : List A)
      → ((x : A) → chosen x ≡ true → p (change x) ≡ false)
      → count p (map (changed chosen change) xs) ≤ count p xs
  count-changed-le p chosen change [] h = omega arith
  count-changed-le p chosen change (x ∷ xs) h =
      ground (arith, h x, count-changed-le p chosen change xs h)

  -- It leaves none if only chosen rows passed.
  pub count-changed_none :
      (p chosen : A → Bool) (change : A → A) (xs : List A)
      → ((x : A) → chosen x ≡ true → p (change x) ≡ false)
      → ((x : A) → p x ≡ true → chosen x ≡ true)
      → count p (map (changed chosen change) xs) ≡ 0
  count-changed_none p chosen change [] h k = refl
  count-changed_none p chosen change (x ∷ xs) h k =
      ground (arith, h x, k x, count-changed_none p chosen change xs h k)

  -- A row that was found, passed the test and was chosen is one row less.
  pub count-changed-lt :
      (p q chosen : A → Bool) (change : A → A) (xs : List A) (a : A)
      → ((x : A) → chosen x ≡ true → p (change x) ≡ false)
      → find q xs ≡ some a
      → p a ≡ true
      → chosen a ≡ true
      → suc (count p (map (changed chosen change) xs)) ≤ count p xs
  count-changed-lt p q chosen change [] a h e pa ca = cc
  count-changed-lt p q chosen change (x ∷ xs) a h e pa ca = elim (Bool-cases (q x)) [
    | inl found ↦
        let same : x ≡ a = ground arith in
        rw same (rw (ca, h a ca, pa) (omega (arith, count-changed-le p chosen change xs h)))
    | inr later ↦ ground (arith, h x, count-changed-lt p q chosen change xs a h)
  ]

  pub count-eq-zero_of_any : (p : A → Bool) (xs : List A) → any p xs ≡ false → count p xs ≡ 0
  count-eq-zero_of_any p [] h = refl
  count-eq-zero_of_any p (x ∷ xs) h = ground (arith, count-eq-zero_of_any p xs)

  pub any-true_of_count : (p : A → Bool) (xs : List A) → 0 < count p xs → any p xs ≡ true
  any-true_of_count p [] h = absurd (omega arith)
  any-true_of_count p (x ∷ xs) h = ground (arith, any-true_of_count p xs)

  pub find-passes : (p : A → Bool) (xs : List A) {a : A} → find p xs ≡ some a → p a ≡ true
  find-passes p [] h = cc
  find-passes p (x ∷ xs) {a} h = ground (arith, find-passes p xs {a = a})

  pub count-pos_of_find :
      (p q : A → Bool) (xs : List A) {a : A} → find q xs ≡ some a → p a ≡ true → 0 < count p xs
  count-pos_of_find p q [] h k = cc
  count-pos_of_find p q (x ∷ xs) {a} h k = ground (arith, count-pos_of_find p q xs {a = a})

  -- A property of the rewritten rows, and of the others, holds of the table.
  pub All-changed {κ} :
      (P : A → Type κ) (chosen : A → Bool) (change : A → A) (xs : List A)
      → ((x : A) → chosen x ≡ true → P (change x))
      → ((x : A) → chosen x ≡ false → P x)
      → All P (map (changed chosen change) xs)
  All-changed P chosen change [] h k = tt
  All-changed P chosen change (x ∷ xs) h k = elim (Bool-cases (chosen x)) [
    | inl yes_row ↦ (rw yes_row (h x yes_row), All-changed P chosen change xs h k)
    | inr no_row ↦ (rw no_row (k x no_row), All-changed P chosen change xs h k)
  ]

  pub any-changed_none :
      (p chosen : A → Bool) (change : A → A) (xs : List A)
      → ((x : A) → chosen x ≡ true → p (change x) ≡ false)
      → ((x : A) → p x ≡ true → chosen x ≡ true)
      → any p (map (changed chosen change) xs) ≡ false
  any-changed_none p chosen change [] h k = refl
  any-changed_none p chosen change (x ∷ xs) h k =
      ground (arith, h x, k x, any-changed_none p chosen change xs h k)

  -- An UPDATE that chooses no row succeeds and changes nothing.
  pub update_rows_none :
      (check chosen : A → Bool) (change : A → A) (xs : List A)
      → any chosen xs ≡ false
      → update_rows check chosen change xs ≡ some xs
  unfolding update_rows
  update_rows_none check chosen change [] h = refl
  update_rows_none check chosen change (x ∷ xs) h =
      ground (arith, update_rows_none check chosen change xs)
