-- ===== src/Projection/Slugs.antt =====
-- The slugs that a derived projection activates and deactivates.
use tech_atlas.Prelude.{
  ◌≤◌, ◌≡◌, refl, ap, sym, ◌∙◌, ltb, Bool, true, false, ◌&&◌, List, [], ◌∷◌, map, any, count,
  filter, All, arith, Bool-cases, inl, inr,
}
use tech_atlas.Prelude.Text.{Text, eq_text}
use tech_atlas.Prelude.Text.Equality.{eq_text→eq}
use tech_atlas.Prelude.Text.Order.{
  text_before, text_before_total, text_before_trans, text_before_antisymm,
}
use tech_atlas.Prelude.Sort.{sort_by, count-sort_by, IsSortedBy, sort_by-IsSortedBy}
use tech_atlas.Projection.{
  RuleObservation, CurrentTechnology, slug_is, state_of, was_current, is_detected, is_absent,
  activations, removals_of, slug_before, dedup_after, dedup_by_slug, derive_projection,
}

-- Equal slugs are equal texts, so a test on a slug does not tell them apart.
slug_is_congr :
    (s : Text) (a b : CurrentTechnology)
    → slug_is a.technology_slug b ≡ true
    → slug_is s a ≡ slug_is s b
slug_is_congr s a b h = rw (eq_text→eq a.technology_slug b.technology_slug h) refl

any-dedup_after :
    (s : Text) (a : CurrentTechnology) (rest : List CurrentTechnology)
    → any (slug_is s) (dedup_after a rest) ≡ any (slug_is s) (a ∷ rest)
unfolding dedup_after
any-dedup_after s a [] = refl
any-dedup_after s a (b ∷ rest) = elim (Bool-cases (slug_is a.technology_slug b)) [
  | inl same ↦ rw (same, any-dedup_after s a rest, slug_is_congr s a b same) (ground arith)
  | inr other ↦ rw (other, any-dedup_after s b rest) refl
]

count-dedup_after-le :
    (p : CurrentTechnology → Bool) (a : CurrentTechnology) (rest : List CurrentTechnology)
    → count p (dedup_after a rest) ≤ count p (a ∷ rest)
unfolding dedup_after
count-dedup_after-le p a [] = omega arith
count-dedup_after-le p a (b ∷ rest) = elim (Bool-cases (slug_is a.technology_slug b)) [
  | inl same ↦ rw same (omega (arith, count-dedup_after-le p a rest))
  | inr other ↦ rw other (omega (arith, count-dedup_after-le p b rest))
]

-- Past a greater slug a smaller one does not come again.
none_later :
    (s : Text) (b : CurrentTechnology) (rest : List CurrentTechnology)
    → text_before s b.technology_slug ≡ true
    → slug_is s b ≡ false
    → All (λ c. slug_before b c ≡ true) rest
    → count (slug_is s) (b ∷ rest) ≡ 0
none_later s b [] below other h = ground arith
none_later s b (c ∷ rest) below other h = elim (Bool-cases (slug_is s c)) [
  | inl same ↦
      let equal = eq_text→eq s c.technology_slug same in
      absurd (cc (text_before_antisymm s b.technology_slug below (rw equal h.0)))
  | inr differs ↦ ground (arith, none_later s b rest below other h.1)
]

-- A deduplicated sorted list has each slug at most once.
count-dedup_after :
    (s : Text) (a : CurrentTechnology) (rest : List CurrentTechnology)
    → IsSortedBy slug_before (a ∷ rest)
    → count (slug_is s) (dedup_after a rest) ≤ 1
unfolding dedup_after
count-dedup_after s a [] h = ground arith
count-dedup_after s a (b ∷ rest) h = elim (Bool-cases (slug_is a.technology_slug b)) [
  | inl same ↦ rw same (count-dedup_after s a rest (h.0.1, h.1.1))
  | inr other ↦ rw other (elim (Bool-cases (slug_is s a)) [
    | inl mine ↦
        let equal = eq_text→eq s a.technology_slug mine in
        let last : count (slug_is s) (b ∷ rest) ≡ 0 =
          none_later s b rest (rw equal h.0.0) (rw equal other) h.1.0 in
        rw mine (omega (arith, count-dedup_after-le (slug_is s) b rest, last))
    | inr theirs ↦ rw theirs (omega (arith, count-dedup_after s b rest h.1))
  ])
]

slug_before_total : (a b : CurrentTechnology) → slug_before a b ≡ false → slug_before b a ≡ true
slug_before_total a b = text_before_total a.technology_slug b.technology_slug

slug_before_trans :
    (a b c : CurrentTechnology)
    → slug_before a b ≡ true
    → slug_before b c ≡ true
    → slug_before a c ≡ true
slug_before_trans a b c = text_before_trans a.technology_slug b.technology_slug c.technology_slug

any-count : {A : Type 0} (p : A → Bool) (xs : List A) → any p xs ≡ ltb 0 (count p xs)
any-count p [] = ground arith
any-count p (x ∷ xs) = ground (arith, any-count p xs)

any-dedup_by_slug :
    (s : Text) (states : List CurrentTechnology)
    → any (slug_is s) (dedup_by_slug states) ≡ any (slug_is s) states
any-dedup_by_slug s [] = refl
any-dedup_by_slug s (a ∷ rest) = any-dedup_after s a rest

count-dedup_by_slug :
    (s : Text) (states : List CurrentTechnology)
    → IsSortedBy slug_before states
    → count (slug_is s) (dedup_by_slug states) ≤ 1
count-dedup_by_slug s [] h = omega arith
count-dedup_by_slug s (a ∷ rest) h = count-dedup_after s a rest h

-- Sorting and deduplicating keeps the set of slugs and leaves each once.
normalised :
    (s : Text) (states : List CurrentTechnology)
    → (any (slug_is s) (dedup_by_slug (sort_by slug_before states)) ≡ any (slug_is s) states)
      × (count (slug_is s) (dedup_by_slug (sort_by slug_before states)) ≤ 1)
normalised s states =
    let sorted = sort_by slug_before states in
    (
      any-dedup_by_slug s sorted
          ∙ (any-count (slug_is s) sorted
              ∙ (ap (ltb 0) (count-sort_by slug_before (slug_is s) states)
                  ∙ sym (any-count (slug_is s) states))),
      count-dedup_by_slug s sorted
          (sort_by-IsSortedBy slug_before slug_before_total slug_before_trans states),
    )

any-map-filter :
    {A B : Type 0} (p : B → Bool) (f : A → B) (q : A → Bool) (xs : List A)
    → any p (map f (filter q xs)) ≡ any (λ x. q x && p (f x)) xs
any-map-filter p f q [] = refl
any-map-filter p f q (x ∷ xs) = elim (Bool-cases (q x)) [
  | inl kept ↦ rw (kept, any-map-filter p f q xs) refl
  | inr left ↦ rw (left, any-map-filter p f q xs) refl
]

-- A slug is activated exactly when an observation of it is detected, and deactivated exactly when
-- an observation of it confirms the absence of a current technology; each list has a slug once at
-- most. An unknown observation does neither.
pub derive_projection-slugs :
    (previous : List CurrentTechnology) (observations : List RuleObservation) (s : Text)
    → (any (slug_is s) (derive_projection previous observations).activate
        ≡ any (λ o. is_detected o.status && eq_text s o.technology_slug) observations)
      × (any (slug_is s) (derive_projection previous observations).deactivate
          ≡ any
              (λ o. (is_absent o.status && was_current previous o) && eq_text s o.technology_slug)
              observations)
      × (count (slug_is s) (derive_projection previous observations).activate ≤ 1)
      × (count (slug_is s) (derive_projection previous observations).deactivate ≤ 1)
unfolding derive_projection activations removals_of
derive_projection-slugs previous observations s =
    let seen = normalised s (activations observations) in
    let gone = normalised s (removals_of previous observations) in
    (
      seen.0 ∙ any-map-filter (slug_is s) state_of (λ o. is_detected o.status) observations,
      gone.0
          ∙ any-map-filter (slug_is s) state_of (λ o. is_absent o.status && was_current previous o)
              observations,
      seen.1,
      gone.1,
    )
