-- ===== src/Projection/Changes.antt =====
-- The changes that a derived projection reports.
use tech_atlas.Prelude.{
  ◌≡◌, refl, Bool, true, false, not, ◌&&◌, Option, none, some, List, [], ◌∷◌, ◌++◌, map, ◌==◌, any,
  filter, length, All, All-append, arith, Bool-cases, Option-cases, inl, inr,
}
use tech_atlas.Prelude.Text.{eq_text}
use tech_atlas.Prelude.Text.Equality.{eq_text_self}
use tech_atlas.Prelude.Sort.{filter-All, All-sort_by}
use tech_atlas.Projection.{
  RuleObservation, CurrentTechnology, TechnologyChange, TechnologyChangeKind, added, removed,
  migrated, state_of, was_current, is_detected, is_absent, additions_of, removals_of, same_category,
  only, replaced_by, migrations, added_change, removed_change, changes_of, change_before, side_is,
  derive_projection,
}

module _ {A : Type 0} where
  All-filter : (P : A → Type 0) (q : A → Bool) (xs : List A) → All P xs → All P (filter q xs)
  All-filter P q [] h = tt
  All-filter P q (x ∷ xs) h = elim (Bool-cases (q x)) [
    | inl kept ↦ rw kept (h.0, All-filter P q xs h.1)
    | inr left ↦ rw left (All-filter P q xs h.1)
  ]

  All-imp : (P Q : A → Type 0) (xs : List A) → ((x : A) → P x → Q x) → All P xs → All Q xs
  All-imp P Q [] f h = tt
  All-imp P Q (x ∷ xs) f h = (f x h.0, All-imp P Q xs f h.1)

  All-map :
      {B : Type 0} (P : B → Type 0) (f : A → B) (xs : List A)
      → All (λ x. P (f x)) xs
      → All P (map f xs)
  All-map P f [] h = tt
  All-map P f (x ∷ xs) h = (h.0, All-map P f xs h.1)

  -- What passes a filter is found in the list.
  filter-found :
      (q : A → Bool) (test : A → A → Bool) (xs : List A)
      → ((x : A) → test x x ≡ true)
      → All (λ x. any (λ y. q y && test x y) xs ≡ true) (filter q xs)
  filter-found q test [] self = tt
  filter-found q test (x ∷ xs) self =
      let later =
        All-imp (λ z. any (λ y. q y && test z y) xs ≡ true)
          (λ z. any (λ y. q y && test z y) (x ∷ xs) ≡ true) (filter q xs) (λ z h. ground arith)
          (filter-found q test xs self) in
      elim (Bool-cases (q x)) [
        | inl kept ↦ rw kept (rw (self x) refl, rw kept at later)
        | inr left ↦ rw left (rw left at later)
      ]

-- A slug that the observations add, and one that they remove.
abbrev pub is_new : List CurrentTechnology → List RuleObservation → CurrentTechnology → Bool
is_new previous observations a =
    any
      (λ o.
        (is_detected o.status && not (was_current previous o))
        && eq_text a.technology_slug o.technology_slug)
      observations

abbrev pub is_gone : List CurrentTechnology → List RuleObservation → CurrentTechnology → Bool
is_gone previous observations r =
    any
      (λ o.
        (is_absent o.status && was_current previous o)
        && eq_text r.technology_slug o.technology_slug)
      observations

-- What a change of a kind stands for.
abbrev pub justified_by :
    List CurrentTechnology
    → List RuleObservation
    → TechnologyChangeKind
    → Option CurrentTechnology
    → Option CurrentTechnology
    → Bool
justified_by previous observations added none (some a) = is_new previous observations a
justified_by previous observations removed (some r) none = is_gone previous observations r
justified_by previous observations migrated (some r) (some a) =
    is_gone previous observations r && is_new previous observations a && same_category a r
justified_by previous observations _ _ _ = false

abbrev pub is_justified : List CurrentTechnology → List RuleObservation → TechnologyChange → Bool
is_justified previous observations c = justified_by previous observations c.kind c.from c.to

only-All :
    (P : CurrentTechnology → Type 0) (xs : List CurrentTechnology) {r : CurrentTechnology}
    → All P xs
    → only xs ≡ some r
    → P r
only-All P [] h e = cc
only-All P (x ∷ []) {r} h e = let same : x ≡ r = ground arith in rw (← same) h.0
only-All P (x ∷ y ∷ xs) h e = cc

module _ (previous : List CurrentTechnology) (observations : List RuleObservation) where
  additions-All :
      All (λ a. is_new previous observations a ≡ true) (additions_of previous observations)
  unfolding additions_of
  additions-All = All-map _ state_of _ (
      filter-found (λ o. is_detected o.status && not (was_current previous o))
        (λ o p. eq_text o.technology_slug p.technology_slug) observations
        (λ o. eq_text_self o.technology_slug))

  removals-All :
      All (λ r. is_gone previous observations r ≡ true) (removals_of previous observations)
  unfolding removals_of
  removals-All = All-map _ state_of _ (
      filter-found (λ o. is_absent o.status && was_current previous o)
        (λ o p. eq_text o.technology_slug p.technology_slug) observations
        (λ o. eq_text_self o.technology_slug))

  replaced_by-All :
      (additions removals : List CurrentTechnology) (a : CurrentTechnology) {r : CurrentTechnology}
      → All (λ x. is_gone previous observations x ≡ true) removals
      → replaced_by additions removals a ≡ some r
      → (is_gone previous observations r ≡ true) × (same_category a r ≡ true)
  unfolding replaced_by
  replaced_by-All additions removals a gone h =
      elim (Bool-cases (length (filter (same_category a) additions) == 1)) [
        | inl one ↦
            let picked = rw one at h in
            (
              only-All _ (filter (same_category a) removals)
                  (All-filter _ (same_category a) removals gone) picked,
              only-All _ (filter (same_category a) removals) (filter-All (same_category a) removals)
                  picked,
            )
        | inr more ↦ absurd (cc (rw more at h))
      ]

  migrations-All :
      (additions removals todo : List CurrentTechnology)
      → All (λ x. is_gone previous observations x ≡ true) removals
      → All (λ x. is_new previous observations x ≡ true) todo
      → All (λ c. is_justified previous observations c ≡ true) (migrations additions removals todo)
  unfolding migrations
  migrations-All additions removals [] gone new = tt
  migrations-All additions removals (a ∷ todo) gone new =
      let rest = migrations-All additions removals todo gone new.1 in
      elim (Option-cases (replaced_by additions removals a)) [
        | inl stays ↦ rw stays rest
        | inr (r, moved) ↦
            let (went, category) = replaced_by-All additions removals a gone moved in
            rw moved (rw (went, new.0, category) refl, rest)
      ]

  -- Every reported change is justified by the observations: an added technology was detected and
  -- was not current, a removed one was current and confirmed absent, and a migration joins one of
  -- each of the same category.
  pub derive_projection-All :
      All
        (λ c. is_justified previous observations c ≡ true)
        (derive_projection previous observations).changes
  unfolding derive_projection changes_of
  derive_projection-All =
      let additions = additions_of previous observations in
      let removals = removals_of previous observations in
      let moves = migrations additions removals additions in
      let fresh = filter (λ a. not (any (λ c. side_is a.technology_slug c.to) moves)) additions in
      let lost = filter (λ r. not (any (λ c. side_is r.technology_slug c.from) moves)) removals in
      All-sort_by change_before _ (changes_of additions removals) (
        All-append _ (moves ++ map added_change fresh) (map removed_change lost)
          (All-append _ moves (map added_change fresh)
            (migrations-All additions removals additions removals-All additions-All)
            (All-map _ added_change fresh (All-filter _ _ additions additions-All)))
          (All-map _ removed_change lost (All-filter _ _ removals removals-All)))
