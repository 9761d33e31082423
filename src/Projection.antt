-- ===== src/Projection.antt =====
-- crates/models/src/projection.rs: the next current technologies of a domain and their changes,
-- derived from the observations of one snapshot. A slug is its text.
pub mod Slugs
pub mod Changes
mod Tests
use tech_atlas.Prelude.{
  ℕ, Bool, true, false, not, ◌&&◌, ◌||◌, Option, none, some, List, [], ◌∷◌, ◌++◌, map, ◌==◌,
  if◌then◌else◌, any, filter, length, String,
}
use tech_atlas.Prelude.Text.{Text, text, eq_text}
use tech_atlas.Prelude.Text.Order.{text_before}
use tech_atlas.Prelude.Sort.{sort_by}

pub data RuleObservationStatus : Type 0 where
  detected confirmed_absent unknown : RuleObservationStatus

pub record RuleObservation : Type 0 where
  pub technology_slug : Text
  pub technology_category_slug : Text
  pub rule_slug : Text
  pub rule_version : ℕ
  pub status : RuleObservationStatus

pub record CurrentTechnology : Type 0 where
  pub technology_slug : Text
  pub technology_category_slug : Text

pub data TechnologyChangeKind : Type 0 where
  added removed migrated : TechnologyChangeKind

abbrev pub kind_text : TechnologyChangeKind → Text
kind_text added = text "added"
kind_text removed = text "removed"
kind_text migrated = text "migrated"

pub record TechnologyChange : Type 0 where
  pub kind : TechnologyChangeKind
  pub from : Option CurrentTechnology
  pub to : Option CurrentTechnology

pub record ProjectionTransition : Type 0 where
  pub activate : List CurrentTechnology
  pub deactivate : List CurrentTechnology
  pub changes : List TechnologyChange

abbrev pub slug_is : Text → CurrentTechnology → Bool
slug_is slug state = eq_text slug state.technology_slug

abbrev pub state_of : RuleObservation → CurrentTechnology
state_of o = record {
  technology_slug = o.technology_slug;
  technology_category_slug = o.technology_category_slug;
}

-- `previous_by_slug.contains_key`
abbrev pub was_current : List CurrentTechnology → RuleObservation → Bool
was_current previous o = any (slug_is o.technology_slug) previous

abbrev pub is_detected : RuleObservationStatus → Bool
is_detected detected = true
is_detected _ = false

abbrev pub is_absent : RuleObservationStatus → Bool
is_absent confirmed_absent = true
is_absent _ = false

-- What the loop over the observations pushes, in their order: the detected states, those of them
-- that are new, and the confirmed absences of current technologies (`removals` and `deactivate`).
unfoldable pub activations : List RuleObservation → List CurrentTechnology
activations observations = map state_of (filter (λ o. is_detected o.status) observations)

unfoldable pub additions_of : List CurrentTechnology → List RuleObservation → List CurrentTechnology
additions_of previous observations =
    map state_of (filter (λ o. is_detected o.status && not (was_current previous o)) observations)

unfoldable pub removals_of : List CurrentTechnology → List RuleObservation → List CurrentTechnology
removals_of previous observations =
    map state_of (filter (λ o. is_absent o.status && was_current previous o) observations)

abbrev pub same_category : CurrentTechnology → CurrentTechnology → Bool
same_category a b = eq_text a.technology_category_slug b.technology_category_slug

-- The removal that an addition replaces: the only removal of its category, where it is the only
-- addition of its category.
abbrev pub only : List CurrentTechnology → Option CurrentTechnology
only (r ∷ []) = some r
only _ = none

unfoldable pub replaced_by :
    List CurrentTechnology → List CurrentTechnology → CurrentTechnology → Option CurrentTechnology
replaced_by additions removals addition =
    if length (filter (same_category addition) additions) == 1
    then only (filter (same_category addition) removals)
    else none

abbrev pub push_migrated :
    CurrentTechnology → Option CurrentTechnology → List TechnologyChange → List TechnologyChange
push_migrated addition none changes = changes
push_migrated addition (some removal) changes =
    record { kind = migrated; from = some removal; to = some addition } ∷ changes

-- The first loop over the additions, for those in `todo`.
unfoldable pub migrations :
    List CurrentTechnology → List CurrentTechnology → List CurrentTechnology → List TechnologyChange
migrations additions removals [] = []
migrations additions removals (a ∷ todo) =
    push_migrated a (replaced_by additions removals a) (migrations additions removals todo)

-- `migrated_additions.contains` and `migrated_removals.contains`, read off the changes.
abbrev pub side_is : Text → Option CurrentTechnology → Bool
side_is slug none = false
side_is slug (some state) = slug_is slug state

abbrev pub added_change : CurrentTechnology → TechnologyChange
added_change a = record { kind = added; from = none; to = some a }

abbrev pub removed_change : CurrentTechnology → TechnologyChange
removed_change r = record { kind = removed; from = some r; to = none }

unfoldable pub changes_of : List CurrentTechnology → List CurrentTechnology → List TechnologyChange
changes_of additions removals =
    let moves = migrations additions removals additions in
    moves
    ++ map added_change
        (filter (λ a. not (any (λ c. side_is a.technology_slug c.to) moves)) additions)
    ++ map removed_change
        (filter (λ r. not (any (λ c. side_is r.technology_slug c.from) moves)) removals)

-- `to.or(from)`, and the order of `Option<&str>`.
abbrev pub slug_of_change : TechnologyChange → Option Text
slug_of_change c = elim c.to [
  | some state ↦ some state.technology_slug
  | none ↦ elim c.from [ some state ↦ some state.technology_slug | none ↦ none ]
]

abbrev pub option_before : Option Text → Option Text → Bool
option_before none t = true
option_before (some s) none = false
option_before (some s) (some t) = text_before s t

unfoldable pub change_before : TechnologyChange → TechnologyChange → Bool
change_before c d =
    if eq_text (kind_text c.kind) (kind_text d.kind)
    then option_before (slug_of_change c) (slug_of_change d)
    else text_before (kind_text c.kind) (kind_text d.kind)

abbrev pub slug_before : CurrentTechnology → CurrentTechnology → Bool
slug_before a b = text_before a.technology_slug b.technology_slug

-- `dedup_by` on the slugs: of equal neighbours the first stays. `a` is the last one kept.
unfoldable pub dedup_after : CurrentTechnology → List CurrentTechnology → List CurrentTechnology
dedup_after a [] = a ∷ []
dedup_after a (b ∷ rest) =
    let without = dedup_after a rest in
    let with_b = a ∷ dedup_after b rest in if slug_is a.technology_slug b then without else with_b

abbrev pub dedup_by_slug : List CurrentTechnology → List CurrentTechnology
dedup_by_slug [] = []
dedup_by_slug (a ∷ rest) = dedup_after a rest

unfoldable pub derive_projection :
    List CurrentTechnology → List RuleObservation → ProjectionTransition
derive_projection previous observations = record {
  activate = dedup_by_slug (sort_by slug_before (activations observations));
  deactivate = dedup_by_slug (sort_by slug_before (removals_of previous observations));
  changes =
      sort_by change_before
        (changes_of (additions_of previous observations) (removals_of previous observations));
}
