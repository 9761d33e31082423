-- ===== src/Projection/Tests.antt =====
-- The projection theorems at one snapshot: a framework gives way to another of its category.
use tech_atlas.Prelude.{◌≤◌, ◌≡◌, true, List, [], ◌∷◌, ◌&&◌, any, count, All}
use tech_atlas.Prelude.Text.{text, eq_text}
use tech_atlas.Projection.{
  RuleObservation, CurrentTechnology, detected, confirmed_absent, slug_is, is_detected, is_absent,
  was_current, derive_projection,
}
use tech_atlas.Projection.Slugs.{derive_projection-slugs}
use tech_atlas.Projection.Changes.{is_justified, derive_projection-All}

abbrev previous : List CurrentTechnology
previous = record { technology_slug = text "vue"; technology_category_slug = text "ui" } ∷ []

abbrev observations : List RuleObservation
observations =
    record {
      technology_slug = text "vue";
      technology_category_slug = text "ui";
      rule_slug = text "v";
      rule_version = 1;
      status = confirmed_absent;
    }
    ∷ record {
      technology_slug = text "react";
      technology_category_slug = text "ui";
      rule_slug = text "r";
      rule_version = 1;
      status = detected;
    }
    ∷ []

derive_projection-slugs_example :
    (any (slug_is (text "vue")) (derive_projection previous observations).activate
      ≡ any (λ o. is_detected o.status && eq_text (text "vue") o.technology_slug) observations)
    × (any (slug_is (text "vue")) (derive_projection previous observations).deactivate
        ≡ any
            (λ o.
              (is_absent o.status && was_current previous o)
              && eq_text (text "vue") o.technology_slug)
            observations)
    × (count (slug_is (text "vue")) (derive_projection previous observations).activate ≤ 1)
    × (count (slug_is (text "vue")) (derive_projection previous observations).deactivate ≤ 1)
derive_projection-slugs_example = derive_projection-slugs previous observations (text "vue")

derive_projection-All_example :
    All
      (λ c. is_justified previous observations c ≡ true)
      (derive_projection previous observations).changes
derive_projection-All_example = derive_projection-All previous observations
