-- ===== src/Detection.antt =====
-- crates/models/src/detection.rs: slugs, versions, confidences, evidence and detections. A newtype
-- is its value: a slug its text, a version and a confidence their number.
use tech_atlas.Prelude.{
  ℕ, Bool, not, ◌&&◌, ◌||◌, Option, none, some, List, ◌==◌, ltb, leb, if◌then◌else◌, all, length,
  is_empty_list, Outcome, ok, err, ◌>>=◌, ok_or,
}
use tech_atlas.Prelude.Text.{Text, text, trim, is_empty, utf8_len, starts_with, ends_with, eq_text}
use tech_atlas.Prelude.Text.Order.{text_before}
use tech_atlas.Prelude.Sort.{sort_by}
use tech_atlas.Prelude.Dedup.{dedup_neighbours}

pub data DetectionError : Type 0 where
  invalid_technology_slug invalid_technology_category_slug invalid_rule_slug invalid_rule_version
        invalid_confidence invalid_evidence_key invalid_evidence_value missing_evidence :
      DetectionError

abbrev pub max_slug_length : ℕ
max_slug_length = 64

abbrev pub max_evidence_key_length : ℕ
max_evidence_key_length = 128

abbrev pub max_evidence_value_length : ℕ
max_evidence_value_length = 2048

-- A code point whose one byte is accepted; every byte of a wider code point is refused.
abbrev pub is_slug_byte : ℕ → Bool
is_slug_byte c = (leb 97 c && leb c 122) || (leb 48 c && leb c 57) || c == 45

unfoldable pub valid_slug : Text → Option Text
valid_slug value =
    let trimmed = trim value in
    if is_empty trimmed
      || ltb max_slug_length (utf8_len trimmed)
      || starts_with trimmed (text "-")
      || ends_with 45 trimmed
      || not (all is_slug_byte trimmed)
    then none
    else some trimmed

abbrev pub parse_technology_slug : Text → Outcome DetectionError Text
parse_technology_slug value = ok_or (valid_slug value) invalid_technology_slug

abbrev pub parse_technology_category_slug : Text → Outcome DetectionError Text
parse_technology_category_slug value = ok_or (valid_slug value) invalid_technology_category_slug

abbrev pub parse_rule_slug : Text → Outcome DetectionError Text
parse_rule_slug value = ok_or (valid_slug value) invalid_rule_slug

abbrev pub new_rule_version : ℕ → Outcome DetectionError ℕ
new_rule_version value = if value == 0 then err invalid_rule_version else ok value

abbrev pub new_confidence : ℕ → Outcome DetectionError ℕ
new_confidence value = if ltb 100 value then err invalid_confidence else ok value

pub data DetectionMethod : Type 0 where
  deterministic_rule : DetectionMethod

pub data DetectionEvidenceSource : Type 0 where
  html header script dns tls : DetectionEvidenceSource

-- The derived order of the source's variants.
abbrev pub source_rank : DetectionEvidenceSource → ℕ
source_rank html = 0
source_rank header = 1
source_rank script = 2
source_rank dns = 3
source_rank tls = 4

pub record DetectionEvidence : Type 0 where
  pub source : DetectionEvidenceSource
  pub key : Text
  pub value : Text

-- The derived order and equality of evidence: by source, key and value.
unfoldable pub evidence_before : DetectionEvidence → DetectionEvidence → Bool
evidence_before a b =
    ltb (source_rank a.source) (source_rank b.source)
    || (source_rank a.source == source_rank b.source
        && (if eq_text a.key b.key then text_before a.value b.value else text_before a.key b.key))

unfoldable pub eq_evidence : DetectionEvidence → DetectionEvidence → Bool
eq_evidence a b =
    source_rank a.source == source_rank b.source && eq_text a.key b.key && eq_text a.value b.value

unfoldable pub bounded_required : Text → ℕ → Option Text
bounded_required value limit =
    let trimmed = trim value in
    if not (is_empty trimmed) && leb (length trimmed) limit then some trimmed else none

unfoldable pub new_evidence :
    DetectionEvidenceSource → Text → Text → Outcome DetectionError DetectionEvidence
new_evidence source key value = do
  bounded_key ← ok_or (bounded_required key max_evidence_key_length) invalid_evidence_key
  bounded_value ← ok_or (bounded_required value max_evidence_value_length) invalid_evidence_value
  ok (record { source = source; key = bounded_key; value = bounded_value })

pub record Detection : Type 0 where
  pub technology_slug : Text
  pub technology_category_slug : Text
  pub rule_slug : Text
  pub rule_version : ℕ
  pub confidence : ℕ
  pub method : DetectionMethod
  pub evidence : List DetectionEvidence

unfoldable pub new_detection :
    Text
    → Text
    → Text
    → ℕ
    → ℕ
    → DetectionMethod
    → List DetectionEvidence
    → Outcome DetectionError Detection
new_detection slug category rule version certainty way found =
    let kept = dedup_neighbours eq_evidence (sort_by evidence_before found) in
    if is_empty_list kept
    then err missing_evidence
    else ok (record {
      technology_slug = slug;
      technology_category_slug = category;
      rule_slug = rule;
      rule_version = version;
      confidence = certainty;
      method = way;
      evidence = kept;
    })
