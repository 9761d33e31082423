-- ===== src/Detector.antt =====
-- crates/detector/src/lib.rs: the evaluation of detection rules on parsed artifacts. JSON values
-- (serde_json) and regular expressions (regex) are read through the functions the source calls.
pub mod Catalogue
pub mod Signals
pub mod Active
mod Scores
mod Verdicts
mod Initial
mod Definitions
mod Tests
use tech_atlas.Prelude.{
  ℕ, Bool, true, false, not, ◌&&◌, Option, none, some, is_some, List, [], ◌∷◌, ◌++◌, ◌+◌, ◌==◌, min,
  leb, if◌then◌else◌, filter, map, is_empty_list, Outcome, ok, err, ◌>>=◌, map_err, String,
}
use tech_atlas.Prelude.Text.{
  Text, text, is_empty, eq_ignore_ascii_case, to_ascii_lowercase, contains,
}
use tech_atlas.Prelude.Text.Order.{text_before}
use tech_atlas.Prelude.Sort.{sort_by}
use tech_atlas.Parser.{
  ArtifactSource, html_source, header_source, script_source, dns_source, tls_source, rank_of,
  NormalizedEvidence, SignalAvailability, available, unavailable_signal, ParsedArtifacts,
  availability_of,
}
use tech_atlas.Detection.{
  DetectionError, DetectionEvidenceSource, html, header, script, dns, tls, DetectionEvidence,
  new_evidence, Detection, new_detection, new_confidence, new_rule_version, parse_technology_slug,
  parse_technology_category_slug, parse_rule_slug, deterministic_rule,
}
use tech_atlas.Projection.{
  RuleObservation, RuleObservationStatus, detected, confirmed_absent, unknown,
}

pub data DetectorError : Type 0 where
  invalid_rule_definition : DetectorError
  invalid_detection : DetectionError → DetectorError

abbrev pub detection_threshold : ℕ
detection_threshold = 70

abbrev pub max_confidence : ℕ
max_confidence = 100

-- `confidence.saturating_add(weight).min(MAX_CONFIDENCE)` on u8
abbrev pub raise : ℕ → ℕ → ℕ
raise confidence weight = min (min (confidence + weight) 255) max_confidence

abbrev pub evidence_source : ArtifactSource → DetectionEvidenceSource
evidence_source html_source = html
evidence_source header_source = header
evidence_source script_source = script
evidence_source dns_source = dns
evidence_source tls_source = tls

unfoldable pub to_detection_evidence : NormalizedEvidence → Outcome DetectorError DetectionEvidence
to_detection_evidence e =
    map_err invalid_detection (new_evidence (evidence_source e.source) e.key e.value)

-- The loop over the matches of a signal: its items are appended, or the first error ends it.
unfoldable pub push_each :
    List NormalizedEvidence
    → List DetectionEvidence
    → Outcome DetectorError (List DetectionEvidence)
push_each [] found = ok found
push_each (e ∷ rest) found = do
  evidence ← to_detection_evidence e
  push_each rest (found ++ (evidence ∷ []))

-- `confidence` and `matched_evidence`, which the loop over the signals changes.
pub record Score : Type 0 where
  pub confidence : ℕ
  pub matched_evidence : List DetectionEvidence

abbrev pub no_score : Score
no_score = record { confidence = 0; matched_evidence = [] }

-- One signal's matches: none leaves the score as it is.
unfoldable pub add_matches : ℕ → List NormalizedEvidence → Score → Outcome DetectorError Score
add_matches weight [] score = ok score
add_matches weight (e ∷ rest) score = do
  found ← push_each (e ∷ rest) score.matched_evidence
  ok (record { confidence = raise score.confidence weight; matched_evidence = found })

abbrev pub is_captured : ParsedArtifacts → ArtifactSource → Bool
is_captured parsed source = elim (availability_of parsed.availability source) [
  | available ↦ true
  | unavailable_signal reason ↦ false
]

unfoldable pub contains_ignore_case : Text → Text → Bool
contains_ignore_case value expected =
    contains (to_ascii_lowercase value) (to_ascii_lowercase expected)

-- `RuleEvaluation`, `DetectionEvaluation`
pub record RuleEvaluation : Type 0 where
  pub detection : Option Detection
  pub observation : RuleObservation
  pub technology_version : Option Text

pub record DetectionEvaluation : Type 0 where
  pub detections : List Detection
  pub observations : List RuleObservation

-- The identity of a rule, parsed in the source's order.
pub record RuleIdentity : Type 0 where
  pub technology_slug : Text
  pub technology_category_slug : Text
  pub rule_slug : Text
  pub rule_version : ℕ

unfoldable pub parse_identity : Text → Text → Text → ℕ → Outcome DetectorError RuleIdentity
parse_identity slug category rule version = do
  technology ← map_err invalid_detection (parse_technology_slug slug)
  of_category ← map_err invalid_detection (parse_technology_category_slug category)
  of_rule ← map_err invalid_detection (parse_rule_slug rule)
  checked ← map_err invalid_detection (new_rule_version version)
  ok (record {
    technology_slug = technology;
    technology_category_slug = of_category;
    rule_slug = of_rule;
    rule_version = checked;
  })

unfoldable pub detect : RuleIdentity → Score → Outcome DetectorError Detection
detect identity score = do
  checked ← map_err invalid_detection (new_confidence score.confidence)
  map_err invalid_detection (
      new_detection identity.technology_slug identity.technology_category_slug identity.rule_slug
        identity.rule_version checked deterministic_rule score.matched_evidence)

abbrev pub some_detection : Detection → Outcome DetectorError (Option Detection)
some_detection d = ok (some d)

unfoldable pub detection_of : ℕ → RuleIdentity → Score → Outcome DetectorError (Option Detection)
detection_of threshold identity score =
    if leb threshold score.confidence then detect identity score >>= some_detection else ok none

unfoldable pub status_of : Option Detection → Score → Bool → RuleObservationStatus
status_of (some d) score complete_coverage = detected
status_of none score complete_coverage =
    if is_empty_list score.matched_evidence && complete_coverage then confirmed_absent else unknown

abbrev pub observation_of : RuleIdentity → RuleObservationStatus → RuleObservation
observation_of identity verdict = record {
  technology_slug = identity.technology_slug;
  technology_category_slug = identity.technology_category_slug;
  rule_slug = identity.rule_slug;
  rule_version = identity.rule_version;
  status = verdict;
}

-- `filter_map`, and the order of the detections.
abbrev pub push_detection : Option Detection → List Detection → List Detection
push_detection none later = later
push_detection (some d) later = d ∷ later

unfoldable pub detections_of : List RuleEvaluation → List Detection
detections_of [] = []
detections_of (e ∷ rest) = push_detection e.detection (detections_of rest)

unfoldable pub detection_before : Detection → Detection → Bool
detection_before a b = text_before a.technology_slug b.technology_slug

unfoldable pub evaluation_of : List RuleEvaluation → DetectionEvaluation
evaluation_of evaluations = record {
  detections = sort_by detection_before (detections_of evaluations);
  observations = map (λ e. e.observation) evaluations;
}
