-- ===== src/Detector/Tests.antt =====
-- Parsing and detection at one response: a header that names Next.js, and a cookie.
use tech_atlas.Prelude.{
  ℕ, ◌≡◌, ◌≤◌, refl, Option, none, some, List, [], ◌∷◌, All, map, min, leb, if◌then◌else◌, ok, all,
}
use tech_atlas.Prelude.Sort.{IsSortedBy}
use tech_atlas.Prelude.Text.{Text, text, eq_text}
use tech_atlas.Parser.{
  ArtifactBundle, captured, unavailable, not_captured, HtmlDocument, ParsedArtifacts, header_source,
  available,
}
use tech_atlas.Parser.Extract.{parse}
use tech_atlas.Parser.Soundness.{AreSound}
use tech_atlas.Parser.Sources.{parse-AreSound}
use tech_atlas.Detection.{header, deterministic_rule}
use tech_atlas.Projection.{detected}
use tech_atlas.Detector.{
  detection_threshold, max_confidence, detection_before, DetectionEvaluation, RuleEvaluation,
  is_captured,
}
use tech_atlas.Detector.Catalogue.{initial_rules, evaluate}
use tech_atlas.Detector.Signals.{JsonLibrary, Regex, ActiveDetectionRule, ActiveSignal}
use tech_atlas.Detector.Active.{
  evaluate_active_rule, match_active_signals, read_signal, match_active_signal,
  extract_dynamic_version, extract_version, find_capture, version_of,
}
use tech_atlas.Detector.{
  add_matches, contains_ignore_case, push_each, to_detection_evidence, parse_identity, detect,
  detection_of, status_of,
}
use tech_atlas.Detector.Signals.{matches_active, matches_dynamic, parse_source}
use tech_atlas.Detection.{
  new_evidence, bounded_required, eq_evidence, evidence_before, new_detection, valid_slug,
}
use tech_atlas.Parser.{availability_of}
use tech_atlas.Prelude.Dedup.{dedup_from, dedup_neighbours}
use tech_atlas.Prelude.Sort.{insert_by, sort_by}
use tech_atlas.Prelude.Text.Order.{text_before}
use tech_atlas.Prelude.Text.{ends_with, trim, to_ascii_lowercase, contains, starts_with, utf8_len}
use tech_atlas.Detector.Scores.{weight_of}
use tech_atlas.Detector.Verdicts.{verdict, certainty}
use tech_atlas.Detector.Initial.{expected_status, evaluate_total}
use tech_atlas.Detector.Definitions.{read_rule, active_hits, evaluate_active_rule-verdict}

abbrev one_script : List ℕ → Option HtmlDocument
one_script bytes = some (record {
  titles = text " A  page " ∷ [];
  metas = [];
  scripts = some (text "https://js.stripe.com/v3/") ∷ none ∷ [];
})

abbrev bundle : ArtifactBundle
bundle = record {
  html = captured [];
  headers =
      captured
        ((text "Set-Cookie", text "id=1") ∷ (text "X-Powered-By", text " Next.js  14 ") ∷ []);
  dns = unavailable not_captured;
  tls = unavailable not_captured;
}

parse-AreSound_example :
    AreSound (parse one_script bundle).availability (parse one_script bundle).evidence
parse-AreSound_example = parse-AreSound one_script bundle

abbrev page : ParsedArtifacts
page = record {
  evidence =
      record { source = header_source; key = text "x-powered-by"; value = text "Next.js 14" } ∷ [];
  availability = (header_source, available) ∷ [];
}

evaluate_total_example :
    (result : DetectionEvaluation) × (evaluate page ≡ ok result)
    × (map (λ o. o.status) result.observations ≡ map (expected_status page) initial_rules)
    × IsSortedBy detection_before result.detections
    × All
        (λ d. (detection_threshold ≤ d.confidence) × (d.confidence ≤ max_confidence))
        result.detections
unfolding tech_atlas.Detector.to_detection_evidence tech_atlas.Detection.new_evidence
    tech_atlas.Detection.bounded_required tech_atlas.Prelude.Text.trim
evaluate_total_example = evaluate_total page (refl, tt)

-- A small JSON: arrays have one item, and a missing key reads as null.
data Json : Type 0 where
  null : Json
  string : Text → Json
  number : ℕ → Json
  one_item : Json → Json
  object : (Text → Json) → Json

abbrev member : List (Text × Json) → Text → Json
member [] key = null
member (entry ∷ rest) key = if eq_text entry.0 key then entry.1 else member rest key

abbrev json : JsonLibrary Json (Text → Json)
json = record {
  as_object = λ v. elim v [ object entries ↦ some entries | _ ↦ none ];
  get = λ entries key. elim (entries key) [ null ↦ none | v ↦ some v ];
  as_str = λ v. elim v [ string s ↦ some s | _ ↦ none ];
  as_u64 = λ v. elim v [ number n ↦ some n | _ ↦ none ];
  as_array = λ v. elim v [ one_item w ↦ some (w ∷ []) | _ ↦ none ];
}

abbrev no_regex : Text → Option Regex
no_regex pattern = none

abbrev header_signal : List (Text × Json)
header_signal =
    (text "source", string (text "header"))
    ∷ (text "key", string (text "x-powered-by"))
    ∷ (text "match", string (text "contains_ignore_case"))
    ∷ (text "value", string (text "next.js"))
    ∷ (text "weight", number 90)
    ∷ []

abbrev nextjs : ActiveDetectionRule Json
nextjs = record {
  technology_slug = text "nextjs";
  technology_category_slug = text "framework";
  rule_slug = text "nextjs-v1";
  version = 2;
  definition = object (
      member (
        (text "threshold", number 70)
        ∷ (text "signals", one_item (object (member header_signal)))
        ∷ []));
}

abbrev found : RuleEvaluation
found = record {
  detection = some (record {
    technology_slug = text "nextjs";
    technology_category_slug = text "framework";
    rule_slug = text "nextjs-v1";
    rule_version = 2;
    confidence = 90;
    method = deterministic_rule;
    evidence =
        record { source = header; key = text "x-powered-by"; value = text "Next.js 14" } ∷ [];
  });
  observation = record {
    technology_slug = text "nextjs";
    technology_category_slug = text "framework";
    rule_slug = text "nextjs-v1";
    rule_version = 2;
    status = detected;
  };
  technology_version = none;
}

evaluated : evaluate_active_rule json no_regex nextjs page ≡ ok found
unfolding evaluate_active_rule match_active_signals read_signal match_active_signal add_matches
    matches_active matches_dynamic contains_ignore_case push_each to_detection_evidence new_evidence
    bounded_required parse_identity eq_evidence evidence_before new_detection valid_slug
    extract_dynamic_version extract_version find_capture version_of parse_source detect detection_of
    status_of availability_of dedup_from dedup_neighbours insert_by sort_by text_before ends_with
    eq_text trim to_ascii_lowercase contains starts_with utf8_len
evaluated = refl

evaluate_active_rule-verdict_example :
    (threshold : ℕ) × (ss : List ActiveSignal) × (read_rule json nextjs ≡ ok (threshold, ss))
    × (found.observation.status
        ≡ verdict threshold (active_hits json page ss) (all (λ s. is_captured page s.source) ss))
    × (certainty found.detection ≡ (
        let weight = min 100 (weight_of (active_hits json page ss)) in
        if leb threshold weight then some weight else none))
evaluate_active_rule-verdict_example =
    evaluate_active_rule-verdict json no_regex nextjs page found evaluated
