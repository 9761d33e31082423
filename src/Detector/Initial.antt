-- ===== src/Detector/Initial.antt =====
-- The catalogue of the program: its rules are valid, so evaluation answers on bounded evidence.
use tech_atlas.Prelude.{
  ℕ, Bool, true, false, not, ◌&&◌, ◌≡◌, ◌≤◌, refl, ◌∙◌, Option, none, some, List, [], ◌∷◌, ◌==◌,
  min, leb, if◌then◌else◌, All, map, filter, all, Outcome, ok, err, is_ok, ◌>>=◌, >>=-cong,
  is_ok-eq-ok, arith, Bool-cases, inl, inr,
}
use tech_atlas.Prelude.Sort.{IsSortedBy, All-sort_by, sort_by-IsSortedBy}
use tech_atlas.Prelude.Text.Order.{text_before_total, text_before_trans}
use tech_atlas.Parser.{NormalizedEvidence, ParsedArtifacts}
use tech_atlas.Detection.{Detection}
use tech_atlas.Projection.{RuleObservationStatus}
use tech_atlas.Detector.{
  Score, no_score, push_detection, add_matches, detection_threshold, max_confidence, status_of,
  observation_of, RuleEvaluation, parse_identity, is_captured, DetectionEvaluation, evaluation_of,
  detections_of, detection_before,
}
use tech_atlas.Detector.Catalogue.{
  SignalDefinition, RuleDefinition, matches, match_signals, evaluate_rule, evaluate_each, evaluate,
  initial_rules,
}
use tech_atlas.Detector.Scores.{
  Hit, add_all, fits, add_all-IsScoreOf, add_all_total, any_hit-weight_of,
}
use tech_atlas.Detector.Verdicts.{
  verdict, certainty, detection_of-certainty, detection_of_total, status_of-verdict,
}

-- A rule with slugs and a version that parse, and a positive threshold.
abbrev IsValid : RuleDefinition → Type 0
IsValid rule =
    (is_ok (
        parse_identity rule.technology_slug rule.technology_category_slug rule.rule_slug
          rule.version)
      ≡ true)
    × (rule.threshold ≡ detection_threshold)

abbrev IsSure : Detection → Type 0
IsSure d = (detection_threshold ≤ d.confidence) × (d.confidence ≤ max_confidence)

module _ (parsed : ParsedArtifacts) where
  abbrev pub hits_of : List SignalDefinition → List Hit
  hits_of signals = map (λ s. (s.weight, filter (matches s) parsed.evidence)) signals

  -- The status of a rule by the weights of its signals.
  abbrev pub expected_status : RuleDefinition → RuleObservationStatus
  expected_status rule =
      verdict rule.threshold (hits_of rule.signals)
        (all (λ s. is_captured parsed s.source) rule.signals)

  match_signals-add_all :
      (signals : List SignalDefinition) (score : Score)
      → match_signals parsed signals score ≡ add_all (hits_of signals) score
  unfolding match_signals add_all
  match_signals-add_all [] score = refl
  match_signals-add_all (s ∷ rest) score =
      >>=-cong (add_matches s.weight (filter (matches s) parsed.evidence) score) _ _
        λ raised. match_signals-add_all rest raised

  abbrev IsConfident : Option Detection → Type 0
  IsConfident none = Unit
  IsConfident (some d) = (detection_threshold ≤ d.confidence) × (d.confidence ≤ max_confidence)

  module _ (bounded : All (λ e. fits e ≡ true) parsed.evidence) where
    filter-fits :
        (s : SignalDefinition) (items : List NormalizedEvidence)
        → All (λ e. fits e ≡ true) items
        → All (λ e. fits e ≡ true) (filter (matches s) items)
    filter-fits s [] h = tt
    filter-fits s (e ∷ rest) h = elim (Bool-cases (matches s e)) [
      | inl kept ↦ rw kept (h.0, filter-fits s rest h.1)
      | inr dropped ↦ rw dropped (filter-fits s rest h.1)
    ]

    hits_of-fits :
        (signals : List SignalDefinition)
        → All (λ hit. All (λ e. fits e ≡ true) hit.1) (hits_of signals)
    hits_of-fits [] = tt
    hits_of-fits (s ∷ rest) = (filter-fits s parsed.evidence bounded, hits_of-fits rest)

    certainty-IsConfident :
        (threshold : ℕ) (found : Option Detection) (confidence : ℕ)
        → certainty found ≡ (if leb threshold confidence then some confidence else none)
        → threshold ≡ detection_threshold
        → confidence ≤ max_confidence
        → IsConfident found
    certainty-IsConfident threshold none confidence h k small = tt
    certainty-IsConfident threshold (some d) confidence h k small =
        elim (Bool-cases (leb threshold confidence)) [
          | inl enough ↦
              let same : d.confidence ≡ confidence = ground (arith, rw enough at h) in ground arith
          | inr short ↦ absurd (cc (rw short at h))
        ]

    evaluate_rule_total :
        (rule : RuleDefinition)
        → IsValid rule
        → (e : RuleEvaluation) × (evaluate_rule rule parsed ≡ ok e)
          × (e.observation.status ≡ expected_status rule)
          × IsConfident e.detection
    unfolding evaluate_rule
    evaluate_rule_total rule valid =
        let (score, scored) =
          add_all_total (hits_of rule.signals) no_score (hits_of-fits rule.signals) in
        let exact = add_all-IsScoreOf (hits_of rule.signals) no_score score (omega arith) scored in
        let (identity, named) =
          is_ok-eq-ok
            (parse_identity rule.technology_slug rule.technology_category_slug rule.rule_slug
              rule.version)
            valid.0 in
        let (found, concluded) =
          detection_of_total rule.threshold identity score (omega (arith, exact.capped)) λ enough.
            ground (arith, exact.emptied, any_hit-weight_of (hits_of rule.signals), exact.capped) in
        let certain = detection_of-certainty rule.threshold identity score found concluded in
        (
          record {
            detection = found;
            observation =
                observation_of identity
                  (status_of found score (all (λ s. is_captured parsed s.source) rule.signals));
            technology_version = none;
          },
          rw (match_signals-add_all rule.signals no_score, scored, named, concluded) refl,
          status_of-verdict rule.threshold (hits_of rule.signals)
              (all (λ s. is_captured parsed s.source) rule.signals) score found exact certain,
          certainty-IsConfident rule.threshold found score.confidence certain valid.1
              (omega (arith, exact.capped)),
        )

    abbrev AllConfident : List RuleEvaluation → Type 0
    AllConfident = All (λ e. IsConfident e.detection)

    evaluate_each_total :
        (rules : List RuleDefinition)
        → All IsValid rules
        → (es : List RuleEvaluation) × (evaluate_each rules parsed ≡ ok es)
          × (map (λ e. e.observation.status) es ≡ map expected_status rules)
          × AllConfident es
    unfolding evaluate_each
    evaluate_each_total [] valid = ([], refl, refl, tt)
    evaluate_each_total (rule ∷ rest) valid =
        let (e, first, same, sure) = evaluate_rule_total rule valid.0 in
        let (es, later, all_same, all_sure) = evaluate_each_total rest valid.1 in
        (e ∷ es, rw (first, later) refl, rw (same, all_same) refl, (sure, all_sure))

  push_detection-IsSure :
      (found : Option Detection) (later : List Detection)
      → IsConfident found
      → All IsSure later
      → All IsSure (push_detection found later)
  push_detection-IsSure none later h k = k
  push_detection-IsSure (some d) later h k = (h, k)

  detections_of-IsSure :
      (es : List RuleEvaluation)
      → All (λ e. IsConfident e.detection) es
      → All IsSure (detections_of es)
  unfolding detections_of
  detections_of-IsSure [] h = tt
  detections_of-IsSure (e ∷ rest) h =
      push_detection-IsSure e.detection (detections_of rest) h.0 (detections_of-IsSure rest h.1)

statuses_of :
    (es : List RuleEvaluation)
    → map (λ o. o.status) (map (λ e. e.observation) es) ≡ map (λ e. e.observation.status) es
statuses_of [] = refl
statuses_of (e ∷ rest) = rw (statuses_of rest) refl

initial_rules-IsValid : All IsValid initial_rules
unfolding initial_rules parse_identity tech_atlas.Detection.valid_slug tech_atlas.Prelude.Text.trim
    tech_atlas.Prelude.Text.utf8_len tech_atlas.Prelude.Text.starts_with
    tech_atlas.Prelude.Text.ends_with
initial_rules-IsValid = (
  (refl, refl),
  (
    (refl, refl),
    (
      (refl, refl),
      ((refl, refl), ((refl, refl), ((refl, refl), ((refl, refl), ((refl, refl), tt))))),
    ),
  ),
)

-- On parsed artifacts whose evidence fits the limits of the database, evaluating the program's
-- catalogue answers. The status of each rule, in the order of the catalogue, is detected where the
-- weights of the signals that match, each counted once, reach the threshold; below it, confirmed
-- absent where no signal matches and every source of the rule was captured; unknown otherwise. The
-- detections are sorted by slug, and their confidences are between the threshold and 100.
pub evaluate_total :
    (parsed : ParsedArtifacts)
    → All (λ e. fits e ≡ true) parsed.evidence
    → (result : DetectionEvaluation) × (evaluate parsed ≡ ok result)
      × (map (λ o. o.status) result.observations ≡ map (expected_status parsed) initial_rules)
      × IsSortedBy detection_before result.detections
      × All
          (λ d. (detection_threshold ≤ d.confidence) × (d.confidence ≤ max_confidence))
          result.detections
unfolding evaluate evaluation_of detection_before
evaluate_total parsed bounded =
    let (es, answered, same, sure) =
      evaluate_each_total parsed bounded initial_rules initial_rules-IsValid in
    (
      evaluation_of es,
      rw answered refl,
      statuses_of es ∙ same,
      sort_by-IsSortedBy detection_before
          (λ a b. text_before_total a.technology_slug b.technology_slug)
          (λ a b c. text_before_trans a.technology_slug b.technology_slug c.technology_slug)
          (detections_of es),
      All-sort_by detection_before IsSure (detections_of es) (detections_of-IsSure parsed es sure),
    )
