-- ===== src/Detector/Definitions.antt =====
-- A rule of the database is read and matched in one loop; its verdict is the one that reading the
-- whole definition first gives.
use tech_atlas.Prelude.{
  ℕ, Bool, true, ◌&&◌, ◌≡◌, refl, sym, ◌∙◌, Option, none, some, List, [], ◌∷◌, min, leb,
  if◌then◌else◌, map, filter, all, is_empty_list, not, Outcome, ok, ◌>>=◌, after_ok, arith,
}
use tech_atlas.Prelude.Text.{Text, text}
use tech_atlas.Parser.{ParsedArtifacts}
use tech_atlas.Detector.{
  DetectorError, no_score, add_matches, RuleEvaluation, is_captured, parse_identity, detection_of,
  status_of,
}
use tech_atlas.Detector.Signals.{
  JsonLibrary, Regex, ActiveDetectionRule, ActiveSignal, matches_active, then_read, kept_if,
  required,
}
use tech_atlas.Detector.Active.{
  ActiveScore, get_u8, read_signal, match_active_signal, match_active_signals, version_of,
  evaluate_active_rule,
}
use tech_atlas.Detector.Scores.{Hit, weight_of, add_all, add_all-IsScoreOf}
use tech_atlas.Detector.Verdicts.{verdict, certainty, detection_of-certainty, status_of-verdict}

&&-assoc : (a b c : Bool) → ((a && b) && c) ≡ (a && (b && c))
&&-assoc a b c = ground arith

module _ {Value Map : Type 0} (json : JsonLibrary Value Map) where
  unfoldable pub read_signals : List Value → Outcome DetectorError (List ActiveSignal)
  read_signals [] = ok []
  read_signals (value ∷ rest) = do s ← read_signal json value; ss ← read_signals rest; ok (s ∷ ss)

  -- The threshold and the signals of a definition.
  unfoldable pub read_rule :
      ActiveDetectionRule Value → Outcome DetectorError (ℕ × List ActiveSignal)
  read_rule rule = do
    definition ← required (json.as_object rule.definition)
    threshold ← required (get_u8 json definition (text "threshold"))
    signals ← required (
        kept_if (λ s. not (is_empty_list s))
          (then_read (json.get definition (text "signals")) json.as_array))
    ss ← read_signals signals
    ok (threshold, ss)

  abbrev pub active_hits : ParsedArtifacts → List ActiveSignal → List Hit
  active_hits parsed ss = map (λ s. (s.weight, filter (matches_active s) parsed.evidence)) ss

  abbrev all_captured : ParsedArtifacts → List ActiveSignal → Bool
  all_captured parsed ss = all (λ s. is_captured parsed s.source) ss

  -- The loop over the values, when it succeeds, has read them all and added their hits.
  record IsLoop (parsed : ParsedArtifacts) (values : List Value) (state after : ActiveScore)
      : Type 0 where
    pub ss : List ActiveSignal
    pub read : read_signals values ≡ ok ss
    pub added : add_all (active_hits parsed ss) state.score ≡ ok after.score
    pub covered : after.complete_coverage ≡ (state.complete_coverage && all_captured parsed ss)

  match_active_signals-IsLoop :
      (parsed : ParsedArtifacts) (values : List Value) (state after : ActiveScore)
      → match_active_signals json parsed values state ≡ ok after
      → IsLoop parsed values state after
  unfolding match_active_signals match_active_signal read_signals add_all
  match_active_signals-IsLoop parsed [] state after h = record {
    ss = [];
    read = refl;
    added = ground arith;
    covered = ground arith;
  }
  match_active_signals-IsLoop parsed (value ∷ rest) state after h =
      after_ok (read_signal json value) _ h λ s this h₁.
        after_ok (match_active_signal json parsed s state) _ h₁ λ next matched h₂.
          let later = match_active_signals-IsLoop parsed rest next after h₂ in
          after_ok (add_matches s.weight (filter (matches_active s) parsed.evidence) state.score) _
            matched
            λ raised step same.
              let scored : raised ≡ next.score = ground arith in
              let kept : next.complete_coverage
                  ≡ (state.complete_coverage && is_captured parsed s.source) =
                ground arith in
              record {
                ss = s ∷ later.ss;
                read = rw (this, later.read) refl;
                added = rw (step, scored) later.added;
                covered =
                    later.covered
                    ∙ rw kept (
                        &&-assoc state.complete_coverage (is_captured parsed s.source)
                          (all_captured parsed later.ss));
              }

  module _ (new_regex : Text → Option Regex) where
    -- When a rule of the database is evaluated without an error, its definition has a threshold and
    -- signals that can be read on their own, and the result is theirs: the status is detected where
    -- the weights of the signals that match, each counted once, reach the threshold; below it,
    -- confirmed absent where no signal matches and every source was captured; unknown otherwise.
    -- A detection is made exactly from the threshold on, with the sum of the weights, at most 100, as
    -- its confidence.
    pub evaluate_active_rule-verdict :
        (rule : ActiveDetectionRule Value) (parsed : ParsedArtifacts) (e : RuleEvaluation)
        → evaluate_active_rule json new_regex rule parsed ≡ ok e
        → (threshold : ℕ) × (ss : List ActiveSignal) × (read_rule rule ≡ ok (threshold, ss))
          × (e.observation.status
              ≡ verdict threshold (active_hits parsed ss) (all_captured parsed ss))
          × (certainty e.detection ≡ (
              let weight = min 100 (weight_of (active_hits parsed ss)) in
              if leb threshold weight then some weight else none))
    unfolding evaluate_active_rule read_rule
    evaluate_active_rule-verdict rule parsed e h =
        after_ok (required (json.as_object rule.definition)) _ h λ definition d h₁.
          after_ok (required (get_u8 json definition (text "threshold"))) _ h₁ λ threshold t h₂.
            after_ok
              (required (
                kept_if (λ s. not (is_empty_list s))
                  (then_read (json.get definition (text "signals")) json.as_array)))
              _ h₂
              λ values v h₃.
                after_ok
                  (match_active_signals json parsed values
                    (record { score = no_score; complete_coverage = true }))
                  _ h₃
                  λ matched m h₄.
                    let loop =
                      match_active_signals-IsLoop parsed values
                        (record { score = no_score; complete_coverage = true }) matched m in
                    let exact =
                      add_all-IsScoreOf (active_hits parsed loop.ss) no_score matched.score
                        (omega arith) loop.added in
                    after_ok
                      (parse_identity rule.technology_slug rule.technology_category_slug
                        rule.rule_slug rule.version)
                      _ h₄
                      λ identity _ h₅.
                        after_ok (detection_of threshold identity matched.score) _ h₅ λ found c h₆.
                          let certain =
                            detection_of-certainty threshold identity matched.score found c in
                          after_ok (version_of json new_regex definition parsed found) _ h₆
                            λ version _ same.
                              let seen : status_of found matched.score matched.complete_coverage
                                  ≡ e.observation.status =
                                ground arith in
                              let kept : found ≡ e.detection = ground arith in
                              let capped : matched.score.confidence
                                  ≡ min 100 (weight_of (active_hits parsed loop.ss)) =
                                omega (arith, exact.capped) in
                              (
                                threshold,
                                loop.ss,
                                rw (d, t, v, loop.read) refl,
                                sym seen
                                    ∙ rw loop.covered (
                                        status_of-verdict threshold (active_hits parsed loop.ss)
                                          (all_captured parsed loop.ss) matched.score found exact
                                          certain),
                                rw (sym kept, sym capped) certain,
                              )
