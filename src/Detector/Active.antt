-- ===== src/Detector/Active.antt =====
-- The rules of the database, which are JSON, and `evaluate_active` on them. The JSON library is
-- read through `JsonLibrary` and the regular expressions through `RegexLibrary`.
use tech_atlas.Prelude.{
  ℕ, Bool, true, not, ◌&&◌, Option, none, some, List, [], ◌∷◌, ◌==◌, leb, if◌then◌else◌, filter,
  length, is_empty_list, Outcome, ok, err, ◌>>=◌,
}
use tech_atlas.Prelude.Text.{Text, text, trim, is_empty, utf8_len, eq_ignore_ascii_case}
use tech_atlas.Parser.{ArtifactSource, rank_of, NormalizedEvidence, ParsedArtifacts}
use tech_atlas.Detector.{
  DetectorError, invalid_rule_definition, Score, no_score, add_matches, is_captured, RuleEvaluation,
  DetectionEvaluation, parse_identity, detection_of, status_of, observation_of, evaluation_of,
}
use tech_atlas.Detection.{Detection}
use tech_atlas.Detector.Signals.{
  JsonLibrary, Regex, ActiveDetectionRule, ActiveSignal, parse_source, matches_active, then_read,
  kept_if, positive_u8, required,
}

-- What the loop over the signals changes.
pub record ActiveScore : Type 0 where
  pub score : Score
  pub complete_coverage : Bool

module _ {Value Map : Type 0} (json : JsonLibrary Value Map) where
  abbrev pub get_str : Map → Text → Option Text
  get_str object key = then_read (json.get object key) json.as_str

  abbrev pub get_u8 : Map → Text → Option ℕ
  get_u8 object key = kept_if positive_u8 (then_read (json.get object key) json.as_u64)

  unfoldable pub read_signal : Value → Outcome DetectorError ActiveSignal
  unfolding parse_source
  read_signal value = do
    object ← required (json.as_object value)
    of_source ← parse_source (get_str object (text "source"))
    of_key ← required (kept_if (λ k. not (is_empty (trim k))) (get_str object (text "key")))
    of_match ← required (get_str object (text "match"))
    of_weight ← required (get_u8 object (text "weight"))
    ok (record {
      source = of_source;
      key = of_key;
      matcher = of_match;
      expected = get_str object (text "value");
      weight = of_weight;
    })

  unfoldable pub match_active_signal :
      ParsedArtifacts → ActiveSignal → ActiveScore → Outcome DetectorError ActiveScore
  match_active_signal parsed s state = do
    raised ← add_matches s.weight (filter (matches_active s) parsed.evidence) state.score
    ok (record {
      score = raised;
      complete_coverage = state.complete_coverage && is_captured parsed s.source;
    })

  unfoldable pub match_active_signals :
      ParsedArtifacts → List Value → ActiveScore → Outcome DetectorError ActiveScore
  match_active_signals parsed [] state = ok state
  match_active_signals parsed (value ∷ rest) state = do
    s ← read_signal value
    next ← match_active_signal parsed s state
    match_active_signals parsed rest next

  module _ (new_regex : Text → Option Regex) where
    -- `find_map` over the evidence of the source and key.
    unfoldable pub find_capture :
        Regex → ArtifactSource → Text → List NormalizedEvidence → Option Text
    find_capture regex source key [] = none
    find_capture regex source key (e ∷ rest) =
        let later = find_capture regex source key rest in
        if rank_of e.source == rank_of source && eq_ignore_ascii_case e.key key
        then or_later (regex.first_capture e.value) later
        else later
      where
        or_later : Option Text → Option Text → Option Text
        or_later none later = later
        or_later (some found) later = some found

    unfoldable pub extract_version : Value → ParsedArtifacts → Outcome DetectorError (Option Text)
    extract_version value parsed = do
      object ← required (json.as_object value)
      source ← parse_source (get_str object (text "source"))
      key ← required (
          kept_if (λ k. not (is_empty (trim k)) && leb (utf8_len k) 128)
            (get_str object (text "key")))
      pattern ← required (
          kept_if (λ p. not (is_empty p) && leb (utf8_len p) 256) (get_str object (text "pattern")))
      regex ← required (new_regex pattern)
      (if regex.captures_len == 2
          then ok (
              kept_if (λ v. not (is_empty v) && leb (length v) 128)
                (then_read (find_capture regex source key parsed.evidence) λ c. some (trim c)))
          else err invalid_rule_definition)

    unfoldable pub extract_dynamic_version :
        Map → ParsedArtifacts → Outcome DetectorError (Option Text)
    extract_dynamic_version definition parsed =
        elim (json.get definition (text "version_evidence")) [
          | none ↦ ok none
          | some value ↦ extract_version value parsed
        ]

    unfoldable pub version_of :
        Map → ParsedArtifacts → Option Detection → Outcome DetectorError (Option Text)
    version_of definition parsed none = ok none
    version_of definition parsed (some d) = extract_dynamic_version definition parsed

    unfoldable pub evaluate_active_rule :
        ActiveDetectionRule Value → ParsedArtifacts → Outcome DetectorError RuleEvaluation
    evaluate_active_rule rule parsed = do
      definition ← required (json.as_object rule.definition)
      threshold ← required (get_u8 definition (text "threshold"))
      signals ← required (
          kept_if (λ s. not (is_empty_list s))
            (then_read (json.get definition (text "signals")) json.as_array))
      matched ←
          match_active_signals parsed signals
            (record { score = no_score; complete_coverage = true })
      identity ←
          parse_identity rule.technology_slug rule.technology_category_slug rule.rule_slug
            rule.version
      found ← detection_of threshold identity matched.score
      version ← version_of definition parsed found
      ok (record {
        detection = found;
        observation =
            observation_of identity (status_of found matched.score matched.complete_coverage);
        technology_version = version;
      })

    unfoldable pub evaluate_active_each :
        ParsedArtifacts
        → List (ActiveDetectionRule Value)
        → Outcome DetectorError (List RuleEvaluation)
    evaluate_active_each parsed [] = ok []
    evaluate_active_each parsed (rule ∷ rest) = do
      first ← evaluate_active_rule rule parsed
      later ← evaluate_active_each parsed rest
      ok (first ∷ later)

    unfoldable pub evaluate_active :
        ParsedArtifacts
        → List (ActiveDetectionRule Value)
        → Outcome DetectorError DetectionEvaluation
    evaluate_active parsed rules = do
      evaluations ← evaluate_active_each parsed rules
      ok (evaluation_of evaluations)
