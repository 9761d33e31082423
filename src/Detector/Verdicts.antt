-- ===== src/Detector/Verdicts.antt =====
-- A score gives its verdict: the detection and the status of a rule.
use tech_atlas.Prelude.{
  ℕ, Bool, true, false, not, ◌&&◌, ◌≡◌, ◌≤◌, refl, sym, ap, ◌∙◌, map_err-eq-ok, Option, none, some,
  List, min, leb, ltb, if◌then◌else◌, is_empty_list, ok, map_err, after_ok, arith, Bool-cases, inl,
  inr,
}
use tech_atlas.Prelude.Text.{Text}
use tech_atlas.Prelude.Sort.{sort_by, is_empty_list-sort_by}
use tech_atlas.Prelude.Dedup.{dedup_neighbours, is_empty_list-dedup_neighbours}
use tech_atlas.Prelude.Text.Order.{}
use tech_atlas.Parser.{}
use tech_atlas.Detection.{
  DetectionEvidence, Detection, new_detection, new_confidence, eq_evidence, deterministic_rule,
  evidence_before, DetectionMethod,
}
use tech_atlas.Projection.{RuleObservationStatus, detected, confirmed_absent, unknown}
use tech_atlas.Detector.{
  invalid_detection, Score, no_score, RuleIdentity, detect, detection_of, some_detection, status_of,
}
use tech_atlas.Detector.Catalogue.{}
use tech_atlas.Detector.Scores.{Hit, any_hit, weight_of, IsScoreOf}

-- The status that the weight of the matched signals gives: detected from the threshold on; below
-- it, absent where nothing matched and every source of the rule was captured; else unknown.
unfoldable pub verdict : ℕ → List Hit → Bool → RuleObservationStatus
verdict threshold hits covered =
    if leb threshold (min 100 (weight_of hits))
    then detected
    else if not (any_hit hits) && covered
    then confirmed_absent
    else unknown

-- The confidence of a detection, if there is one.
abbrev pub certainty : Option Detection → Option ℕ
certainty none = none
certainty (some d) = some d.confidence

new_detection-confidence :
    (slug category rule : Text) (version confidence : ℕ) (way : DetectionMethod)
    (found : List DetectionEvidence) (d : Detection)
    → new_detection slug category rule version confidence way found ≡ ok d
    → d.confidence ≡ confidence
unfolding new_detection
new_detection-confidence slug category rule version confidence way found d h =
    elim (Bool-cases
      (is_empty_list (dedup_neighbours eq_evidence (sort_by evidence_before found)))) [
        | inl nothing ↦ absurd (ground arith)
        | inr something ↦ ground arith
      ]

new_detection_total :
    (slug category rule : Text) (version confidence : ℕ) (way : DetectionMethod)
    (found : List DetectionEvidence)
    → is_empty_list found ≡ false
    → (d : Detection) × (new_detection slug category rule version confidence way found ≡ ok d)
unfolding new_detection
new_detection_total slug category rule version confidence way found h =
    let kept : is_empty_list (dedup_neighbours eq_evidence (sort_by evidence_before found))
        ≡ false =
      is_empty_list-dedup_neighbours eq_evidence (sort_by evidence_before found)
      ∙ is_empty_list-sort_by evidence_before found
      ∙ h in
    (
      record {
        technology_slug = slug;
        technology_category_slug = category;
        rule_slug = rule;
        rule_version = version;
        confidence = confidence;
        method = way;
        evidence = dedup_neighbours eq_evidence (sort_by evidence_before found);
      },
      rw kept refl,
    )

detect_lem :
    (identity : RuleIdentity) (score : Score) (d : Detection)
    → detect identity score ≡ ok d
    → d.confidence ≡ score.confidence
unfolding detect
detect_lem identity score d h =
    after_ok (map_err invalid_detection (new_confidence score.confidence)) _ h λ checked fine made.
      let same : checked ≡ score.confidence =
        confidence_kept score.confidence checked
          (map_err-eq-ok invalid_detection (new_confidence score.confidence) fine) in
      new_detection-confidence identity.technology_slug identity.technology_category_slug
        identity.rule_slug identity.rule_version checked deterministic_rule score.matched_evidence d
        (map_err-eq-ok invalid_detection _ made)
      ∙ same
  where
    confidence_kept : (c checked : ℕ) → new_confidence c ≡ ok checked → checked ≡ c
    confidence_kept c checked k = ground arith

detect_total :
    (identity : RuleIdentity) (score : Score)
    → score.confidence ≤ 100
    → is_empty_list score.matched_evidence ≡ false
    → (d : Detection) × (detect identity score ≡ ok d)
unfolding detect
detect_total identity score small h =
    let (d, made) =
      new_detection_total identity.technology_slug identity.technology_category_slug
        identity.rule_slug identity.rule_version score.confidence deterministic_rule
        score.matched_evidence h in
    let fine : ltb 100 score.confidence ≡ false = ground arith in (d, rw (fine, made) refl)

pub detection_of-certainty :
    (threshold : ℕ) (identity : RuleIdentity) (score : Score) (found : Option Detection)
    → detection_of threshold identity score ≡ ok found
    → certainty found ≡ (if leb threshold score.confidence then some score.confidence else none)
unfolding detection_of
detection_of-certainty threshold identity score found h =
    elim (Bool-cases (leb threshold score.confidence)) [
      | inl enough ↦ after_ok (detect identity score) some_detection (rw enough at h) λ d made same.
          let exact = detect_lem identity score d made in
          let this : some d ≡ found = ground arith in rw (enough, sym this) (ap some exact)
      | inr short ↦ let this : none ≡ found = ground arith in rw (short, sym this) refl
    ]

pub detection_of_total :
    (threshold : ℕ) (identity : RuleIdentity) (score : Score)
    → score.confidence ≤ 100
    → (leb threshold score.confidence ≡ true → is_empty_list score.matched_evidence ≡ false)
    → (found : Option Detection) × (detection_of threshold identity score ≡ ok found)
unfolding detection_of
detection_of_total threshold identity score small h =
    elim (Bool-cases (leb threshold score.confidence)) [
      | inl enough ↦
          let (d, made) = detect_total identity score small (h enough) in
          (some d, rw (enough, made) refl)
      | inr short ↦ (none, rw short refl)
    ]

pub status_of-verdict :
    (threshold : ℕ) (hits : List Hit) (covered : Bool) (score : Score) (found : Option Detection)
    → IsScoreOf hits no_score score
    → certainty found ≡ (if leb threshold score.confidence then some score.confidence else none)
    → status_of found score covered ≡ verdict threshold hits covered
unfolding status_of verdict
status_of-verdict threshold hits covered score none s h =
    let capped : min 100 (weight_of hits) ≡ score.confidence = omega (arith, s.capped) in
    rw (capped, s.emptied) (ground arith)
status_of-verdict threshold hits covered score (some d) s h =
    let capped : min 100 (weight_of hits) ≡ score.confidence = omega (arith, s.capped) in
    rw capped (ground arith)
