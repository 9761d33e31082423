-- ===== src/Detector/Scores.antt =====
-- What the loops over the signals of a rule compute: the weights of the signals that match.
use tech_atlas.Prelude.{
  ℕ, Bool, true, false, not, ◌&&◌, ◌||◌, ◌≡◌, ◌≤◌, refl, subst, List, [], ◌∷◌, ◌++◌, ◌+◌, min,
  if◌then◌else◌, All, length, length-append, is_empty_list, Outcome, ok, err, is_ok, ◌>>=◌,
  after_ok, arith,
}
use tech_atlas.Parser.{NormalizedEvidence}
use tech_atlas.Detection.{DetectionEvidence}
use tech_atlas.Detector.{DetectorError, to_detection_evidence, push_each, Score, add_matches, raise}

-- A signal's weight and the evidence that it matches.
abbrev pub Hit : Type 0
Hit = ℕ × List NormalizedEvidence

unfoldable pub add_all : List Hit → Score → Outcome DetectorError Score
add_all [] score = ok score
add_all (hit ∷ rest) score = do raised ← add_matches hit.0 hit.1 score; add_all rest raised

abbrev pub is_hit : Hit → Bool
is_hit hit = not (is_empty_list hit.1)

unfoldable pub any_hit : List Hit → Bool
any_hit [] = false
any_hit (hit ∷ rest) = is_hit hit || any_hit rest

-- The sum of the weights of the signals that match something, each counted once.
unfoldable pub weight_of : List Hit → ℕ
weight_of [] = 0
weight_of (hit ∷ rest) = (if is_hit hit then hit.0 else 0) + weight_of rest

-- Evidence whose trimmed key and value are present and within their limits.
abbrev pub fits : NormalizedEvidence → Bool
fits e = is_ok (to_detection_evidence e)

length-push_each :
    (items : List NormalizedEvidence) (found after : List DetectionEvidence)
    → push_each items found ≡ ok after
    → length after ≡ length found + length items
unfolding push_each
length-push_each [] found after h = ground arith
length-push_each (e ∷ rest) found after h =
    after_ok (to_detection_evidence e) _ h λ evidence made next.
      let step = length-push_each rest (found ++ (evidence ∷ [])) after next in
      omega (arith, step, length-append found (evidence ∷ []))

push_each_total :
    (items : List NormalizedEvidence) (found : List DetectionEvidence)
    → All (λ e. fits e ≡ true) items
    → (after : List DetectionEvidence) × (push_each items found ≡ ok after)
unfolding push_each
push_each_total [] found h = (found, refl)
push_each_total (e ∷ rest) found h =
    made (to_detection_evidence e) h.0
      λ evidence. push_each_total rest (found ++ (evidence ∷ [])) h.1
  where
    made :
        (result : Outcome DetectorError DetectionEvidence)
        → is_ok result ≡ true
        → ((evidence : DetectionEvidence)
            → (after : List DetectionEvidence) × (push_each rest (found ++ (evidence ∷ []))
                ≡ ok after))
        → (after : List DetectionEvidence) × ((result >>= λ evidence.
              push_each rest (found ++ (evidence ∷ [])))
            ≡ ok after)
    made (ok evidence) k rest_total = rest_total evidence
    made (err error) k rest_total = absurd (cc k)

is_empty_list-length : {A : Type 0} (xs : List A) → 1 ≤ length xs → is_empty_list xs ≡ false
is_empty_list-length [] h = absurd (omega arith)
is_empty_list-length (x ∷ xs) h = refl

add_matches_some :
    (weight : ℕ) (e : NormalizedEvidence) (es : List NormalizedEvidence) (score after : Score)
    → add_matches weight (e ∷ es) score ≡ ok after
    → (after.confidence ≡ raise score.confidence weight)
      × (is_empty_list after.matched_evidence ≡ false)
unfolding add_matches
add_matches_some weight e es score after h =
    after_ok (push_each (e ∷ es) score.matched_evidence) _ h λ found made next.
      let grown = length-push_each (e ∷ es) score.matched_evidence found made in
      let same : found ≡ after.matched_evidence = ground arith in
      (
        ground arith,
        is_empty_list-length after.matched_evidence
            (subst (λ xs. 1 ≤ length xs) same (omega (arith, grown))),
      )

add_matches_total :
    (weight : ℕ) (es : List NormalizedEvidence) (score : Score)
    → All (λ e. fits e ≡ true) es
    → (after : Score) × (add_matches weight es score ≡ ok after)
unfolding add_matches
add_matches_total weight [] score h = (score, refl)
add_matches_total weight (e ∷ es) score h =
    let (found, made) = push_each_total (e ∷ es) score.matched_evidence h in
    (record { confidence = raise score.confidence weight; matched_evidence = found }, rw made refl)

-- A score after a loop over hits: its confidence is the capped sum of the weights, and it has
-- evidence where it had some or where something was hit.
pub record IsScoreOf (hits : List Hit) (score after : Score) : Type 0 where
  pub capped : after.confidence ≡ min 100 (score.confidence + weight_of hits)
  pub emptied :
      is_empty_list after.matched_evidence
      ≡ (is_empty_list score.matched_evidence && not (any_hit hits))

pub add_all-IsScoreOf :
    (hits : List Hit) (score after : Score)
    → score.confidence ≤ 100
    → add_all hits score ≡ ok after
    → IsScoreOf hits score after
unfolding add_all add_matches weight_of any_hit
add_all-IsScoreOf [] score after small h = record { capped = ground arith; emptied = ground arith }
add_all-IsScoreOf ((weight, []) ∷ rest) score after small h =
    let later = add_all-IsScoreOf rest score after small h in
    record { capped = omega (arith, later.capped); emptied = later.emptied }
add_all-IsScoreOf ((weight, e ∷ es) ∷ rest) score after small h =
    after_ok (add_matches weight (e ∷ es) score) _ h λ raised made next.
      let step = add_matches_some weight e es score raised made in
      let later = add_all-IsScoreOf rest raised after (omega (arith, step.0)) next in
      record {
        capped = omega (arith, step.0, later.capped);
        emptied = ground (arith, step.1, later.emptied);
      }

pub add_all_total :
    (hits : List Hit) (score : Score)
    → All (λ hit. All (λ e. fits e ≡ true) hit.1) hits
    → (after : Score) × (add_all hits score ≡ ok after)
unfolding add_all
add_all_total [] score h = (score, refl)
add_all_total (hit ∷ rest) score h =
    let (raised, made) = add_matches_total hit.0 hit.1 score h.0 in
    let (after, done) = add_all_total rest raised h.1 in (after, rw made done)

-- A positive weight comes from a hit.
pub any_hit-weight_of : (hits : List Hit) → 1 ≤ weight_of hits → any_hit hits ≡ true
unfolding any_hit weight_of
any_hit-weight_of [] h = absurd (omega arith)
any_hit-weight_of (hit ∷ rest) h = ground (arith, any_hit-weight_of rest)
