-- ===== src/Detector/Catalogue.antt =====
-- The rules that the program contains, and `evaluate` on them.
use tech_atlas.Prelude.{
  ℕ, Bool, not, ◌&&◌, none, List, [], ◌∷◌, ◌==◌, filter, all, Outcome, ok, ◌>>=◌, String,
}
use tech_atlas.Prelude.Text.{Text, text, is_empty, eq_ignore_ascii_case}
use tech_atlas.Parser.{
  ArtifactSource, html_source, header_source, script_source, rank_of, NormalizedEvidence,
  ParsedArtifacts,
}
use tech_atlas.Detector.{
  DetectorError, detection_threshold, Score, no_score, add_matches, is_captured,
  contains_ignore_case, RuleEvaluation, DetectionEvaluation, parse_identity, detection_of,
  status_of, observation_of, evaluation_of,
}

pub data SignalMatcher : Type 0 where
  equals_ignore_case : Text → SignalMatcher
  contains_text : Text → SignalMatcher
  present : SignalMatcher

pub record SignalDefinition : Type 0 where
  pub source : ArtifactSource
  pub key : Text
  pub matcher : SignalMatcher
  pub weight : ℕ

pub record RuleDefinition : Type 0 where
  pub technology_slug : Text
  pub technology_category_slug : Text
  pub rule_slug : Text
  pub version : ℕ
  pub threshold : ℕ
  pub signals : List SignalDefinition

abbrev pub signal : ArtifactSource → String → SignalMatcher → ℕ → SignalDefinition
signal of_source of_key of_matcher of_weight = record {
  source = of_source;
  key = text of_key;
  matcher = of_matcher;
  weight = of_weight;
}

abbrev pub nextjs_signals : List SignalDefinition
nextjs_signals =
    signal header_source "x-powered-by" (contains_text (text "next.js")) 90
    ∷ signal script_source "src" (contains_text (text "/_next/")) 75
    ∷ signal html_source "meta.generator" (equals_ignore_case (text "next.js")) 80
    ∷ []

abbrev pub stripe_signals : List SignalDefinition
stripe_signals = signal script_source "src" (contains_text (text "js.stripe.com")) 95 ∷ []

abbrev pub cloudflare_signals : List SignalDefinition
cloudflare_signals =
    signal header_source "server" (equals_ignore_case (text "cloudflare")) 90
    ∷ signal header_source "cf-ray" present 80
    ∷ []

abbrev pub posthog_signals : List SignalDefinition
posthog_signals = signal script_source "src" (contains_text (text "posthog.com")) 90 ∷ []

abbrev pub shopify_signals : List SignalDefinition
shopify_signals =
    signal script_source "src" (contains_text (text "cdn.shopify.com")) 95
    ∷ signal header_source "x-shopify-stage" present 90
    ∷ []

abbrev pub wordpress_signals : List SignalDefinition
wordpress_signals = signal header_source "x-powered-by" (contains_text (text "wordpress")) 90 ∷ []

abbrev pub drupal_signals : List SignalDefinition
drupal_signals =
    signal header_source "x-generator" (contains_text (text "drupal")) 90
    ∷ signal html_source "meta.generator" (contains_text (text "drupal")) 90
    ∷ []

abbrev pub express_signals : List SignalDefinition
express_signals = signal header_source "x-powered-by" (equals_ignore_case (text "express")) 90 ∷ []

abbrev pub first_version : String → String → String → List SignalDefinition → RuleDefinition
first_version technology category rule of_signals = record {
  technology_slug = text technology;
  technology_category_slug = text category;
  rule_slug = text rule;
  version = 1;
  threshold = detection_threshold;
  signals = of_signals;
}

unfoldable pub initial_rules : List RuleDefinition
initial_rules =
    first_version "nextjs" "framework" "nextjs-v1" nextjs_signals
    ∷ first_version "stripe" "payment-provider" "stripe-v1" stripe_signals
    ∷ first_version "cloudflare" "hosting" "cloudflare-v1" cloudflare_signals
    ∷ first_version "posthog" "analytics" "posthog-v1" posthog_signals
    ∷ first_version "shopify" "ecommerce" "shopify-v1" shopify_signals
    ∷ first_version "wordpress" "cms" "wordpress-v1" wordpress_signals
    ∷ first_version "drupal" "cms" "drupal-v1" drupal_signals
    ∷ first_version "express" "framework" "express-v1" express_signals
    ∷ []

abbrev pub matcher_accepts : SignalMatcher → Text → Bool
matcher_accepts (equals_ignore_case expected) value = eq_ignore_ascii_case value expected
matcher_accepts (contains_text expected) value = contains_ignore_case value expected
matcher_accepts present value = not (is_empty value)

unfoldable pub matches : SignalDefinition → NormalizedEvidence → Bool
matches s e =
    rank_of e.source == rank_of s.source
    && eq_ignore_ascii_case e.key s.key
    && matcher_accepts s.matcher e.value

unfoldable pub match_signals :
    ParsedArtifacts → List SignalDefinition → Score → Outcome DetectorError Score
match_signals parsed [] score = ok score
match_signals parsed (s ∷ rest) score = do
  raised ← add_matches s.weight (filter (matches s) parsed.evidence) score
  match_signals parsed rest raised

unfoldable pub evaluate_rule :
    RuleDefinition → ParsedArtifacts → Outcome DetectorError RuleEvaluation
evaluate_rule rule parsed = do
  score ← match_signals parsed rule.signals no_score
  identity ←
      parse_identity rule.technology_slug rule.technology_category_slug rule.rule_slug rule.version
  detection ← detection_of rule.threshold identity score
  ok (record {
    detection = detection;
    observation =
        observation_of identity
          (status_of detection score (all (λ s. is_captured parsed s.source) rule.signals));
    technology_version = none;
  })

unfoldable pub evaluate_each :
    List RuleDefinition → ParsedArtifacts → Outcome DetectorError (List RuleEvaluation)
evaluate_each [] parsed = ok []
evaluate_each (rule ∷ rest) parsed = do
  first ← evaluate_rule rule parsed
  later ← evaluate_each rest parsed
  ok (first ∷ later)

unfoldable pub evaluate : ParsedArtifacts → Outcome DetectorError DetectionEvaluation
evaluate parsed = do
  evaluations ← evaluate_each initial_rules parsed
  ok (evaluation_of evaluations)
