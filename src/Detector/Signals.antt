-- ===== src/Detector/Signals.antt =====
-- The parts of a rule's JSON definition. The JSON library is
-- read through `JsonLibrary` and the regular expressions through `RegexLibrary`.
use tech_atlas.Prelude.{
  ℕ, Bool, false, not, ◌&&◌, Option, none, some, List, ◌==◌, ltb, leb, if◌then◌else◌, Outcome, ok,
  err, ok_or,
}
use tech_atlas.Prelude.Text.{Text, text, is_empty, eq_text, eq_ignore_ascii_case}
use tech_atlas.Parser.{
  ArtifactSource, html_source, header_source, script_source, dns_source, tls_source, rank_of,
  NormalizedEvidence,
}
use tech_atlas.Detector.{DetectorError, invalid_rule_definition, contains_ignore_case}

-- `serde_json::Value` and its objects, by the accessors that the source calls.
pub record JsonLibrary (Value Map : Type 0) : Type 0 where
  pub as_object : Value → Option Map
  pub get : Map → Text → Option Value
  pub as_str : Value → Option Text
  pub as_u64 : Value → Option ℕ
  pub as_array : Value → Option (List Value)

-- A compiled expression: the number of its groups, and the text of group 1 in a value, if the
-- value and the group match.
pub record Regex : Type 0 where
  pub captures_len : ℕ
  pub first_capture : Text → Option Text

pub record ActiveDetectionRule (Value : Type 0) : Type 0 where
  pub technology_slug : Text
  pub technology_category_slug : Text
  pub rule_slug : Text
  pub version : ℕ
  pub definition : Value

-- One signal of a definition, read.
pub record ActiveSignal : Type 0 where
  pub source : ArtifactSource
  pub key : Text
  pub matcher : Text
  pub expected : Option Text
  pub weight : ℕ

abbrev pub parse_source_name : Text → Outcome DetectorError ArtifactSource
parse_source_name name =
    if eq_text name (text "html")
    then ok html_source
    else if eq_text name (text "header")
    then ok header_source
    else if eq_text name (text "script")
    then ok script_source
    else if eq_text name (text "dns")
    then ok dns_source
    else if eq_text name (text "tls")
    then ok tls_source
    else err invalid_rule_definition

unfoldable pub parse_source : Option Text → Outcome DetectorError ArtifactSource
parse_source none = err invalid_rule_definition
parse_source (some name) = parse_source_name name

abbrev accepted_by : (Text → Bool) → Option Text → Bool
accepted_by accepts none = false
accepted_by accepts (some expected) = accepts expected

unfoldable pub matches_dynamic : Text → Text → Option Text → Bool
matches_dynamic value matcher expected =
    if eq_text matcher (text "present")
    then not (is_empty value)
    else if eq_text matcher (text "equals_ignore_case")
    then accepted_by (λ e. eq_ignore_ascii_case value e) expected
    else if eq_text matcher (text "contains_ignore_case")
    then accepted_by (λ e. contains_ignore_case value e) expected
    else false

unfoldable pub matches_active : ActiveSignal → NormalizedEvidence → Bool
matches_active s e =
    rank_of e.source == rank_of s.source
    && eq_ignore_ascii_case e.key s.key
    && matches_dynamic e.value s.matcher s.expected

-- `Option::and_then` and `Option::filter`
abbrev pub then_read : {A B : Type 0} → Option A → (A → Option B) → Option B
then_read none next = none
then_read (some a) next = next a

abbrev pub kept_if : {A : Type 0} → (A → Bool) → Option A → Option A
kept_if keep none = none
kept_if keep (some a) = if keep a then some a else none

-- `u8::try_from(value).ok()` and the test that it is positive
abbrev pub positive_u8 : ℕ → Bool
positive_u8 n = leb n 255 && ltb 0 n

abbrev pub required : {A : Type 0} → Option A → Outcome DetectorError A
required found = ok_or found invalid_rule_definition
