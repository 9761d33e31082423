-- ===== src/Parser.antt =====
-- crates/parser/src/lib.rs: evidence from captured artifacts. The HTML parser (UTF-8 decoding and
-- the scraper crate) is a parameter that answers the elements the source selects.
pub mod Extract
pub mod Soundness
mod Loops
pub mod Sources
use tech_atlas.Prelude.{
  ℕ, Bool, true, false, not, ◌&&◌, ◌||◌, Option, none, some, List, [], ◌∷◌, ◌++◌, ◌==◌, ltb,
  if◌then◌else◌, any,
}
use tech_atlas.Prelude.Text.{
  Text, text, is_empty, is_whitespace, eq_text, is_one_of, contains, to_ascii_lowercase,
  split_whitespace, join_words, trim_end_matches,
}
use tech_atlas.Prelude.Text.Order.{text_before}
use tech_atlas.Prelude.Sort.{sort_by}
use tech_atlas.Prelude.Dedup.{dedup_neighbours}
use tech_atlas.Crawler.Transport.{has_suffix}

pub data UnavailableReason : Type 0 where
  not_captured invalid unsupported : UnavailableReason

pub data ArtifactInput (A : Type 0) : Type 0 where
  captured : A → ArtifactInput A
  unavailable : UnavailableReason → ArtifactInput A

-- An address is the text that `to_string` prints.
pub record DnsArtifact : Type 0 where
  pub queried_name : Text
  pub addresses : List Text

pub record TlsArtifact : Type 0 where
  pub protocol : Option Text
  pub cipher_suite : Option Text
  pub certificate_subject : Option Text
  pub certificate_issuer : Option Text
  pub subject_alternative_names : List Text

-- Headers are the entries of their map, by ascending name.
pub record ArtifactBundle : Type 0 where
  pub html : ArtifactInput (List ℕ)
  pub headers : ArtifactInput (List (Text × Text))
  pub dns : ArtifactInput DnsArtifact
  pub tls : ArtifactInput TlsArtifact

abbrev pub default_bundle : ArtifactBundle
default_bundle = record {
  html = unavailable not_captured;
  headers = unavailable not_captured;
  dns = unavailable not_captured;
  tls = unavailable not_captured;
}

pub data ArtifactSource : Type 0 where
  html_source header_source script_source dns_source tls_source : ArtifactSource

abbrev pub rank_of : ArtifactSource → ℕ
rank_of html_source = 0
rank_of header_source = 1
rank_of script_source = 2
rank_of dns_source = 3
rank_of tls_source = 4

pub record NormalizedEvidence : Type 0 where
  pub source : ArtifactSource
  pub key : Text
  pub value : Text

pub data SignalAvailability : Type 0 where
  available : SignalAvailability
  unavailable_signal : UnavailableReason → SignalAvailability

-- The map of availabilities: the latest entry of a source counts.
pub record ParsedArtifacts : Type 0 where
  pub evidence : List NormalizedEvidence
  pub availability : List (ArtifactSource × SignalAvailability)

unfoldable pub availability_of :
    List (ArtifactSource × SignalAvailability) → ArtifactSource → SignalAvailability
availability_of [] source = unavailable_signal not_captured
availability_of (entry ∷ rest) source =
    let older = availability_of rest source in
    if rank_of entry.0 == rank_of source then entry.1 else older

-- The elements of a parsed document, in document order: the text of each title, the attributes
-- that are read of each meta element, and the `src` of each script.
pub record MetaElement : Type 0 where
  pub name_attribute : Option Text
  pub property_attribute : Option Text
  pub http_equiv_attribute : Option Text
  pub content_attribute : Option Text

pub record HtmlDocument : Type 0 where
  pub titles : List Text
  pub metas : List MetaElement
  pub scripts : List (Option Text)

abbrev pub item : ArtifactSource → Text → Text → NormalizedEvidence
item source key value = record { source = source; key = key; value = value }

-- `Option::and_then`, `Option::or_else` and `(!value.is_empty()).then_some(value)`
abbrev pub and_then : Option Text → (Text → Option Text) → Option Text
and_then none next = none
and_then (some a) next = next a

abbrev pub or_else : Option Text → Option Text → Option Text
or_else none other = other
or_else (some a) other = some a

abbrev pub unless_empty : Text → Option Text
unless_empty value = if is_empty value then none else some value

abbrev pub normalized : Text → Option Text
normalized value = unless_empty (join_words (split_whitespace value))

abbrev pub normalized_key : Text → Option Text
normalized_key value = and_then (normalized value) λ v. some (to_ascii_lowercase v)

abbrev pub normalized_hostname : Text → Option Text
normalized_hostname value = and_then (normalized value) λ v.
    let name = to_ascii_lowercase (trim_end_matches 46 v) in
    if not (is_empty name) && not (any is_whitespace name) then some name else none

abbrev pub sensitive_names : List Text
sensitive_names =
    text "authorization"
    ∷ text "proxy-authorization"
    ∷ text "cookie"
    ∷ text "set-cookie"
    ∷ text "set-cookie2"
    ∷ text "x-api-key"
    ∷ text "x-auth-token"
    ∷ text "x-amz-security-token"
    ∷ []

abbrev pub is_sensitive_header : Text → Bool
is_sensitive_header name =
    is_one_of name sensitive_names
    || contains name (text "token")
    || contains name (text "secret")
    || eq_text name (text "api-key")
    || has_suffix name (text "-key")
