-- ===== src/Observation.antt =====
-- crates/models/src/worker.rs: what a worker records of a crawl, and the checks of its constructors.
-- Instants are numbers of nanoseconds; an address is one of the crawler's.
pub mod Metadata
use tech_atlas.Prelude.{
  ℕ, ◌^◌, Bool, true, false, not, ◌&&◌, ◌||◌, Option, none, some, List, [], ◌∷◌, ◌==◌, leb, ltb,
  if◌then◌else◌, any, all, map, String, Outcome, ok, err, ◌>>=◌, ◌>>◌, refuse_if, ok_or,
}
use tech_atlas.Prelude.Text.{
  Text, text, trim, is_empty, utf8_len, to_ascii_lowercase, is_one_of, contains, eq_text,
  starts_with, split,
}
use tech_atlas.Crawler.Address.{IpAddr}
use tech_atlas.Crawler.Transport.{Headers, has_suffix}

pub data CrawlSnapshotMetadataError : Type 0 where
  empty_url : Text → CrawlSnapshotMetadataError
  invalid_http_status sensitive_header : CrawlSnapshotMetadataError

pub record CrawlRedirectMetadata : Type 0 where
  pub from_url : Text
  pub to_url : Text
  pub status : ℕ

unfoldable pub required_url : String → Text → Outcome CrawlSnapshotMetadataError Text
required_url field value =
    if is_empty (trim value) then err (empty_url (text field)) else ok (trim value)

unfoldable pub validate_status : ℕ → Outcome CrawlSnapshotMetadataError ℕ
validate_status status =
    if leb 100 status && leb status 599 then ok status else err invalid_http_status

unfoldable pub new_redirect :
    Text → Text → ℕ → Outcome CrawlSnapshotMetadataError CrawlRedirectMetadata
new_redirect from to code = do
  from_text ← required_url "redirect source URL" from
  to_text ← required_url "redirect destination URL" to
  checked ← validate_status code
  ok (record { from_url = from_text; to_url = to_text; status = checked })

pub record CountryObservation : Type 0 where
  pub country_code : Text
  pub source : Text
  pub source_version : Text

pub data CountryObservationError : Type 0 where
  invalid_country_code invalid_source invalid_source_version : CountryObservationError

abbrev pub is_uppercase : ℕ → Bool
is_uppercase c = leb 65 c && leb c 90

unfoldable pub required_country_metadata : Text → Option Text
required_country_metadata value =
    if not (is_empty (trim value)) && leb (utf8_len (trim value)) 128
    then some (trim value)
    else none

unfoldable pub new_country : Text → Text → Text → Outcome CountryObservationError CountryObservation
new_country code from version = do
  refuse_if (not (utf8_len (trim code) == 2) || not (all is_uppercase (trim code)))
      invalid_country_code
  known_source ← ok_or (required_country_metadata from) invalid_source
  known_version ← ok_or (required_country_metadata version) invalid_source_version
  ok (record { country_code = trim code; source = known_source; source_version = known_version })

pub data CrawlObservationUnavailableReason : Type 0 where
  not_captured not_applicable timed_out connection_failed invalid :
      CrawlObservationUnavailableReason

pub data CrawlObservationError : Type 0 where
  missing_source : CrawlObservationError
  invalid_value : Text → CrawlObservationError

unfoldable pub required_observation_value :
    String → Text → Outcome CrawlObservationError (Option Text)
required_observation_value field value =
    if is_empty (trim value) || ltb 512 (utf8_len (trim value))
    then err (invalid_value (text field))
    else ok (some (trim value))

unfoldable pub required_observation_source : Text → Outcome CrawlObservationError Text
required_observation_source value = do
  found ← required_observation_value "observation source" value
  ok_or found missing_source

unfoldable pub bounded_optional : Option Text → Outcome CrawlObservationError (Option Text)
bounded_optional none = ok none
bounded_optional (some value) =
    if is_empty (trim value)
    then ok none
    else required_observation_value "TLS observation value" value

-- The values of a list, in order; the blank ones are dropped.
abbrev pub push_value : Option Text → List Text → List Text
push_value none rest = rest
push_value (some value) rest = value ∷ rest

unfoldable pub bounded_values : List Text → Outcome CrawlObservationError (List Text)
bounded_values [] = ok []
bounded_values (value ∷ rest) = do
  first ← bounded_optional (some value)
  later ← bounded_values rest
  ok (push_value first later)

pub record CrawlDnsObservation : Type 0 where
  pub source : Text
  pub observed_at : ℕ
  pub queried_name : Option Text
  pub addresses : List IpAddr
  pub unavailable_reason : Option CrawlObservationUnavailableReason

unfoldable pub available_dns :
    Text → ℕ → Text → List IpAddr → Outcome CrawlObservationError CrawlDnsObservation
available_dns from at name found = do
  known_source ← required_observation_source from
  known_name ← required_observation_value "DNS queried name" name
  ok (record {
    source = known_source;
    observed_at = at;
    queried_name = known_name;
    addresses = found;
    unavailable_reason = none;
  })

unfoldable pub unavailable_dns :
    Text → ℕ → CrawlObservationUnavailableReason → Outcome CrawlObservationError CrawlDnsObservation
unavailable_dns from at reason = do
  known_source ← required_observation_source from
  ok (record {
    source = known_source;
    observed_at = at;
    queried_name = none;
    addresses = [];
    unavailable_reason = some reason;
  })

pub data TlsCertificateValidation : Type 0 where
  verified failed : TlsCertificateValidation

pub record CrawlTlsObservation : Type 0 where
  pub source : Text
  pub observed_at : ℕ
  pub unavailable_reason : Option CrawlObservationUnavailableReason
  pub validation : Option TlsCertificateValidation
  pub protocol : Option Text
  pub cipher_suite : Option Text
  pub certificate_subject : Option Text
  pub certificate_issuer : Option Text
  pub subject_alternative_names : List Text
  pub certificate_not_before : Option ℕ
  pub certificate_not_after : Option ℕ

unfoldable pub available_tls :
    Text
    → ℕ
    → TlsCertificateValidation
    → Option Text
    → Option Text
    → Option Text
    → Option Text
    → List Text
    → Option ℕ
    → Option ℕ
    → Outcome CrawlObservationError CrawlTlsObservation
available_tls from at checked version suite subject issuer names not_before not_after = do
  known_source ← required_observation_source from
  known_version ← bounded_optional version
  known_suite ← bounded_optional suite
  known_subject ← bounded_optional subject
  known_issuer ← bounded_optional issuer
  known_names ← bounded_values names
  ok (record {
    source = known_source;
    observed_at = at;
    unavailable_reason = none;
    validation = some checked;
    protocol = known_version;
    cipher_suite = known_suite;
    certificate_subject = known_subject;
    certificate_issuer = known_issuer;
    subject_alternative_names = known_names;
    certificate_not_before = not_before;
    certificate_not_after = not_after;
  })

unfoldable pub unavailable_tls :
    Text → ℕ → CrawlObservationUnavailableReason → Outcome CrawlObservationError CrawlTlsObservation
unavailable_tls from at reason = do
  known_source ← required_observation_source from
  ok (record {
    source = known_source;
    observed_at = at;
    unavailable_reason = some reason;
    validation = none;
    protocol = none;
    cipher_suite = none;
    certificate_subject = none;
    certificate_issuer = none;
    subject_alternative_names = [];
    certificate_not_before = none;
    certificate_not_after = none;
  })
