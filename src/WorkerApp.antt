-- ===== src/WorkerApp.antt =====
-- apps/worker/src/lib.rs: from a response to the records of a successful crawl, and the codes and
-- summaries of failed ones.
pub mod Process
mod Summaries
mod Settled
mod Refused
mod Tests
use tech_atlas.Prelude.{
  ℕ, ◌-◌, ◌^◌, Bool, ◌||◌, find, Option, none, some, List, [], ◌∷◌, ltb, length, if◌then◌else◌, map,
  String, Outcome, ok, err, ◌>>=◌, map_err,
}
use tech_atlas.Prelude.Text.{
  Text, text, trim, is_empty, utf8_width, eq_text, eq_ignore_ascii_case, before,
}
use tech_atlas.Crawler.Address.{IpAddr, resolution, dns_timeout, blocked_address}
use tech_atlas.Crawler.Url.{Url}
use tech_atlas.Crawler.Transport.{Headers, HttpTransportError, value_of}
use tech_atlas.Crawler.Response
use tech_atlas.Crawler.Response.{
  Capture, captured, unavailable, DnsCapture, TlsCapture, TlsValidation, CaptureUnavailableReason,
  CrawlRedirect, CrawlResponse, CrawlError, cancelled, timeout, missing_redirect_location,
  dns_error, transport, response_too_large, redirect_limit_exceeded, invalid_redirect_target,
  robots_denied, robots_unavailable,
}
use tech_atlas.Parser
use tech_atlas.Parser.{ArtifactInput, DnsArtifact, TlsArtifact, HtmlDocument, ParsedArtifacts}
use tech_atlas.Parser.Extract.{parse}
use tech_atlas.Observation
use tech_atlas.Observation.{
  CrawlObservationUnavailableReason, CrawlObservationError, CrawlDnsObservation,
  CrawlTlsObservation, TlsCertificateValidation, CrawlSnapshotMetadataError, CrawlRedirectMetadata,
  CountryObservation, available_dns, unavailable_dns, available_tls, unavailable_tls, new_redirect,
}
use tech_atlas.Observation.Metadata.{CrawlSnapshotMetadata, RawArtifactMetadata, new_snapshot}
use tech_atlas.Detection.{Detection}
use tech_atlas.Projection.{RuleObservation}
use tech_atlas.Detector.{DetectorError, DetectionEvaluation}
use tech_atlas.Detector.Signals.{JsonLibrary, Regex, ActiveDetectionRule}
use tech_atlas.Detector.Active.{evaluate_active}
use tech_atlas.Scheduler.Failure.{CrawlFailureError}

-- `PolitenessGateError`
pub data PolitenessGateError : Type 0 where
  gate_cancelled gate_unavailable : PolitenessGateError

abbrev pub failure_code_for_politeness : PolitenessGateError → Text
failure_code_for_politeness gate_cancelled = text "cancelled"
failure_code_for_politeness gate_unavailable = text "politeness_unavailable"

unfoldable pub failure_code_for_crawl : CrawlError → Text
failure_code_for_crawl cancelled = text "cancelled"
failure_code_for_crawl timeout = text "network_timeout"
failure_code_for_crawl (dns_error (blocked_address host address)) = text "unsafe_target"
failure_code_for_crawl (dns_error dns_timeout) = text "dns_timeout"
failure_code_for_crawl (dns_error (resolution e)) = text "dns_failure"
failure_code_for_crawl (transport e) = text "network_failure"
failure_code_for_crawl (response_too_large limit observed) = text "body_limit_exceeded"
failure_code_for_crawl (redirect_limit_exceeded limit) = text "redirect_limit_exceeded"
failure_code_for_crawl missing_redirect_location = text "invalid_redirect"
failure_code_for_crawl (invalid_redirect_target e) = text "invalid_redirect"
failure_code_for_crawl (robots_denied url) = text "robots_denied"
failure_code_for_crawl (robots_unavailable reason) = text "robots_unavailable"

-- The loop of `bounded_summary`: `room` bytes are left.
unfoldable pub take_bytes : ℕ → Text → Text
take_bytes room [] = []
take_bytes room (c ∷ s) =
    let rest = take_bytes (room - utf8_width c) s in
    if ltb room (utf8_width c) then [] else c ∷ rest

abbrev pub or_default : Text → Text
or_default [] = text "crawl processing failed"
or_default (c ∷ s) = c ∷ s

unfoldable pub bounded_summary : Text → Text
bounded_summary summary = or_default (take_bytes 1024 (trim summary))

abbrev pub observation_reason : CaptureUnavailableReason → CrawlObservationUnavailableReason
observation_reason Response.not_captured = Observation.not_captured
observation_reason Response.not_applicable = Observation.not_applicable
observation_reason Response.timed_out = Observation.timed_out
observation_reason Response.connection_failed = Observation.connection_failed
observation_reason Response.invalid = Observation.invalid

abbrev pub parser_reason : CaptureUnavailableReason → Parser.UnavailableReason
parser_reason Response.not_captured = Parser.not_captured
parser_reason Response.not_applicable = Parser.unsupported
parser_reason Response.invalid = Parser.invalid
parser_reason Response.timed_out = Parser.not_captured
parser_reason Response.connection_failed = Parser.not_captured

abbrev pub certificate_validation : TlsValidation → TlsCertificateValidation
certificate_validation Response.verified = Observation.verified
certificate_validation Response.validation_failed = Observation.failed

unfoldable pub dns_observation :
    Capture DnsCapture → ℕ → Outcome CrawlObservationError CrawlDnsObservation
dns_observation (captured capture) at =
    available_dns (text "crawler_dns_v1") at capture.queried_name capture.addresses
dns_observation (unavailable reason) at =
    unavailable_dns (text "crawler_dns_v1") at (observation_reason reason)

unfoldable pub tls_observation :
    Capture TlsCapture → ℕ → Outcome CrawlObservationError CrawlTlsObservation
tls_observation (captured capture) at =
    available_tls (text "crawler_tls_v1") at (certificate_validation capture.validation)
      capture.protocol capture.cipher_suite capture.certificate_subject capture.certificate_issuer
      capture.subject_alternative_names capture.certificate_not_before capture.certificate_not_after
tls_observation (unavailable reason) at =
    unavailable_tls (text "crawler_tls_v1") at (observation_reason reason)

unfoldable pub parser_dns : (IpAddr → Text) → Capture DnsCapture → ArtifactInput DnsArtifact
parser_dns address_text (captured capture) =
    Parser.captured (record {
      queried_name = capture.queried_name;
      addresses = map address_text capture.addresses;
    })
parser_dns address_text (unavailable reason) = Parser.unavailable (parser_reason reason)

unfoldable pub parser_tls : Capture TlsCapture → ArtifactInput TlsArtifact
parser_tls (captured capture) = Parser.captured (record {
  protocol = capture.protocol;
  cipher_suite = capture.cipher_suite;
  certificate_subject = capture.certificate_subject;
  certificate_issuer = capture.certificate_issuer;
  subject_alternative_names = capture.subject_alternative_names;
})
parser_tls (unavailable reason) = Parser.unavailable (parser_reason reason)

pub data WorkerProcessError : Type 0 where
  repository_not_found repository_unavailable body_size : WorkerProcessError
  failure_error : CrawlFailureError → WorkerProcessError
  snapshot_error : CrawlSnapshotMetadataError → WorkerProcessError
  detection_error : DetectorError → WorkerProcessError
  observation_error : CrawlObservationError → WorkerProcessError

pub record SuccessfulCrawlRecord : Type 0 where
  pub snapshot : CrawlSnapshotMetadata
  pub artifact : Option RawArtifactMetadata
  pub dns_observation : CrawlDnsObservation
  pub tls_observation : CrawlTlsObservation
  pub detections : List Detection
  pub observations : List RuleObservation

pub record PreparedSnapshot : Type 0 where
  pub snapshot : CrawlSnapshotMetadata
  pub persistable_html : Option (List ℕ)
  pub dns_observation : CrawlDnsObservation
  pub tls_observation : CrawlTlsObservation
  pub detections : List Detection
  pub observations : List RuleObservation

-- What the preparation takes from libraries and from the machine: the texts of URLs and addresses,
-- the country of the addresses, the HTML library, the redaction of HTML (none where the body is not
-- UTF-8), and the libraries of the detector.
pub record Toolbox (Value Map : Type 0) : Type 0 where
  pub url_text : Url → Text
  pub address_text : IpAddr → Text
  pub observe_country : List IpAddr → Option CountryObservation
  pub read_html : List ℕ → Option HtmlDocument
  pub redact_html : List ℕ → Option (List ℕ)
  pub json : JsonLibrary Value Map
  pub new_regex : Text → Option Regex

-- `response.headers.get(name)`: the stored names are lowercase.
abbrev pub stored_header : Text → Headers → Option Text
stored_header name headers = value_of (find (λ entry. eq_text entry.0 name) headers)

abbrev pub is_html : Text → Bool
is_html content_type =
    let media_type = trim (before 59 content_type) in
    eq_ignore_ascii_case media_type (text "text/html")
    || eq_ignore_ascii_case media_type (text "application/xhtml+xml")

abbrev pub redacted_if_html : Option Text → Option (List ℕ) → Option (List ℕ)
redacted_if_html none redacted = none
redacted_if_html (some content_type) redacted = if is_html content_type then redacted else none

abbrev pub html_input : Option (List ℕ) → ArtifactInput (List ℕ)
html_input none = Parser.unavailable Parser.not_captured
html_input (some html) = Parser.captured html

module _ {Value Map : Type 0} (tools : Toolbox Value Map) where
  unfoldable pub sanitized_html_for_storage : CrawlResponse → Option (List ℕ)
  sanitized_html_for_storage response =
      redacted_if_html (stored_header (text "content-type") response.headers)
        (tools.redact_html response.body)

  unfoldable pub redirect_metadata :
      CrawlRedirect → Outcome CrawlSnapshotMetadataError CrawlRedirectMetadata
  redirect_metadata hop = new_redirect (tools.url_text hop.from) (tools.url_text hop.to) hop.status

  unfoldable pub redirects_metadata :
      List CrawlRedirect → Outcome CrawlSnapshotMetadataError (List CrawlRedirectMetadata)
  redirects_metadata [] = ok []
  redirects_metadata (hop ∷ rest) = do
    first ← redirect_metadata hop
    later ← redirects_metadata rest
    ok (first ∷ later)

  unfoldable pub parsed_of : CrawlResponse → ParsedArtifacts
  parsed_of response = parse tools.read_html (record {
    html = html_input (sanitized_html_for_storage response);
    headers = Parser.captured response.headers;
    dns = parser_dns tools.address_text response.dns;
    tls = parser_tls response.tls;
  })

  unfoldable pub snapshot_from_response :
      Url
      → CrawlResponse
      → ℕ
      → List (ActiveDetectionRule Value)
      → Outcome WorkerProcessError PreparedSnapshot
  snapshot_from_response requested response captured_at rules = do
    hops ← map_err snapshot_error (redirects_metadata response.redirects)
    size ← if ltb (length response.body) (2 ^ 64) then ok (length response.body) else err body_size
    dns ← map_err observation_error (dns_observation response.dns captured_at)
    tls ← map_err observation_error (tls_observation response.tls captured_at)
    evaluated ←
        map_err detection_error
          (evaluate_active tools.json tools.new_regex (parsed_of response) rules)
    snapshot ← map_err snapshot_error (
        new_snapshot (tools.url_text requested) (tools.url_text response.final_url) hops
          response.status response.headers size captured_at)
    ok (record {
      snapshot = record snapshot {
        country_observation = tools.observe_country response.resolved_addresses;
      };
      persistable_html = sanitized_html_for_storage response;
      dns_observation = dns;
      tls_observation = tls;
      detections = evaluated.detections;
      observations = evaluated.observations;
    })
