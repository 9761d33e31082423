-- ===== src/Crawler/Response.antt =====
-- The responses and the errors of the crawler, and what it takes from the network.
use tech_atlas.Prelude.{ℕ, Bool, true, false, ◌&&◌, Option, List, leb, ltb, Outcome}
use tech_atlas.Prelude.Text.{Text}
use tech_atlas.Crawler.Address.{
  IpAddr, DnsResolverError, DnsSafetyError, resolution, dns_timeout, blocked_address,
}
use tech_atlas.Crawler.Url.{Url, UrlLibrary, CrawlUrlError}
use tech_atlas.Crawler.Transport.{
  HttpTransportError, transport_cancelled, request, too_large, failed, HttpResponse, Headers,
}
use tech_atlas.Crawler.Robots.{RobotsParseError}

pub data CaptureUnavailableReason : Type 0 where
  not_captured not_applicable timed_out connection_failed invalid : CaptureUnavailableReason

pub data Capture (A : Type 0) : Type 0 where
  captured : A → Capture A
  unavailable : CaptureUnavailableReason → Capture A

pub record DnsCapture : Type 0 where
  pub queried_name : Text
  pub addresses : List IpAddr

pub data TlsValidation : Type 0 where
  verified validation_failed : TlsValidation

pub record TlsCapture : Type 0 where
  pub validation : TlsValidation
  pub protocol : Option Text
  pub cipher_suite : Option Text
  pub certificate_subject : Option Text
  pub certificate_issuer : Option Text
  pub subject_alternative_names : List Text
  pub certificate_not_before : Option ℕ
  pub certificate_not_after : Option ℕ

pub record CrawlRedirect : Type 0 where
  pub from : Url
  pub to : Url
  pub status : ℕ

pub record CrawlResponse : Type 0 where
  pub final_url : Url
  pub resolved_addresses : List IpAddr
  pub redirects : List CrawlRedirect
  pub status : ℕ
  pub headers : Headers
  pub body : List ℕ
  pub dns : Capture DnsCapture
  pub tls : Capture TlsCapture

-- What ends a select with a timeout in it.
pub data Race (A : Type 0) : Type 0 where
  cancelled_first elapsed : Race A
  answered : A → Race A

-- What the crawler takes from the system: whether it was cancelled before a call, the resolver,
-- the transport (`none` when the cancellation came first), the TLS handshake of an address with
-- and without verification, how the probe of the handshakes ended, and `from_utf8`.
pub record Network : Type 0 where
  pub library : UrlLibrary
  pub resolve : ℕ → Text → Race (Outcome DnsResolverError (List IpAddr))
  pub get : ℕ → Url → ℕ → Option (Outcome HttpTransportError HttpResponse)
  pub tls_handshake : Text → IpAddr → ℕ → Bool → Option TlsCapture
  pub probe_end : ℕ → Race (Unit {0})
  pub from_utf8 : List ℕ → Option Text

mutual
  pub data CrawlError : Type 0 where
    cancelled timeout missing_redirect_location : CrawlError
    dns_error : DnsSafetyError → CrawlError
    transport : HttpTransportError → CrawlError
    response_too_large : ℕ → ℕ → CrawlError
    redirect_limit_exceeded : ℕ → CrawlError
    invalid_redirect_target : CrawlUrlError → CrawlError
    robots_denied : Url → CrawlError
    robots_unavailable : RobotsReason → CrawlError

  -- What the source renders as the reason's text.
  pub data RobotsReason : Type 0 where
    no_robots_url : CrawlUrlError → RobotsReason
    fetch_failed : CrawlError → RobotsReason
    robots_status : ℕ → RobotsReason
    not_utf8 : RobotsReason
    unreadable : RobotsParseError → RobotsReason

unfoldable pub is_retryable : CrawlError → Bool
is_retryable (dns_error (resolution e)) = true
is_retryable (dns_error dns_timeout) = true
is_retryable timeout = true
is_retryable (transport (request is_timeout)) = true
is_retryable (transport (failed message)) = true
is_retryable (robots_unavailable reason) = true
is_retryable _ = false

abbrev pub is_redirect : ℕ → Bool
is_redirect status = leb 300 status && ltb status 400

unfoldable pub map_transport_error : HttpTransportError → CrawlError
map_transport_error transport_cancelled = cancelled
map_transport_error (request true) = timeout
map_transport_error (request false) = transport (request false)
map_transport_error (too_large limit observed) = response_too_large limit observed
map_transport_error (failed message) = transport (failed message)

unfoldable pub map_robots_fetch_error : CrawlError → CrawlError
map_robots_fetch_error cancelled = cancelled
map_robots_fetch_error (dns_error (blocked_address host address)) =
    dns_error (blocked_address host address)
map_robots_fetch_error other = robots_unavailable (fetch_failed other)
