-- ===== src/Crawler/Fetch.antt =====
-- `Crawler`: the guarded fetch of a page and of its robots.txt. What the network answers is a
-- parameter, `Network`: it is asked at a turn of the loop, so that a second question may have
-- another answer.
pub mod Safety
use mathlib.Core.Option
use tech_atlas.Prelude.{
  ℕ, zero, suc, ◌+◌, Bool, true, false, not, ◌&&◌, ◌||◌, Option, none, some, List, [], ◌∷◌, ◌++◌,
  leb, ltb, ◌==◌, if◌then◌else◌, take, length, String, Outcome, ok, err, ◌>>=◌, ◌>>◌, refuse_if,
  ok_or, map_err,
}
use tech_atlas.Prelude.Text.{Text, text, eq_text}
use tech_atlas.Prelude.Sort.{sort_by}
use tech_atlas.Crawler.Config.{CrawlerConfig}
use tech_atlas.Crawler.Address.{
  IpAddr, DnsResolverError, DnsSafetyError, resolution, dns_timeout, blocked_address,
  validate_addresses, ip_before, dedup,
}
use tech_atlas.Crawler.Url.{Url, UrlLibrary, CrawlUrlError, host_name, robots_url, redirect_target}
use tech_atlas.Crawler.Transport.{
  HttpTransportError, transport_cancelled, request, too_large, failed, HttpResponse, Headers,
  header,
}
use tech_atlas.Crawler.Robots.{RobotsRule, RobotsParseError, parse_robots, allows}
use tech_atlas.Crawler.Response.{
  CaptureUnavailableReason, not_captured, not_applicable, timed_out, connection_failed, invalid,
  Capture, captured, unavailable, DnsCapture, TlsValidation, TlsCapture, CrawlRedirect,
  CrawlResponse, Race, cancelled_first, elapsed, answered, Network, CrawlError, cancelled, timeout,
  missing_redirect_location, dns_error, transport, response_too_large, redirect_limit_exceeded,
  invalid_redirect_target, robots_denied, robots_unavailable, RobotsReason, no_robots_url,
  fetch_failed, robots_status, not_utf8, unreadable, is_redirect, map_transport_error,
  map_robots_fetch_error,
}

abbrev pub resolved :
    Race (Outcome DnsResolverError (List IpAddr)) → Outcome CrawlError (List IpAddr)
resolved cancelled_first = err cancelled
resolved elapsed = err (dns_error dns_timeout)
resolved (answered result) = map_err (λ e. dns_error (resolution e)) result

abbrev pub got : Option (Outcome HttpTransportError HttpResponse) → Outcome CrawlError HttpResponse
got none = err cancelled
got (some result) = map_err map_transport_error result

unfoldable pub validate_target :
    Network → CrawlerConfig → ℕ → Url → Outcome CrawlError (List IpAddr)
validate_target net config turn target = do
  addresses ← resolved (net.resolve turn (host_name target.host))
  map_err dns_error (validate_addresses (host_name target.host) addresses)
  ok (take config.dns_max_addresses (dedup (sort_by ip_before addresses)))

-- `get_or_insert` of the first unverified handshake.
abbrev pub or_insert : Option TlsCapture → Option TlsCapture → Option TlsCapture
or_insert none new = new
or_insert (some old) new = some old

abbrev pub fallback_capture : Option TlsCapture → Capture TlsCapture
fallback_capture none = unavailable connection_failed
fallback_capture (some capture) = captured capture

-- The loop over the candidates: a verified handshake ends it.
unfoldable pub probe_tls :
    (IpAddr → Bool → Option TlsCapture) → List IpAddr → Option TlsCapture → Capture TlsCapture
probe_tls handshake [] fallback = fallback_capture fallback
probe_tls handshake (a ∷ rest) fallback =
    let next = probe_tls handshake rest (or_insert fallback (handshake a false)) in
    elim (handshake a true) [ none ↦ next | some capture ↦ captured capture ]

-- `port_or_known_default().unwrap_or(443)`, called for "https" alone.
abbrev pub https_port : Option ℕ → ℕ
https_port none = 443
https_port (some port) = port

abbrev pub ended_probe : Race (Unit {0}) → Capture TlsCapture → Capture TlsCapture
ended_probe cancelled_first capture = unavailable connection_failed
ended_probe elapsed capture = unavailable timed_out
ended_probe (answered u) capture = capture

abbrev pub is_no_address : List IpAddr → Bool
is_no_address [] = true
is_no_address (a ∷ rest) = false

unfoldable pub capture_tls :
    Network → CrawlerConfig → Bool → ℕ → Url → List IpAddr → Capture TlsCapture
capture_tls net config tls_enabled turn target addresses =
    let candidates = take config.tls_max_addresses addresses in
    let port = https_port target.port in
    if not tls_enabled
    then unavailable not_captured
    else if not (eq_text target.scheme (text "https"))
    then unavailable not_applicable
    else if is_no_address candidates
    then unavailable invalid
    else ended_probe (net.probe_end turn) (
        probe_tls (λ a verify. net.tls_handshake (host_name target.host) a port verify) candidates
          none)

-- The end of the loop: the response and the facts that are captured beside it.
unfoldable pub finish_fetch :
    Network
    → CrawlerConfig
    → Bool
    → Bool
    → ℕ
    → Url
    → List CrawlRedirect
    → List IpAddr
    → HttpResponse
    → CrawlResponse
finish_fetch net config tls_enabled facts turn target redirects addresses response = record {
  final_url = target;
  resolved_addresses = addresses;
  redirects = redirects;
  status = response.status;
  headers = response.headers;
  body = response.body;
  dns =
      if facts
      then captured (record { queried_name = host_name target.host; addresses = addresses })
      else unavailable not_captured;
  tls =
      if facts
      then capture_tls net config tls_enabled turn target addresses
      else unavailable not_captured;
}

-- One turn of the loop. `follow` is what a redirect leads to.
unfoldable pub fetch_turn :
    Network
    → CrawlerConfig
    → Bool
    → Bool
    → ℕ
    → Url
    → List CrawlRedirect
    → (HttpResponse → Outcome CrawlError CrawlResponse)
    → Outcome CrawlError CrawlResponse
fetch_turn net config tls_enabled facts turn target redirects follow = do
  addresses ← validate_target net config turn target
  response ← got (net.get turn target config.max_response_bytes)
  refuse_if (ltb config.max_response_bytes (length response.body))
      (response_too_large config.max_response_bytes (length response.body))
  if is_redirect response.status
      then follow response
      else ok (finish_fetch net config tls_enabled facts turn target redirects addresses response)

unfoldable pub next_target : Network → Url → HttpResponse → Outcome CrawlError Url
next_target net target response = do
  location ← ok_or (header response (text "location")) missing_redirect_location
  map_err invalid_redirect_target (redirect_target net.library target location)

-- The loop. `left` is `max_redirects - redirects`, so `redirects >= max_redirects` is `zero`.
unfoldable pub fetch_from :
    Network
    → CrawlerConfig
    → Bool
    → Bool
    → ℕ
    → ℕ
    → Url
    → List CrawlRedirect
    → Outcome CrawlError CrawlResponse
fetch_from net config tls_enabled facts zero turn target redirects =
    fetch_turn net config tls_enabled facts turn target redirects
      (λ response. err (redirect_limit_exceeded config.max_redirects))
fetch_from net config tls_enabled facts (suc left) turn target redirects =
    fetch_turn net config tls_enabled facts turn target redirects (λ response. do
      next ← next_target net target response
      fetch_from net config tls_enabled facts left (suc turn) next
          (redirects ++ record { from = target; to = next; status = response.status } ∷ []))

unfoldable pub fetch_unchecked :
    Network → CrawlerConfig → Bool → Bool → ℕ → Url → Outcome CrawlError CrawlResponse
fetch_unchecked net config tls_enabled facts turn initial =
    fetch_from net config tls_enabled facts config.max_redirects turn initial []

-- The policy that a response to the request for robots.txt stands for.
unfoldable pub read_robots :
    Network → CrawlerConfig → CrawlResponse → Outcome CrawlError (List RobotsRule)
read_robots net config response = if response.status == 404 then ok [] else (do
  refuse_if (not (leb 200 response.status && ltb response.status 300))
      (robots_unavailable (robots_status response.status))
  content ← ok_or (net.from_utf8 response.body) (robots_unavailable not_utf8)
  map_err (λ e. robots_unavailable (unreadable e)) (parse_robots config.robots_user_agent content))

-- `robots_policy`, at the turn at which it is asked. `is_cancelled` is read at the start.
unfoldable pub robots_policy :
    Network → CrawlerConfig → Bool → Bool → ℕ → Url → Outcome CrawlError (List RobotsRule)
robots_policy net config tls_enabled is_cancelled turn target = do
  refuse_if is_cancelled cancelled
  robots ← map_err (λ e. robots_unavailable (no_robots_url e)) (robots_url target)
  response ←
      map_err map_robots_fetch_error (fetch_unchecked net config tls_enabled false turn robots)
  read_robots net config response

-- `fetch`. The turns of the page come after those of robots.txt, at most `max_redirects + 1`.
unfoldable pub fetch :
    Network → CrawlerConfig → Bool → Bool → Bool → Url → Outcome CrawlError CrawlResponse
fetch net config tls_enabled is_cancelled is_cancelled_later target = do
  refuse_if is_cancelled cancelled
  rules ← robots_policy net config tls_enabled is_cancelled_later 0 target
  refuse_if (not (allows rules target)) (robots_denied target)
  fetch_unchecked net config tls_enabled true (suc config.max_redirects) target
