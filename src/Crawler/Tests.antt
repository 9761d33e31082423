-- ===== src/Crawler/Tests.antt =====
-- The crawler's theorems at a small site.
use tech_atlas.Prelude.{
  ℕ, ◌+◌, ◌-◌, ◌*◌, ◌==◌, if◌then◌else◌, ◌^◌, ◌≤◌, ◌<◌, ◌≡◌, ◌↔◌, ◌⊎◌, refl, Bool, true, false, not,
  ◌&&◌, ◌||◌, Option, none, some, List, [], ◌∷◌, ◌++◌, arith, Outcome, ok, err, any, length, All,
}
use tech_atlas.Prelude.Text.{
  Text, text, eq_text, to_ascii_lowercase, lower, trim, is_empty, split, strip_last, ends_with,
}
use tech_atlas.Prelude.Sort.{sort_by}
use tech_atlas.Crawler.Config.{default_config, full_user_agent, validate, validate_iff}
use tech_atlas.Crawler.Address.{
  v4, is_public_address, validate_addresses, dedup, is_public_ipv4, is_public_ipv6,
}
use tech_atlas.Crawler.Address.Blocks.{
  in_block, ip4, blocked_ipv4, blocked_ipv6, mapped_blocks, is_public_ipv4_iff, is_public_ipv6_iff,
}
use tech_atlas.Crawler.Url.{
  Url, domain_host, from_url, robots_url, redirect_target, host_name, IsCrawlable, from_url_iff,
}
use tech_atlas.Crawler.Transport.{
  HttpResponse, header, Exchange, chunk, transport_get, HttpTransportError, KeptSafe,
  transport_get-bounded,
}
use tech_atlas.Crawler.Robots.{RobotsRule, allows, winner_after, robots_pattern_matches, full_path}
use tech_atlas.Crawler.Robots.Priority.{applies, allows_at, longest, allows_iff}
use tech_atlas.Crawler.Robots.Pattern.{
  HasSegments, IsGlob, robots_pattern_matches_sound, robots_pattern_matches_complete,
}
use tech_atlas.Crawler.Response.{
  Network, answered, unavailable, not_captured, CrawlResponse, CrawlError,
}
use tech_atlas.Crawler.Fetch.{
  fetch_unchecked, fetch_from, fetch_turn, next_target, validate_target, read_robots, finish_fetch,
  capture_tls, fetch, robots_policy,
}
use tech_atlas.Crawler.Fetch.Safety.{IsSafe, fetch-IsSafe}

abbrev any_header : Text → Bool
any_header value = true

validate_iff_example : (validate any_header default_config ≡ ok tt) ↔ (
    (is_empty (trim default_config.user_agent) ≡ false)
    × (any_header (full_user_agent default_config) ≡ true)
    × (is_empty (trim default_config.robots_user_agent) ≡ false)
    × (is_empty (trim default_config.contact) ≡ false)
    × (0 < default_config.connect_timeout)
    × (0 < default_config.read_timeout)
    × (0 < default_config.total_timeout)
    × (0 < default_config.dns_timeout)
    × (0 < default_config.tls_timeout)
    × (0 < default_config.max_redirects)
    × (0 < default_config.tls_max_addresses)
    × (0 < default_config.dns_max_addresses)
    × (0 < default_config.max_response_bytes)
    × (0 < default_config.politeness_delay))
validate_iff_example = validate_iff any_header default_config

is_public_ipv4_iff_example :
    is_public_ipv4 192 2 3 4 ≡ not (any (in_block (ip4 192 2 3 4)) blocked_ipv4)
is_public_ipv4_iff_example =
    is_public_ipv4_iff 192 2 3 4 (omega arith) (omega arith) (omega arith) (omega arith)

-- ::ffff:10.0.0.1
abbrev mapped_private : ℕ
mapped_private = 0xffff0a000001

is_public_ipv6_iff_example :
    is_public_ipv6 mapped_private
    ≡ not (
        any (in_block mapped_private) blocked_ipv6
        || any (in_block mapped_private) (mapped_blocks blocked_ipv4))
is_public_ipv6_iff_example = is_public_ipv6_iff mapped_private (omega arith)

abbrev page : Url
page = record {
  scheme = text "https";
  username = [];
  password = none;
  host = some (domain_host (text "a.org"));
  port = none;
  path = text "/b/c";
  query = none;
  fragment = none;
}

abbrev home : Url
home = record page { path = text "/" }

from_url_iff_example : (from_url page ≡ ok page) ↔ ((page ≡ page) × IsCrawlable page)
from_url_iff_example = from_url_iff page page

abbrev exchange : Exchange
exchange = record {
  status = 200;
  content_length = some 2;
  raw_headers = (text "Cookie", some (text "x")) ∷ (text "Server", some (text "y")) ∷ [];
  chunks = chunk (65 ∷ []) ∷ chunk (66 ∷ []) ∷ [];
}

abbrev response_of : Outcome HttpTransportError HttpResponse → HttpResponse
response_of (ok response) = response
response_of (err e) = record { status = 0; headers = []; body = [] }

abbrev received : HttpResponse
received = response_of (transport_get 4 (ok exchange))

received_ok : transport_get 4 (ok exchange) ≡ ok received
unfolding transport_get tech_atlas.Crawler.Transport.read_body
received_ok = refl

transport_get-bounded_example : (length received.body ≤ 4) × All KeptSafe received.headers
transport_get-bounded_example = transport_get-bounded 4 (ok exchange) (omega arith) received_ok

abbrev rules : List RobotsRule
rules =
    record { pattern = text "/b"; allow = false }
    ∷ record { pattern = text "/b/*"; allow = true }
    ∷ []

allows_iff_example : allows rules page ≡ (
    not (any (applies (full_path page)) rules)
    || any (allows_at (full_path page) (longest (full_path page) rules)) rules)
allows_iff_example = allows_iff rules page

matched : robots_pattern_matches (text "/b*c$") (text "/b/c") ≡ true
unfolding robots_pattern_matches tech_atlas.Crawler.Robots.match_first split strip_last
    tech_atlas.Prelude.Text.starts_with tech_atlas.Crawler.Robots.match_segments
    tech_atlas.Prelude.Text.find_text ends_with
matched = refl

robots_pattern_matches_sound_example :
    (rest : Text) × IsGlob (split 42 (strip_last 36 (text "/b*c$"))) (text "/b/c") rest
    × (((not (ends_with 36 (text "/b*c$")) || ends_with 42 (strip_last 36 (text "/b*c$"))) ≡ true)
        ⊎ (rest ≡ []))
robots_pattern_matches_sound_example =
    robots_pattern_matches_sound (text "/b*c$") (text "/b/c") matched

plain : ends_with 36 (text "/b*c") ≡ false
unfolding ends_with
plain = refl

stands : IsGlob (split 42 (strip_last 36 (text "/b*c"))) (text "/b/cd") (text "d")
unfolding IsGlob HasSegments split strip_last
stands = (text "/cd", refl, (text "/", text "d", refl, refl))

robots_pattern_matches_complete_example : robots_pattern_matches (text "/b*c") (text "/b/cd") ≡ true
robots_pattern_matches_complete_example =
    robots_pattern_matches_complete (text "/b*c") (text "/b/cd") (text "d") plain stands

-- The greedy search for the last segment misses a later occurrence at the end.
anchored_misses : robots_pattern_matches (text "/*b$") (text "/bab") ≡ false
unfolding robots_pattern_matches tech_atlas.Crawler.Robots.match_first split strip_last
    tech_atlas.Prelude.Text.starts_with tech_atlas.Crawler.Robots.match_segments
    tech_atlas.Prelude.Text.find_text ends_with
anchored_misses = refl

-- A site without robots.txt that redirects its page to its home.
abbrev answer : ℕ → Url → ℕ → Option (Outcome HttpTransportError HttpResponse)
answer turn url limit =
    if turn == 0
    then some (ok (record { status = 404; headers = []; body = [] }))
    else if turn == 11
    then some (ok (record { status = 301; headers = (text "location", text "/") ∷ []; body = [] }))
    else some (ok (record { status = 200; headers = []; body = 65 ∷ [] }))

abbrev site : Network
site = record {
  library = record { parse_url = λ input. some page; join = λ url location. some home };
  resolve = λ turn host. answered (ok (v4 93 184 216 34 ∷ []));
  get = answer;
  tls_handshake = λ host address port verify. none;
  probe_end = λ turn. answered tt;
  from_utf8 = λ bytes. some bytes;
}

abbrev nothing : CrawlResponse
nothing = record {
  final_url = page;
  resolved_addresses = [];
  redirects = [];
  status = 0;
  headers = [];
  body = [];
  dns = unavailable not_captured;
  tls = unavailable not_captured;
}

abbrev reply_of : Outcome CrawlError CrawlResponse → CrawlResponse
reply_of (ok r) = r
reply_of (err e) = nothing

abbrev reply : CrawlResponse
reply = reply_of (fetch site default_config true false false page)

reply_ok : fetch site default_config true false false page ≡ ok reply
unfolding fetch robots_policy robots_url from_url eq_text to_ascii_lowercase lower fetch_unchecked
    fetch_from fetch_turn next_target redirect_target header validate_target validate_addresses
    is_public_address is_public_ipv4 read_robots finish_fetch capture_tls allows winner_after
    host_name sort_by dedup
reply_ok = refl

fetch-IsSafe_example :
    ((rs : List RobotsRule) × (robots_policy site default_config true false 0 page ≡ ok rs)
      × (allows rs page ≡ true))
    × IsSafe site default_config page 10 reply
fetch-IsSafe_example = fetch-IsSafe site default_config true false false page reply_ok
