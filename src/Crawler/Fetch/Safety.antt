-- ===== src/Crawler/Fetch/Safety.antt =====
-- What a successful fetch guarantees.
use tech_atlas.Prelude.{
  ℕ, zero, suc, ◌+◌, ◌≤◌, ◌≡◌, refl, Bool, true, false, not, List, [], ◌∷◌, ◌++◌, ltb, take, length,
  Outcome, ok, err, refuse_if, ok_or, map_err, All, some, none, Option, sym, ok-injective,
  map_err-eq-ok, length-append, length-take, after_ok, arith, Bool-cases, inl, inr,
}
use tech_atlas.Prelude.Text.{text}
use tech_atlas.Prelude.Sort.{sort_by}
use tech_atlas.Crawler.Config.{CrawlerConfig}
use tech_atlas.Crawler.Address.{
  IpAddr, DnsResolverError, is_public_address, validate_addresses, ip_before, dedup,
}
use tech_atlas.Crawler.Address.Blocks.{validate_addresses-All}
use tech_atlas.Crawler.Url.{Url, IsCrawlable, from_url_iff, host_name, redirect_target, invalid_url}
use tech_atlas.Crawler.Transport.{HttpResponse, HttpTransportError, header}
use tech_atlas.Crawler.Robots.{RobotsRule, allows}
use tech_atlas.Crawler.Response.{
  Race, cancelled_first, elapsed, answered, Network, CrawlError, cancelled, response_too_large,
  robots_denied, dns_error, missing_redirect_location, invalid_redirect_target, CrawlRedirect,
  CrawlResponse, is_redirect,
}
use tech_atlas.Crawler.Fetch.{
  resolved, got, validate_target, finish_fetch, fetch_turn, next_target, fetch_from,
  fetch_unchecked, robots_policy, fetch,
}

-- What is asked for at a turn: the host of this very URL was resolved, all that was found is public,
-- the addresses are the first of it in order, and the request for the URL had this answer.
abbrev pub IsFetched : Network → CrawlerConfig → ℕ → Url → List IpAddr → HttpResponse → Type 0
IsFetched net config turn url addresses response =
    ((found : List IpAddr) × (net.resolve turn (host_name url.host) ≡ answered (ok found))
      × All (λ a. is_public_address a ≡ true) found
      × (addresses ≡ take config.dns_max_addresses (dedup (sort_by ip_before found))))
    × (net.get turn url config.max_response_bytes ≡ some (ok response))

-- A redirect is the answer of a URL that was fetched, and leads to the crawlable URL that its
-- location tells.
abbrev pub IsHop : Network → CrawlerConfig → CrawlRedirect → Type 0
IsHop net config r =
    (is_redirect r.status ≡ true)
    × IsCrawlable r.to
    × ((turn : ℕ) × (addresses : List IpAddr) × (response : HttpResponse) × IsFetched net config
          turn r.from addresses response
        × (response.status ≡ r.status)
        × (next_target net r.from response ≡ ok r.to))

-- The redirects lead from one URL to another, each from where the one before led.
unfoldable pub IsTrail : Network → CrawlerConfig → Url → List CrawlRedirect → Url → Type 0
IsTrail net config initial [] final = initial ≡ final
IsTrail net config initial (r ∷ rest) final =
    (r.from ≡ initial) × IsHop net config r × IsTrail net config r.to rest final

snoc-IsTrail :
    (net : Network) (config : CrawlerConfig) (initial target : Url) (redirects : List CrawlRedirect)
    (r : CrawlRedirect)
    → IsTrail net config initial redirects target
    → r.from ≡ target
    → IsHop net config r
    → IsTrail net config initial (redirects ++ r ∷ []) r.to
unfolding IsTrail
snoc-IsTrail net config initial target [] r trail e hop = (rw trail e, hop, refl)
snoc-IsTrail net config initial target (q ∷ rest) r (from, web, trail) e hop =
    (from, web, snoc-IsTrail net config q.to target rest r trail e hop)

-- What one turn that ends the loop has checked: its response is the one that its final URL gave.
abbrev pub IsGuarded : Network → CrawlerConfig → CrawlResponse → Type 0
IsGuarded net config r =
    ((turn : ℕ) × (response : HttpResponse) × IsFetched net config turn r.final_url
        r.resolved_addresses response
      × (r.status ≡ response.status)
      × (r.headers ≡ response.headers)
      × (r.body ≡ response.body))
    × (length r.resolved_addresses ≤ config.dns_max_addresses)
    × (length r.body ≤ config.max_response_bytes)
    × (is_redirect r.status ≡ false)

-- What a fetch from a URL guarantees about its response.
abbrev pub IsSafe : Network → CrawlerConfig → Url → ℕ → CrawlResponse → Type 0
IsSafe net config initial limit r =
    IsGuarded net config r
    × (length r.redirects ≤ limit)
    × IsTrail net config initial r.redirects r.final_url

resolved-eq-ok :
    (answer : Race (Outcome DnsResolverError (List IpAddr))) {found : List IpAddr}
    → resolved answer ≡ ok found
    → answer ≡ answered (ok found)
resolved-eq-ok cancelled_first h = absurd (cc h)
resolved-eq-ok elapsed h = absurd (cc h)
resolved-eq-ok (answered (ok found)) h = ground (arith, h)
resolved-eq-ok (answered (err e)) h = absurd (cc h)

got-eq-ok :
    (answer : Option (Outcome HttpTransportError HttpResponse)) {response : HttpResponse}
    → got answer ≡ ok response
    → answer ≡ some (ok response)
got-eq-ok none h = absurd (cc h)
got-eq-ok (some (ok response)) h = ground (arith, h)
got-eq-ok (some (err e)) h = absurd (cc h)

module _ (net : Network) (config : CrawlerConfig) (tls_enabled facts : Bool) where
  fetched :
      (turn : ℕ) (target : Url) {addresses : List IpAddr} {response : HttpResponse}
      → validate_target net config turn target ≡ ok addresses
      → got (net.get turn target config.max_response_bytes) ≡ ok response
      → IsFetched net config turn target addresses response
  unfolding validate_target
  fetched turn target {addresses} h k =
      after_ok (resolved (net.resolve turn (host_name target.host))) _ h λ found known h₁.
        after_ok (map_err dns_error (validate_addresses (host_name target.host) found)) _ h₁
          λ _ checked same.
            let public =
              validate_addresses-All (host_name target.host) found
                (map_err-eq-ok dns_error _ checked) in
            ((found, resolved-eq-ok _ known, public, sym (ok-injective same)), got-eq-ok _ k)

  few_addresses :
      (turn : ℕ) (target : Url) {addresses : List IpAddr} {response : HttpResponse}
      → IsFetched net config turn target addresses response
      → length addresses ≤ config.dns_max_addresses
  few_addresses turn target ((found, known, public, same), answer) =
      rw same
        (omega (arith, length-take config.dns_max_addresses (dedup (sort_by ip_before found))))

  -- A turn ends the loop with a guarded response, or follows a redirect.
  after_turn :
      {R : Type 0} (turn : ℕ) (target : Url) (redirects : List CrawlRedirect)
      (follow : HttpResponse → Outcome CrawlError CrawlResponse) {r : CrawlResponse}
      → fetch_turn net config tls_enabled facts turn target redirects follow ≡ ok r
      → (IsGuarded net config r → r.final_url ≡ target → r.redirects ≡ redirects → R)
      → ((addresses : List IpAddr) (response : HttpResponse)
          → IsFetched net config turn target addresses response
          → is_redirect response.status ≡ true
          → follow response ≡ ok r
          → R)
      → R
  unfolding fetch_turn finish_fetch
  after_turn turn target redirects follow {r} h stop go =
      after_ok (validate_target net config turn target) _ h λ addresses found h₁.
        after_ok (got (net.get turn target config.max_response_bytes)) _ h₁ λ response answer h₂.
          after_ok
            (refuse_if (ltb config.max_response_bytes (length response.body))
              (response_too_large config.max_response_bytes (length response.body)))
            _ h₂
            λ _ small h₃.
              let safe = fetched turn target found answer in
              elim (Bool-cases (is_redirect response.status)) [
                | inl moved ↦ go addresses response safe moved (rw moved at h₃)
                | inr here ↦
                    let same : finish_fetch net config tls_enabled facts turn target redirects
                          addresses response
                        ≡ r =
                      ground (arith, rw here at h₃) in
                    let fits : length response.body ≤ config.max_response_bytes = ground arith in
                    stop
                      (rw (← same) (
                        (turn, response, safe, refl, refl, refl),
                        few_addresses turn target safe,
                        fits,
                        here,
                      ))
                      (rw (← same) refl) (rw (← same) refl)
              ]

  next_target-IsCrawlable :
      (target : Url) (response : HttpResponse) {next : Url}
      → next_target net target response ≡ ok next
      → IsCrawlable next
  unfolding next_target redirect_target
  next_target-IsCrawlable target response {next} h =
      after_ok (ok_or (header response (text "location")) missing_redirect_location) _ h
        λ location _ h₁.
          after_ok (ok_or (net.library.join target location) invalid_url) _
            (map_err-eq-ok invalid_redirect_target (redirect_target net.library target location) h₁)
            λ joined _ h₂. let (same, web) = (from_url_iff joined next).0 h₂ in rw same web

  fetch_from-IsSafe :
      (initial : Url) (left turn : ℕ) (target : Url) (redirects : List CrawlRedirect)
      {r : CrawlResponse}
      → IsTrail net config initial redirects target
      → fetch_from net config tls_enabled facts left turn target redirects ≡ ok r
      → IsSafe net config initial (length redirects + left) r
  unfolding fetch_from
  fetch_from-IsSafe initial zero turn target redirects {r} trail h =
      after_turn turn target redirects _ h
        (λ guarded final same. (guarded, rw same (omega arith), rw (final, same) trail))
        (λ addresses response safe moved ended. absurd (cc ended))
  fetch_from-IsSafe initial (suc left) turn target redirects {r} trail h =
      after_turn turn target redirects _ h
        (λ guarded final same. (guarded, rw same (omega arith), rw (final, same) trail))
        (λ addresses response safe moved followed.
          after_ok (next_target net target response) _ followed λ next found more.
            let hop : CrawlRedirect = record {
              from = target;
              to = next;
              status = response.status;
            } in
            let longer = snoc-IsTrail net config initial target redirects hop trail refl (
              moved,
              next_target-IsCrawlable target response found,
              (turn, addresses, response, safe, refl, found),
            ) in
            let (guarded, bounded, led) =
              fetch_from-IsSafe initial left (suc turn) next (redirects ++ hop ∷ []) longer more in
            (guarded, omega (arith, bounded, length-append redirects (hop ∷ [])), led))

  -- What `fetch_unchecked` guarantees, for a page and for a robots.txt.
  pub fetch_unchecked-IsSafe :
      (turn : ℕ) (initial : Url) {r : CrawlResponse}
      → fetch_unchecked net config tls_enabled facts turn initial ≡ ok r
      → IsSafe net config initial config.max_redirects r
  unfolding fetch_unchecked IsTrail
  fetch_unchecked-IsSafe turn initial h =
      let (guarded, bounded, led) =
        fetch_from-IsSafe initial config.max_redirects turn initial [] refl h in
      (guarded, omega (arith, bounded), led)

-- When `fetch` returns a page, a robots policy was obtained that allows the URL that was asked for;
-- the URLs that redirects lead to are not checked against a policy. Each URL that was requested,
-- the final one and the source of each redirect, had its own host resolved at that turn, to public
-- addresses alone. The page has the status, headers and body that the request for its final URL
-- was answered with, and the addresses that were resolved for it, as many as allowed; its body is
-- within the limit, its status is no redirect, and at most `max_redirects` redirects led there, each
-- from the URL before it to the crawlable URL of its location.
pub fetch-IsSafe :
    (net : Network) (config : CrawlerConfig) (tls_enabled is_cancelled is_cancelled_later : Bool)
    (target : Url) {r : CrawlResponse}
    → fetch net config tls_enabled is_cancelled is_cancelled_later target ≡ ok r
    → ((rules : List RobotsRule) × (robots_policy net config tls_enabled is_cancelled_later 0 target
          ≡ ok rules)
        × (allows rules target ≡ true))
      × IsSafe net config target config.max_redirects r
unfolding fetch
fetch-IsSafe net config tls_enabled is_cancelled is_cancelled_later target h =
    after_ok (refuse_if is_cancelled cancelled) _ h λ _ _ h₁.
      after_ok (robots_policy net config tls_enabled is_cancelled_later 0 target) _ h₁
        λ rules got_rules h₂.
          after_ok (refuse_if (not (allows rules target)) (robots_denied target)) _ h₂
            λ _ allowed h₃. (
              (rules, got_rules, ground arith),
              fetch_unchecked-IsSafe net config tls_enabled true (suc config.max_redirects) target
                  h₃,
            )
