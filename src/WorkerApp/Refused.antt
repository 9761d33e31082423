-- ===== src/WorkerApp/Refused.antt =====
-- A response that cannot be recorded: its delivery ends in an error, and nothing is written.
use tech_atlas.Prelude.{
  ℕ, ◌<◌, ◌^◌, ◌≡◌, refl, ltb, length, if◌then◌else◌, List, any, refuse_if, Outcome, ok, err,
  map_err, map_err-eq-ok, after_ok, arith,
}
use tech_atlas.Prelude.Text.{Text}
use tech_atlas.CrawlJob.{CrawlJobV1}
use tech_atlas.Crawler.Url.{Url, parse_crawl_url, host_name}
use tech_atlas.Crawler.Response.{CrawlResponse}
use tech_atlas.Crawler.Transport.{Headers}
use tech_atlas.Detector.Signals.{ActiveDetectionRule}
use tech_atlas.Detector.Active.{evaluate_active}
use tech_atlas.Observation.{CrawlRedirectMetadata, required_url, validate_status, sensitive_header}
use tech_atlas.Observation.Metadata.{CrawlSnapshotMetadata, new_snapshot, is_sensitive_header}
use tech_atlas.Scheduler.Repository.{RepositoryError}
use tech_atlas.Scheduler.Worker.{ready}
use tech_atlas.Queue.Server.{Server, Network}
use tech_atlas.Queue.Streams.{ReceivedCrawlJob}
use tech_atlas.WorkerApp.{
  WorkerProcessError, PreparedSnapshot, Toolbox, snapshot_from_response, redirects_metadata,
  snapshot_error, observation_error, detection_error, dns_observation, tls_observation, parsed_of,
  body_size,
}
use tech_atlas.WorkerApp.Process.{
  WorkerRepository, Collaborators, of_repository, after_preparation, after_rules, process,
  processing_error, process_and_acknowledge,
}

new_snapshot-status :
    (requested final : Text) (hops : List CrawlRedirectMetadata) (status : ℕ) (headers : Headers)
    (size at : ℕ) (made : CrawlSnapshotMetadata)
    → new_snapshot requested final hops status headers size at ≡ ok made
    → status < 600
unfolding new_snapshot validate_status
new_snapshot-status requested final hops status headers size at made h =
    after_ok (refuse_if (any (λ entry. is_sensitive_header entry.0) headers) sensitive_header) _ h
      λ _ _ h₁. after_ok (required_url "requested URL" requested) _ h₁ λ _ _ h₂.
        after_ok (required_url "final URL" final) _ h₂ λ _ _ h₃.
          after_ok (validate_status status) _ h₃ λ checked valid _. in_range status checked valid
  where
    in_range : (code checked : ℕ) → validate_status code ≡ ok checked → code < 600
    in_range code checked k = ground arith

not_both : (n : ℕ) → n < 600 → 599 < n → ⊥
not_both n h k = omega arith

module _ {S Value Map : Type 0} (tools : Toolbox Value Map)
    (repository : WorkerRepository S Value) where
  snapshot_from_response-status :
      (requested : Url) (response : CrawlResponse) (at : ℕ)
      (rules : List (ActiveDetectionRule Value)) (prepared : PreparedSnapshot)
      → snapshot_from_response tools requested response at rules ≡ ok prepared
      → response.status < 600
  unfolding snapshot_from_response
  snapshot_from_response-status requested response at rules prepared h =
      after_ok (map_err snapshot_error (redirects_metadata tools response.redirects)) _ h
        λ hops _ h₁.
          after_ok
            (if ltb (length response.body) (2 ^ 64)
              then ok (length response.body)
              else err body_size)
            _ h₁
            λ size _ h₂.
              after_ok (map_err observation_error (dns_observation response.dns at)) _ h₂ λ _ _ h₃.
                after_ok (map_err observation_error (tls_observation response.tls at)) _ h₃
                  λ _ _ h₄.
                    after_ok
                      (map_err detection_error (
                        evaluate_active tools.json tools.new_regex (parsed_of tools response)
                          rules))
                      _ h₄
                      λ _ _ h₅.
                        let made =
                          new_snapshot (tools.url_text requested)
                            (tools.url_text response.final_url) hops response.status
                            response.headers size at in
                        after_ok (map_err snapshot_error made) _ h₅ λ snapshot found _.
                          new_snapshot-status (tools.url_text requested)
                            (tools.url_text response.final_url) hops response.status
                            response.headers size at snapshot
                            (map_err-eq-ok snapshot_error made found)

  after_rules_refused :
      (others : Collaborators) (job : CrawlJobV1) (target : Url) (response : CrawlResponse)
      (rules : Outcome RepositoryError (List (ActiveDetectionRule Value))) (s : S)
      → 599 < response.status
      → (error : WorkerProcessError) × (after_rules tools repository others job target response
            rules s
          ≡ (err error, s))
  after_rules_refused others job target response (err error) s h = (of_repository error, refl)
  after_rules_refused others job target response (ok rules) s h =
      prepared (snapshot_from_response tools target response others.captured_at rules) refl
    where
      prepared :
          (made : Outcome WorkerProcessError PreparedSnapshot)
          → snapshot_from_response tools target response others.captured_at rules ≡ made
          → (error : WorkerProcessError) × (after_preparation tools repository others job made s
              ≡ (err error, s))
      prepared (err error) same = (error, refl)
      prepared (ok p) same = absurd (
          not_both response.status
            (snapshot_from_response-status target response others.captured_at rules p same) h)

  -- When an attempt is claimed and its page is fetched with a status of 600 or more, which HTTP
  -- clients let through, processing its delivery ends in an error: the attempt stays claimed, no
  -- success and no failure is recorded, and the delivery is not acknowledged.
  pub process_and_acknowledge_unrecorded :
      (others : ReceivedCrawlJob → Collaborators) (net : Network) (received : ReceivedCrawlJob)
      (s claimed : S) (server : Server) (domain : Text) (target : Url) (response : CrawlResponse)
      → repository.claim_attempt received.job s ≡ (ok (ready domain), claimed)
      → parse_crawl_url (others received).library domain ≡ ok target
      → (others received).acquire (host_name target.host) ≡ ok tt
      → (others received).fetch target ≡ ok response
      → 599 < response.status
      → (error : WorkerProcessError) × (process_and_acknowledge tools repository others net received
            s server
          ≡ (err (processing_error error), claimed, server))
  unfolding process_and_acknowledge process
  process_and_acknowledge_unrecorded others net received s claimed server domain target response
        claim parsed lease fetched h =
      let (error, refused) =
        after_rules_refused (others received) received.job target response
          (repository.active_detection_rules claimed) claimed h in
      (error, rw (claim, parsed, lease, fetched, refused) refl)
