-- ===== src/WorkerApp/Settled.antt =====
-- A delivery is acknowledged only when the repository has recorded how its attempt ended.
use tech_atlas.Prelude.{
  ◌≡◌, ℕ, refl, sym, subst, ◌∙◌, ap, is_ok, ◌⊎◌, inl, inr, Option, none, some, List, Outcome, ok,
  err,
}
use tech_atlas.Prelude.Text.{Text, text}
use tech_atlas.CrawlJob.{CrawlJobV1}
use tech_atlas.Crawler.Url.{Url, CrawlUrlError, parse_crawl_url, host_name}
use tech_atlas.Crawler.Response.{CrawlResponse, CrawlError}
use tech_atlas.Detector.Signals.{ActiveDetectionRule}
use tech_atlas.Observation.Metadata.{RawArtifactMetadata}
use tech_atlas.Scheduler.Failure.{CrawlFailure, CrawlFailureError, new_failure}
use tech_atlas.Scheduler.Repository.{RepositoryError}
use tech_atlas.Scheduler.Worker.{ClaimedCrawlAttempt, ready, terminal}
use tech_atlas.Queue.Server.{CrawlJobQueueError, Server, Network}
use tech_atlas.Queue.Streams.{ReceivedCrawlJob, acknowledge}
use tech_atlas.WorkerApp.{
  PolitenessGateError, bounded_summary, WorkerProcessError, SuccessfulCrawlRecord, PreparedSnapshot,
  Toolbox, snapshot_from_response, failure_code_for_crawl, failure_code_for_politeness,
}
use tech_atlas.WorkerApp.Process.{
  WorkerRepository, Collaborators, from_repository, record_new_failure, record_failure,
  record_prepared, success_of, after_store, store_html, after_preparation, after_rules, after_fetch,
  after_gate, after_target, after_claim, process, after_process, after_acknowledge,
  process_and_acknowledge,
}

-- An error is no success.
pub failed_pair :
    {E A S : Type 0} {R : Type 0} {error : E} {s t : S} {a : A}
    → ◌≡◌ {A = Outcome E A × S} (err error, s) (ok a, t)
    → R
failed_pair h = absurd (cc (ap (λ r. is_ok r.0) h))

module _ {S Value Map : Type 0} (tools : Toolbox Value Map)
    (repository : WorkerRepository S Value) where
  -- The end of an attempt that was recorded, from the claim's state to the last one.
  abbrev IsRecorded : CrawlJobV1 → S → S → Type 0
  IsRecorded job claimed last =
      ((failure : CrawlFailure) × (repository.record_failure job failure claimed ≡ (ok tt, last)))
      ⊎ ((record_of : SuccessfulCrawlRecord) × (repository.record_success job record_of claimed
            ≡ (ok tt, last)))

  -- The job's attempt had ended before, or was claimed and its end was recorded.
  abbrev pub IsSettled : CrawlJobV1 → S → S → Type 0
  IsSettled job s last =
      (repository.claim_attempt job s ≡ (ok terminal, last))
      ⊎ ((domain : Text) × (claimed : S) × (repository.claim_attempt job s
            ≡ (ok (ready domain), claimed))
          × IsRecorded job claimed last)

  module _ (others : Collaborators) (job : CrawlJobV1) where
    from_repository_ok :
        (result : Outcome RepositoryError (Unit {0}) × S) (last : S)
        → from_repository result ≡ (ok tt, last)
        → result ≡ (ok tt, last)
    from_repository_ok (ok done, s) last h = ap (λ r. (ok tt, r.1)) h
    from_repository_ok (err error, s) last h = failed_pair h

    record_failure_ok :
        (code summary : Text) (s last : S)
        → record_failure tools repository others job code summary s ≡ (ok tt, last)
        → IsRecorded job s last
    unfolding record_failure
    record_failure_ok code summary s last h =
        recorded (new_failure code (bounded_summary summary)) h
      where
        recorded :
            (made : Outcome CrawlFailureError CrawlFailure)
            → record_new_failure tools repository others job made s ≡ (ok tt, last)
            → IsRecorded job s last
        recorded (ok failure) k =
            inl (failure, from_repository_ok (repository.record_failure job failure s) last k)
        recorded (err error) k = failed_pair k

    record_prepared_ok :
        (prepared : PreparedSnapshot) (stored : Option RawArtifactMetadata) (s last : S)
        → record_prepared tools repository others job prepared stored s ≡ (ok tt, last)
        → IsRecorded job s last
    record_prepared_ok prepared stored s last h = inr (
      success_of tools repository others job prepared stored,
      from_repository_ok
          (repository.record_success job (success_of tools repository others job prepared stored) s)
          last h,
    )

    store_html_ok :
        (prepared : PreparedSnapshot) (html : Option (List ℕ)) (s last : S)
        → store_html tools repository others job prepared html s ≡ (ok tt, last)
        → IsRecorded job s last
    store_html_ok prepared none s last h = record_prepared_ok prepared none s last h
    store_html_ok prepared (some contents) s last h = stored (others.store contents) h
      where
        stored :
            (kept : Option RawArtifactMetadata)
            → after_store tools repository others job prepared kept s ≡ (ok tt, last)
            → IsRecorded job s last
        stored none k =
            record_failure_ok (text "artifact_storage_failed") (text "raw artifact storage failed")
              s last k
        stored (some artifact) k = record_prepared_ok prepared (some artifact) s last k

    after_preparation_ok :
        (made : Outcome WorkerProcessError PreparedSnapshot) (s last : S)
        → after_preparation tools repository others job made s ≡ (ok tt, last)
        → IsRecorded job s last
    after_preparation_ok (err error) s last h = failed_pair h
    after_preparation_ok (ok prepared) s last h =
        store_html_ok prepared prepared.persistable_html s last h

    after_rules_ok :
        (target : Url) (response : CrawlResponse)
        (rules : Outcome RepositoryError (List (ActiveDetectionRule Value))) (s last : S)
        → after_rules tools repository others job target response rules s ≡ (ok tt, last)
        → IsRecorded job s last
    after_rules_ok target response (err error) s last h = failed_pair h
    after_rules_ok target response (ok rules) s last h =
        after_preparation_ok (snapshot_from_response tools target response others.captured_at rules)
          s last h

    after_fetch_ok :
        (target : Url) (fetched : Outcome CrawlError CrawlResponse) (s last : S)
        → after_fetch tools repository others job target fetched s ≡ (ok tt, last)
        → IsRecorded job s last
    after_fetch_ok target (err error) s last h =
        record_failure_ok (failure_code_for_crawl error) (others.crawl_error_text error) s last h
    after_fetch_ok target (ok response) s last h =
        after_rules_ok target response (repository.active_detection_rules s) s last h

    after_gate_ok :
        (target : Url) (lease : Outcome PolitenessGateError (Unit {0})) (s last : S)
        → after_gate tools repository others job target lease s ≡ (ok tt, last)
        → IsRecorded job s last
    after_gate_ok target (err error) s last h =
        record_failure_ok (failure_code_for_politeness error) (others.gate_error_text error) s last
          h
    after_gate_ok target (ok lease) s last h = after_fetch_ok target (others.fetch target) s last h

    after_target_ok :
        (target : Outcome CrawlUrlError Url) (s last : S)
        → after_target tools repository others job target s ≡ (ok tt, last)
        → IsRecorded job s last
    after_target_ok (err error) s last h =
        record_failure_ok (text "invalid_target") (others.url_error_text error) s last h
    after_target_ok (ok target) s last h =
        after_gate_ok target (others.acquire (host_name target.host)) s last h

    process-IsSettled :
        (s last : S) → process tools repository others job s ≡ (ok tt, last) → IsSettled job s last
    unfolding process
    process-IsSettled s last h = claimed (repository.claim_attempt job s) refl h
      where
        claimed :
            (claim : Outcome RepositoryError ClaimedCrawlAttempt × S)
            → repository.claim_attempt job s ≡ claim
            → after_claim tools repository others job claim ≡ (ok tt, last)
            → IsSettled job s last
        claimed (err error, t) same k = failed_pair k
        claimed (ok terminal, t) same k = inl (same ∙ ap (λ r. (ok terminal, r.1)) k)
        claimed (ok (ready domain), t) same k =
            inr (domain, t, same, after_target_ok (parse_crawl_url others.library domain) t last k)

  -- Whatever the collaborators and the network answer, processing a delivery leaves the queue as it
  -- was, with the delivery unacknowledged, or the repository has answered that the attempt had
  -- already ended or has recorded its success or its failure.
  pub process_and_acknowledge-IsSettled :
      (others : ReceivedCrawlJob → Collaborators) (net : Network) (received : ReceivedCrawlJob)
      (s : S) (server : Server)
      → let done = process_and_acknowledge tools repository others net received s server in
        (done.2 ≡ server) ⊎ IsSettled received.job s done.1
  unfolding process_and_acknowledge
  process_and_acknowledge-IsSettled others net received s server =
      processed (process tools repository (others received) received.job s) refl
    where
      acknowledged :
          (t : S) (answer : Outcome CrawlJobQueueError (Unit {0}) × Server)
          → (after_acknowledge tools repository others net t answer).1 ≡ t
      acknowledged t (ok done, later) = refl
      acknowledged t (err error, later) = refl

      processed :
          (result : Outcome WorkerProcessError (Unit {0}) × S)
          → process tools repository (others received) received.job s ≡ result
          → let done = after_process tools repository others net received result server in
            (done.2 ≡ server) ⊎ IsSettled received.job s done.1
      processed (err error, t) same = inl refl
      processed (ok done, t) same = inr (
          subst (IsSettled received.job s)
            (sym (acknowledged t (acknowledge net received.receipt server)))
            (process-IsSettled (others received) received.job s t same))
