-- ===== src/WorkerApp/Process.antt =====
-- `WorkerProcessor::process`, `process_and_acknowledge` and `receive_and_process_once`. The
-- repository is an interface over its own state; what the gate, the crawler and the artifact store
-- answer is a parameter.
use tech_atlas.Prelude.{ℕ, Option, none, some, List, [], ◌∷◌, ◌++◌, length, Outcome, ok, err}
use tech_atlas.Prelude.Text.{Text, text}
use tech_atlas.CrawlJob.{CrawlJobV1}
use tech_atlas.Crawler.Url.{Url, UrlLibrary, CrawlUrlError, parse_crawl_url, host_name}
use tech_atlas.Crawler.Response.{CrawlResponse, CrawlError}
use tech_atlas.Detector.Signals.{ActiveDetectionRule}
use tech_atlas.Observation.Metadata.{RawArtifactMetadata}
use tech_atlas.Scheduler.Failure.{CrawlFailure, CrawlFailureError, new_failure}
use tech_atlas.Scheduler.Repository.{RepositoryError, not_found, unavailable}
use tech_atlas.Scheduler.Worker.{ClaimedCrawlAttempt, ready, terminal}
use tech_atlas.Queue.{RedisStreamsConfig}
use tech_atlas.Queue.Server.{CrawlJobQueueError, StreamEntry, Server, Network}
use tech_atlas.Queue.Streams.{JobCodec, ReceivedCrawlJob, reclaim_stale, receive, acknowledge}
use tech_atlas.WorkerApp.{
  PolitenessGateError, failure_code_for_politeness, failure_code_for_crawl, bounded_summary,
  WorkerProcessError, repository_not_found, repository_unavailable, failure_error,
  SuccessfulCrawlRecord, PreparedSnapshot, Toolbox, snapshot_from_response,
}

-- `CrawlWorkerRepository`
pub record WorkerRepository (S Value : Type 0) : Type 0 where
  pub claim_attempt : CrawlJobV1 → S → Outcome RepositoryError ClaimedCrawlAttempt × S
  pub active_detection_rules : S → Outcome RepositoryError (List (ActiveDetectionRule Value))
  pub record_success :
      CrawlJobV1 → SuccessfulCrawlRecord → S → Outcome RepositoryError (Unit {0}) × S
  pub record_failure : CrawlJobV1 → CrawlFailure → S → Outcome RepositoryError (Unit {0}) × S

-- The other collaborators of one delivery, and how errors are printed.
pub record Collaborators : Type 0 where
  pub library : UrlLibrary
  pub acquire : Text → Outcome PolitenessGateError (Unit {0})
  pub fetch : Url → Outcome CrawlError CrawlResponse
  pub store : List ℕ → Option RawArtifactMetadata
  pub captured_at : ℕ
  pub url_error_text : CrawlUrlError → Text
  pub gate_error_text : PolitenessGateError → Text
  pub crawl_error_text : CrawlError → Text

abbrev pub of_repository : RepositoryError → WorkerProcessError
of_repository not_found = repository_not_found
of_repository unavailable = repository_unavailable

abbrev pub from_repository :
    {S : Type 0}
    → Outcome RepositoryError (Unit {0}) × S
    → Outcome WorkerProcessError (Unit {0}) × S
from_repository (ok done, s) = (ok tt, s)
from_repository (err error, s) = (err (of_repository error), s)

module _ {S Value Map : Type 0} (tools : Toolbox Value Map) (repository : WorkerRepository S Value)
    (others : Collaborators) (job : CrawlJobV1) where
  abbrev pub Processed : Type 0
  Processed = Outcome WorkerProcessError (Unit {0}) × S

  abbrev pub record_new_failure : Outcome CrawlFailureError CrawlFailure → S → Processed
  record_new_failure (err error) s = (err (failure_error error), s)
  record_new_failure (ok failure) s = from_repository (repository.record_failure job failure s)

  unfoldable pub record_failure : Text → Text → S → Processed
  record_failure code summary s = record_new_failure (new_failure code (bounded_summary summary)) s

  abbrev pub success_of : PreparedSnapshot → Option RawArtifactMetadata → SuccessfulCrawlRecord
  success_of prepared stored = record {
    snapshot = prepared.snapshot;
    artifact = stored;
    dns_observation = prepared.dns_observation;
    tls_observation = prepared.tls_observation;
    detections = prepared.detections;
    observations = prepared.observations;
  }

  abbrev pub record_prepared : PreparedSnapshot → Option RawArtifactMetadata → S → Processed
  record_prepared prepared stored s =
      from_repository (repository.record_success job (success_of prepared stored) s)

  abbrev pub after_store : PreparedSnapshot → Option RawArtifactMetadata → S → Processed
  after_store prepared none s =
      record_failure (text "artifact_storage_failed") (text "raw artifact storage failed") s
  after_store prepared (some artifact) s = record_prepared prepared (some artifact) s

  abbrev pub store_html : PreparedSnapshot → Option (List ℕ) → S → Processed
  store_html prepared none s = record_prepared prepared none s
  store_html prepared (some contents) s = after_store prepared (others.store contents) s

  abbrev pub after_preparation : Outcome WorkerProcessError PreparedSnapshot → S → Processed
  after_preparation (err error) s = (err error, s)
  after_preparation (ok prepared) s = store_html prepared prepared.persistable_html s

  abbrev pub after_rules :
      Url
      → CrawlResponse
      → Outcome RepositoryError (List (ActiveDetectionRule Value))
      → S
      → Processed
  after_rules target response (err error) s = (err (of_repository error), s)
  after_rules target response (ok rules) s =
      after_preparation (snapshot_from_response tools target response others.captured_at rules) s

  abbrev pub after_fetch : Url → Outcome CrawlError CrawlResponse → S → Processed
  after_fetch target (err error) s =
      record_failure (failure_code_for_crawl error) (others.crawl_error_text error) s
  after_fetch target (ok response) s =
      after_rules target response (repository.active_detection_rules s) s

  abbrev pub after_gate : Url → Outcome PolitenessGateError (Unit {0}) → S → Processed
  after_gate target (err error) s =
      record_failure (failure_code_for_politeness error) (others.gate_error_text error) s
  after_gate target (ok lease) s = after_fetch target (others.fetch target) s

  abbrev pub after_target : Outcome CrawlUrlError Url → S → Processed
  after_target (err error) s =
      record_failure (text "invalid_target") (others.url_error_text error) s
  after_target (ok target) s = after_gate target (others.acquire (host_name target.host)) s

  abbrev pub after_claim : Outcome RepositoryError ClaimedCrawlAttempt × S → Processed
  after_claim (err error, s) = (err (of_repository error), s)
  after_claim (ok terminal, s) = (ok tt, s)
  after_claim (ok (ready canonical_domain), s) =
      after_target (parse_crawl_url others.library canonical_domain) s

  unfoldable pub process : S → Processed
  process s = after_claim (repository.claim_attempt job s)

pub data WorkerRuntimeError : Type 0 where
  queue_error : CrawlJobQueueError → WorkerRuntimeError
  processing_error : WorkerProcessError → WorkerRuntimeError

module _ {S Value Map : Type 0} (tools : Toolbox Value Map) (repository : WorkerRepository S Value)
    (others : ReceivedCrawlJob → Collaborators) (net : Network) where
  -- The states of the repository and of the queue's server.
  abbrev pub Settled : Type 0
  Settled = Outcome WorkerRuntimeError (Unit {0}) × S × Server

  abbrev pub after_acknowledge : S → Outcome CrawlJobQueueError (Unit {0}) × Server → Settled
  after_acknowledge s (ok done, server) = (ok tt, s, server)
  after_acknowledge s (err error, server) = (err (queue_error error), s, server)

  abbrev pub after_process :
      ReceivedCrawlJob → Outcome WorkerProcessError (Unit {0}) × S → Server → Settled
  after_process received (err error, s) server = (err (processing_error error), s, server)
  after_process received (ok done, s) server =
      after_acknowledge s (acknowledge net received.receipt server)

  unfoldable pub process_and_acknowledge : ReceivedCrawlJob → S → Server → Settled
  process_and_acknowledge received s server =
      after_process received (process tools repository (others received) received.job s) server

  abbrev pub then_process : Settled → (S → Server → Settled) → Settled
  then_process (err error, s, server) next = (err error, s, server)
  then_process (ok done, s, server) next = next s server

  -- The loop over the deliveries: the first error ends it.
  unfoldable pub process_each : List ReceivedCrawlJob → S → Server → Settled
  process_each [] s server = (ok tt, s, server)
  process_each (received ∷ rest) s server =
      then_process (process_and_acknowledge received s server) (process_each rest)

  abbrev pub Processing : Type 0
  Processing = Outcome WorkerRuntimeError ℕ × S × Server

  abbrev pub with_count : ℕ → Settled → Processing
  with_count n (err error, s, server) = (err error, s, server)
  with_count n (ok done, s, server) = (ok n, s, server)

  abbrev pub after_receive :
      List ReceivedCrawlJob
      → S
      → Outcome CrawlJobQueueError (List ReceivedCrawlJob) × Server
      → Processing
  after_receive reclaimed s (err error, server) = (err (queue_error error), s, server)
  after_receive reclaimed s (ok received, server) =
      with_count (length (reclaimed ++ received)) (process_each (reclaimed ++ received) s server)

  abbrev pub after_reclaim :
      Outcome CrawlJobQueueError (List ReceivedCrawlJob) × Server
      → (Server → Outcome CrawlJobQueueError (List ReceivedCrawlJob) × Server)
      → S
      → Processing
  after_reclaim (err error, server) receiving s = (err (queue_error error), s, server)
  after_reclaim (ok reclaimed, server) receiving s = after_receive reclaimed s (receiving server)

  unfoldable pub receive_and_process_once :
      JobCodec → RedisStreamsConfig → List StreamEntry → List StreamEntry → S → Server → Processing
  receive_and_process_once codec config stale fresh s server =
      after_reclaim (reclaim_stale net codec config stale server) (receive net codec config fresh) s
