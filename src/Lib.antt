-- ===== src/Lib.antt =====
-- TechAtlas: the scheduling and the acquisition of crawls.
--
-- The scheduler (crates/models/src/scheduler.rs, crates/database/src/scheduler_repository.rs) keeps
-- four tables: domains, their crawl policies, crawl attempts and an outbox of messages. It reserves
-- due policies, which inserts one queued attempt and one message each, publishes the messages to
-- the workers, and records how the attempts ended: a failure is retried after a backoff delay until
-- the limit marks the policy as failed. A worker claims an attempt (worker_repository.rs), and
-- fetches its page with the crawler (crates/crawler/src/lib.rs). An administrator may ask for a
-- crawl or retry a failed attempt (admin_workflow_repository.rs). What a crawl has observed becomes
-- the next current technologies of its domain (crates/models/src/projection.rs).
--
-- The files and the code:
-- - Prelude: lists, results (`Result` is `Outcome`), text as code points, durations in
--   nanoseconds, stable sorting by a Boolean order.
-- - Domain: crates/models/src/lib.rs: Policy (crawl priorities and policies), Canonical
--   (`CanonicalDomain::parse`), Listing and Creation (`DomainService` with the transactions of
--   crates/database/src/domain_repository.rs); Pages and Found have the theorems.
-- - CrawlJob: crates/models/src/crawl_job.rs, the job and its wire record; CrawlJob/Wire has the
--   round trips.
-- - Scheduler/Settings, Scheduler/Failure: crates/models/src/scheduler.rs; Settings/Backoff has
--   the delays.
-- - Scheduler/Tables: the tables of database/migrations with their CHECK and UNIQUE constraints.
-- - Scheduler/Repository: the transactions of crates/database/src/scheduler_repository.rs:
--   Reserve (`reserve_due`), Publish (`pending_publications`, `mark_published`,
--   `record_publish_failure`), Finish (`record_attempt_outcome`, `recover_stale_attempts`); its
--   other children are lemmas.
-- - Scheduler/Worker: `claim_attempt` of crates/database/src/worker_repository.rs.
-- - Scheduler/Admin: `request_domain_crawl` and `retry_terminal_attempt` of
--   crates/database/src/admin_workflow_repository.rs.
-- - Scheduler/Tick: `scheduler_tick` of apps/scheduler/src/main.rs, the repository's calls in order.
-- - Politeness: the lease script of crates/queue/src/lib.rs.
-- - Projection: `derive_projection` of crates/models/src/projection.rs.
-- - Scheduler/Invariant, Scheduler/Outbox, Scheduler/Pending, Scheduler/Requested, Scheduler/Stuck:
--   theorems on the transactions.
-- - Crawler: crates/crawler/src/lib.rs: Config (`CrawlerConfig`), Address (the public addresses),
--   Url (`CrawlUrl`), Transport (`ReqwestHttpTransport::get`, `safe_headers`), Robots
--   (`RobotsPolicy`), Response (the responses and errors), Fetch (`Crawler`).
-- - Parser: crates/parser/src/lib.rs, with `parse` in Extract; Soundness, Loops and Sources prove
--   what its evidence stands on.
-- - Detection: crates/models/src/detection.rs. Detector: crates/detector/src/lib.rs: Catalogue (the
--   program's own rules, `evaluate`), Signals and Active (the rules of the database,
--   `evaluate_active`); Scores, Verdicts, Initial and Definitions prove what a verdict is.
-- - Queue: the streams of crates/queue/src/lib.rs: Queue (the configuration), Server (what the
--   server keeps, the commands as documented, a call that may be lost), Streams
--   (`RedisStreamsCrawlJobQueue`); its other children are lemmas and theorems.
-- - Observation: crates/models/src/worker.rs, what a crawl records. WorkerApp:
--   apps/worker/src/lib.rs, from a response to its records; WorkerApp/Process has
--   `WorkerProcessor::process` and the loop over the deliveries, and its siblings the theorems.
-- - Tests modules: the theorems at concrete values.
--
-- A transaction is a function from the tables to an answer and new tables, and `transact` drops the
-- new tables on an error. Transactions run one after another, in the order of their locks; the rows
-- that SKIP LOCKED passes over are a parameter. Random identifiers, instants, the text of a UUID
-- and what the network answers are parameters too. Instants and durations are numbers of
-- nanoseconds, in the politeness lease of milliseconds; that a TIMESTAMPTZ keeps microseconds alone
-- is left out. Rust's u8, u16 and i64 conversions are written as tests against their bounds; other
-- counters are unbounded and are bounded by the tables' checks. The database's collation is read as
-- the order of code points. The trigger of database/migrations/202608030001_initial_corpus.sql that
-- keeps an ended attempt from being changed is left out: the modelled transactions change attempts
-- that are queued or running, by their identifiers. The redirect loop is recursion on the redirects
-- that are left, so it needs no fuel.
--
-- Not modelled: the database, HTTP, TLS, URL, HTML, JSON and regular expression libraries; the
-- certificate parser and the redaction of stored HTML; the audit events but those of a domain's
-- creation; `record_success` of the worker with the projections it writes; the CSV import, the
-- public reads, search, storage, the API, the command line and the dashboard.
mod Prelude
pub mod Domain
pub mod CrawlJob
pub mod Scheduler
pub mod Crawler
pub mod Parser
pub mod Detection
pub mod Projection
pub mod Detector
pub mod Politeness
pub mod Queue
pub mod Observation
pub mod WorkerApp
