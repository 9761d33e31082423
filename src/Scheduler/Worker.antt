-- ===== src/Scheduler/Worker.antt =====
-- crates/database/src/worker_repository.rs, `claim_attempt` and `record_failure`: a worker takes a delivered job. The
-- stored domain is parsed again; `parse_domain` is that parser, which the claim only calls.
use tech_atlas.Prelude.{
  ℕ, Bool, ◌&&◌, Option, some, List, find, any, ◌==◌, if◌then◌else◌, Outcome, ok, ◌>>=◌, ok_or,
}
use tech_atlas.Prelude.Text.{Text, eq_text}
use tech_atlas.CrawlJob.{CrawlJobV1}
use tech_atlas.Scheduler.Tables.{running, is_finished, DomainRow, AttemptRow, Db, coalesce}
use tech_atlas.Scheduler.Repository.{
  RepositoryError, not_found, unavailable, Answer, transact, set_attempts, Platform, crawl_failed,
}
use tech_atlas.Scheduler.Repository.Finish.{has_id, record_attempt_outcome}
use tech_atlas.Scheduler.Settings.{SchedulerSettings}
use tech_atlas.Scheduler.Failure.{CrawlFailure}

pub data ClaimedCrawlAttempt : Type 0 where
  ready : Text → ClaimedCrawlAttempt
  terminal : ClaimedCrawlAttempt

-- The WHERE clause: every identifier of the delivered job must agree.
unfoldable pub is_claimed_by : CrawlJobV1 → AttemptRow → Bool
is_claimed_by job a =
    a.job_id == job.job_id
    && a.domain_id == job.domain_id
    && a.correlation_id == job.correlation_id
    && eq_text a.idempotency_key job.idempotency_key

abbrev pub domain_is : ℕ → DomainRow → Bool
domain_is d row = row.id == d

-- The join with `domains`.
abbrev pub claimable : CrawlJobV1 → List DomainRow → AttemptRow → Bool
claimable job domains a = is_claimed_by job a && any (domain_is a.domain_id) domains

abbrev pub claimed_attempt : ℕ → AttemptRow → AttemptRow
claimed_attempt started_at a = record a {
  status = running;
  started_at = some (coalesce a.started_at started_at);
}

unfoldable pub claim_body : (Text → Option Text) → CrawlJobV1 → ℕ → Db → Answer ClaimedCrawlAttempt
claim_body parse_domain job started_at db = do
  a ← ok_or (find (claimable job db.domains) db.attempts) not_found
  if is_finished a.status then ok (terminal, db) else (do
    row ← ok_or (find (domain_is a.domain_id) db.domains) not_found
    canonical ← ok_or (parse_domain row.canonical_domain) unavailable
    claimed ← set_attempts (has_id a.id) (claimed_attempt started_at) db
    ok (ready canonical, claimed))

unfoldable pub claim_attempt :
    (Text → Option Text) → CrawlJobV1 → ℕ → Db → Outcome RepositoryError ClaimedCrawlAttempt × Db
claim_attempt parse_domain job started_at db = transact (claim_body parse_domain job started_at) db

-- `record_failure`: the scheduler's transaction; its two errors are the worker's.
unfoldable pub record_failure :
    Platform
    → (ℕ → ℕ)
    → SchedulerSettings
    → CrawlJobV1
    → CrawlFailure
    → ℕ
    → Db
    → Outcome RepositoryError (Unit {0}) × Db
record_failure os draw settings job failure finished_at db =
    record_attempt_outcome os draw settings job.job_id (crawl_failed failure) finished_at db
