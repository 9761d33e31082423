-- ===== src/Scheduler/Repository.antt =====
-- crates/database/src/scheduler_repository.rs: the repository's transactions over the tables. A
-- method that fails leaves the tables as they were before its transaction. The statements
-- themselves are taken to reach the database: a lost connection is one more `unavailable`, with
-- the same rollback. Random UUIDs are the argument `draw`, in the order in which the call draws.
pub mod Reserve
pub mod Publish
pub mod Finish
pub mod Effects
pub mod Policies
pub mod Reserved
pub mod DueOrder
pub mod OutboxOnly
use mathlib.Core.Option
use tech_atlas.Prelude.{
  ℕ, suc, ◌+◌, ◌-◌, ◌*◌, ◌^◌, Bool, true, false, not, ◌&&◌, ◌||◌, Option, none, some, List, [], ◌∷◌,
  ◌++◌, leb, ltb, ◌==◌, if◌then◌else◌, is_some, any, find, filter, take, String, Outcome, ok, err,
  ◌>>=◌, ◌>>◌, refuse_if, ok_or, map_err,
}
use tech_atlas.Prelude.Text.{Text, text, eq_text}
use tech_atlas.Prelude.Duration.{Duration}
use tech_atlas.Domain.Policy.{rank}
use tech_atlas.CrawlJob.{CrawlJobV1, parse_key}
use tech_atlas.Scheduler.Settings.{SchedulerSettings, crawl_retry_delay, outbox_retry_delay}
use tech_atlas.Scheduler.Failure.{CrawlFailure, new_failure}
use tech_atlas.Scheduler.Tables.{
  Status, queued, succeeded, failed, is_finished, is_active, is_running, DomainRow, PolicyRow,
  AttemptRow, OutboxRow, Db, coalesce, check_attempt, check_policy, check_outbox, update_rows,
}

pub data RepositoryError : Type 0 where
  not_found unavailable : RepositoryError

-- What the repository takes from libraries: the text of a UUID, and the last instant of the
-- `time` crate's `OffsetDateTime`.
pub record Platform : Type 0 where
  pub show_uuid : ℕ → Text
  pub latest : ℕ

abbrev pub Answer : Type 0 → Type 0
Answer A = Outcome RepositoryError (A × Db)

-- The end of a transaction: its tables are kept on `Ok` and dropped on `Err`.
unfoldable pub transact : {A : Type 0} → (Db → Answer A) → Db → Outcome RepositoryError A × Db
transact body db = elim (body db) [ ok (a, db') ↦ (ok a, db') | err e ↦ (err e, db) ]

pub record PendingCrawlJob : Type 0 where
  pub job : CrawlJobV1
  pub available_at : ℕ
  pub publish_attempt_count : ℕ

pub data CrawlAttemptOutcome : Type 0 where
  crawl_succeeded : CrawlAttemptOutcome
  crawl_failed : CrawlFailure → CrawlAttemptOutcome

-- `i64::try_from(limit)` fails from 2^63 on.
abbrev pub i64_end : ℕ
i64_end = 2 ^ 63

unfoldable pub add_std_duration : Platform → ℕ → Duration → Outcome RepositoryError ℕ
add_std_duration os now d = if leb (now + d) os.latest then ok (now + d) else err unavailable

unfoldable pub new_job_with_correlation : Platform → ℕ → ℕ → ℕ → Outcome RepositoryError CrawlJobV1
new_job_with_correlation os domain_id correlation_id job_id = do
  key ← map_err (λ _. unavailable) (parse_key (text "crawl:" ++ os.show_uuid job_id))
  ok (record {
    job_id = job_id;
    domain_id = domain_id;
    correlation_id = correlation_id;
    idempotency_key = key;
  })

unfoldable pub attempt_of : CrawlJobV1 → ℕ → ℕ → ℕ → ℕ → AttemptRow
attempt_of job id attempt_number available_at created_at = record {
  id = id;
  domain_id = job.domain_id;
  job_id = job.job_id;
  correlation_id = job.correlation_id;
  idempotency_key = job.idempotency_key;
  attempt_number = attempt_number;
  status = queued;
  queued_at = available_at;
  started_at = none;
  finished_at = none;
  failure_code = none;
  failure_summary = none;
  created_at = created_at;
}

unfoldable pub outbox_of : CrawlJobV1 → ℕ → ℕ → ℕ → OutboxRow
outbox_of job id available_at created_at = record {
  crawl_attempt_id = id;
  domain_id = job.domain_id;
  job_id = job.job_id;
  correlation_id = job.correlation_id;
  idempotency_key = job.idempotency_key;
  available_at = available_at;
  next_publish_at = available_at;
  publish_attempt_count = 0;
  published_at = none;
  terminal_failure_at = none;
  last_error_summary = none;
  created_at = created_at;
  updated_at = created_at;
}

-- The unique columns of the two tables.
unfoldable pub attempt_clashes : AttemptRow → AttemptRow → Bool
attempt_clashes a b = a.id == b.id || eq_text a.idempotency_key b.idempotency_key

unfoldable pub outbox_clashes : OutboxRow → OutboxRow → Bool
outbox_clashes a b =
    a.crawl_attempt_id == b.crawl_attempt_id
    || a.job_id == b.job_id
    || eq_text a.idempotency_key b.idempotency_key

-- The database draws the attempt's identifier, `attempt_id`.
unfoldable pub insert_attempt_and_outbox :
    ℕ → CrawlJobV1 → ℕ → ℕ → ℕ → Db → Outcome RepositoryError Db
insert_attempt_and_outbox attempt_id job attempt_number available_at created_at db =
    let attempt = attempt_of job attempt_id attempt_number available_at created_at in
    let message = outbox_of job attempt_id available_at created_at in
    do
      refuse_if (not (check_attempt attempt) || any (attempt_clashes attempt) db.attempts)
          unavailable
      refuse_if (not (check_outbox message) || any (outbox_clashes message) db.outbox) unavailable
      ok (record db { attempts = db.attempts ++ attempt ∷ []; outbox = db.outbox ++ message ∷ [] })

-- An UPDATE of one table, by the rows it chooses.
abbrev pub set_policies :
    (PolicyRow → Bool) → (PolicyRow → PolicyRow) → Db → Outcome RepositoryError Db
set_policies chosen change db = do
  policies ← ok_or (update_rows check_policy chosen change db.policies) unavailable
  ok (record db { policies = policies })

abbrev pub set_attempts :
    (AttemptRow → Bool) → (AttemptRow → AttemptRow) → Db → Outcome RepositoryError Db
set_attempts chosen change db = do
  attempts ← ok_or (update_rows check_attempt chosen change db.attempts) unavailable
  ok (record db { attempts = attempts })

abbrev pub set_outbox :
    (OutboxRow → Bool) → (OutboxRow → OutboxRow) → Db → Outcome RepositoryError Db
set_outbox chosen change db = do
  outbox ← ok_or (update_rows check_outbox chosen change db.outbox) unavailable
  ok (record db { outbox = outbox })
