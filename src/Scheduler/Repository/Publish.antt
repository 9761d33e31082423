-- ===== src/Scheduler/Repository/Publish.antt =====
-- The outbox: what is pending, and how a publication's success or failure is recorded.
use tech_atlas.Prelude.{
  ℕ, ◌+◌, ◌^◌, Bool, not, ◌&&◌, ◌||◌, some, List, [], ◌∷◌, leb, ltb, ◌==◌, if◌then◌else◌, is_some,
  any, find, filter, take, Outcome, ok, err, ◌>>=◌, ◌>>◌, refuse_if, ok_or, map_err,
}
use tech_atlas.Prelude.Text.{text}
use tech_atlas.Prelude.Sort.{sort_by}
use tech_atlas.CrawlJob.{parse_key}
use tech_atlas.Scheduler.Settings.{SchedulerSettings, outbox_retry_delay}
use tech_atlas.Scheduler.Tables.{OutboxRow, Db}
use tech_atlas.Scheduler.Repository.{
  RepositoryError, not_found, unavailable, Platform, Answer, transact, PendingCrawlJob, i64_end,
  add_std_duration, set_outbox,
}

-- Neither published nor given up.
abbrev pub is_open : OutboxRow → Bool
is_open o = not (is_some o.published_at) && not (is_some o.terminal_failure_at)

unfoldable pub is_pending : ℕ → OutboxRow → Bool
is_pending now o = is_open o && leb o.available_at now && leb o.next_publish_at now

-- ORDER BY available_at, created_at.
unfoldable pub published_before : OutboxRow → OutboxRow → Bool
published_before a b =
    ltb a.available_at b.available_at
    || (a.available_at == b.available_at && leb a.created_at b.created_at)

unfoldable pub row_to_pending_job : OutboxRow → Outcome RepositoryError PendingCrawlJob
row_to_pending_job o = do
  refuse_if (leb 256 o.publish_attempt_count) unavailable
  key ← map_err (λ _. unavailable) (parse_key o.idempotency_key)
  ok (record {
    job = record {
      job_id = o.job_id;
      domain_id = o.domain_id;
      correlation_id = o.correlation_id;
      idempotency_key = key;
    };
    available_at = o.available_at;
    publish_attempt_count = o.publish_attempt_count;
  })

-- `collect` into a `Result`: the first error ends it.
unfoldable pub pending_jobs : List OutboxRow → Outcome RepositoryError (List PendingCrawlJob)
pending_jobs [] = ok []
pending_jobs (o ∷ os) = do job ← row_to_pending_job o; jobs ← pending_jobs os; ok (job ∷ jobs)

unfoldable pub pending_rows : ℕ → ℕ → Db → List OutboxRow
pending_rows now limit db =
    take limit (sort_by published_before (filter (is_pending now) db.outbox))

unfoldable pub pending_publications : ℕ → ℕ → Db → Outcome RepositoryError (List PendingCrawlJob)
pending_publications now limit db =
    if limit == 0
    then ok []
    else if leb i64_end limit
    then err unavailable
    else pending_jobs (pending_rows now limit db)

abbrev pub of_job : ℕ → OutboxRow → Bool
of_job job_id o = o.job_id == job_id

abbrev pub open_of_job : ℕ → OutboxRow → Bool
open_of_job job_id o = of_job job_id o && is_open o

abbrev pub published_row : ℕ → OutboxRow → OutboxRow
published_row now o = record o { published_at = some now; updated_at = now }

unfoldable pub mark_published_body : ℕ → ℕ → Db → Answer (Unit {0})
mark_published_body job_id now db = do
  updated ← set_outbox (open_of_job job_id) (published_row now) db
  refuse_if (not (any (open_of_job job_id) db.outbox)) not_found
  ok (tt, updated)

unfoldable pub mark_published : ℕ → ℕ → Db → Outcome RepositoryError (Unit {0}) × Db
mark_published job_id now db = transact (mark_published_body job_id now) db

abbrev pub given_up_row : ℕ → ℕ → OutboxRow → OutboxRow
given_up_row next now o = record o {
  publish_attempt_count = next;
  terminal_failure_at = some now;
  last_error_summary = some (text "Redis publication failed");
  updated_at = now;
}

abbrev pub delayed_row : ℕ → ℕ → ℕ → OutboxRow → OutboxRow
delayed_row next next_publish_at now o = record o {
  publish_attempt_count = next;
  next_publish_at = next_publish_at;
  last_error_summary = some (text "Redis publication failed");
  updated_at = now;
}

-- The rows of the job wait for the delay.
unfoldable pub delay_rows : Platform → ℕ → ℕ → ℕ → ℕ → Db → Answer (Unit {0})
delay_rows os job_id now next delay db = do
  next_publish_at ← add_std_duration os now delay
  updated ← set_outbox (of_job job_id) (delayed_row next next_publish_at now) db
  ok (tt, updated)

-- The branch for a row that is still open. `next` is the count plus one: `checked_add` on an
-- `i16`, then `u8::try_from`.
unfoldable pub count_publish_failure :
    Platform → ℕ → ℕ → SchedulerSettings → ℕ → Db → Answer (Unit {0})
count_publish_failure os job_id now settings next db =
    if leb settings.max_outbox_publish_attempts next
    then (do updated ← set_outbox (of_job job_id) (given_up_row next now) db; ok (tt, updated))
    else (do
      delay ← ok_or (outbox_retry_delay settings next) unavailable
      delay_rows os job_id now next delay db)

unfoldable pub record_publish_failure_body :
    Platform → ℕ → ℕ → SchedulerSettings → Db → Answer (Unit {0})
record_publish_failure_body os job_id now settings db = do
  row ← ok_or (find (of_job job_id) db.outbox) not_found
  if is_open row
      then (do
        refuse_if (leb (2 ^ 15) (row.publish_attempt_count + 1)) unavailable
        refuse_if (leb 256 (row.publish_attempt_count + 1)) unavailable
        count_publish_failure os job_id now settings (row.publish_attempt_count + 1) db)
      else ok (tt, db)

unfoldable pub record_publish_failure :
    Platform → ℕ → ℕ → SchedulerSettings → Db → Outcome RepositoryError (Unit {0}) × Db
record_publish_failure os job_id now settings db =
    transact (record_publish_failure_body os job_id now settings) db
