-- ===== src/Scheduler/Repository/Finish.antt =====
-- `record_attempt_outcome` and `recover_stale_attempts`: how an attempt ends, and when it is
-- followed by a retry.
use tech_atlas.Prelude.{
  ℕ, suc, ◌+◌, ◌-◌, Bool, false, ◌&&◌, ◌||◌, Option, none, some, List, [], ◌∷◌, leb, ltb, ◌==◌,
  if◌then◌else◌, any, find, filter, take, map, length, Outcome, ok, err, ◌>>=◌, ◌>>◌, refuse_if,
  ok_or, map_err,
}
use tech_atlas.Prelude.Text.{text}
use tech_atlas.Prelude.Duration.{Duration}
use tech_atlas.Prelude.Sort.{sort_by}
use tech_atlas.Scheduler.Settings.{SchedulerSettings, crawl_retry_delay}
use tech_atlas.Scheduler.Failure.{CrawlFailure, new_failure}
use tech_atlas.Scheduler.Tables.{
  succeeded, failed, is_finished, is_running, PolicyRow, AttemptRow, Db, coalesce,
}
use tech_atlas.Scheduler.Repository.{
  RepositoryError, not_found, unavailable, Platform, Answer, transact, CrawlAttemptOutcome,
  crawl_succeeded, crawl_failed, i64_end, add_std_duration, new_job_with_correlation,
  insert_attempt_and_outbox, set_policies, set_attempts,
}
use tech_atlas.Scheduler.Repository.Reserve.{for_domain}

abbrev pub has_id : ℕ → AttemptRow → Bool
has_id id a = a.id == id

-- The SELECT's join: an attempt of the job whose domain has a policy.
abbrev pub joined_attempt : ℕ → List PolicyRow → AttemptRow → Bool
joined_attempt job_id policies a = a.job_id == job_id && any (for_domain a.domain_id) policies

abbrev pub succeeded_attempt : ℕ → AttemptRow → AttemptRow
succeeded_attempt now a = record a {
  status = succeeded;
  started_at = some (coalesce a.started_at now);
  finished_at = some now;
}

abbrev pub failed_attempt : CrawlFailure → ℕ → AttemptRow → AttemptRow
failed_attempt failure now a = record a {
  status = failed;
  started_at = some (coalesce a.started_at now);
  finished_at = some now;
  failure_code = some failure.code;
  failure_summary = some failure.summary;
}

abbrev pub succeeded_policy : ℕ → PolicyRow → PolicyRow
succeeded_policy now p = record p {
  last_crawl_at = some now;
  last_successful_crawl_at = some now;
  next_crawl_at = some (now + p.desired_interval);
  consecutive_failure_count = 0;
  last_failure_at = none;
  terminal_failure_at = none;
  updated_at = now;
}

abbrev pub retried_policy : ℕ → ℕ → PolicyRow → PolicyRow
retried_policy now retry_at p = record p {
  last_crawl_at = some now;
  next_crawl_at = some retry_at;
  consecutive_failure_count = p.consecutive_failure_count + 1;
  last_failure_at = some now;
  updated_at = now;
}

abbrev pub exhausted_policy : ℕ → PolicyRow → PolicyRow
exhausted_policy now p = record p {
  last_crawl_at = some now;
  next_crawl_at = some (now + p.desired_interval);
  consecutive_failure_count = p.consecutive_failure_count + 1;
  last_failure_at = some now;
  terminal_failure_at = some now;
  updated_at = now;
}

unfoldable pub finish_succeeded : AttemptRow → ℕ → Db → Outcome RepositoryError Db
finish_succeeded a now db = do
  closed ← set_attempts (has_id a.id) (succeeded_attempt now) db
  set_policies (for_domain a.domain_id) (succeeded_policy now) closed

-- What follows a failed attempt: a retry with the same correlation, or the end of the retries.
unfoldable pub follow_failure :
    Platform → (ℕ → ℕ) → SchedulerSettings → AttemptRow → ℕ → Db → Outcome RepositoryError Db
follow_failure os draw settings a now db =
    if leb a.attempt_number settings.max_crawl_retries
    then (do
      delay ← ok_or (crawl_retry_delay settings a.attempt_number) unavailable
      retry_at ← add_std_duration os now delay
      retry ← new_job_with_correlation os a.domain_id a.correlation_id (draw 0)
      inserted ← insert_attempt_and_outbox (draw 1) retry (a.attempt_number + 1) retry_at now db
      set_policies (for_domain a.domain_id) (retried_policy now retry_at) inserted)
    else set_policies (for_domain a.domain_id) (exhausted_policy now) db

unfoldable pub finish_failed :
    Platform
    → (ℕ → ℕ)
    → SchedulerSettings
    → CrawlFailure
    → AttemptRow
    → ℕ
    → Db
    → Outcome RepositoryError Db
finish_failed os draw settings failure a now db = do
  closed ← set_attempts (has_id a.id) (failed_attempt failure now) db
  refuse_if (leb 256 a.attempt_number) unavailable
  follow_failure os draw settings a now closed

unfoldable pub finish :
    Platform
    → (ℕ → ℕ)
    → SchedulerSettings
    → CrawlAttemptOutcome
    → AttemptRow
    → ℕ
    → Db
    → Outcome RepositoryError Db
finish os draw settings crawl_succeeded a now db = finish_succeeded a now db
finish os draw settings (crawl_failed failure) a now db =
    finish_failed os draw settings failure a now db

unfoldable pub record_attempt_outcome_body :
    Platform → (ℕ → ℕ) → SchedulerSettings → ℕ → CrawlAttemptOutcome → ℕ → Db → Answer (Unit {0})
record_attempt_outcome_body os draw settings job_id outcome now db = do
  a ← ok_or (find (joined_attempt job_id db.policies) db.attempts) not_found
  if is_finished a.status
      then ok (tt, db)
      else (do done ← finish os draw settings outcome a now db; ok (tt, done))

unfoldable pub record_attempt_outcome :
    Platform
    → (ℕ → ℕ)
    → SchedulerSettings
    → ℕ
    → CrawlAttemptOutcome
    → ℕ
    → Db
    → Outcome RepositoryError (Unit {0}) × Db
record_attempt_outcome os draw settings job_id outcome now db =
    transact (record_attempt_outcome_body os draw settings job_id outcome now) db

abbrev started_before : ℕ → Option ℕ → Bool
started_before at none = false
started_before at (some t) = leb t at

-- `status = 'running' AND started_at <= stale_before`
unfoldable pub is_stale : ℕ → AttemptRow → Bool
is_stale stale_before a = is_running a.status && started_before stale_before a.started_at

-- ORDER BY started_at, id.
unfoldable pub stale_first : AttemptRow → AttemptRow → Bool
stale_first a b =
    ltb (coalesce a.started_at 0) (coalesce b.started_at 0)
    || (coalesce a.started_at 0 == coalesce b.started_at 0 && leb a.id b.id)

unfoldable pub stale_job_ids : ℕ → ℕ → Db → List ℕ
stale_job_ids stale_before limit db =
    map (λ (a : AttemptRow). a.job_id)
      (take limit (sort_by stale_first (filter (is_stale stale_before) db.attempts)))

-- The loop: each outcome is a transaction of its own, and the first failure ends the call. The
-- random draws of a round are `draw` of its index.
unfoldable pub recover_each :
    Platform
    → (ℕ → ℕ → ℕ)
    → SchedulerSettings
    → CrawlFailure
    → ℕ
    → List ℕ
    → Db
    → Outcome RepositoryError (Unit {0}) × Db
recover_each os draw settings failure now [] db = (ok tt, db)
recover_each os draw settings failure now (job_id ∷ rest) db =
    let recorded =
      record_attempt_outcome os (draw 0) settings job_id (crawl_failed failure) now db in
    let later = recover_each os (λ n. draw (suc n)) settings failure now rest recorded.1 in
    elim recorded.0 [ ok _ ↦ later | err e ↦ (err e, recorded.1) ]

abbrev pub recovered : ℕ → Outcome RepositoryError (Unit {0}) × Db → Outcome RepositoryError ℕ × Db
recovered n (ok _, db) = (ok n, db)
recovered n (err e, db) = (err e, db)

abbrev pub recover_with :
    Platform
    → (ℕ → ℕ → ℕ)
    → SchedulerSettings
    → ℕ
    → List ℕ
    → Db
    → Outcome RepositoryError CrawlFailure
    → Outcome RepositoryError ℕ × Db
recover_with os draw settings now job_ids db (ok failure) =
    recovered (length job_ids) (recover_each os draw settings failure now job_ids db)
recover_with os draw settings now job_ids db (err e) = (err e, db)

unfoldable pub lease_expired : Outcome RepositoryError CrawlFailure
lease_expired =
    map_err (λ _. unavailable)
      (new_failure (text "worker_lease_expired")
        (text "Worker did not record an outcome before its crawl lease expired"))

-- `stale_before` is `now.checked_sub(stale_after)`, with instants counted from the first one.
unfoldable pub recover_stale_attempts :
    Platform
    → (ℕ → ℕ → ℕ)
    → SchedulerSettings
    → ℕ
    → Duration
    → ℕ
    → Db
    → Outcome RepositoryError ℕ × Db
recover_stale_attempts os draw settings now stale_after limit db =
    if limit == 0
    then (ok 0, db)
    else if ltb now stale_after || leb i64_end limit
    then (err unavailable, db)
    else recover_with os draw settings now (stale_job_ids (now - stale_after) limit db) db
        lease_expired
