-- ===== src/Scheduler/Tests.antt =====
-- The scheduler's theorems at small tables: domain 7 with one policy, and the attempt and the
-- message of job 5.
use tech_atlas.Prelude.{
  Option, ℕ, ◌+◌, ◌*◌, ◌^◌, ◌≤◌, ◌≡◌, refl, Bool, true, false, none, some, List, [], ◌∷◌, arith,
  Outcome, ok, err, any, count, find, not, ◌&&◌, leb,
}
use tech_atlas.Prelude.Sort.{sort_by}
use tech_atlas.Prelude.Text.{Text, text, trim, eq_text}
use tech_atlas.Domain.Policy.{medium}
use tech_atlas.CrawlJob.{CrawlJobV1, parse_key}
use tech_atlas.Scheduler.Settings.{default_settings}
use tech_atlas.Scheduler.Tables.{
  running, failed, DomainRow, PolicyRow, AttemptRow, OutboxRow, Db, check_attempt, check_policy,
  check_outbox, update_rows,
}
use tech_atlas.Scheduler.Repository.{
  RepositoryError, not_found, Platform, crawl_succeeded, transact, insert_attempt_and_outbox,
  attempt_of, outbox_of, new_job_with_correlation,
}
use tech_atlas.Scheduler.Repository.Effects.{active}
use tech_atlas.Scheduler.Repository.Reserve.{
  active_of, for_domain, is_due, due_policies, reserve_rows, reserve_due_body, reserve_due,
}
use tech_atlas.Scheduler.Repository.Publish.{
  open_of_job, mark_published, mark_published_body, record_publish_failure,
  record_publish_failure_body, count_publish_failure,
}
use tech_atlas.Scheduler.Repository.Finish.{has_id, record_attempt_outcome, recover_stale_attempts}
use tech_atlas.Scheduler.Repository.DueOrder.{IsReservation, reserve_due-IsReservation}
use tech_atlas.Scheduler.Invariant.{IsConsistent}
use tech_atlas.Scheduler.Invariant.Reserve.{reserve_due-IsConsistent}
use tech_atlas.Scheduler.Invariant.Outcome.{
  record_attempt_outcome-IsConsistent, recover_stale_attempts-IsConsistent,
}
use tech_atlas.Scheduler.Invariant.Commands.{retry_terminal_attempt-IsConsistent}
use tech_atlas.Scheduler.Admin.{
  retry_terminal_attempt, request_domain_crawl, commit, request_body, requestable,
}
use tech_atlas.Scheduler.Requested.{request_domain_crawl-is_due}
use tech_atlas.Scheduler.Worker.{claim_attempt}
use tech_atlas.Scheduler.Invariant.Claims.{claim_attempt-IsConsistent}
use tech_atlas.Scheduler.Outbox.{
  offered, IsHeld, mark_published_twice, record_publish_failure-IsHeld,
}
use tech_atlas.Scheduler.Tick.{World, TickConfig, scheduler_tick}
use tech_atlas.Scheduler.Tick.Invariant.{scheduler_tick-IsConsistent}
use tech_atlas.Scheduler.Stuck.{given_up-never_due}

abbrev platform : Platform
platform = record { show_uuid = λ id. 97 ∷ []; latest = 2 ^ 70 }

abbrev draw : ℕ → ℕ
draw n = 20 + n

abbrev draws : ℕ → ℕ → ℕ
draws turn n = 40 + 10 * turn + n

abbrev no_locks : ℕ → Bool
no_locks d = false

abbrev domain : DomainRow
domain = record { id = 7; canonical_domain = text "a.org"; archived_at = none }

abbrev policy : PolicyRow
policy = record {
  domain_id = 7;
  is_enabled = true;
  priority = medium;
  desired_interval = 50;
  last_crawl_at = none;
  last_successful_crawl_at = none;
  next_crawl_at = none;
  consecutive_failure_count = 0;
  last_failure_at = none;
  terminal_failure_at = none;
  created_at = 1;
  updated_at = 1;
}

abbrev attempt : AttemptRow
attempt = record {
  id = 3;
  domain_id = 7;
  job_id = 5;
  correlation_id = 6;
  idempotency_key = text "crawl:b";
  attempt_number = 1;
  status = running;
  queued_at = 2;
  started_at = some 4;
  finished_at = none;
  failure_code = none;
  failure_summary = none;
  created_at = 2;
}

abbrev failed_attempt : AttemptRow
failed_attempt = record attempt {
  status = failed;
  finished_at = some 9;
  failure_code = some (text "timeout");
}

abbrev failed_policy : PolicyRow
failed_policy = record policy { terminal_failure_at = some 9 }

abbrev message : OutboxRow
message = record {
  crawl_attempt_id = 3;
  domain_id = 7;
  job_id = 5;
  correlation_id = 6;
  idempotency_key = text "crawl:b";
  available_at = 2;
  next_publish_at = 2;
  publish_attempt_count = 4;
  published_at = none;
  terminal_failure_at = none;
  last_error_summary = none;
  created_at = 2;
  updated_at = 2;
}

abbrev idle : Db
idle = record { domains = domain ∷ []; policies = policy ∷ []; attempts = []; outbox = [] }

abbrev busy : Db
busy = record idle { attempts = attempt ∷ []; outbox = message ∷ [] }

abbrev ended : Db
ended = record idle { policies = failed_policy ∷ []; attempts = failed_attempt ∷ [] }

idle-IsConsistent : IsConsistent idle
idle-IsConsistent = record {
  one_policy = λ d. ground arith;
  one_active = λ d. ground arith;
  settled = λ d. ground arith;
}

busy-IsConsistent : IsConsistent busy
unfolding active_of
busy-IsConsistent = record {
  one_policy = λ d. ground arith;
  one_active = λ d. ground arith;
  settled = λ d. ground arith;
}

ended-IsConsistent : IsConsistent ended
unfolding active_of
ended-IsConsistent = record {
  one_policy = λ d. ground arith;
  one_active = λ d. ground arith;
  settled = λ d. ground arith;
}

reserve_due-IsConsistent_example : IsConsistent (reserve_due platform draw no_locks 100 10 idle).1
reserve_due-IsConsistent_example =
    reserve_due-IsConsistent platform draw no_locks 100 10 idle idle-IsConsistent

record_attempt_outcome-IsConsistent_example :
    IsConsistent
      (record_attempt_outcome platform draw default_settings 5 crawl_succeeded 100 busy).1
record_attempt_outcome-IsConsistent_example =
    record_attempt_outcome-IsConsistent platform default_settings 100 draw 5 crawl_succeeded busy
      busy-IsConsistent

recover_stale_attempts-IsConsistent_example :
    IsConsistent (recover_stale_attempts platform draws default_settings 100 20 8 busy).1
recover_stale_attempts-IsConsistent_example =
    recover_stale_attempts-IsConsistent platform default_settings 100 draws 20 8 busy
      busy-IsConsistent

retry_terminal_attempt-IsConsistent_example :
    IsConsistent (retry_terminal_attempt platform draw (some 5) 100 ended).1
retry_terminal_attempt-IsConsistent_example =
    retry_terminal_attempt-IsConsistent 100 ended platform draw (some 5) ended-IsConsistent

abbrev reserved : Outcome RepositoryError (List CrawlJobV1) × Db
reserved = reserve_due platform draw no_locks 100 10 idle

abbrev jobs_of : Outcome RepositoryError (List CrawlJobV1) → List CrawlJobV1
jobs_of (ok jobs) = jobs
jobs_of (err e) = []

reserved_ok : reserved ≡ (ok (jobs_of reserved.0), reserved.1)
unfolding reserve_due transact reserve_due_body reserve_rows due_policies sort_by is_due
    new_job_with_correlation parse_key trim insert_attempt_and_outbox check_attempt attempt_of
    check_outbox outbox_of update_rows check_policy
reserved_ok = refl

reserve_due-IsReservation_example :
    IsReservation no_locks 100 10 idle reserved.1 (jobs_of reserved.0)
reserve_due-IsReservation_example =
    reserve_due-IsReservation platform draw no_locks 100 10 idle reserved_ok

abbrev published : Db
published = (mark_published 5 100 busy).1

published_ok : mark_published 5 100 busy ≡ (ok tt, published)
unfolding mark_published transact mark_published_body update_rows check_outbox trim
published_ok = refl

mark_published_twice_example :
    (any (open_of_job 5) published.outbox ≡ false)
    × (mark_published 5 200 published ≡ (err not_found, published))
mark_published_twice_example = mark_published_twice 5 100 200 busy published_ok

abbrev given_up : Db
given_up = (record_publish_failure platform 5 100 default_settings busy).1

given_up_ok : record_publish_failure platform 5 100 default_settings busy ≡ (ok tt, given_up)
unfolding record_publish_failure transact record_publish_failure_body count_publish_failure
    update_rows check_outbox trim
given_up_ok = refl

record_publish_failure-IsHeld_example : IsHeld 5 100 5 default_settings 150 given_up
record_publish_failure-IsHeld_example =
    record_publish_failure-IsHeld platform 5 100 150 default_settings busy message refl refl
      given_up_ok

given_up-never_due_example :
    (any (offered 5 900) given_up.outbox ≡ false)
    × (active 7 given_up ≡ active 7 busy)
    × (count (for_domain 7) (due_policies no_locks 900 10 given_up) ≡ 0)
unfolding active_of
given_up-never_due_example =
    given_up-never_due platform 5 100 default_settings busy message given_up 7 no_locks 900 10 refl
      refl (omega arith) given_up_ok (omega arith)

abbrev world : World
world = record {
  platform = platform;
  recovery_draw = draws;
  reserve_draw = draw;
  locked = no_locks;
  publish = λ job. false;
  capture_daily_adoption = ok tt;
}

abbrev tick_config : TickConfig
tick_config = record {
  batch_size = 10;
  stale_attempt_timeout = 50;
  adoption_snapshot_delay_minutes = 30;
  scheduler_settings = default_settings;
}

scheduler_tick-IsConsistent_example : IsConsistent (scheduler_tick world tick_config 100 45 busy).1
scheduler_tick-IsConsistent_example =
    scheduler_tick-IsConsistent world tick_config 100 45 busy busy-IsConsistent

busy_unique : (i : ℕ) → count (has_id i) busy.attempts ≤ 1
busy_unique i = ground arith

abbrev delivered : CrawlJobV1
delivered = record {
  job_id = 5;
  domain_id = 7;
  correlation_id = 6;
  idempotency_key = text "crawl:b";
}

abbrev any_domain : Text → Option Text
any_domain name = some name

claim_attempt-IsConsistent_example : IsConsistent (claim_attempt any_domain delivered 60 busy).1
claim_attempt-IsConsistent_example =
    claim_attempt-IsConsistent any_domain delivered 60 busy busy_unique busy-IsConsistent

abbrev requested : Db
requested = (request_domain_crawl (text "a.org") 60 busy).1

requested_ok : request_domain_crawl (text "a.org") 60 busy ≡ (ok tt, requested)
unfolding request_domain_crawl commit request_body requestable update_rows check_policy eq_text
requested_ok = refl

request_domain_crawl-is_due_example :
    IsConsistent requested
    × ((p : PolicyRow) × (find (requestable (text "a.org") busy.domains) busy.policies ≡ some p)
        × (p.is_enabled ≡ true)
        × (find (requestable (text "a.org") requested.domains) requested.policies
            ≡ some (record p { next_crawl_at = some 60; updated_at = 60 }))
        × (is_due no_locks 70 requested (record p { next_crawl_at = some 60; updated_at = 60 }) ≡ (
            leb 60 70
            && not (any (active_of p.domain_id) busy.attempts)
            && not (no_locks p.domain_id))))
request_domain_crawl-is_due_example =
    request_domain_crawl-is_due (text "a.org") 60 70 no_locks busy busy-IsConsistent requested_ok
