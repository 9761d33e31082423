-- ===== src/Scheduler/Tick.antt =====
-- apps/scheduler/src/main.rs: one tick of the scheduler, its calls of the repository in their
-- order. Each call is a transaction of its own; the first error ends the tick and leaves what the
-- calls before it have done.
pub mod Invariant
use tech_atlas.Prelude.{ℕ, Bool, List, [], ◌∷◌, ltb, if◌then◌else◌, Outcome, ok, err}
use tech_atlas.Prelude.Duration.{Duration}
use tech_atlas.CrawlJob.{CrawlJobV1}
use tech_atlas.Scheduler.Settings.{SchedulerSettings}
use tech_atlas.Scheduler.Tables.{Db}
use tech_atlas.Scheduler.Repository.{RepositoryError, Platform, PendingCrawlJob}
use tech_atlas.Scheduler.Repository.Reserve.{reserve_due}
use tech_atlas.Scheduler.Repository.Publish.{
  pending_publications, mark_published, record_publish_failure,
}
use tech_atlas.Scheduler.Repository.Finish.{recover_stale_attempts}

-- The settings of `SchedulerConfig` that a tick reads.
pub record TickConfig : Type 0 where
  pub batch_size : ℕ
  pub stale_attempt_timeout : Duration
  pub adoption_snapshot_delay_minutes : ℕ
  pub scheduler_settings : SchedulerSettings

-- What a tick takes from outside: the random draws, the policies that others hold, whether the
-- queue accepts a job, and how the adoption snapshot ends, which is in tables of its own.
pub record World : Type 0 where
  pub platform : Platform
  pub recovery_draw : ℕ → ℕ → ℕ
  pub reserve_draw : ℕ → ℕ
  pub locked : ℕ → Bool
  pub publish : CrawlJobV1 → Bool
  pub capture_daily_adoption : Outcome RepositoryError (Unit {0})

abbrev pub Stage : Type 0 → Type 0
Stage A = Outcome RepositoryError A × Db

-- `.await?` on a call that changes the tables.
abbrev pub await_next : {A B : Type 0} → Stage A → (A → Db → Stage B) → Stage B
await_next (ok a, db) next = next a db
await_next (err e, db) next = (err e, db)

abbrev pub publish_one : World → TickConfig → ℕ → PendingCrawlJob → Db → Stage (Unit {0})
publish_one world config now pending db =
    if world.publish pending.job
    then mark_published pending.job.job_id now db
    else record_publish_failure world.platform pending.job.job_id now config.scheduler_settings db

-- The loop over the pending jobs.
unfoldable pub publish_each : World → TickConfig → ℕ → List PendingCrawlJob → Db → Stage (Unit {0})
publish_each world config now [] db = (ok tt, db)
publish_each world config now (p ∷ rest) db =
    await_next (publish_one world config now p db)
      (λ _ after. publish_each world config now rest after)

-- `minutes` is the time of day of `now`.
unfoldable pub capture_daily_adoption_if_due :
    World → TickConfig → ℕ → Outcome RepositoryError (Unit {0})
capture_daily_adoption_if_due world config minutes =
    if ltb minutes config.adoption_snapshot_delay_minutes
    then ok tt
    else world.capture_daily_adoption

abbrev pub publish_pending :
    World → TickConfig → ℕ → Outcome RepositoryError (List PendingCrawlJob) → Db → Stage (Unit {0})
publish_pending world config now (ok pending) db = publish_each world config now pending db
publish_pending world config now (err e) db = (err e, db)

abbrev pub end_tick : World → TickConfig → ℕ → Db → Stage (Unit {0})
end_tick world config minutes published =
    (capture_daily_adoption_if_due world config minutes, published)

abbrev pub publish_stage : World → TickConfig → ℕ → ℕ → Db → Stage (Unit {0})
publish_stage world config now minutes reserved =
    await_next
      (publish_pending world config now (pending_publications now config.batch_size reserved)
        reserved)
      (λ _ published. end_tick world config minutes published)

abbrev pub reserve_stage : World → TickConfig → ℕ → ℕ → Db → Stage (Unit {0})
reserve_stage world config now minutes recovered =
    await_next
      (reserve_due world.platform world.reserve_draw world.locked now config.batch_size recovered)
      (λ _ reserved. publish_stage world config now minutes reserved)

unfoldable pub scheduler_tick : World → TickConfig → ℕ → ℕ → Db → Stage (Unit {0})
scheduler_tick world config now minutes db =
    await_next
      (recover_stale_attempts world.platform world.recovery_draw config.scheduler_settings now
        config.stale_attempt_timeout config.batch_size db)
      (λ _ recovered. reserve_stage world config now minutes recovered)
