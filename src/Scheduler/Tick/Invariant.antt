-- ===== src/Scheduler/Tick/Invariant.antt =====
-- A tick as a whole keeps the invariant.
use tech_atlas.Prelude.{ℕ, ◌≡◌, Bool, List, [], ◌∷◌, Outcome, ok, err, inl, inr, Bool-cases}
use tech_atlas.Scheduler.Tables.{OutboxRow, Db}
use tech_atlas.Scheduler.Repository.{RepositoryError, PendingCrawlJob, set_outbox}
use tech_atlas.Scheduler.Repository.Effects.{set_outbox_lem}
use tech_atlas.Scheduler.Repository.Reserve.{reserve_due}
use tech_atlas.Scheduler.Repository.Publish.{pending_publications}
use tech_atlas.Scheduler.Repository.Finish.{recover_stale_attempts}
use tech_atlas.Scheduler.Repository.OutboxOnly.{mark_published-keeps, record_publish_failure-keeps}
use tech_atlas.Scheduler.Invariant.{IsConsistent}
use tech_atlas.Scheduler.Invariant.Reserve.{reserve_due-IsConsistent}
use tech_atlas.Scheduler.Invariant.Outcome.{recover_stale_attempts-IsConsistent}
use tech_atlas.Scheduler.Tick.{
  World, TickConfig, Stage, await_next, publish_one, publish_each, publish_pending, end_tick,
  publish_stage, reserve_stage, scheduler_tick,
}

set_outbox-IsConsistent :
    (db : Db) (chosen : OutboxRow → Bool) (change : OutboxRow → OutboxRow) (after : Db)
    → IsConsistent db
    → set_outbox chosen change db ≡ ok after
    → IsConsistent after
set_outbox-IsConsistent db chosen change after c h =
    rw (set_outbox_lem chosen change db h)
      (record { one_policy = c.one_policy; one_active = c.one_active; settled = c.settled })

await_next-keeps :
    {A B : Type 0} (P : Db → Type 0) (first : Stage A) (next : A → Db → Stage B)
    → P first.1
    → ((a : A) (after : Db) → P after → P (next a after).1)
    → P (await_next first next).1
await_next-keeps P (ok a, db) next h step = step a db h
await_next-keeps P (err e, db) next h step = h

module _ (world : World) (config : TickConfig) (now : ℕ) where
  publish_one-IsConsistent :
      (p : PendingCrawlJob) (db : Db)
      → IsConsistent db
      → IsConsistent (publish_one world config now p db).1
  publish_one-IsConsistent p db c =
      let kept : (chosen : OutboxRow → Bool) (change : OutboxRow → OutboxRow) (after : Db)
          → set_outbox chosen change db ≡ ok after
          → IsConsistent after =
        λ chosen change after h. set_outbox-IsConsistent db chosen change after c h in
      elim (Bool-cases (world.publish p.job)) [
        | inl sent ↦ rw sent (
            mark_published-keeps world.platform p.job.job_id now config.scheduler_settings db
              IsConsistent c kept)
        | inr refused ↦ rw refused (
            record_publish_failure-keeps world.platform p.job.job_id now config.scheduler_settings
              db IsConsistent c kept)
      ]

  publish_each-IsConsistent :
      (pending : List PendingCrawlJob) (db : Db)
      → IsConsistent db
      → IsConsistent (publish_each world config now pending db).1
  unfolding publish_each
  publish_each-IsConsistent [] db c = c
  publish_each-IsConsistent (p ∷ rest) db c =
      await_next-keeps IsConsistent (publish_one world config now p db) _
        (publish_one-IsConsistent p db c)
        (λ _ after kept. publish_each-IsConsistent rest after kept)

  publish_pending-IsConsistent :
      (pending : Outcome RepositoryError (List PendingCrawlJob)) (db : Db)
      → IsConsistent db
      → IsConsistent (publish_pending world config now pending db).1
  publish_pending-IsConsistent (ok pending) db c = publish_each-IsConsistent pending db c
  publish_pending-IsConsistent (err e) db c = c

  publish_stage-IsConsistent :
      (minutes : ℕ) (db : Db)
      → IsConsistent db
      → IsConsistent (publish_stage world config now minutes db).1
  publish_stage-IsConsistent minutes db c =
      let pending = pending_publications now config.batch_size db in
      await_next-keeps IsConsistent (publish_pending world config now pending db)
        (λ _ published. end_tick world config minutes published)
        (publish_pending-IsConsistent pending db c) (λ _ published kept. kept)

  reserve_stage-IsConsistent :
      (minutes : ℕ) (db : Db)
      → IsConsistent db
      → IsConsistent (reserve_stage world config now minutes db).1
  reserve_stage-IsConsistent minutes db c =
      await_next-keeps IsConsistent
        (reserve_due world.platform world.reserve_draw world.locked now config.batch_size db)
        (λ _ reserved. publish_stage world config now minutes reserved)
        (reserve_due-IsConsistent world.platform world.reserve_draw world.locked now
          config.batch_size db c)
        (λ _ reserved kept. publish_stage-IsConsistent minutes reserved kept)

  -- From consistent tables, a whole tick leads to consistent tables, however many of its calls
  -- fail and whichever jobs the queue refuses.
  pub scheduler_tick-IsConsistent :
      (minutes : ℕ) (db : Db)
      → IsConsistent db
      → IsConsistent (scheduler_tick world config now minutes db).1
  unfolding scheduler_tick
  scheduler_tick-IsConsistent minutes db c =
      await_next-keeps IsConsistent
        (recover_stale_attempts world.platform world.recovery_draw config.scheduler_settings now
          config.stale_attempt_timeout config.batch_size db)
        (λ _ recovered. reserve_stage world config now minutes recovered)
        (recover_stale_attempts-IsConsistent world.platform config.scheduler_settings now
          world.recovery_draw config.stale_attempt_timeout config.batch_size db c)
        (λ _ recovered kept. reserve_stage-IsConsistent minutes recovered kept)
