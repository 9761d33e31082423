-- ===== src/Scheduler/Stuck.antt =====
-- A message that is given up leaves its attempt queued, and a queued attempt keeps its domain from
-- being reserved.
use tech_atlas.Prelude.{
  ℕ, ◌+◌, ◌≤◌, ◌<◌, ◌≡◌, refl, Bool, true, false, ok, inl, inr, find, some, any, count, arith,
}
use tech_atlas.Scheduler.Settings.{SchedulerSettings}
use tech_atlas.Scheduler.Tables.{OutboxRow, Db}
use tech_atlas.Scheduler.Repository.{Platform, set_outbox}
use tech_atlas.Scheduler.Repository.Effects.{active, set_outbox_lem}
use tech_atlas.Scheduler.Repository.Reserve.{for_domain, due_policies}
use tech_atlas.Scheduler.Repository.Publish.{is_open, of_job, record_publish_failure}
use tech_atlas.Scheduler.Invariant.Reserve.{count-due_none}
use tech_atlas.Scheduler.Repository.OutboxOnly.{record_publish_failure-keeps}
use tech_atlas.Scheduler.Outbox.{offered, record_publish_failure-IsHeld}

module _ (os : Platform) (job_id now : ℕ) (settings : SchedulerSettings) (db : Db) where
  set_outbox-attempts :
      (chosen : OutboxRow → Bool) (change : OutboxRow → OutboxRow) {after : Db}
      → set_outbox chosen change db ≡ ok after
      → after.attempts ≡ db.attempts
  set_outbox-attempts chosen change h = rw (set_outbox_lem chosen change db h) refl

  -- The outbox operations leave the attempts alone.
  publish_failure-attempts :
      (record_publish_failure os job_id now settings db).1.attempts ≡ db.attempts
  publish_failure-attempts =
      record_publish_failure-keeps os job_id now settings db (λ after. after.attempts ≡ db.attempts)
        refl (λ chosen change after h. set_outbox-attempts chosen change h)

  -- When the last allowed publication of an open message fails, the message is never offered
  -- again, its attempt stays active, and no policy of a domain with an active attempt is due, at
  -- any later instant and under any locks: as far as publishing and reserving go, the domain is
  -- not crawled again.
  pub given_up-never_due :
      (row : OutboxRow) (after : Db) (d : ℕ) (locked : ℕ → Bool) (t limit : ℕ)
      → find (of_job job_id) db.outbox ≡ some row
      → is_open row ≡ true
      → settings.max_outbox_publish_attempts ≤ row.publish_attempt_count + 1
      → record_publish_failure os job_id now settings db ≡ (ok tt, after)
      → 0 < active d db
      → (any (offered job_id t) after.outbox ≡ false)
        × (active d after ≡ active d db)
        × (count (for_domain d) (due_policies locked t limit after) ≡ 0)
  given_up-never_due row after d locked t limit found live last h busy =
      let kept : after.attempts ≡ db.attempts = rw h at publish_failure-attempts in
      let same : active d after ≡ active d db = rw kept refl in
      let held : any (offered job_id t) after.outbox ≡ false =
        elim (record_publish_failure-IsHeld os job_id now t settings db row found live h) [
          | inl gone ↦ gone.1
          | inr waits ↦ ground arith
        ] in
      (held, same, count-due_none locked t after limit d (rw same busy))
