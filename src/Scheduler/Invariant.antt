-- ===== src/Scheduler/Invariant.antt =====
-- The invariant of the scheduler's tables, and the operations that keep it.
pub mod Reserve
pub mod Finish
pub mod Outcome
pub mod Commands
pub mod Claims
use tech_atlas.Prelude.{ℕ, ◌≤◌, ◌≡◌, ◌⊎◌, count}
use tech_atlas.Scheduler.Tables.{Db}
use tech_atlas.Scheduler.Repository.Reserve.{for_domain}
use tech_atlas.Scheduler.Repository.Policies.{terminal_of}
use tech_atlas.Scheduler.Repository.Effects.{active}

-- A domain has at most one policy and at most one queued or running attempt, and none while its
-- policy is marked as failed for good.
pub record IsConsistent (db : Db) : Type 0 where
  pub one_policy : (d : ℕ) → count (for_domain d) db.policies ≤ 1
  pub one_active : (d : ℕ) → active d db ≤ 1
  pub settled : (d : ℕ) → (active d db ≡ 0) ⊎ (count (terminal_of d) db.policies ≡ 0)
