-- ===== src/Scheduler/Invariant/Finish.antt =====
-- `record_attempt_outcome` and `recover_stale_attempts` keep the invariant.
use tech_atlas.Prelude.{
  ℕ, suc, ◌+◌, ◌≤◌, ◌≡◌, ◌≢◌, refl, true, false, map, arith, find, ok, inl, inr, Bool-cases, ◌==◌,
  if◌then◌else◌, some, ==_iff, ==_self,
}
use tech_atlas.Scheduler.Tables.{PolicyRow, AttemptRow, Db, is_finished, is_active, Status}
use tech_atlas.Scheduler.Tables.Rows.{
  changed, count-changed-le, count-changed-lt, count-changed_same,
}
use tech_atlas.Scheduler.Repository.{set_attempts, set_policies}
use tech_atlas.Scheduler.Repository.Effects.{active, set_policies_lem, set_attempts_lem}
use tech_atlas.Scheduler.Repository.Policies.{
  terminal_of, count-for_domain_update, count-terminal_of_other,
}
use tech_atlas.Scheduler.Repository.Reserve.{for_domain, active_of}
use tech_atlas.Scheduler.Repository.Finish.{has_id, joined_attempt, retried_policy}
use tech_atlas.Scheduler.Invariant.{IsConsistent}

-- An attempt in progress that the tables hold.
pub record IsOpen (db : Db) (a : AttemptRow) : Type 0 where
  pub job_id : ℕ
  pub found : find (joined_attempt job_id db.policies) db.attempts ≡ some a
  pub open_status : is_finished a.status ≡ false

active_of_open : (a : AttemptRow) → is_finished a.status ≡ false → active_of a.domain_id a ≡ true
unfolding active_of
active_of_open a h = ground (arith, unfinished a.status)
  where
    unfinished : (s : Status) → is_finished s ≡ false → is_active s ≡ true
    unfinished s e = unfold is_finished is_active in ground arith

-- The tables after the attempt has been closed: at least one active attempt less for its domain,
-- and no more for any other.
pub record IsClosed (db : Db) (a : AttemptRow) (after : Db) : Type 0 where
  pub policies : after.policies ≡ db.policies
  pub fewer : (d : ℕ) → active d after ≤ active d db
  pub one_less : suc (active a.domain_id after) ≤ active a.domain_id db

pub close-IsClosed :
    (db after : Db) (a : AttemptRow) (change : AttemptRow → AttemptRow)
    → IsOpen db a
    → ((x : AttemptRow) → is_active (change x).status ≡ false)
    → set_attempts (has_id a.id) change db ≡ ok after
    → IsClosed db a after
unfolding active_of
close-IsClosed db after a change o ends h =
    let same = set_attempts_lem (has_id a.id) change db h in
    let out : (d : ℕ) (x : AttemptRow) → active_of d (change x) ≡ false =
      λ d x. ground (arith, ends x) in
    record {
      policies = rw same refl;
      fewer = λ d.
          rw same
            (count-changed-le (active_of d) (has_id a.id) change db.attempts (λ x c. out d x));
      one_less = rw same (
          count-changed-lt (active_of a.domain_id) (joined_attempt o.job_id db.policies)
            (has_id a.id) change db.attempts a (λ x c. out a.domain_id x) o.found
            (active_of_open a o.open_status) (==_self a.id));
    }

-- The owner's policy is rewritten after the attempt was closed. In the first case the change
-- clears the failure; in the second the owner has no active attempt left.
pub update-IsConsistent :
    (db closed after : Db) (a : AttemptRow) (change : PolicyRow → PolicyRow)
    → ((p : PolicyRow) → (change p).domain_id ≡ p.domain_id)
    → IsConsistent db
    → IsClosed db a closed
    → set_policies (for_domain a.domain_id) change closed ≡ ok after
    → IsConsistent after
update-IsConsistent db closed after a change keeps c k h =
    let same = set_policies_lem (for_domain a.domain_id) change closed h in
    let moved : after.policies ≡ map (changed (for_domain a.domain_id) change) db.policies =
      rw (same, k.policies) refl in
    let idle : (d : ℕ) → active d after ≡ active d closed = λ d. rw same refl in
    record {
      one_policy = λ d.
          rw moved
            (rw (count-for_domain_update a.domain_id change keeps db.policies d) (c.one_policy d));
      one_active = λ d. omega (arith, idle d, k.fewer d, c.one_active d);
      settled = λ d. elim (Bool-cases (a.domain_id == d)) [
        | inl owner ↦
            let here : a.domain_id ≡ d = (==_iff a.domain_id d).0 owner in
            inl
              (rw (← here) (omega (arith, idle a.domain_id, k.one_less, c.one_active a.domain_id)))
        | inr other ↦
            let apart : a.domain_id ≢ d = ground arith in
            let untouched = count-terminal_of_other a.domain_id change keeps db.policies d apart in
            ground (arith, idle d, k.fewer d, c.settled d, untouched, moved)
      ];
    }

-- A retry is inserted after the attempt was closed.
pub retry-IsConsistent :
    (db closed inserted after : Db) (a : AttemptRow) (now retry_at : ℕ)
    → IsConsistent db
    → IsClosed db a closed
    → ((d : ℕ) → active d inserted ≡ active d closed + (if a.domain_id == d then 1 else 0))
    → inserted.policies ≡ closed.policies
    → set_policies (for_domain a.domain_id) (retried_policy now retry_at) inserted ≡ ok after
    → IsConsistent after
retry-IsConsistent db closed inserted after a now retry_at c k added kept h =
    let change = retried_policy now retry_at in
    let same = set_policies_lem (for_domain a.domain_id) change inserted h in
    let moved : after.policies ≡ map (changed (for_domain a.domain_id) change) db.policies =
      rw (same, kept, k.policies) refl in
    let idle : (d : ℕ) → active d after ≡ active d inserted = λ d. rw same refl in
    record {
      one_policy = λ d. rw moved (
          rw (count-for_domain_update a.domain_id change (λ p. refl) db.policies d)
            (c.one_policy d));
      one_active = λ d. elim (Bool-cases (a.domain_id == d)) [
        | inl owner ↦
            let here : a.domain_id ≡ d = (==_iff a.domain_id d).0 owner in
            ground (arith, idle d, added d, here, k.one_less, c.one_active a.domain_id)
        | inr other ↦ ground (arith, idle d, added d, k.fewer d, c.one_active d)
      ];
      settled = λ d. elim (Bool-cases (a.domain_id == d)) [
        | inl owner ↦
            let here : a.domain_id ≡ d = (==_iff a.domain_id d).0 owner in
            let unmarked =
              count-changed_same (terminal_of d) (for_domain a.domain_id) change db.policies
                (λ p e. refl) in
            ground (arith, here, k.one_less, c.settled d, unmarked, moved)
        | inr other ↦
            let apart : a.domain_id ≢ d = ground arith in
            let untouched =
              count-terminal_of_other a.domain_id change (λ p. refl) db.policies d apart in
            ground (arith, idle d, added d, k.fewer d, c.settled d, untouched, moved)
      ];
    }
