-- ===== src/Scheduler/Invariant/Commands.antt =====
-- The worker's claim and the administrator's commands keep the invariant.
use tech_atlas.Prelude.{
  ℕ, ◌+◌, ◌≡◌, ◌≢◌, refl, true, not, map, ok, err, Outcome, inl, inr, Bool-cases, after_ok, leb,
  Option, none, some, ok_or, refuse_if, find, arith, subst, ==_iff, ◌==◌, if◌then◌else◌, is_some,
  ◌||◌, ◌^◌,
}
use tech_atlas.Scheduler.Tables.{PolicyRow, AttemptRow, Db}
use tech_atlas.Scheduler.Tables.Rows.{changed, find-passes, count-pos_of_find}
use tech_atlas.Scheduler.Repository.{
  RepositoryError, Platform, insert_attempt_and_outbox, set_policies,
}
use tech_atlas.Scheduler.Repository.Effects.{active, set_policies_lem, insert_lem, active-insert}
use tech_atlas.Scheduler.Repository.Policies.{
  terminal_of, count-for_domain_update, count-terminal_of_other, count-terminal_of_cleared,
}
use tech_atlas.Scheduler.Repository.Reserve.{for_domain}
use tech_atlas.Scheduler.Admin.{
  AdminOperationError, not_found, conflict, unavailable_operation, Reply, commit, lift, is_failed,
  never_retried, managed_attempt, retry_policy, retry_job, retry_body, retry_terminal_attempt,
}
use tech_atlas.Scheduler.Invariant.{IsConsistent}

pub commit-keeps :
    {A : Type 0} (P : Db → Type 0) (body : Db → Reply A) (db : Db)
    → P db
    → ((a : A) (after : Db) → body db ≡ ok (a, after) → P after)
    → P (commit body db).1
unfolding commit
commit-keeps {A} P body db before step = go (body db) (λ a after e. step a after e)
  where
    go :
        (reply : Reply A)
        → ((a : A) (after : Db) → reply ≡ ok (a, after) → P after)
        → P
            (elim reply as (λ _. Outcome AdminOperationError A × Db) [
              | ok (a, db') ↦ (ok a, db')
              | err e ↦ (err e, db)
            ]).1
    go (ok (a, after)) k = k a after refl
    go (err e) k = before

pub lift-eq-ok : {A : Type 0} (r : Outcome RepositoryError A) {a : A} → lift r ≡ ok a → r ≡ ok a
lift-eq-ok (ok b) h = ground arith
lift-eq-ok (err e) h = cc

pub option_value :
    {A : Type 0} (o : Option A) (e : AdminOperationError) {a : A} → ok_or o e ≡ ok a → o ≡ some a
option_value none e h = cc
option_value (some b) e h = ground arith

-- A marked policy's domain has nothing in progress.
marked-idle :
    (db : Db) (p : PolicyRow) (d : ℕ)
    → IsConsistent db
    → find (for_domain d) db.policies ≡ some p
    → is_some p.terminal_failure_at ≡ true
    → active d db ≡ 0
marked-idle db p d c found marked =
    let own : for_domain d p ≡ true = find-passes (for_domain d) db.policies found in
    let one = count-pos_of_find (terminal_of d) (for_domain d) db.policies found (ground arith) in
    omega (arith, c.settled d, one)

-- A retry of a domain without an active attempt.
retried-IsConsistent :
    (os : Platform) (id next n now : ℕ) (a : AttemptRow) (db inserted after : Db)
    → IsConsistent db
    → active a.domain_id db ≡ 0
    → insert_attempt_and_outbox id (retry_job os a next) n now now db ≡ ok inserted
    → set_policies (for_domain a.domain_id) (retry_policy now) inserted ≡ ok after
    → IsConsistent after
unfolding retry_job
retried-IsConsistent os id next n now a db inserted after c idle stored moved =
    let same = set_policies_lem (for_domain a.domain_id) (retry_policy now) inserted moved in
    let kept : inserted.policies ≡ db.policies =
      rw (insert_lem id (retry_job os a next) n now now db stored) refl in
    let rows : after.policies
        ≡ map (changed (for_domain a.domain_id) (retry_policy now)) db.policies =
      rw (same, kept) refl in
    let still : (d : ℕ) → active d after ≡ active d inserted = λ d. rw same refl in
    let added : (d : ℕ) → active d inserted ≡ active d db + (if a.domain_id == d then 1 else 0) =
      λ d. active-insert d id (retry_job os a next) n now now db stored in
    record {
      one_policy = λ d. rw rows (
          rw (count-for_domain_update a.domain_id (retry_policy now) (λ p. refl) db.policies d)
            (c.one_policy d));
      one_active = λ d. elim (Bool-cases (a.domain_id == d)) [
        | inl owner ↦
            let here : a.domain_id ≡ d = (==_iff a.domain_id d).0 owner in
            ground (arith, still d, added d, here, idle)
        | inr other ↦ ground (arith, still d, added d, c.one_active d)
      ];
      settled = λ d. elim (Bool-cases (a.domain_id == d)) [
        | inl owner ↦
            let here : a.domain_id ≡ d = (==_iff a.domain_id d).0 owner in
            inr (
              rw (rows, ← here)
                (count-terminal_of_cleared a.domain_id (retry_policy now) (λ p. refl) db.policies
                  (λ p. refl)))
        | inr other ↦
            let apart : a.domain_id ≢ d = ground arith in
            let untouched =
              count-terminal_of_other a.domain_id (retry_policy now) (λ p. refl) db.policies d
                apart in
            ground (arith, still d, added d, c.settled d, untouched, rows)
      ];
    }

module _ (now : ℕ) (db : Db) where
  retry_body-IsConsistent :
      (os : Platform) (draw : ℕ → ℕ) (job_id : ℕ) (next : ℕ) (after : Db)
      → IsConsistent db
      → retry_body os draw job_id now db ≡ ok (next, after)
      → IsConsistent after
  unfolding retry_body
  retry_body-IsConsistent os draw job_id next after c h =
      after_ok (ok_or (find (managed_attempt job_id db) db.attempts) not_found) _ h λ a _ h₁.
        after_ok (ok_or (find (for_domain a.domain_id) db.policies) not_found) _ h₁ λ p found h₂.
          after_ok
            (refuse_if
              (not (is_failed a.status)
                || not (is_some p.terminal_failure_at)
                || never_retried a.failure_code)
              conflict)
            _ h₂
            λ _ allowed h₃.
              after_ok (refuse_if (leb (2 ^ 15) (a.attempt_number + 1)) unavailable_operation) _ h₃
                λ _ _ h₄.
                  after_ok
                    (lift (
                      insert_attempt_and_outbox (draw 1) (retry_job os a (draw 0))
                        (a.attempt_number + 1) now now db))
                    _ h₄
                    λ inserted stored h₅.
                      after_ok
                        (lift (set_policies (for_domain a.domain_id) (retry_policy now) inserted)) _
                        h₅
                        λ updated moved h₆.
                          let idle =
                            marked-idle db p a.domain_id c (option_value _ not_found found)
                              (ground arith) in
                          let end : updated ≡ after = ground arith in
                          subst IsConsistent end (
                            retried-IsConsistent os (draw 1) (draw 0) (a.attempt_number + 1) now a
                              db inserted updated c idle (lift-eq-ok _ stored) (lift-eq-ok _ moved))

  -- An administrator's retry keeps the invariant: the failure mark that it asks for tells that
  -- nothing is in progress.
  pub retry_terminal_attempt-IsConsistent :
      (os : Platform) (draw : ℕ → ℕ) (job_id : Option ℕ)
      → IsConsistent db
      → IsConsistent (retry_terminal_attempt os draw job_id now db).1
  unfolding retry_terminal_attempt
  retry_terminal_attempt-IsConsistent os draw none c = c
  retry_terminal_attempt-IsConsistent os draw (some job_id) c =
      commit-keeps IsConsistent (retry_body os draw job_id now) db c
        (λ next after h. retry_body-IsConsistent os draw job_id next after c h)
