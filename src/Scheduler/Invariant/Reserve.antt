-- ===== src/Scheduler/Invariant/Reserve.antt =====
-- `reserve_due` keeps the invariant, and reserves only what is due.
use tech_atlas.Prelude.{
  ℕ, ◌≤◌, ◌<◌, ◌≡◌, Bool, true, false, List, arith, count, filter, All, All-take, ok, inl, inr,
  Bool-cases, after_ok, ◌==◌,
}
use tech_atlas.Prelude.Sort.{
  sort_by, count-sort_by, All-sort_by, count-take-le, count-filter-le, count-filter_none,
  filter-All,
}
use tech_atlas.CrawlJob.{CrawlJobV1}
use tech_atlas.Scheduler.Tables.{PolicyRow, Db}
use tech_atlas.Scheduler.Tables.Rows.{count-eq-zero_of_any}
use tech_atlas.Scheduler.Repository.{Platform}
use tech_atlas.Scheduler.Repository.Effects.{active, transact-keeps}
use tech_atlas.Scheduler.Repository.Reserve.{
  for_domain, active_of, is_due, due_before, due_policies, reserve_rows, reserve_due_body,
  reserve_due,
}
use tech_atlas.Scheduler.Repository.Reserved.{active-reserve_rows, policies-reserve_rows}
use tech_atlas.Scheduler.Invariant.{IsConsistent}

module _ (locked : ℕ → Bool) (now : ℕ) (db : Db) where
  -- A due policy's domain has no active attempt.
  due-idle : (p : PolicyRow) → is_due locked now db p ≡ true → active p.domain_id db ≡ 0
  unfolding is_due
  due-idle p h = count-eq-zero_of_any (active_of p.domain_id) db.attempts (ground arith)

  count-due-le :
      (limit d : ℕ)
      → count (for_domain d) (due_policies locked now limit db) ≤ count (for_domain d) db.policies
  unfolding due_policies
  count-due-le limit d =
      let due = filter (is_due locked now db) db.policies in
      omega (
        arith,
        count-take-le (for_domain d) limit (sort_by due_before due),
        count-sort_by due_before (for_domain d) due,
        count-filter-le (for_domain d) (is_due locked now db) db.policies,
      )

  -- A domain with an active attempt is not among the due ones.
  pub count-due_none :
      (limit d : ℕ) → 0 < active d db → count (for_domain d) (due_policies locked now limit db) ≡ 0
  unfolding due_policies
  count-due_none limit d busy =
      let due = filter (is_due locked now db) db.policies in
      let absent : (p : PolicyRow) → is_due locked now db p ≡ true → for_domain d p ≡ false =
        λ p h. ground (arith, due-idle p h) in
      omega (
        arith,
        count-take-le (for_domain d) limit (sort_by due_before due),
        count-sort_by due_before (for_domain d) due,
        count-filter_none (for_domain d) (is_due locked now db) db.policies absent,
      )

  pub due_policies-All :
      (limit : ℕ) → All (λ p. is_due locked now db p ≡ true) (due_policies locked now limit db)
  unfolding due_policies
  due_policies-All limit =
      All-take _ limit _
        (All-sort_by due_before _ _ (filter-All (is_due locked now db) db.policies))

module _ (os : Platform) (draw : ℕ → ℕ) (locked : ℕ → Bool) (now limit : ℕ) (db : Db) where
  reserve_body-IsConsistent :
      (jobs : List CrawlJobV1) (after : Db)
      → IsConsistent db
      → reserve_due_body os draw locked now limit db ≡ ok (jobs, after)
      → IsConsistent after
  unfolding reserve_due_body
  reserve_body-IsConsistent jobs after c h =
      let ps = due_policies locked now limit db in
      after_ok _ (λ _. reserve_rows os draw now ps db) h
        λ _ _ reserved. record {
          one_policy = λ d.
              omega (arith, c.one_policy d, (policies-reserve_rows os draw now d ps db reserved).0);
          one_active = λ d. ground (
            arith,
            c.one_active d,
            c.one_policy d,
            active-reserve_rows os draw now d ps db reserved,
            count-due-le locked now db limit d,
            count-due_none locked now db limit d,
          );
          settled = λ d. ground (
            arith,
            c.settled d,
            active-reserve_rows os draw now d ps db reserved,
            policies-reserve_rows os draw now d ps db reserved,
          );
        }

  -- From consistent tables, reserving leads to consistent tables, whether it succeeds or fails: no
  -- domain gets a second active attempt.
  pub reserve_due-IsConsistent :
      IsConsistent db → IsConsistent (reserve_due os draw locked now limit db).1
  unfolding reserve_due
  reserve_due-IsConsistent c = elim (Bool-cases (limit == 0)) [
    | inl nothing ↦ rw nothing c
    | inr some_rows ↦ rw some_rows (
        transact-keeps IsConsistent (reserve_due_body os draw locked now limit) db c
          (λ jobs after h. reserve_body-IsConsistent jobs after c h))
  ]
