-- ===== src/Scheduler/Repository/DueOrder.antt =====
-- `reserve_due` as a whole: whom it reserves, in which order, and what it adds.
use tech_atlas.Prelude.{
  ℕ, ◌+◌, ◌≤◌, ◌≡◌, refl, Bool, true, false, List, [], ◌∷◌, map, arith, count, length, filter, All,
  ok, inl, inr, ==_iff, Bool-cases, length-take, ◌==◌,
}
use tech_atlas.Prelude.Sort.{sort_by, IsSortedBy, sort_by-IsSortedBy, IsSortedBy-take}
use tech_atlas.CrawlJob.{CrawlJobV1}
use tech_atlas.Scheduler.Tables.{PolicyRow, Db}
use tech_atlas.Scheduler.Repository.{Platform}
use tech_atlas.Scheduler.Repository.Effects.{active, transact-eq-ok}
use tech_atlas.Scheduler.Repository.Reserve.{
  for_domain, is_due, due_before, due_policies, reserve_rows, reserve_due_body, reserve_due,
}
use tech_atlas.Scheduler.Repository.Reserved.{active-reserve_rows, domains-reserve_rows}
use tech_atlas.Scheduler.Invariant.Reserve.{due_policies-All}

due_before_total : (p q : PolicyRow) → due_before p q ≡ false → due_before q p ≡ true
unfolding due_before
due_before_total p q h = ground arith

due_before_trans :
    (p q r : PolicyRow) → due_before p q ≡ true → due_before q r ≡ true → due_before p r ≡ true
unfolding due_before
due_before_trans p q r h k = ground arith

due_none : (locked : ℕ → Bool) (now : ℕ) (db : Db) → due_policies locked now 0 db ≡ []
unfolding due_policies
due_none locked now db = refl

due_policies_bounded :
    (locked : ℕ → Bool) (now limit : ℕ) (db : Db)
    → length (due_policies locked now limit db) ≤ limit
unfolding due_policies
due_policies_bounded locked now limit db =
    omega
      (arith, length-take limit (sort_by due_before (filter (is_due locked now db) db.policies)))

due_policies-IsSortedBy :
    (locked : ℕ → Bool) (now limit : ℕ) (db : Db)
    → IsSortedBy due_before (due_policies locked now limit db)
unfolding due_policies
due_policies-IsSortedBy locked now limit db = IsSortedBy-take due_before limit _ (
    sort_by-IsSortedBy due_before due_before_total due_before_trans
      (filter (is_due locked now db) db.policies))

-- The attempts that the jobs of a domain stand for.
abbrev pub job_for : ℕ → CrawlJobV1 → Bool
job_for d j = j.domain_id == d

count-job_for :
    (d : ℕ) (jobs : List CrawlJobV1) (ps : List PolicyRow)
    → map (λ (j : CrawlJobV1). j.domain_id) jobs ≡ map (λ (p : PolicyRow). p.domain_id) ps
    → (count (job_for d) jobs ≡ count (for_domain d) ps) × (length jobs ≡ length ps)
count-job_for d [] [] h = (refl, refl)
count-job_for d [] (p ∷ ps) h = cc
count-job_for d (j ∷ jobs) [] h = cc
count-job_for d (j ∷ jobs) (p ∷ ps) h = ground (arith, count-job_for d jobs ps)

-- What a successful reservation has done.
pub record IsReservation (locked : ℕ → Bool) (now limit : ℕ) (db after : Db)
    (jobs : List CrawlJobV1) : Type 0 where
  pub domains :
      map (λ (j : CrawlJobV1). j.domain_id) jobs
      ≡ map (λ (p : PolicyRow). p.domain_id) (due_policies locked now limit db)
  pub due : All (λ p. is_due locked now db p ≡ true) (due_policies locked now limit db)
  pub sorted : IsSortedBy due_before (due_policies locked now limit db)
  pub bounded : length jobs ≤ limit
  pub added : (d : ℕ) → active d after ≡ active d db + count (job_for d) jobs

module _ (os : Platform) (draw : ℕ → ℕ) (locked : ℕ → Bool) (now limit : ℕ) (db : Db)
    {jobs : List CrawlJobV1} {after : Db} where
  rows-IsReservation :
      reserve_rows os draw now (due_policies locked now limit db) db ≡ ok (jobs, after)
      → IsReservation locked now limit db after jobs
  rows-IsReservation h =
      let ps = due_policies locked now limit db in
      let same = domains-reserve_rows os draw now ps db h in
      record {
        domains = same;
        due = due_policies-All locked now db limit;
        sorted = due_policies-IsSortedBy locked now limit db;
        bounded =
            ground
              (arith, due_policies_bounded locked now limit db, (count-job_for 0 jobs ps same).1);
        added = λ d.
            omega
              (arith, active-reserve_rows os draw now d ps db h, (count-job_for d jobs ps same).0);
      }

  reserve_body_rows :
      reserve_due_body os draw locked now limit db ≡ ok (jobs, after)
      → reserve_rows os draw now (due_policies locked now limit db) db ≡ ok (jobs, after)
  unfolding reserve_due_body
  reserve_body_rows h = ground arith

  -- A successful reservation serves the due policies in their order, at most `limit` of them, and
  -- gives each served domain one active attempt for each job.
  pub reserve_due-IsReservation :
      reserve_due os draw locked now limit db ≡ (ok jobs, after)
      → IsReservation locked now limit db after jobs
  unfolding reserve_due reserve_rows
  reserve_due-IsReservation h = elim (Bool-cases (limit == 0)) [
    | inl nothing ↦
        let no_rows : limit ≡ 0 = (==_iff limit 0).0 nothing in
        rows-IsReservation (rw (no_rows, due_none locked now db, reserve_rows) (ground arith))
    | inr some_rows ↦
        let body = transact-eq-ok (reserve_due_body os draw locked now limit) db (ground arith) in
        rows-IsReservation (reserve_body_rows body)
  ]
