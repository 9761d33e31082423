-- ===== src/Scheduler/Repository/Reserved.antt =====
-- What `reserve_due` does: whom it reserves, how many attempts it adds, and which policies change.
use tech_atlas.Prelude.{ℕ, ◌+◌, ◌≤◌, ◌<◌, ◌≡◌, refl, List, [], ◌∷◌, map, arith, count, ok, after_ok}
use tech_atlas.CrawlJob.{CrawlJobV1}
use tech_atlas.Scheduler.Tables.{PolicyRow, Db}
use tech_atlas.Scheduler.Tables.Rows.{changed}
use tech_atlas.Scheduler.Repository.{
  Platform, new_job_with_correlation, insert_attempt_and_outbox, set_policies,
}
use tech_atlas.Scheduler.Repository.Effects.{
  active, active-insert, set_policies_lem, new_job_lem, insert_lem,
}
use tech_atlas.Scheduler.Repository.Policies.{
  terminal_of, count-for_domain_update, count-terminal_of-le, count-terminal_of_cleared,
}
use tech_atlas.Scheduler.Repository.Reserve.{for_domain, reserved_policy, reserve_rows}

-- One round of the loop.
record Round (os : Platform) (draw : ℕ → ℕ) (now : ℕ) (p : PolicyRow) (ps : List PolicyRow)
    (db : Db) (jobs : List CrawlJobV1) (after : Db) : Type 0 where
  job : CrawlJobV1
  inserted : Db
  updated : Db
  rest : List CrawlJobV1
  made : new_job_with_correlation os p.domain_id (draw 1) (draw 0) ≡ ok job
  stored : insert_attempt_and_outbox (draw 2) job 1 now now db ≡ ok inserted
  moved : set_policies (for_domain p.domain_id) (reserved_policy now) inserted ≡ ok updated
  later : reserve_rows os (λ n. draw (3 + n)) now ps updated ≡ ok (rest, after)
  all : jobs ≡ job ∷ rest

reserve_rows-Round :
    (os : Platform) (draw : ℕ → ℕ) (now : ℕ) (p : PolicyRow) (ps : List PolicyRow) (db : Db)
    {jobs : List CrawlJobV1} {after : Db}
    → reserve_rows os draw now (p ∷ ps) db ≡ ok (jobs, after)
    → Round os draw now p ps db jobs after
unfolding reserve_rows
reserve_rows-Round os draw now p ps db {jobs} {after} h =
    after_ok (new_job_with_correlation os p.domain_id (draw 1) (draw 0)) _ h λ job made h₁.
      after_ok (insert_attempt_and_outbox (draw 2) job 1 now now db) _ h₁ λ inserted stored h₂.
        after_ok (set_policies (for_domain p.domain_id) (reserved_policy now) inserted) _ h₂
          λ updated moved h₃.
            after_ok (reserve_rows os (λ n. draw (3 + n)) now ps updated) _ h₃ λ rest later h₄.
              record {
                job = job;
                inserted = inserted;
                updated = updated;
                rest = rest.0;
                made = made;
                stored = stored;
                moved = moved;
                later = ground arith;
                all = ground arith;
              }

reserve_rows_end :
    (os : Platform) (draw : ℕ → ℕ) (now : ℕ) (db : Db) {jobs : List CrawlJobV1} {after : Db}
    → reserve_rows os draw now [] db ≡ ok (jobs, after)
    → (jobs ≡ []) × (after ≡ db)
unfolding reserve_rows
reserve_rows_end os draw now db h = ground arith

-- Every reserved policy gives its domain one active attempt more, and nothing else does.
pub active-reserve_rows :
    (os : Platform) (draw : ℕ → ℕ) (now d : ℕ) (ps : List PolicyRow) (db : Db)
    {jobs : List CrawlJobV1} {after : Db}
    → reserve_rows os draw now ps db ≡ ok (jobs, after)
    → active d after ≡ active d db + count (for_domain d) ps
active-reserve_rows os draw now d [] db h = rw (reserve_rows_end os draw now db h).1 (omega arith)
active-reserve_rows os draw now d (p ∷ ps) db h =
    let r = reserve_rows-Round os draw now p ps db h in
    let moved =
      set_policies_lem (for_domain p.domain_id) (reserved_policy now) r.inserted r.moved in
    let same : active d r.updated ≡ active d r.inserted = rw moved refl in
    let owner = (new_job_lem os p.domain_id (draw 1) (draw 0) r.made).0 in
    let added = active-insert d (draw 2) r.job 1 now now db r.stored in
    let later = active-reserve_rows os (λ n. draw (3 + n)) now d ps r.updated r.later in
    ground (arith, same, owner, added, later)

-- The jobs are the policies' domains, in order.
pub domains-reserve_rows :
    (os : Platform) (draw : ℕ → ℕ) (now : ℕ) (ps : List PolicyRow) (db : Db)
    {jobs : List CrawlJobV1} {after : Db}
    → reserve_rows os draw now ps db ≡ ok (jobs, after)
    → map (λ (j : CrawlJobV1). j.domain_id) jobs ≡ map (λ (p : PolicyRow). p.domain_id) ps
domains-reserve_rows os draw now [] db h = rw (reserve_rows_end os draw now db h).0
domains-reserve_rows os draw now (p ∷ ps) db h =
    let r = reserve_rows-Round os draw now p ps db h in
    let owner = (new_job_lem os p.domain_id (draw 1) (draw 0) r.made).0 in
    let later = domains-reserve_rows os (λ n. draw (3 + n)) now ps r.updated r.later in
    rw r.all (cc (owner, later))

-- The policies keep their domains.
pub policies-reserve_rows :
    (os : Platform) (draw : ℕ → ℕ) (now d : ℕ) (ps : List PolicyRow) (db : Db)
    {jobs : List CrawlJobV1} {after : Db}
    → reserve_rows os draw now ps db ≡ ok (jobs, after)
    → (count (for_domain d) after.policies ≡ count (for_domain d) db.policies)
      × (count (terminal_of d) after.policies ≤ count (terminal_of d) db.policies)
      × (0 < count (for_domain d) ps → count (terminal_of d) after.policies ≡ 0)
policies-reserve_rows os draw now d [] db h =
    rw (reserve_rows_end os draw now db h).1 (refl, omega arith, λ k. absurd (omega arith))
policies-reserve_rows os draw now d (p ∷ ps) db h =
    let r = reserve_rows-Round os draw now p ps db h in
    let moved =
      set_policies_lem (for_domain p.domain_id) (reserved_policy now) r.inserted r.moved in
    let stored = insert_lem (draw 2) r.job 1 now now db r.stored in
    let (kept, fewer, cleared) =
      policies-reserve_rows os (λ n. draw (3 + n)) now d ps r.updated r.later in
    let before : r.inserted.policies ≡ db.policies = rw stored refl in
    let after_move : r.updated.policies
        ≡ map (changed (for_domain p.domain_id) (reserved_policy now)) db.policies =
      rw (moved, before) refl in
    let kept' =
      count-for_domain_update p.domain_id (reserved_policy now) (λ q. refl) db.policies d in
    let fewer' =
      count-terminal_of-le p.domain_id (reserved_policy now) (λ q. refl) db.policies (λ q. refl)
        d in
    let cleared' =
      count-terminal_of_cleared p.domain_id (reserved_policy now) (λ q. refl) db.policies
        (λ q. refl) in
    ground (arith, kept, fewer, cleared, kept', fewer', cleared', after_move)
