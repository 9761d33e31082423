-- ===== src/Scheduler/Repository/Effects.antt =====
-- What the shared statements of the repository do to the tables when they succeed.
use tech_atlas.Prelude.{
  ℕ, ◌+◌, ◌≡◌, refl, Bool, [], ◌∷◌, ◌++◌, map, some, arith, count, ok, err, >>=-eq-ok, ok_or,
  Outcome, Option, none, count-append, if◌then◌else◌, ◌==◌, ◌∙◌,
}
use tech_atlas.CrawlJob.{CrawlJobV1}
use tech_atlas.Scheduler.Tables.{
  PolicyRow, AttemptRow, OutboxRow, Db, check_policy, check_attempt, check_outbox, update_rows,
}
use tech_atlas.Scheduler.Tables.Rows.{changed, update_rows_lem}
use tech_atlas.Scheduler.Repository.{
  RepositoryError, unavailable, Platform, attempt_of, outbox_of, insert_attempt_and_outbox,
  new_job_with_correlation, set_policies, set_attempts, set_outbox, transact, Answer,
}
use tech_atlas.Scheduler.Repository.Reserve.{active_of}

-- The number of a domain's queued and running attempts.
abbrev pub active : ℕ → Db → ℕ
active d db = count (active_of d) db.attempts

pub ok_or-eq-ok :
    {A : Type 0} (o : Option A) (e : RepositoryError) {a : A} → ok_or o e ≡ ok a → o ≡ some a
ok_or-eq-ok none e h = cc
ok_or-eq-ok (some b) e h = cc

pub set_policies_lem :
    (chosen : PolicyRow → Bool) (change : PolicyRow → PolicyRow) (db : Db) {after : Db}
    → set_policies chosen change db ≡ ok after
    → after ≡ record db { policies = map (changed chosen change) db.policies }
set_policies_lem chosen change db h =
    let (rows, e, same) =
      >>=-eq-ok (ok_or (update_rows check_policy chosen change db.policies) unavailable) _ h in
    let rewritten =
      update_rows_lem check_policy chosen change db.policies rows (ok_or-eq-ok _ unavailable e) in
    ground (arith, rewritten)

pub set_attempts_lem :
    (chosen : AttemptRow → Bool) (change : AttemptRow → AttemptRow) (db : Db) {after : Db}
    → set_attempts chosen change db ≡ ok after
    → after ≡ record db { attempts = map (changed chosen change) db.attempts }
set_attempts_lem chosen change db h =
    let (rows, e, same) =
      >>=-eq-ok (ok_or (update_rows check_attempt chosen change db.attempts) unavailable) _ h in
    let rewritten =
      update_rows_lem check_attempt chosen change db.attempts rows (ok_or-eq-ok _ unavailable e) in
    ground (arith, rewritten)

pub set_outbox_lem :
    (chosen : OutboxRow → Bool) (change : OutboxRow → OutboxRow) (db : Db) {after : Db}
    → set_outbox chosen change db ≡ ok after
    → after ≡ record db { outbox = map (changed chosen change) db.outbox }
set_outbox_lem chosen change db h =
    let (rows, e, same) =
      >>=-eq-ok (ok_or (update_rows check_outbox chosen change db.outbox) unavailable) _ h in
    let rewritten =
      update_rows_lem check_outbox chosen change db.outbox rows (ok_or-eq-ok _ unavailable e) in
    ground (arith, rewritten)

pub new_job_lem :
    (os : Platform) (domain_id correlation_id job_id : ℕ) {job : CrawlJobV1}
    → new_job_with_correlation os domain_id correlation_id job_id ≡ ok job
    → (job.domain_id ≡ domain_id) × (job.correlation_id ≡ correlation_id) × (job.job_id ≡ job_id)
unfolding new_job_with_correlation
new_job_lem os domain_id correlation_id job_id h = ground arith

pub insert_lem :
    (id : ℕ) (job : CrawlJobV1) (n available created : ℕ) (db : Db) {after : Db}
    → insert_attempt_and_outbox id job n available created db ≡ ok after
    → after ≡ record db {
      attempts = db.attempts ++ attempt_of job id n available created ∷ [];
      outbox = db.outbox ++ outbox_of job id available created ∷ [];
    }
unfolding insert_attempt_and_outbox
insert_lem id job n available created db h = ground arith

-- An inserted attempt is active for its job's domain alone.
pub active-insert :
    (d id : ℕ) (job : CrawlJobV1) (n available created : ℕ) (db : Db) {after : Db}
    → insert_attempt_and_outbox id job n available created db ≡ ok after
    → active d after ≡ active d db + (if job.domain_id == d then 1 else 0)
unfolding active_of attempt_of
active-insert d id job n available created db h =
    rw (insert_lem id job n available created db h)
      (count-append (active_of d) db.attempts _ ∙ ground arith)

-- A transaction that fails leaves the tables alone.
pub transact-keeps :
    {A : Type 0} (P : Db → Type 0) (body : Db → Answer A) (db : Db)
    → P db
    → ((a : A) (after : Db) → body db ≡ ok (a, after) → P after)
    → P (transact body db).1
unfolding transact
transact-keeps {A} P body db before step = go (body db) (λ a after e. step a after e)
  where
    go :
        (answer : Answer A)
        → ((a : A) (after : Db) → answer ≡ ok (a, after) → P after)
        → P
            (elim answer as (λ _. Outcome RepositoryError A × Db) [
              | ok (a, db') ↦ (ok a, db')
              | err e ↦ (err e, db)
            ]).1
    go (ok (a, after)) k = k a after refl
    go (err e) k = before

pub transact-eq-ok :
    {A : Type 0} (body : Db → Answer A) (db : Db) {a : A} {after : Db}
    → transact body db ≡ (ok a, after)
    → body db ≡ ok (a, after)
unfolding transact
transact-eq-ok body db h = ground arith
