-- ===== src/Scheduler/Invariant/Outcome.antt =====
-- Every outcome of an attempt keeps the invariant, on the success, retry and exhaustion branches.
use tech_atlas.Prelude.{
  ℕ, suc, ◌+◌, ◌≡◌, refl, List, [], ◌∷◌, ok, err, Outcome, inl, inr, Bool-cases, after_ok, ◌>>=◌,
  leb, Option, ok_or, refuse_if, find, arith, subst, ◌==◌, ltb, ◌-◌, ◌||◌,
}
use tech_atlas.Prelude.Duration.{Duration}
use tech_atlas.Scheduler.Settings.{SchedulerSettings, crawl_retry_delay}
use tech_atlas.Scheduler.Failure.{CrawlFailure}
use tech_atlas.Scheduler.Tables.{AttemptRow, Db, is_finished, is_active}
use tech_atlas.Scheduler.Repository.{
  i64_end, RepositoryError, unavailable, not_found, Platform, CrawlAttemptOutcome, crawl_succeeded,
  crawl_failed, set_attempts, set_policies, insert_attempt_and_outbox, new_job_with_correlation,
  add_std_duration,
}
use tech_atlas.Scheduler.Repository.Effects.{
  ok_or-eq-ok, transact-keeps, insert_lem, active-insert, new_job_lem,
}
use tech_atlas.Scheduler.Repository.Reserve.{for_domain}
use tech_atlas.Scheduler.Repository.Finish.{
  has_id, joined_attempt, succeeded_attempt, failed_attempt, succeeded_policy, retried_policy,
  exhausted_policy, finish_succeeded, follow_failure, finish_failed, finish,
  record_attempt_outcome_body, record_attempt_outcome, recover_each, recover_stale_attempts,
  recovered, recover_with, lease_expired, stale_job_ids,
}
use tech_atlas.Scheduler.Invariant.{IsConsistent}
use tech_atlas.Scheduler.Invariant.Finish.{
  IsOpen, IsClosed, close-IsClosed, update-IsConsistent, retry-IsConsistent,
}

module _ (os : Platform) (draw : ℕ → ℕ) (settings : SchedulerSettings) (a : AttemptRow)
    (now : ℕ) where
  succeeded-IsConsistent :
      (db after : Db)
      → IsConsistent db
      → IsOpen db a
      → finish_succeeded a now db ≡ ok after
      → IsConsistent after
  unfolding finish_succeeded
  succeeded-IsConsistent db after c o h =
      after_ok (set_attempts (has_id a.id) (succeeded_attempt now) db) _ h λ closed shut moved.
        update-IsConsistent db closed after a (succeeded_policy now) (λ p. refl) c
          (close-IsClosed db closed a (succeeded_attempt now) o (λ x. unfold is_active in refl)
            shut)
          moved

  retried-IsConsistent :
      (db closed after : Db) (delay : Option Duration)
      → IsConsistent db
      → IsClosed db a closed
      → (ok_or delay unavailable >>= λ wait. add_std_duration os now wait >>= λ retry_at.
          new_job_with_correlation os a.domain_id a.correlation_id (draw 0) >>= λ retry.
          insert_attempt_and_outbox (draw 1) retry (a.attempt_number + 1) retry_at now closed
          >>= λ inserted.
              set_policies (for_domain a.domain_id) (retried_policy now retry_at) inserted)
        ≡ ok after
      → IsConsistent after
  retried-IsConsistent db closed after delay c k h =
      after_ok (ok_or delay unavailable) _ h λ wait _ h₁.
        after_ok (add_std_duration os now wait) _ h₁ λ retry_at _ h₂.
          after_ok (new_job_with_correlation os a.domain_id a.correlation_id (draw 0)) _ h₂
            λ retry made h₃.
              after_ok
                (insert_attempt_and_outbox (draw 1) retry (a.attempt_number + 1) retry_at now
                  closed)
                _ h₃
                λ inserted stored moved.
                  let owner = (new_job_lem os a.domain_id a.correlation_id (draw 0) made).0 in
                  retry-IsConsistent db closed inserted after a now retry_at c k
                    (λ d. rw (← owner) (
                      active-insert d (draw 1) retry (a.attempt_number + 1) retry_at now closed
                        stored))
                    (rw
                      (insert_lem (draw 1) retry (a.attempt_number + 1) retry_at now closed stored)
                      refl)
                    moved

  followed-IsConsistent :
      (db closed after : Db)
      → IsConsistent db
      → IsClosed db a closed
      → follow_failure os draw settings a now closed ≡ ok after
      → IsConsistent after
  unfolding follow_failure
  followed-IsConsistent db closed after c k h =
      elim (Bool-cases (leb a.attempt_number settings.max_crawl_retries)) [
        | inl again ↦
            retried-IsConsistent db closed after (crawl_retry_delay settings a.attempt_number) c k
              (rw again at h)
        | inr never ↦
            update-IsConsistent db closed after a (exhausted_policy now) (λ p. refl) c k
              (rw never at h)
      ]

  failed-IsConsistent :
      (failure : CrawlFailure) (db after : Db)
      → IsConsistent db
      → IsOpen db a
      → finish_failed os draw settings failure a now db ≡ ok after
      → IsConsistent after
  unfolding finish_failed
  failed-IsConsistent failure db after c o h =
      after_ok (set_attempts (has_id a.id) (failed_attempt failure now) db) _ h λ closed shut h₁.
        after_ok (refuse_if (leb 256 a.attempt_number) unavailable) _ h₁ λ _ _ followed.
          followed-IsConsistent db closed after c
            (close-IsClosed db closed a (failed_attempt failure now) o
              (λ x. unfold is_active in refl) shut)
            followed

  finish-IsConsistent :
      (outcome : CrawlAttemptOutcome) (db after : Db)
      → IsConsistent db
      → IsOpen db a
      → finish os draw settings outcome a now db ≡ ok after
      → IsConsistent after
  unfolding finish
  finish-IsConsistent crawl_succeeded db after c o h = succeeded-IsConsistent db after c o h
  finish-IsConsistent (crawl_failed failure) db after c o h =
      failed-IsConsistent failure db after c o h

same_tables :
    {done done' : Unit {0}} {db after : Db}
    → ◌≡◌ {A = Outcome RepositoryError (Unit {0} × Db)} (ok (done, db)) (ok (done', after))
    → db ≡ after
same_tables h = ground arith

either_kept :
    (r : Outcome RepositoryError (Unit {0})) (later : Outcome RepositoryError (Unit {0}) × Db)
    (stop : Db)
    → IsConsistent later.1
    → IsConsistent stop
    → IsConsistent
        (elim r as (λ _. Outcome RepositoryError (Unit {0}) × Db) [
          | ok _ ↦ later
          | err e ↦ (err e, stop)
        ]).1
either_kept (ok _) later stop h k = h
either_kept (err e) later stop h k = k

recovered_kept :
    (n : ℕ) (r : Outcome RepositoryError (Unit {0}) × Db)
    → IsConsistent r.1
    → IsConsistent (recovered n r).1
recovered_kept n (ok _, db) h = h
recovered_kept n (err e, db) h = h

module _ (os : Platform) (settings : SchedulerSettings) (now : ℕ) where
  recorded-IsConsistent :
      (draw : ℕ → ℕ) (job_id : ℕ) (outcome : CrawlAttemptOutcome) (db : Db) (done : Unit {0})
      (after : Db)
      → IsConsistent db
      → record_attempt_outcome_body os draw settings job_id outcome now db ≡ ok (done, after)
      → IsConsistent after
  unfolding record_attempt_outcome_body
  recorded-IsConsistent draw job_id outcome db done after c h =
      after_ok (ok_or (find (joined_attempt job_id db.policies) db.attempts) not_found) _ h
        λ a found h₁. elim (Bool-cases (is_finished a.status)) [
          | inl over ↦ subst IsConsistent (same_tables (rw over at h₁)) c
          | inr going ↦
              after_ok (finish os draw settings outcome a now db) _ (rw going at h₁)
                λ after' ended same. subst IsConsistent (same_tables same) (
                  finish-IsConsistent os draw settings a now outcome db after' c
                    (record {
                      job_id = job_id;
                      found = ok_or-eq-ok _ not_found found;
                      open_status = going;
                    })
                    ended)
        ]

  -- From consistent tables, recording an attempt's outcome leads to consistent tables, whether the
  -- call succeeds or fails: the attempt is closed before its retry is queued.
  pub record_attempt_outcome-IsConsistent :
      (draw : ℕ → ℕ) (job_id : ℕ) (outcome : CrawlAttemptOutcome) (db : Db)
      → IsConsistent db
      → IsConsistent (record_attempt_outcome os draw settings job_id outcome now db).1
  unfolding record_attempt_outcome
  record_attempt_outcome-IsConsistent draw job_id outcome db c =
      transact-keeps IsConsistent (record_attempt_outcome_body os draw settings job_id outcome now)
        db c (λ done after h. recorded-IsConsistent draw job_id outcome db done after c h)

  recover_each-IsConsistent :
      (draw : ℕ → ℕ → ℕ) (failure : CrawlFailure) (job_ids : List ℕ) (db : Db)
      → IsConsistent db
      → IsConsistent (recover_each os draw settings failure now job_ids db).1
  unfolding recover_each
  recover_each-IsConsistent draw failure [] db c = c
  recover_each-IsConsistent draw failure (job_id ∷ rest) db c =
      let kept = record_attempt_outcome-IsConsistent (draw 0) job_id (crawl_failed failure) db c in
      either_kept
        (record_attempt_outcome os (draw 0) settings job_id (crawl_failed failure) now db).0
        (recover_each os (λ n. draw (suc n)) settings failure now rest
          (record_attempt_outcome os (draw 0) settings job_id (crawl_failed failure) now db).1)
        (record_attempt_outcome os (draw 0) settings job_id (crawl_failed failure) now db).1
        (recover_each-IsConsistent (λ n. draw (suc n)) failure rest _ kept) kept

  recover_with-IsConsistent :
      (draw : ℕ → ℕ → ℕ) (job_ids : List ℕ) (db : Db) (made : Outcome RepositoryError CrawlFailure)
      → IsConsistent db
      → IsConsistent (recover_with os draw settings now job_ids db made).1
  recover_with-IsConsistent draw job_ids db (ok failure) c =
      recovered_kept _ _ (recover_each-IsConsistent draw failure job_ids db c)
  recover_with-IsConsistent draw job_ids db (err e) c = c

  -- Recovering stale attempts keeps the invariant, also where it stops half way with an error.
  pub recover_stale_attempts-IsConsistent :
      (draw : ℕ → ℕ → ℕ) (stale_after : Duration) (limit : ℕ) (db : Db)
      → IsConsistent db
      → IsConsistent (recover_stale_attempts os draw settings now stale_after limit db).1
  unfolding recover_stale_attempts
  recover_stale_attempts-IsConsistent draw stale_after limit db c = elim (Bool-cases (limit == 0)) [
    | inl nothing ↦ rw nothing c
    | inr some_rows ↦ elim (Bool-cases (ltb now stale_after || leb i64_end limit)) [
      | inl refused ↦ rw (some_rows, refused) c
      | inr accepted ↦
          rw (some_rows, accepted)
            (recover_with-IsConsistent draw (stale_job_ids (now - stale_after) limit db) db
              lease_expired c)
    ]
  ]
