-- ===== src/Scheduler/Outbox.antt =====
-- What the outbox operations guarantee: a published message is never offered again, a failed
-- publication is retried after its delay and given up at the limit.
use tech_atlas.Prelude.{
  ℕ, ◌+◌, ◌≤◌, ◌<◌, ◌≡◌, refl, Bool, true, false, not, ok, err, inl, inr, Bool-cases, after_ok, leb,
  ltb, some, ok_or, refuse_if, find, any, arith, ◌⊎◌, ◌&&◌, ◌^◌,
}
use tech_atlas.Prelude.Duration.{Duration}
use tech_atlas.Scheduler.Settings.{SchedulerSettings, outbox_retry_delay}
use tech_atlas.Scheduler.Tables.{OutboxRow, Db, check_outbox}
use tech_atlas.Scheduler.Tables.Rows.{update_rows_none, any-changed_none}
use tech_atlas.Scheduler.Repository.{
  not_found, unavailable, Platform, transact, set_outbox, add_std_duration,
}
use tech_atlas.Scheduler.Repository.Effects.{transact-eq-ok, set_outbox_lem, ok_or-eq-ok}
use tech_atlas.Scheduler.Repository.Publish.{
  is_open, is_pending, of_job, open_of_job, published_row, mark_published_body, mark_published,
  given_up_row, delayed_row, delay_rows, count_publish_failure, record_publish_failure_body,
  record_publish_failure,
}

mark_published-any :
    (job_id now : ℕ) (db : Db) {after : Db}
    → mark_published job_id now db ≡ (ok tt, after)
    → any (open_of_job job_id) after.outbox ≡ false
unfolding mark_published mark_published_body
mark_published-any job_id now db {after} h =
    after_ok (set_outbox (open_of_job job_id) (published_row now) db) _
      (transact-eq-ok (mark_published_body job_id now) db h)
      λ updated set h₁.
        after_ok (refuse_if (not (any (open_of_job job_id) db.outbox)) not_found) _ h₁ λ _ _ same.
          let rows = set_outbox_lem (open_of_job job_id) (published_row now) db set in
          let end : after ≡ updated = ground arith in
          rw (end, rows)
            (any-changed_none (open_of_job job_id) (open_of_job job_id) (published_row now)
              db.outbox (λ o c. ground arith) (λ o c. c))

nothing_to_mark :
    (job_id now : ℕ) (db : Db)
    → any (open_of_job job_id) db.outbox ≡ false
    → mark_published job_id now db ≡ (err not_found, db)
unfolding mark_published mark_published_body transact
nothing_to_mark job_id now db h =
    ground
      (arith, update_rows_none check_outbox (open_of_job job_id) (published_row now) db.outbox h)

-- Once a message is marked as published, no row of its job is open, and marking the job again is
-- refused and changes nothing.
pub mark_published_twice :
    (job_id now later : ℕ) (db : Db) {after : Db}
    → mark_published job_id now db ≡ (ok tt, after)
    → (any (open_of_job job_id) after.outbox ≡ false)
      × (mark_published job_id later after ≡ (err not_found, after))
mark_published_twice job_id now later db {after} h =
    let closed = mark_published-any job_id now db h in
    (closed, nothing_to_mark job_id later after closed)

-- A row of the job that is offered for publication at an instant.
abbrev pub offered : ℕ → ℕ → OutboxRow → Bool
offered job_id at o = of_job job_id o && is_pending at o

given_up_held : (next now t : ℕ) (o : OutboxRow) → is_pending t (given_up_row next now o) ≡ false
unfolding is_pending
given_up_held next now t o = ground arith

delayed_held :
    (next at now t : ℕ) (o : OutboxRow) → t < at → is_pending t (delayed_row next at now o) ≡ false
unfolding is_pending
delayed_held next at now t o h = ground arith

add_std_lem :
    (os : Platform) (now delay : ℕ) {at : ℕ}
    → add_std_duration os now delay ≡ ok at
    → at ≡ now + delay
unfolding add_std_duration
add_std_lem os now delay h = ground arith

-- What a recorded failure leaves at an instant `t`: at the limit no row of the job is offered any
-- more, and below it none is offered before the backoff delay is over.
abbrev pub IsHeld : ℕ → ℕ → ℕ → SchedulerSettings → ℕ → Db → Type 0
IsHeld job_id now next settings t after =
    ((settings.max_outbox_publish_attempts ≤ next) × (any (offered job_id t) after.outbox ≡ false))
    ⊎ ((next < settings.max_outbox_publish_attempts)
        × ((delay : Duration) × (outbox_retry_delay settings next ≡ some delay)
            × ((ltb t (now + delay) && any (offered job_id t) after.outbox) ≡ false)))

module _ (os : Platform) (job_id now t : ℕ) (settings : SchedulerSettings) (db : Db) where
  given_up-none :
      (next : ℕ) {after : Db}
      → set_outbox (of_job job_id) (given_up_row next now) db ≡ ok after
      → any (offered job_id t) after.outbox ≡ false
  given_up-none next set = rw (set_outbox_lem (of_job job_id) (given_up_row next now) db set) (
      any-changed_none (offered job_id t) (of_job job_id) (given_up_row next now) db.outbox
        (λ o c. ground (arith, given_up_held next now t o)) (λ o c. ground arith))

  delayed-none :
      (next at : ℕ) {after : Db}
      → t < at
      → set_outbox (of_job job_id) (delayed_row next at now) db ≡ ok after
      → any (offered job_id t) after.outbox ≡ false
  delayed-none next at early set =
      rw (set_outbox_lem (of_job job_id) (delayed_row next at now) db set) (
        any-changed_none (offered job_id t) (of_job job_id) (delayed_row next at now) db.outbox
          (λ o c. ground (arith, delayed_held next at now t o)) (λ o c. ground arith))

  delayed-IsHeld :
      (next delay : ℕ) {after : Db}
      → delay_rows os job_id now next delay db ≡ ok (tt, after)
      → (ltb t (now + delay) && any (offered job_id t) after.outbox) ≡ false
  unfolding delay_rows
  delayed-IsHeld next delay {after} h = after_ok (add_std_duration os now delay) _ h λ at added h₁.
      after_ok (set_outbox (of_job job_id) (delayed_row next at now) db) _ h₁ λ updated set same.
        let end : after ≡ updated = ground arith in
        let when : at ≡ now + delay = add_std_lem os now delay added in
        elim (Bool-cases (ltb t (now + delay))) [
          | inl early ↦ rw (early, end) (delayed-none next at (ground (arith, when)) set)
          | inr late ↦ rw late refl
        ]

  count_publish_failure-IsHeld :
      (next : ℕ) {after : Db}
      → count_publish_failure os job_id now settings next db ≡ ok (tt, after)
      → IsHeld job_id now next settings t after
  unfolding count_publish_failure
  count_publish_failure-IsHeld next {after} h =
      elim (Bool-cases (leb settings.max_outbox_publish_attempts next)) [
        | inl last ↦
            after_ok (set_outbox (of_job job_id) (given_up_row next now) db) _ (rw last at h)
              λ updated set same.
                let end : after ≡ updated = ground arith in
                inl (ground arith, rw end (given_up-none next set))
        | inr again ↦
            after_ok (ok_or (outbox_retry_delay settings next) unavailable) _ (rw again at h)
              λ delay found h₁. inr (
                ground arith,
                (delay, ok_or-eq-ok _ unavailable found, delayed-IsHeld next delay h₁),
              )
      ]

  -- A recorded failure of a job whose row was still open never leaves a row of the job to be
  -- offered at once: it waits for the backoff delay of its next attempt, or is given up for good
  -- when the limit is reached.
  pub record_publish_failure-IsHeld :
      (row : OutboxRow) {after : Db}
      → find (of_job job_id) db.outbox ≡ some row
      → is_open row ≡ true
      → record_publish_failure os job_id now settings db ≡ (ok tt, after)
      → IsHeld job_id now (row.publish_attempt_count + 1) settings t after
  unfolding record_publish_failure record_publish_failure_body
  record_publish_failure-IsHeld row {after} found live h =
      let body = transact-eq-ok (record_publish_failure_body os job_id now settings) db h in
      let next = row.publish_attempt_count + 1 in
      after_ok (ok_or (find (of_job job_id) db.outbox) not_found) _ body λ row' got h₁.
        let same : row' ≡ row = ground (arith, ok_or-eq-ok _ not_found got) in
        let going : is_open row' ≡ true = rw same live in
        after_ok (refuse_if (leb (2 ^ 15) (row'.publish_attempt_count + 1)) unavailable) _
          (rw going at h₁)
          λ _ _ h₂.
            after_ok (refuse_if (leb 256 (row'.publish_attempt_count + 1)) unavailable) _ h₂
              λ _ _ h₃.
                rw (← same) (count_publish_failure-IsHeld (row'.publish_attempt_count + 1) h₃)
