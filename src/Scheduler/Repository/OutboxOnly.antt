-- ===== src/Scheduler/Repository/OutboxOnly.antt =====
-- What the outbox operations keep: whatever an UPDATE of the outbox keeps.
use tech_atlas.Prelude.{
  ℕ, ◌+◌, ◌^◌, ◌≡◌, Bool, ok, inl, inr, find, any, not, arith, after_ok, ok_or, refuse_if,
  Bool-cases, leb,
}
use tech_atlas.Scheduler.Settings.{SchedulerSettings, outbox_retry_delay}
use tech_atlas.Scheduler.Tables.{OutboxRow, Db}
use tech_atlas.Scheduler.Repository.{Platform, set_outbox, add_std_duration, not_found, unavailable}
use tech_atlas.Scheduler.Repository.Effects.{transact-keeps}
use tech_atlas.Scheduler.Repository.Publish.{
  is_open, of_job, open_of_job, published_row, mark_published_body, mark_published, given_up_row,
  delayed_row, delay_rows, count_publish_failure, record_publish_failure_body,
  record_publish_failure,
}

module _ (os : Platform) (job_id now : ℕ) (settings : SchedulerSettings) (db : Db) (P : Db → Type 0)
    (before : P db)
    (keeps : (chosen : OutboxRow → Bool) (change : OutboxRow → OutboxRow) (after : Db)
      → set_outbox chosen change db ≡ ok after
      → P after) where
  delay_rows-keeps :
      (next delay : ℕ) (after : Db)
      → delay_rows os job_id now next delay db ≡ ok (tt, after)
      → P after
  unfolding delay_rows
  delay_rows-keeps next delay after h = after_ok (add_std_duration os now delay) _ h λ at _ h₁.
      after_ok (set_outbox (of_job job_id) (delayed_row next at now) db) _ h₁ λ updated set same.
        let end : after ≡ updated = ground arith in
        rw end (keeps (of_job job_id) (delayed_row next at now) updated set)

  count_publish_failure-keeps :
      (next : ℕ) (after : Db)
      → count_publish_failure os job_id now settings next db ≡ ok (tt, after)
      → P after
  unfolding count_publish_failure
  count_publish_failure-keeps next after h =
      elim (Bool-cases (leb settings.max_outbox_publish_attempts next)) [
        | inl last ↦
            after_ok (set_outbox (of_job job_id) (given_up_row next now) db) _ (rw last at h)
              λ updated set same.
                let end : after ≡ updated = ground arith in
                rw end (keeps (of_job job_id) (given_up_row next now) updated set)
        | inr again ↦
            after_ok (ok_or (outbox_retry_delay settings next) unavailable) _ (rw again at h)
              λ delay _ h₁. delay_rows-keeps next delay after h₁
      ]

  publish_failure_body-keeps :
      (after : Db)
      → record_publish_failure_body os job_id now settings db ≡ ok (tt, after)
      → P after
  unfolding record_publish_failure_body
  publish_failure_body-keeps after h =
      after_ok (ok_or (find (of_job job_id) db.outbox) not_found) _ h λ row _ h₁.
        elim (Bool-cases (is_open row)) [
          | inl live ↦
              after_ok (refuse_if (leb (2 ^ 15) (row.publish_attempt_count + 1)) unavailable) _
                (rw live at h₁)
                λ _ _ h₂.
                  after_ok (refuse_if (leb 256 (row.publish_attempt_count + 1)) unavailable) _ h₂
                    λ _ _ h₃. count_publish_failure-keeps (row.publish_attempt_count + 1) after h₃
          | inr closed ↦
              let unchanged = (rw closed at h₁) in
              let end : after ≡ db = ground (arith, unchanged) in rw end before
        ]

  pub record_publish_failure-keeps : P (record_publish_failure os job_id now settings db).1
  unfolding record_publish_failure
  record_publish_failure-keeps =
      transact-keeps P (record_publish_failure_body os job_id now settings) db before
        (λ _ after h. publish_failure_body-keeps after h)

  mark_published_body-keeps :
      (after : Db) → mark_published_body job_id now db ≡ ok (tt, after) → P after
  unfolding mark_published_body
  mark_published_body-keeps after h =
      after_ok (set_outbox (open_of_job job_id) (published_row now) db) _ h λ updated set h₁.
        after_ok (refuse_if (not (any (open_of_job job_id) db.outbox)) not_found) _ h₁ λ _ _ same.
          let end : after ≡ updated = ground arith in
          rw end (keeps (open_of_job job_id) (published_row now) updated set)

  pub mark_published-keeps : P (mark_published job_id now db).1
  unfolding mark_published
  mark_published-keeps =
      transact-keeps P (mark_published_body job_id now) db before
        (λ _ after h. mark_published_body-keeps after h)
