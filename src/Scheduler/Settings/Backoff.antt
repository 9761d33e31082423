-- ===== src/Scheduler/Settings/Backoff.antt =====
-- When a retry delay exists, and how delays grow.
use native.Mathlib.Nat.{pow-le-pow_right, mul-le-mul_left}
use tech_atlas.Prelude.{
  ℕ, ◌-◌, ◌*◌, ◌^◌, ◌≤◌, ◌<◌, ◌≡◌, ◌↔◌, refl, some, none, ok, arith, after_ok, refuse_if, ◌==◌, leb,
  ◌&&◌, if◌then◌else◌, Bool-cases, inl, inr, ok-injective, false,
}
use tech_atlas.Prelude.Duration.{is_zero, Duration, duration_end}
use tech_atlas.Scheduler.Settings.{
  SchedulerSettings, zero_crawl_retry_base, zero_outbox_publish_limit, zero_outbox_retry_base,
  new_settings, exponential_delay, crawl_retry_delay, outbox_retry_delay,
}

-- A delay exists exactly for the numbers 1 to the maximum, at most 32, whose product fits a
-- `Duration`, and it is then the base doubled once for each earlier number.
pub exponential_delay_iff :
    (base number maximum d : ℕ)
    → (exponential_delay base number maximum ≡ some d) ↔ (
        (0 < number)
        × (number ≤ maximum)
        × (number ≤ 32)
        × (base * 2 ^ (number - 1) < duration_end)
        × (d ≡ base * 2 ^ (number - 1)))
unfolding exponential_delay
exponential_delay_iff base number maximum d = (λ h. ground arith, λ h. ground arith)

no_delay :
    (base number maximum : ℕ)
    → (leb 1 number && leb number maximum) ≡ false
    → exponential_delay base number maximum ≡ none
unfolding exponential_delay
no_delay base number maximum refused = ground (arith, refused)

-- With a positive base and a last delay that fits, the delays are exactly those of the numbers from
-- 1 to the maximum.
exponential_delay_lem :
    (base number maximum : ℕ)
    → 0 < base
    → maximum ≤ 32
    → base * 2 ^ (maximum - 1) < duration_end
    → (exponential_delay base number maximum
        ≡ (if leb 1 number && leb number maximum then some (base * 2 ^ (number - 1)) else none))
      × (0 < base * 2 ^ (number - 1))
exponential_delay_lem base number maximum some_base small fits =
    let factor : 1 ≤ 2 ^ (number - 1) =
      pow-le-pow_right {n = 2} (omega arith) {i = 0} {j = number - 1} (omega arith) in
    let least : base * 1 ≤ base * 2 ^ (number - 1) = mul-le-mul_left base factor in
    (
      elim (Bool-cases (leb 1 number && leb number maximum)) [
        | inl allowed ↦
            let capped : 2 ^ (number - 1) ≤ 2 ^ (maximum - 1) =
              pow-le-pow_right {n = 2} (omega arith) {i = number - 1} {j = maximum - 1}
                (ground (arith, allowed)) in
            let most : base * 2 ^ (number - 1) ≤ base * 2 ^ (maximum - 1) =
              mul-le-mul_left base capped in
            rw allowed (
              (exponential_delay_iff base number maximum _).1 (
                ground (arith, allowed),
                ground (arith, allowed),
                ground (arith, allowed),
                omega (arith, most),
                refl,
              ))
        | inr refused ↦ rw refused (no_delay base number maximum refused)
      ],
      omega (arith, least),
    )

-- When the settings are accepted, both limits are at most 32 and the last delay of each fits a
-- `Duration`: a crawl retry has a delay exactly for the numbers from 1 to its limit, its own base
-- doubled once for each earlier number; so has a failed publication with its own base and limit;
-- all these delays are positive, and a publication is attempted at least once.
pub new_settings-delays :
    (r : ℕ) (cb : Duration) (m : ℕ) (ob : Duration) {s : SchedulerSettings}
    → new_settings r cb m ob ≡ ok s
    → r ≤ 32
    → m ≤ 32
    → cb * 2 ^ (r - 1) < duration_end
    → ob * 2 ^ (m - 1) < duration_end
    → (n : ℕ)
    → (crawl_retry_delay s n ≡ (if leb 1 n && leb n r then some (cb * 2 ^ (n - 1)) else none))
      × (outbox_retry_delay s n ≡ (if leb 1 n && leb n m then some (ob * 2 ^ (n - 1)) else none))
      × (0 < cb * 2 ^ (n - 1))
      × (0 < ob * 2 ^ (n - 1))
      × (0 < m)
unfolding new_settings crawl_retry_delay outbox_retry_delay
new_settings-delays r cb m ob {s} e small_r small_m fits_r fits_m n =
    after_ok (refuse_if (is_zero cb) zero_crawl_retry_base) _ e λ _ some_cb e₁.
      after_ok (refuse_if (m == 0) zero_outbox_publish_limit) _ e₁ λ _ some_m e₂.
        after_ok (refuse_if (is_zero ob) zero_outbox_retry_base) _ e₂ λ _ some_ob same.
          let pos_cb : 0 < cb = ground (arith, some_cb) in
          let pos_ob : 0 < ob = ground (arith, some_ob) in
          let pos_m : 0 < m = ground (arith, some_m) in
          let (crawl, crawl_pos) = exponential_delay_lem cb n r pos_cb small_r fits_r in
          let (outbox, outbox_pos) = exponential_delay_lem ob n m pos_ob small_m fits_m in
          rw (← ok-injective same) (crawl, outbox, crawl_pos, outbox_pos, pos_m)
