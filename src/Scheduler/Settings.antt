-- ===== src/Scheduler/Settings.antt =====
-- crates/models/src/scheduler.rs: the retry settings, their validation and the backoff delays.
pub mod Backoff
mod Tests
use tech_atlas.Prelude.{
  ℕ, ◌+◌, ◌-◌, ◌^◌, Bool, true, false, ◌||◌, Option, none, some, ltb, ◌==◌, if◌then◌else◌, Outcome,
  ok, err, ◌>>=◌, ◌>>◌, refuse_if, is_some,
}
use tech_atlas.Prelude.Duration.{Duration, from_secs, is_zero, checked_mul}

pub record SchedulerSettings : Type 0 where
  pub max_crawl_retries : ℕ  -- u8
  pub crawl_retry_base : Duration
  pub max_outbox_publish_attempts : ℕ  -- u8
  pub outbox_retry_base : Duration

pub data SchedulerSettingsError : Type 0 where
  zero_crawl_retry_base zero_outbox_publish_limit zero_outbox_retry_base : SchedulerSettingsError

abbrev pub default_settings : SchedulerSettings
default_settings = record {
  max_crawl_retries = 3;
  crawl_retry_base = from_secs 300;
  max_outbox_publish_attempts = 5;
  outbox_retry_base = from_secs 5;
}

unfoldable pub new_settings :
    ℕ → Duration → ℕ → Duration → Outcome SchedulerSettingsError SchedulerSettings
new_settings max_crawl_retries crawl_retry_base max_outbox_publish_attempts outbox_retry_base = do
  refuse_if (is_zero crawl_retry_base) zero_crawl_retry_base
  refuse_if (max_outbox_publish_attempts == 0) zero_outbox_publish_limit
  refuse_if (is_zero outbox_retry_base) zero_outbox_retry_base
  ok (record {
    max_crawl_retries = max_crawl_retries;
    crawl_retry_base = crawl_retry_base;
    max_outbox_publish_attempts = max_outbox_publish_attempts;
    outbox_retry_base = outbox_retry_base;
  })

-- `1_u32.checked_shl(k)`
unfoldable pub checked_shl_one : ℕ → Option ℕ
checked_shl_one k = if ltb k 32 then some (2 ^ k) else none

-- `base.checked_mul(shifted?)`
abbrev pub scale : Duration → Option ℕ → Option Duration
scale base none = none
scale base (some factor) = checked_mul base factor

unfoldable pub exponential_delay : Duration → ℕ → ℕ → Option Duration
unfolding checked_shl_one
exponential_delay base number maximum =
    if number == 0 || ltb maximum number then none else scale base (checked_shl_one (number - 1))

unfoldable pub crawl_retry_delay : SchedulerSettings → ℕ → Option Duration
unfolding exponential_delay
crawl_retry_delay s retry_number =
    exponential_delay s.crawl_retry_base retry_number s.max_crawl_retries

unfoldable pub outbox_retry_delay : SchedulerSettings → ℕ → Option Duration
unfolding exponential_delay
outbox_retry_delay s attempt_number =
    exponential_delay s.outbox_retry_base attempt_number s.max_outbox_publish_attempts
