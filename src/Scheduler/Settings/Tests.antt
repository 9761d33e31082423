-- ===== src/Scheduler/Settings/Tests.antt =====
-- The backoff theorems at concrete settings.
use tech_atlas.Prelude.{
  ◌-◌, ◌*◌, ◌^◌, ◌≤◌, ◌<◌, ◌≡◌, ◌↔◌, refl, some, none, leb, ◌&&◌, if◌then◌else◌, arith,
}
use tech_atlas.Prelude.Duration.{duration_end}
use tech_atlas.Scheduler.Settings.{
  SchedulerSettings, new_settings, exponential_delay, crawl_retry_delay, outbox_retry_delay,
}
use tech_atlas.Scheduler.Settings.Backoff.{exponential_delay_iff, new_settings-delays}

exponential_delay_iff_example : (exponential_delay 300 3 3 ≡ some 1200) ↔ (
    (0 < 3) × (3 ≤ 3) × (3 ≤ 32) × (300 * 2 ^ (3 - 1) < duration_end) × (1200 ≡ 300 * 2 ^ (3 - 1)))
exponential_delay_iff_example = exponential_delay_iff 300 3 3 1200

abbrev brief : SchedulerSettings
brief = record {
  max_crawl_retries = 3;
  crawl_retry_base = 300;
  max_outbox_publish_attempts = 5;
  outbox_retry_base = 5;
}

new_settings-delays_example :
    (crawl_retry_delay brief 2 ≡ (if leb 1 2 && leb 2 3 then some (300 * 2 ^ (2 - 1)) else none))
    × (outbox_retry_delay brief 2 ≡ (if leb 1 2 && leb 2 5 then some (5 * 2 ^ (2 - 1)) else none))
    × (0 < 300 * 2 ^ (2 - 1))
    × (0 < 5 * 2 ^ (2 - 1))
    × (0 < 5)
unfolding new_settings
new_settings-delays_example =
    new_settings-delays 3 300 5 5 {s = brief} refl (omega arith) (omega arith) (omega arith)
      (omega arith) 2
