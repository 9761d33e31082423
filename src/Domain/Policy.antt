-- ===== src/Domain/Policy.antt =====
-- crates/models/src/lib.rs: crawl priorities, crawl policies and the defaults of a new domain.
use tech_atlas.Prelude.{ℕ, ◌*◌, Outcome, ok, ◌>>◌, refuse_if}
use tech_atlas.Prelude.Duration.{Duration, from_secs, is_zero}

pub data CrawlPriority : Type 0 where
  high medium low : CrawlPriority

-- `CASE priority WHEN 'high' THEN 0 WHEN 'medium' THEN 1 ELSE 2 END` of the due query.
abbrev pub rank : CrawlPriority → ℕ
rank high = 0
rank medium = 1
rank low = 2

abbrev pub medium_crawl_interval : Duration
medium_crawl_interval = from_secs (7 * 24 * 60 * 60)

unfoldable pub default_interval : CrawlPriority → Duration
default_interval high = from_secs (24 * 60 * 60)
default_interval medium = medium_crawl_interval
default_interval low = from_secs (30 * 24 * 60 * 60)

pub record CrawlPolicy : Type 0 where
  pub priority : CrawlPriority
  pub desired_interval : Duration

pub data CrawlPolicyError : Type 0 where
  zero_interval : CrawlPolicyError

unfoldable pub new_policy : CrawlPriority → Duration → Outcome CrawlPolicyError CrawlPolicy
new_policy priority desired_interval = do
  refuse_if (is_zero desired_interval) zero_interval
  ok (record { priority = priority; desired_interval = desired_interval })

abbrev pub default_crawl_policy : CrawlPolicy
default_crawl_policy = record { priority = medium; desired_interval = medium_crawl_interval }
