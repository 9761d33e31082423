-- ===== src/Scheduler/Tables.antt =====
-- The tables that crates/database/src/scheduler_repository.rs reads and writes, with the CHECK and
-- UNIQUE constraints of database/migrations (202608030001, 202608030004 and, for
-- last_successful_crawl_at, 202608040005). An instant is a number of nanoseconds; SQL's NULL is
-- `none`. A row that breaks a constraint fails its statement.
pub mod Rows
use mathlib.Core.Option
use tech_atlas.Prelude.{
  ℕ, ◌+◌, ◌^◌, Bool, true, false, not, ◌&&◌, ◌||◌, Option, none, some, List, [], ◌∷◌, ◌++◌, leb,
  ltb, ◌==◌, if◌then◌else◌, is_some, any,
}
use tech_atlas.Prelude.Text.{Text, trim, is_empty}
use tech_atlas.Prelude.{length}
use tech_atlas.Prelude.Duration.{Duration}
use tech_atlas.Domain.Policy.{CrawlPriority}

pub data Status : Type 0 where
  queued running succeeded failed cancelled : Status

unfoldable pub is_finished : Status → Bool
is_finished queued = false
is_finished running = false
is_finished _ = true

-- `status IN ('queued', 'running')`
unfoldable pub is_active : Status → Bool
is_active queued = true
is_active running = true
is_active _ = false

unfoldable pub is_running : Status → Bool
is_running running = true
is_running _ = false

pub record DomainRow : Type 0 where
  pub id : ℕ
  pub canonical_domain : Text
  pub archived_at : Option ℕ

pub record PolicyRow : Type 0 where
  pub domain_id : ℕ
  pub is_enabled : Bool
  pub priority : CrawlPriority
  pub desired_interval : Duration
  pub last_crawl_at : Option ℕ
  pub last_successful_crawl_at : Option ℕ
  pub next_crawl_at : Option ℕ
  pub consecutive_failure_count : ℕ
  pub last_failure_at : Option ℕ
  pub terminal_failure_at : Option ℕ
  pub created_at : ℕ
  pub updated_at : ℕ

pub record AttemptRow : Type 0 where
  pub id : ℕ
  pub domain_id : ℕ
  pub job_id : ℕ
  pub correlation_id : ℕ
  pub idempotency_key : Text
  pub attempt_number : ℕ
  pub status : Status
  pub queued_at : ℕ
  pub started_at : Option ℕ
  pub finished_at : Option ℕ
  pub failure_code : Option Text
  pub failure_summary : Option Text
  pub created_at : ℕ

pub record OutboxRow : Type 0 where
  pub crawl_attempt_id : ℕ
  pub domain_id : ℕ
  pub job_id : ℕ
  pub correlation_id : ℕ
  pub idempotency_key : Text
  pub available_at : ℕ
  pub next_publish_at : ℕ
  pub publish_attempt_count : ℕ
  pub published_at : Option ℕ
  pub terminal_failure_at : Option ℕ
  pub last_error_summary : Option Text
  pub created_at : ℕ
  pub updated_at : ℕ

pub record Db : Type 0 where
  pub domains : List DomainRow
  pub policies : List PolicyRow
  pub attempts : List AttemptRow
  pub outbox : List OutboxRow

-- `x IS NULL OR x >= at`
abbrev pub none_or_after : ℕ → Option ℕ → Bool
none_or_after at none = true
none_or_after at (some t) = leb at t

-- `COALESCE(x, now)`
abbrev pub coalesce : Option ℕ → ℕ → ℕ
coalesce none now = now
coalesce (some t) now = t

-- The columns that crawl_attempts_lifecycle_valid and crawl_attempts_finished_at_valid allow.
unfoldable pub lifecycle_valid : Status → Option ℕ → Option ℕ → Option Text → Bool
lifecycle_valid queued none none none = true
lifecycle_valid running (some s) none none = true
lifecycle_valid succeeded (some s) (some f) none = leb s f
lifecycle_valid failed (some s) (some f) (some code) = leb s f
lifecycle_valid cancelled started (some f) code = true
lifecycle_valid _ _ _ _ = false

-- The summary's bound counts characters, as `char_length` does.
abbrev pub summary_fits : Option Text → Bool
summary_fits none = true
summary_fits (some s) = leb (length s) 1024

-- The bounds of a cancelled attempt's finish, which the program never writes.
abbrev pub cancelled_finish : Status → ℕ → Option ℕ → Option ℕ → Bool
cancelled_finish cancelled queued_at started (some f) =
    leb queued_at f || (is_some started && leb (coalesce started 0) f)
cancelled_finish _ _ _ _ = true

unfoldable pub check_attempt : AttemptRow → Bool
unfolding lifecycle_valid
check_attempt a =
    ltb 0 a.attempt_number
    && not (is_empty (trim a.idempotency_key))
    && leb a.created_at a.queued_at
    && none_or_after a.queued_at a.started_at
    && lifecycle_valid a.status a.started_at a.finished_at a.failure_code
    && cancelled_finish a.status a.queued_at a.started_at a.finished_at
    && summary_fits a.failure_summary

-- An INTEGER counter and the timestamps of a policy.
unfoldable pub check_policy : PolicyRow → Bool
check_policy p =
    ltb 0 p.desired_interval
    && ltb p.consecutive_failure_count (2 ^ 31)
    && none_or_after p.created_at p.last_crawl_at
    && none_or_after p.created_at p.last_successful_crawl_at
    && none_or_after p.created_at p.next_crawl_at
    && none_or_after p.created_at p.last_failure_at
    && none_or_after p.created_at p.terminal_failure_at

unfoldable pub check_outbox : OutboxRow → Bool
check_outbox o =
    not (is_empty (trim o.idempotency_key))
    && leb o.created_at o.available_at
    && leb o.created_at o.next_publish_at
    && none_or_after o.created_at o.published_at
    && none_or_after o.created_at o.terminal_failure_at
    && not (is_some o.published_at && is_some o.terminal_failure_at)
    && summary_fits o.last_error_summary

-- `UPDATE ... SET change WHERE chosen`: `none` when a changed row breaks its table's checks.
unfoldable pub update_rows {ℓ} :
    {A : Type ℓ} → (A → Bool) → (A → Bool) → (A → A) → List A → Option (List A)
update_rows check chosen change [] = some []
update_rows check chosen change (x ∷ xs) =
    let rest = update_rows check chosen change xs in
    if chosen x
    then if check (change x) then Option.map (λ ys. change x ∷ ys) rest else none
    else Option.map (λ ys. x ∷ ys) rest
