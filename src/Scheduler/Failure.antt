-- ===== src/Scheduler/Failure.antt =====
-- crates/models/src/scheduler.rs: the failure that an attempt records.
use tech_atlas.Prelude.{ltb, Outcome, ok, ◌>>◌, refuse_if}
use tech_atlas.Prelude.Text.{Text, trim, is_empty, utf8_len}

pub record CrawlFailure : Type 0 where
  pub code : Text
  pub summary : Text

pub data CrawlFailureError : Type 0 where
  empty_code empty_summary summary_too_long : CrawlFailureError

unfoldable pub new_failure : Text → Text → Outcome CrawlFailureError CrawlFailure
unfolding trim utf8_len
new_failure code summary =
    let code = trim code in
    let summary = trim summary in
    do
      refuse_if (is_empty code) empty_code
      refuse_if (is_empty summary) empty_summary
      refuse_if (ltb 1024 (utf8_len summary)) summary_too_long
      ok (record { code = code; summary = summary })
