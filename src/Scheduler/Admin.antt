-- ===== src/Scheduler/Admin.antt =====
-- crates/database/src/admin_workflow_repository.rs: the two administrator commands that touch the
-- scheduler's tables, `request_crawl` and `retry_terminal_attempt`. The audit event that each also
-- writes is in a table of its own and is left out, and so is the display record that the retry
-- returns: its answer here is the new job's identifier.
use tech_atlas.Prelude.{
  ℕ, ◌+◌, ◌^◌, Bool, true, false, not, ◌&&◌, ◌||◌, Option, none, some, List, [], ◌∷◌, ◌++◌, find,
  any, leb, ◌==◌, is_some, Outcome, ok, err, ◌>>=◌, ◌>>◌, ok_or, refuse_if,
}
use tech_atlas.Prelude.Text.{Text, text, eq_text, is_one_of}
use tech_atlas.CrawlJob.{CrawlJobV1}
use tech_atlas.Scheduler.Tables.{Status, failed, DomainRow, PolicyRow, AttemptRow, Db}
use tech_atlas.Scheduler.Repository.{
  RepositoryError, Platform, insert_attempt_and_outbox, set_policies,
}
use tech_atlas.Scheduler.Repository.Reserve.{for_domain}
use tech_atlas.Scheduler.Worker.{domain_is}

pub data AdminOperationError : Type 0 where
  validation not_found conflict unavailable_operation : AdminOperationError

abbrev pub Reply : Type 0 → Type 0
Reply A = Outcome AdminOperationError (A × Db)

-- The end of an administrator's transaction.
unfoldable pub commit : {A : Type 0} → (Db → Reply A) → Db → Outcome AdminOperationError A × Db
commit body db = elim (body db) [ ok (a, db') ↦ (ok a, db') | err e ↦ (err e, db) ]

abbrev pub lift {ℓ} : {A : Type ℓ} → Outcome RepositoryError A → Outcome AdminOperationError A
lift (ok a) = ok a
lift (err e) = err unavailable_operation

unfoldable pub is_failed : Status → Bool
is_failed failed = true
is_failed _ = false

-- `matches!(code, Some("unsafe_target" | "robots_denied" | "cancelled"))`
unfoldable pub never_retried : Option Text → Bool
unfolding is_one_of
never_retried none = false
never_retried (some code) =
    is_one_of code (text "unsafe_target" ∷ text "robots_denied" ∷ text "cancelled" ∷ [])

-- The joins with `domains` and `crawl_policies`.
abbrev pub managed_attempt : ℕ → Db → AttemptRow → Bool
managed_attempt job_id db a =
    a.job_id == job_id
    && any (domain_is a.domain_id) db.domains
    && any (for_domain a.domain_id) db.policies

abbrev pub retry_policy : ℕ → PolicyRow → PolicyRow
retry_policy now p = record p {
  terminal_failure_at = none;
  next_crawl_at = some now;
  updated_at = now;
}

-- `format!("crawl:{next_job_id}")`, not parsed here.
unfoldable pub retry_job : Platform → AttemptRow → ℕ → CrawlJobV1
retry_job os a next_job_id = record {
  job_id = next_job_id;
  domain_id = a.domain_id;
  correlation_id = a.correlation_id;
  idempotency_key = text "crawl:" ++ os.show_uuid next_job_id;
}

unfoldable pub retry_body : Platform → (ℕ → ℕ) → ℕ → ℕ → Db → Reply ℕ
retry_body os draw job_id now db = do
  a ← ok_or (find (managed_attempt job_id db) db.attempts) not_found
  p ← ok_or (find (for_domain a.domain_id) db.policies) not_found
  refuse_if
      (not (is_failed a.status)
        || not (is_some p.terminal_failure_at)
        || never_retried a.failure_code)
      conflict
  refuse_if (leb (2 ^ 15) (a.attempt_number + 1)) unavailable_operation
  inserted ← lift (
      insert_attempt_and_outbox (draw 1) (retry_job os a (draw 0)) (a.attempt_number + 1) now now
        db)
  updated ← lift (set_policies (for_domain a.domain_id) (retry_policy now) inserted)
  ok (draw 0, updated)

-- `job_id` is `Uuid::parse_str` of the request's text.
unfoldable pub retry_terminal_attempt :
    Platform → (ℕ → ℕ) → Option ℕ → ℕ → Db → Outcome AdminOperationError ℕ × Db
retry_terminal_attempt os draw none now db = (err validation, db)
retry_terminal_attempt os draw (some job_id) now db = commit (retry_body os draw job_id now) db

abbrev pub requested_policy : ℕ → PolicyRow → PolicyRow
requested_policy now p = record p { next_crawl_at = some now; updated_at = now }

abbrev pub named_domain : Text → DomainRow → Bool
named_domain name row = eq_text row.canonical_domain name && not (is_some row.archived_at)

-- The join of a live domain of that name with its policy.
unfoldable pub requestable : Text → List DomainRow → PolicyRow → Bool
requestable name domains p = any (λ row. row.id == p.domain_id && named_domain name row) domains

unfoldable pub request_body : Text → ℕ → Db → Reply (Unit {0})
request_body name now db = do
  p ← ok_or (find (requestable name db.domains) db.policies) not_found
  refuse_if (not p.is_enabled) conflict
  updated ← lift (set_policies (for_domain p.domain_id) (requested_policy now) db)
  ok (tt, updated)

unfoldable pub request_domain_crawl : Text → ℕ → Db → Outcome AdminOperationError (Unit {0}) × Db
request_domain_crawl name now db = commit (request_body name now) db
