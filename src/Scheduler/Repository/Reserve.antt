-- ===== src/Scheduler/Repository/Reserve.antt =====
-- `reserve_due`: one queued attempt and one outbox message for each due policy, up to a limit.
use tech_atlas.Prelude.{
  ℕ, ◌+◌, Bool, true, not, ◌&&◌, ◌||◌, Option, none, some, List, [], ◌∷◌, leb, ltb, ◌==◌,
  if◌then◌else◌, is_some, any, filter, take, Outcome, ok, ◌>>=◌, ◌>>◌, refuse_if,
}
use tech_atlas.Prelude.Sort.{sort_by}
use tech_atlas.Domain.Policy.{rank}
use tech_atlas.CrawlJob.{CrawlJobV1}
use tech_atlas.Scheduler.Tables.{is_active, DomainRow, PolicyRow, AttemptRow, Db}
use tech_atlas.Scheduler.Repository.{
  RepositoryError, unavailable, Platform, Answer, transact, i64_end, new_job_with_correlation,
  insert_attempt_and_outbox, set_policies,
}

unfoldable pub active_of : ℕ → AttemptRow → Bool
unfolding is_active
active_of d a = a.domain_id == d && is_active a.status

abbrev pub for_domain : ℕ → PolicyRow → Bool
for_domain d p = p.domain_id == d

abbrev pub live_domain : ℕ → DomainRow → Bool
live_domain d row = row.id == d && not (is_some row.archived_at)

abbrev pub none_or_before : ℕ → Option ℕ → Bool
none_or_before now none = true
none_or_before now (some t) = leb t now

-- The WHERE clause. `locked` tells the policies that another transaction holds: they are skipped.
unfoldable pub is_due : (ℕ → Bool) → ℕ → Db → PolicyRow → Bool
is_due locked now db p =
    any (live_domain p.domain_id) db.domains
    && p.is_enabled
    && none_or_before now p.next_crawl_at
    && not (any (active_of p.domain_id) db.attempts)
    && not (locked p.domain_id)

-- NULLS FIRST.
abbrev nulls_first : Option ℕ → ℕ
nulls_first none = 0
nulls_first (some t) = 1 + t

-- The ORDER BY clause: priority, then the due instant, then the identifier.
unfoldable pub due_before : PolicyRow → PolicyRow → Bool
due_before p q =
    ltb (rank p.priority) (rank q.priority)
    || (rank p.priority == rank q.priority
        && (ltb (nulls_first p.next_crawl_at) (nulls_first q.next_crawl_at)
            || (nulls_first p.next_crawl_at == nulls_first q.next_crawl_at
                && leb p.domain_id q.domain_id)))

unfoldable pub due_policies : (ℕ → Bool) → ℕ → ℕ → Db → List PolicyRow
due_policies locked now limit db =
    take limit (sort_by due_before (filter (is_due locked now db) db.policies))

abbrev pub reserved_policy : ℕ → PolicyRow → PolicyRow
reserved_policy now p = record p {
  next_crawl_at = some (now + p.desired_interval);
  terminal_failure_at = none;
  updated_at = now;
}

-- The loop over the rows. A row draws its job's UUID, then the correlation's; the database draws
-- the attempt's.
unfoldable pub reserve_rows :
    Platform → (ℕ → ℕ) → ℕ → List PolicyRow → Db → Answer (List CrawlJobV1)
reserve_rows os draw now [] db = ok ([], db)
reserve_rows os draw now (p ∷ ps) db = do
  job ← new_job_with_correlation os p.domain_id (draw 1) (draw 0)
  inserted ← insert_attempt_and_outbox (draw 2) job 1 now now db
  updated ← set_policies (for_domain p.domain_id) (reserved_policy now) inserted
  rest ← reserve_rows os (λ n. draw (3 + n)) now ps updated
  ok (job ∷ rest.0, rest.1)

unfoldable pub reserve_due_body :
    Platform → (ℕ → ℕ) → (ℕ → Bool) → ℕ → ℕ → Db → Answer (List CrawlJobV1)
reserve_due_body os draw locked now limit db = do
  refuse_if (leb i64_end limit) unavailable
  reserve_rows os draw now (due_policies locked now limit db) db

unfoldable pub reserve_due :
    Platform → (ℕ → ℕ) → (ℕ → Bool) → ℕ → ℕ → Db → Outcome RepositoryError (List CrawlJobV1) × Db
reserve_due os draw locked now limit db =
    if limit == 0 then (ok [], db) else transact (reserve_due_body os draw locked now limit) db
