-- ===== src/Scheduler/Pending.antt =====
-- What `pending_publications` offers to the publisher.
use tech_atlas.Prelude.{ℕ, ◌<◌, ◌≡◌, Bool, true, not, is_some, ◌&&◌, List, filter, leb}
use tech_atlas.Prelude.Text.{trim}
use tech_atlas.Scheduler.Tables.{OutboxRow, Db, check_outbox}
use tech_atlas.Scheduler.Repository.{PendingCrawlJob}
use tech_atlas.Scheduler.Repository.Publish.{is_pending}

-- A message that may be published: not sent, not given up, and past both of its instants.
abbrev pub is_publishable : ℕ → OutboxRow → Bool
is_publishable now o =
    leb o.available_at now
    && leb o.next_publish_at now
    && not (is_some o.terminal_failure_at)
    && not (is_some o.published_at)

-- The job that a row stands for.
abbrev pub pending_job : OutboxRow → PendingCrawlJob
pending_job o = record {
  job = record {
    job_id = o.job_id;
    domain_id = o.domain_id;
    correlation_id = o.correlation_id;
    idempotency_key = trim o.idempotency_key;
  };
  available_at = o.available_at;
  publish_attempt_count = o.publish_attempt_count;
}

-- What the table's CHECK and the retry limit, a `u8`, leave of a row.
abbrev IsReadable : OutboxRow → Type 0
IsReadable o = (check_outbox o ≡ true) × (o.publish_attempt_count < 256)

module _ (now limit : ℕ) (db : Db) where
  abbrev due : List OutboxRow
  due = filter (is_pending now) db.outbox
