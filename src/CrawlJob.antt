-- ===== src/CrawlJob.antt =====
-- crates/models/src/crawl_job.rs: the versioned job that the scheduler hands to the workers. A
-- `Uuid` is its 128-bit number. The JSON text of the wire record is the serializer's, a library.
pub mod Wire
mod Tests
use tech_atlas.Prelude.{
  ℕ, Bool, Option, none, some, ==_iff, not, ◌==◌, if◌then◌else◌, Outcome, ok, err, ◌>>=◌, ◌>>◌,
  refuse_if, map_err,
}
use tech_atlas.Prelude.Text.{Text, trim, is_empty}

abbrev pub crawl_job_schema_version : ℕ
crawl_job_schema_version = 1

pub data CrawlJobOwner : Type 0 where
  scheduler : CrawlJobOwner

pub data CrawlJobError : Type 0 where
  empty_idempotency_key : CrawlJobError
  unsupported_schema_version : ℕ → CrawlJobError

unfoldable pub parse_key : Text → Outcome CrawlJobError Text
parse_key input = let key = trim input in do refuse_if (is_empty key) empty_idempotency_key; ok key

pub record CrawlJobV1 : Type 0 where
  pub job_id : ℕ
  pub domain_id : ℕ
  pub correlation_id : ℕ
  pub idempotency_key : Text

pub record CrawlJobWire : Type 0 where
  pub schema_version : ℕ
  pub owner : CrawlJobOwner
  pub job_id : ℕ
  pub domain_id : ℕ
  pub correlation_id : ℕ
  pub idempotency_key : Text

unfoldable pub serialize : CrawlJobV1 → CrawlJobWire
serialize job = record {
  schema_version = crawl_job_schema_version;
  owner = scheduler;
  job_id = job.job_id;
  domain_id = job.domain_id;
  correlation_id = job.correlation_id;
  idempotency_key = job.idempotency_key;
}

unfoldable pub deserialize : CrawlJobWire → Outcome CrawlJobError CrawlJobV1
deserialize wire = do
  refuse_if (not (wire.schema_version == crawl_job_schema_version))
      (unsupported_schema_version wire.schema_version)
  key ← parse_key wire.idempotency_key
  ok (record {
    job_id = wire.job_id;
    domain_id = wire.domain_id;
    correlation_id = wire.correlation_id;
    idempotency_key = key;
  })
