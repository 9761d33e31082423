-- ===== src/CrawlJob/Tests.antt =====
-- The wire theorems at one job.
use tech_atlas.Prelude.{◌≡◌, refl, ok}
use tech_atlas.Prelude.Text.{text, trim}
use tech_atlas.CrawlJob.{CrawlJobV1, CrawlJobWire, scheduler, serialize, deserialize, parse_key}
use tech_atlas.CrawlJob.Wire.{IsWellFormed, deserialize-serialize, serialize-deserialize}

abbrev job : CrawlJobV1
job = record { job_id = 5; domain_id = 7; correlation_id = 6; idempotency_key = text "crawl:a" }

abbrev wire : CrawlJobWire
wire = record {
  schema_version = 1;
  owner = scheduler;
  job_id = 5;
  domain_id = 7;
  correlation_id = 6;
  idempotency_key = text " crawl:a ";
}

job-IsWellFormed : IsWellFormed job
unfolding trim
job-IsWellFormed = (refl, λ e. cc)

wire_ok : deserialize wire ≡ ok job
unfolding deserialize parse_key trim
wire_ok = refl

deserialize-serialize_example : deserialize (serialize job) ≡ ok job
deserialize-serialize_example = deserialize-serialize job job-IsWellFormed

serialize-deserialize_example :
    IsWellFormed job × (serialize job ≡ record wire { idempotency_key = trim wire.idempotency_key })
serialize-deserialize_example = serialize-deserialize wire wire_ok
