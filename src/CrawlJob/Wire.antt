-- ===== src/CrawlJob/Wire.antt =====
-- The wire record round-trips, and what is read from the wire is well formed.
use tech_atlas.Prelude.{◌≡◌, ◌≢◌, refl, [], ◌∷◌, ok, arith, ◌>>=◌, refuse_if}
use tech_atlas.Prelude.Text.{Text, trim, is_empty}
use tech_atlas.Prelude.Text.Trim.{trim_idem}
use tech_atlas.CrawlJob.{
  CrawlJobOwner, scheduler, crawl_job_schema_version, CrawlJobV1, CrawlJobWire,
  empty_idempotency_key, parse_key, serialize, deserialize,
}

-- What a job that the program builds satisfies: its key was parsed.
abbrev pub IsWellFormed : CrawlJobV1 → Type 0
IsWellFormed job = (trim job.idempotency_key ≡ job.idempotency_key) × (job.idempotency_key ≢ [])

nonempty_key :
    (k : Text) {key : Text}
    → (refuse_if (is_empty k) empty_idempotency_key >>= λ _. ok k) ≡ ok key
    → (k ≢ []) × (key ≡ k)
nonempty_key [] h = cc
nonempty_key (c ∷ k) h = (λ e. cc, cc)

accepted_key :
    (k : Text) → k ≢ [] → (refuse_if (is_empty k) empty_idempotency_key >>= λ _. ok k) ≡ ok k
accepted_key [] h = absurd (h refl)
accepted_key (c ∷ k) h = refl

-- A parsed key is trimmed and not empty.
pub parse_key_sound :
    (input : Text) {key : Text}
    → parse_key input ≡ ok key
    → (trim key ≡ key) × (key ≢ []) × (key ≡ trim input)
unfolding parse_key
parse_key_sound input h =
    let (solid, same) = nonempty_key (trim input) h in rw same (trim_idem input, solid, refl)

pub parse_key_of_IsWellFormed : (k : Text) → trim k ≡ k → k ≢ [] → parse_key k ≡ ok k
unfolding parse_key
parse_key_of_IsWellFormed k t n = rw t (accepted_key k n)

-- Reading back a written job gives the same job.
pub deserialize-serialize :
    (job : CrawlJobV1) → IsWellFormed job → deserialize (serialize job) ≡ ok job
unfolding deserialize serialize
deserialize-serialize job h = rw (parse_key_of_IsWellFormed job.idempotency_key h.0 h.1)

only_owner : (o : CrawlJobOwner) → o ≡ scheduler
only_owner scheduler = refl

deserialize_parts :
    (wire : CrawlJobWire) {job : CrawlJobV1}
    → deserialize wire ≡ ok job
    → (parse_key wire.idempotency_key ≡ ok job.idempotency_key)
      × (wire.schema_version ≡ crawl_job_schema_version)
      × (job.job_id ≡ wire.job_id)
      × (job.domain_id ≡ wire.domain_id)
      × (job.correlation_id ≡ wire.correlation_id)
unfolding deserialize
deserialize_parts wire h = ground arith

-- Every job that is read from the wire is well formed, and writing it gives a wire record of the
-- supported version with the same identifiers and the trimmed key.
pub serialize-deserialize :
    (wire : CrawlJobWire) {job : CrawlJobV1}
    → deserialize wire ≡ ok job
    → IsWellFormed job
      × (serialize job ≡ record wire { idempotency_key = trim wire.idempotency_key })
unfolding serialize
serialize-deserialize wire {job} h =
    let (parsed, version, jobs, domains, correlations) = deserialize_parts wire h in
    let (trimmed, solid, same) = parse_key_sound wire.idempotency_key parsed in
    ((trimmed, solid), ground (arith, same, only_owner wire.owner))
