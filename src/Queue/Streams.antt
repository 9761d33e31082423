-- ===== src/Queue/Streams.antt =====
-- `RedisStreamsCrawlJobQueue`: publishing, receiving, reclaiming and acknowledging jobs. The entries
-- that the server picks are parameters, and so is the text of a wire record.
use tech_atlas.Prelude.{
  ℕ, true, Option, none, some, List, [], ◌∷◌, ◌==◌, leb, if◌then◌else◌, Outcome, ok, err,
}
use tech_atlas.Prelude.Text.{Text}
use tech_atlas.CrawlJob.{CrawlJobV1, CrawlJobWire, serialize, deserialize}
use tech_atlas.Queue.{RedisStreamsConfig, RedisStreamsConfigError, duration_millis}
use tech_atlas.Queue.Server.{
  CrawlJobQueueError, serialization, missing_published_entry_id, unavailable, missing_pending_entry,
  acknowledgement_missing, invalid_configuration, StreamEntry, DeadLetterReason,
  delivery_limit_exceeded, invalid_payload, Network, Run, pure, fail, ◌>>=◌, ◌>>◌, execute,
  connection, create_group, xack, xdel, xadd, xreadgroup, xautoclaim, xpending, dead_letter_script,
}

-- `serde_json` on the wire record.
pub record JobCodec : Type 0 where
  pub print_job : CrawlJobWire → Option Text
  pub parse_job : Text → Option CrawlJobWire

-- A receipt is the identifier of its entry.
pub record ReceivedCrawlJob : Type 0 where
  pub receipt : ℕ
  pub job : CrawlJobV1
  pub delivery_count : ℕ

abbrev pub accept_busy_group :
    Outcome CrawlJobQueueError (Unit {0}) → Outcome CrawlJobQueueError (Unit {0})
accept_busy_group (err (unavailable true)) = ok tt
accept_busy_group other = other

abbrev pub of_config : {A : Type 0} → Outcome RedisStreamsConfigError A → Run A
of_config (ok a) = pure a
of_config (err error) = fail (invalid_configuration error)

abbrev pub some_or_fail : {A : Type 0} → Option A → CrawlJobQueueError → Run A
some_or_fail none error = fail error
some_or_fail (some a) error = pure a

-- `String::unwrap_or_default`
abbrev pub text_or_empty : Option Text → Text
text_or_empty none = []
text_or_empty (some payload) = payload

abbrev pub wire_to_job : Option CrawlJobWire → Option CrawlJobV1
wire_to_job none = none
wire_to_job (some wire) = elim (deserialize wire) [ ok job ↦ some job | err error ↦ none ]

abbrev pub decoded : JobCodec → Text → Option CrawlJobV1
decoded codec payload = wire_to_job (codec.parse_job payload)

abbrev pub push_job : Option ReceivedCrawlJob → List ReceivedCrawlJob → List ReceivedCrawlJob
push_job none jobs = jobs
push_job (some job) jobs = job ∷ jobs

module _ (net : Network) where
  unfoldable pub ensure_group : Run (Unit {0})
  ensure_group = do
    connection net
    λ s. let asked = execute net create_group s in (accept_busy_group asked.0, asked.1)

  unfoldable pub dead_letter : ℕ → Text → ℕ → DeadLetterReason → Run (Unit {0})
  dead_letter id payload count reason = do
    connection net
    execute net (dead_letter_script id payload count reason) >>= λ _. pure tt

  unfoldable pub delivery_count : ℕ → Run ℕ
  delivery_count id = do
    connection net
    execute net (xpending id) >>= λ found.
        some_or_fail found (missing_pending_entry id) >>= λ entry. pure entry.times_delivered

  abbrev pub deleted_one : ℕ → ℕ → Run (Unit {0})
  deleted_one receipt deleted =
      if deleted == 1 then pure tt else fail (acknowledgement_missing receipt)

  abbrev pub after_acknowledgement : ℕ → ℕ → Run (Unit {0})
  after_acknowledgement receipt acknowledged =
      if acknowledged == 1
      then execute net (xdel receipt) >>= deleted_one receipt
      else fail (acknowledgement_missing receipt)

  unfoldable pub acknowledge : ℕ → Run (Unit {0})
  acknowledge receipt = do
    connection net
    execute net (xack receipt) >>= after_acknowledgement receipt

  module _ (codec : JobCodec) where
    unfoldable pub publish : Option ℕ → CrawlJobV1 → Run ℕ
    publish new_id job = do
      payload ← some_or_fail (codec.print_job (serialize job)) serialization
      connection net
      answer ← execute net (xadd new_id payload)
      some_or_fail answer missing_published_entry_id

    -- The two ends of `decode_entry`.
    abbrev pub received : ℕ → ℕ → Text → Option CrawlJobV1 → Run (Option ReceivedCrawlJob)
    received id count payload none = dead_letter id payload count invalid_payload >>= λ _. pure none
    received id count payload (some j) =
        pure (some (record { receipt = id; job = j; delivery_count = count }))

    abbrev pub decode_payload : ℕ → ℕ → Option Text → Run (Option ReceivedCrawlJob)
    decode_payload id count none = dead_letter id [] count invalid_payload >>= λ _. pure none
    decode_payload id count (some payload) = received id count payload (decoded codec payload)

    unfoldable pub decode_entry : StreamEntry → ℕ → Run (Option ReceivedCrawlJob)
    decode_entry entry count = decode_payload entry.id count entry.payload

    unfoldable pub receive_each : List StreamEntry → Run (List ReceivedCrawlJob)
    receive_each [] = pure []
    receive_each (entry ∷ rest) =
        decode_entry entry 1 >>= λ job. receive_each rest >>= λ jobs. pure (push_job job jobs)

    unfoldable pub reclaim_entry : ℕ → StreamEntry → ℕ → Run (Option ReceivedCrawlJob)
    reclaim_entry max_deliveries entry count =
        if leb max_deliveries count
        then (dead_letter entry.id (text_or_empty entry.payload) count delivery_limit_exceeded
            >>= λ _. pure none)
        else decode_entry entry count

    unfoldable pub reclaim_each : ℕ → List StreamEntry → Run (List ReceivedCrawlJob)
    reclaim_each max_deliveries [] = pure []
    reclaim_each max_deliveries (entry ∷ rest) = delivery_count entry.id >>= λ count.
        reclaim_entry max_deliveries entry count >>= λ job.
        reclaim_each max_deliveries rest >>= λ jobs. pure (push_job job jobs)

    unfoldable pub receive : RedisStreamsConfig → List StreamEntry → Run (List ReceivedCrawlJob)
    receive config picked = do
      ensure_group
      of_config (duration_millis config.read_block) >>= λ _.
          connection net >> (execute net (xreadgroup picked) >>= λ entries. receive_each entries)

    unfoldable pub reclaim_stale :
        RedisStreamsConfig → List StreamEntry → Run (List ReceivedCrawlJob)
    reclaim_stale config picked = do
      ensure_group
      connection net
      of_config (duration_millis config.claim_idle) >>= λ _.
          execute net (xautoclaim picked) >>= λ entries. reclaim_each config.max_deliveries entries
