-- ===== src/Queue.antt =====
-- crates/queue/src/lib.rs: the configuration of the crawl-job streams.
pub mod Server
pub mod Streams
pub mod Options
mod Loops
mod DeadLetters
mod Runs
mod Pending
mod Entries
mod Deliveries
mod Tests
use tech_atlas.Prelude.{
  ℕ, ◌^◌, Bool, ltb, ◌==◌, if◌then◌else◌, String, Outcome, ok, err, ◌>>=◌, ◌>>◌, refuse_if,
}
use tech_atlas.Prelude.Text.{Text, text, trim, is_empty}
use tech_atlas.Prelude.Duration.{Duration, from_secs, as_millis, is_zero}

pub record RedisStreamsConfig : Type 0 where
  pub stream_key : Text
  pub consumer_group : Text
  pub dead_letter_stream_key : Text
  pub dead_letter_index_key : Text
  pub batch_size : ℕ
  pub read_block : Duration
  pub operation_timeout : Duration
  pub claim_idle : Duration
  pub max_deliveries : ℕ

pub data RedisStreamsConfigError : Type 0 where
  empty_name : Text → RedisStreamsConfigError
  zero_batch_size zero_operation_timeout operation_timeout_before_read_block zero_max_deliveries
        duration_too_large :
      RedisStreamsConfigError

abbrev pub default_streams : RedisStreamsConfig
default_streams = record {
  stream_key = text "techatlas:crawl-jobs:v1";
  consumer_group = text "techatlas:crawl-workers:v1";
  dead_letter_stream_key = text "techatlas:crawl-jobs:dead-letter:v1";
  dead_letter_index_key = text "techatlas:crawl-jobs:dead-letter-index:v1";
  batch_size = 10;
  read_block = from_secs 1;
  operation_timeout = from_secs 5;
  claim_idle = from_secs 60;
  max_deliveries = 5;
}

unfoldable pub required_name : String → Text → Outcome RedisStreamsConfigError Text
required_name setting value =
    if is_empty (trim value) then err (empty_name (text setting)) else ok (trim value)

unfoldable pub with_stream_names :
    Text
    → Text
    → Text
    → Text
    → RedisStreamsConfig
    → Outcome RedisStreamsConfigError RedisStreamsConfig
with_stream_names stream group letters index config = do
  stream_name ← required_name "stream key" stream
  group_name ← required_name "consumer group" group
  letters_name ← required_name "dead-letter stream key" letters
  index_name ← required_name "dead-letter index key" index
  ok (record config {
    stream_key = stream_name;
    consumer_group = group_name;
    dead_letter_stream_key = letters_name;
    dead_letter_index_key = index_name;
  })

unfoldable pub with_read_options :
    ℕ
    → Duration
    → Duration
    → RedisStreamsConfig
    → Outcome RedisStreamsConfigError RedisStreamsConfig
with_read_options size block timeout config = do
  refuse_if (size == 0) zero_batch_size
  refuse_if (is_zero timeout) zero_operation_timeout
  refuse_if (ltb timeout block) operation_timeout_before_read_block
  ok (record config { batch_size = size; read_block = block; operation_timeout = timeout })

unfoldable pub with_recovery_policy :
    Duration → ℕ → RedisStreamsConfig → Outcome RedisStreamsConfigError RedisStreamsConfig
with_recovery_policy idle deliveries config = do
  refuse_if (deliveries == 0) zero_max_deliveries
  ok (record config { claim_idle = idle; max_deliveries = deliveries })

-- `usize` has 64 bits.
unfoldable pub duration_millis : Duration → Outcome RedisStreamsConfigError ℕ
duration_millis value =
    if ltb (as_millis value) (2 ^ 64) then ok (as_millis value) else err duration_too_large

pub data CrawlJobConsumerNameError : Type 0 where
  empty_consumer_name : CrawlJobConsumerNameError

unfoldable pub parse_consumer_name : Text → Outcome CrawlJobConsumerNameError Text
parse_consumer_name input =
    if is_empty (trim input) then err empty_consumer_name else ok (trim input)
