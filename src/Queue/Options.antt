-- ===== src/Queue/Options.antt =====
-- The builders of the configuration keep it usable.
use tech_atlas.Prelude.{
  ℕ, ◌≤◌, false, ltb, ◌==◌, ◌≡◌, refl, subst, ok-injective, String, ok, ◌>>=◌, after_ok, refuse_if,
  arith, Bool-cases, inl, inr,
}
use tech_atlas.Prelude.Text.{Text, trim, is_empty}
use tech_atlas.Prelude.Text.Trim.{trim_idem}
use tech_atlas.Prelude.Duration.{Duration, is_zero}
use tech_atlas.Queue.{
  RedisStreamsConfig, zero_batch_size, zero_operation_timeout, operation_timeout_before_read_block,
  zero_max_deliveries, default_streams, required_name, with_stream_names, with_read_options,
  with_recovery_policy,
}

-- A name that is not empty and has no white space around it.
abbrev pub IsName : Text → Type 0
IsName name = (is_empty name ≡ false) × (trim name ≡ name)

pub record IsUsable (config : RedisStreamsConfig) : Type 0 where
  pub names :
      IsName config.stream_key
      × IsName config.consumer_group
      × IsName config.dead_letter_stream_key
      × IsName config.dead_letter_index_key
  pub batches : 1 ≤ config.batch_size
  pub timeouts : (1 ≤ config.operation_timeout) × (config.read_block ≤ config.operation_timeout)
  pub retries : 1 ≤ config.max_deliveries

required_name-IsName :
    (setting : String) (value name : Text) → required_name setting value ≡ ok name → IsName name
unfolding required_name
required_name-IsName setting value name h = elim (Bool-cases (is_empty (trim value))) [
  | inl nothing ↦ absurd (cc (rw nothing at h))
  | inr there ↦
      let same : trim value ≡ name = ground (arith, rw there at h) in
      subst IsName same (there, trim_idem value)
]

default_streams-IsUsable : IsUsable default_streams
unfolding trim
default_streams-IsUsable = record {
  names = ((refl, refl), (refl, refl), (refl, refl), (refl, refl));
  batches = omega arith;
  timeouts = (omega arith, omega arith);
  retries = omega arith;
}

with_stream_names-IsUsable :
    (stream group letters index : Text) (before config : RedisStreamsConfig)
    → with_stream_names stream group letters index before ≡ ok config
    → IsUsable before
    → IsUsable config
unfolding with_stream_names
with_stream_names-IsUsable stream group letters index before config h u =
    after_ok (required_name "stream key" stream) _ h λ a a_ok h₁.
      after_ok (required_name "consumer group" group) _ h₁ λ b b_ok h₂.
        after_ok (required_name "dead-letter stream key" letters) _ h₂ λ c c_ok h₃.
          after_ok (required_name "dead-letter index key" index) _ h₃ λ d d_ok same.
            subst IsUsable (ok-injective same) (record {
              names = (
                required_name-IsName "stream key" stream a a_ok,
                required_name-IsName "consumer group" group b b_ok,
                required_name-IsName "dead-letter stream key" letters c c_ok,
                required_name-IsName "dead-letter index key" index d d_ok,
              );
              batches = u.batches;
              timeouts = u.timeouts;
              retries = u.retries;
            })

with_read_options-IsUsable :
    (size : ℕ) (block timeout : Duration) (before config : RedisStreamsConfig)
    → with_read_options size block timeout before ≡ ok config
    → IsUsable before
    → IsUsable config
unfolding with_read_options
with_read_options-IsUsable size block timeout before config h u =
    after_ok (refuse_if (size == 0) zero_batch_size) _ h λ _ some_batch h₁.
      after_ok (refuse_if (is_zero timeout) zero_operation_timeout) _ h₁ λ _ some_time h₂.
        after_ok (refuse_if (ltb timeout block) operation_timeout_before_read_block) _ h₂
          λ _ long_enough same. subst IsUsable (ok-injective same) (record {
            names = u.names;
            batches = ground arith;
            timeouts = (ground arith, ground arith);
            retries = u.retries;
          })

with_recovery_policy-IsUsable :
    (idle : Duration) (deliveries : ℕ) (before config : RedisStreamsConfig)
    → with_recovery_policy idle deliveries before ≡ ok config
    → IsUsable before
    → IsUsable config
unfolding with_recovery_policy
with_recovery_policy-IsUsable idle deliveries before config h u =
    after_ok (refuse_if (deliveries == 0) zero_max_deliveries) _ h λ _ some_delivery same.
      subst IsUsable (ok-injective same) (record {
        names = u.names;
        batches = u.batches;
        timeouts = u.timeouts;
        retries = ground arith;
      })

-- A configuration that the three builders make of the default one has trimmed names that are not
-- empty, a batch size and a delivery limit of at least one, and a positive operation timeout that is not shorter
-- than the read block.
pub builders-IsUsable :
    (stream group letters index : Text) (size : ℕ) (block timeout idle : Duration) (deliveries : ℕ)
    (config : RedisStreamsConfig)
    → (do
      named ← with_stream_names stream group letters index default_streams
      read ← with_read_options size block timeout named
      with_recovery_policy idle deliveries read)
      ≡ ok config
    → IsUsable config
builders-IsUsable stream group letters index size block timeout idle deliveries config h =
    after_ok (with_stream_names stream group letters index default_streams) _ h λ named n h₁.
      after_ok (with_read_options size block timeout named) _ h₁ λ read r h₂.
        with_recovery_policy-IsUsable idle deliveries read config h₂ (
          with_read_options-IsUsable size block timeout named read r (
            with_stream_names-IsUsable stream group letters index default_streams named n
              default_streams-IsUsable))
