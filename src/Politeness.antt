-- ===== src/Politeness.antt =====
-- crates/queue/src/lib.rs: the politeness lease that keeps the workers' requests to one domain
-- apart. The script runs atomically in Redis; GET and SET with PX are read as documented: a key is
-- there until the instant at which it expires. Instants are in milliseconds of the server's clock.
pub mod Spacing
mod Tests
use tech_atlas.Prelude.{
  ℕ, ◌+◌, ◌-◌, ◌^◌, Bool, true, false, not, ◌&&◌, Option, none, some, List, [], ◌∷◌, ◌++◌, leb, ltb,
  ◌==◌, if◌then◌else◌, find, String, Outcome, ok, err, ◌>>=◌, ◌>>◌, refuse_if,
}
use tech_atlas.Prelude.Text.{Text, text, trim, is_empty, eq_text}
use tech_atlas.Prelude.Duration.{Duration, from_secs, as_millis, is_zero}

pub record RedisPolitenessConfig : Type 0 where
  pub key_prefix : Text
  pub operation_timeout : Duration

pub data RedisPolitenessConfigError : Type 0 where
  empty_key_prefix zero_operation_timeout : RedisPolitenessConfigError

abbrev pub default_politeness : RedisPolitenessConfig
default_politeness = record {
  key_prefix = text "techatlas:crawl-politeness:v1";
  operation_timeout = from_secs 5;
}

unfoldable pub new_politeness :
    Text → Duration → Outcome RedisPolitenessConfigError RedisPolitenessConfig
new_politeness key_prefix operation_timeout = do
  refuse_if (is_empty (trim key_prefix)) empty_key_prefix
  refuse_if (is_zero operation_timeout) zero_operation_timeout
  ok (record { key_prefix = trim key_prefix; operation_timeout = operation_timeout })

abbrev pub lease_key : RedisPolitenessConfig → Text → Text
lease_key config domain = config.key_prefix ++ 58 ∷ domain

-- A key of the server with its value and its expiry.
pub record Entry : Type 0 where
  pub key : Text
  pub next_allowed : ℕ
  pub expires_at : ℕ

abbrev pub Store : Type 0
Store = List Entry

-- `redis.call('GET', key) or '0'`
abbrev pub value_or_zero : Option Entry → ℕ
value_or_zero none = 0
value_or_zero (some entry) = entry.next_allowed

unfoldable pub get_value : Store → Text → ℕ → ℕ
get_value store key now =
    value_or_zero (find (λ entry. eq_text entry.key key && ltb now entry.expires_at) store)

-- `SET key value PX delay` drops the key's old entry.
unfoldable pub drop_key : Text → Store → Store
drop_key key [] = []
drop_key key (e ∷ rest) =
    let others = drop_key key rest in if eq_text e.key key then others else e ∷ others

unfoldable pub set_value : Store → Text → ℕ → ℕ → ℕ → Store
set_value store key value delay now =
    record { key = key; next_allowed = value; expires_at = now + delay } ∷ drop_key key store

-- POLITENESS_LEASE_SCRIPT: the milliseconds to wait, 0 for a granted lease, and the store.
unfoldable pub lease_script : Store → Text → ℕ → ℕ → ℕ × Store
lease_script store key delay now =
    if ltb now (get_value store key now)
    then (get_value store key now - now, store)
    else (0, set_value store key (now + delay) delay now)

pub data GateError : Type 0 where
  cancelled timed_out unavailable empty_domain : GateError

-- `lease_wait`; `reached` tells how the two calls of the server ended. The `i64` of the answer
-- bounds it from above.
unfoldable pub lease_wait :
    RedisPolitenessConfig
    → Outcome GateError (Unit {0})
    → Text
    → Duration
    → ℕ
    → Store
    → Outcome GateError (ℕ × Store)
lease_wait config reached domain delay now store =
    let delay_millis = as_millis delay in
    do
      refuse_if (leb (2 ^ 64) delay_millis) unavailable
      refuse_if (delay_millis == 0) unavailable
      reached
      refuse_if (leb (2 ^ 63) (lease_script store (lease_key config domain) delay_millis now).0)
          unavailable
      ok (lease_script store (lease_key config domain) delay_millis now)
