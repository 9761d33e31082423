-- ===== src/Prelude/Duration.antt =====
-- `std::time::Duration` as a number of nanoseconds: whole seconds are a `u64`.
use Prim.Native.Nat.{ℕ, ◌*◌, ◌/◌, ◌^◌}
use mathlib.Core.Bool.{Bool}
use mathlib.Core.Option.{Option, none, some}
use tech_atlas.Prelude.Tests.{ltb, ◌==◌, if◌then◌else◌}

abbrev pub Duration : Type 0
Duration = ℕ

abbrev pub nanos_per_sec : ℕ
nanos_per_sec = 1000000000

-- The first number of nanoseconds that no `Duration` holds.
abbrev pub duration_end : ℕ
duration_end = 2 ^ 64 * nanos_per_sec

abbrev pub from_secs : ℕ → Duration
from_secs n = n * nanos_per_sec

abbrev pub from_millis : ℕ → Duration
from_millis n = n * 1000000

abbrev pub as_millis : Duration → ℕ
as_millis d = d / 1000000

abbrev pub is_zero : Duration → Bool
is_zero d = d == 0

abbrev pub checked_mul : Duration → ℕ → Option Duration
checked_mul d k = if ltb (d * k) duration_end then some (d * k) else none
