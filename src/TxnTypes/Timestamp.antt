-- ===== src/TxnTypes/Timestamp.antt =====
-- pkg/txntypes/timestamp.go: a hybrid timestamp is a uint64 with 18 logical bits.
use gookv.Prelude.{ℕ, ◌+◌, ◌-◌, ◌/◌, ◌%◌, ◌^◌, ◌<◌, ◌≤◌, ◌≡◌, Bool, arith, ◌==◌, if◌then◌else◌}
use gookv.Codec.Number.{u64_mod, IsU64}

abbrev pub ts_logical_bits : ℕ
ts_logical_bits = 18

abbrev pub ts_max : ℕ
ts_max = u64_mod - 1

abbrev pub ts_zero : ℕ
ts_zero = 0

unfoldable pub physical : ℕ → ℕ
physical ts = ts / 2 ^ ts_logical_bits

unfoldable pub logical : ℕ → ℕ
logical ts = ts % 2 ^ ts_logical_bits

abbrev pub is_zero : ℕ → Bool
is_zero ts = ts == ts_zero

unfoldable pub prev : ℕ → ℕ
prev ts = if ts == ts_zero then ts_zero else ts - 1

unfoldable pub next : ℕ → ℕ
next ts = if ts == ts_max then ts_max else ts + 1

-- `Prev` and `Next` stay in range and move by one, but at the two ends, where they stay. They undo
-- one another everywhere else.
pub prev-next :
    (ts : ℕ)
    → IsU64 ts
    → IsU64 (prev ts)
      × IsU64 (next ts)
      × (ts < ts_max → prev (next ts) ≡ ts)
      × (0 < ts → next (prev ts) ≡ ts)
      × (prev ts ≤ ts)
      × (ts ≤ next ts)
unfolding prev next
prev-next ts h = ground arith

pub prev-IsU64 : (ts : ℕ) → IsU64 ts → IsU64 (prev ts)
unfolding prev
prev-IsU64 ts h = ground arith
