-- ===== src/Txn/Concurrency.antt =====
-- internal/storage/txn/concurrency/manager.go: the highest timestamp that was seen, and the locks in
-- memory. The lock table is an association list with one entry for each key.
pub mod MaxTs
pub mod MinLock
use gookv.Prelude.{
  ℕ, suc, zero, ◌+◌, Option, none, some, List, [], ◌∷◌, leb, ltb, ◌==◌, if◌then◌else◌, length, map,
}
use gookv.Prelude.Order.{equal_bytes}

pub record LockHandle : Type 0 where
  pub key : List ℕ
  pub start_ts : ℕ

pub record Manager : Type 0 where
  pub max_ts : ℕ
  pub lock_table : List (List ℕ × LockHandle)

unfoldable pub new : Manager
new = record { max_ts = 0; lock_table = [] }

-- `sync.Map.Delete`, `Store` and `Load`.
unfoldable pub delete : List ℕ → List (List ℕ × LockHandle) → List (List ℕ × LockHandle)
delete key [] = []
delete key ((k, handle) ∷ rest) =
    let others = delete key rest in if equal_bytes k key then others else (k, handle) ∷ others

unfoldable pub load : List ℕ → List (List ℕ × LockHandle) → Option LockHandle
load key [] = none
load key ((k, handle) ∷ rest) = if equal_bytes k key then some handle else load key rest

-- `LockKey`; its guard is the key.
unfoldable pub lock_key : Manager → List ℕ → ℕ → Manager
lock_key m key start_ts = record m {
  lock_table = (key, record { key = key; start_ts = start_ts }) ∷ delete key m.lock_table;
}

-- `Release` of the guard of a key.
unfoldable pub release : Manager → List ℕ → Manager
release m key = record m { lock_table = delete key m.lock_table }

unfoldable pub is_key_locked : Manager → List ℕ → Option LockHandle
is_key_locked m key = load key m.lock_table

-- What a handle makes of the minimum so far.
unfoldable pub lower : Option ℕ → ℕ → Option ℕ
lower none start_ts = some start_ts
lower (some min_ts) start_ts = if ltb start_ts min_ts then some start_ts else some min_ts

unfoldable pub range_min : Option ℕ → List (List ℕ × LockHandle) → Option ℕ
range_min min_ts [] = min_ts
range_min min_ts ((k, handle) ∷ rest) = range_min (lower min_ts handle.start_ts) rest

unfoldable pub global_min_lock : Manager → Option ℕ
global_min_lock m = range_min none m.lock_table

unfoldable pub lock_count : Manager → ℕ
lock_count m = length m.lock_table

-- A call of `UpdateMaxTS` is about to load the timestamp, or about to swap it for its own against the
-- value that it has loaded, or has returned.
pub data Call : Type 0 where
  loading : ℕ → Call
  swapping : ℕ → ℕ → Call
  returned : ℕ → Call

-- One atomic step of a call.
unfoldable pub step : ℕ → Call → ℕ × Call
step max_ts (loading ts) =
    if leb ts max_ts then (max_ts, returned ts) else (max_ts, swapping ts max_ts)
step max_ts (swapping ts current) =
    if max_ts == current then (ts, returned ts) else (max_ts, loading ts)
step max_ts (returned ts) = (max_ts, returned ts)

-- A step of one of several calls.
unfoldable pub step_at : ℕ → ℕ → List Call → ℕ × List Call
step_at max_ts i [] = (max_ts, [])
step_at max_ts zero (c ∷ calls) = let next = step max_ts c in (next.0, next.1 ∷ calls)
step_at max_ts (suc i) (c ∷ calls) = let next = step_at max_ts i calls in (next.0, c ∷ next.1)

-- The calls in the order of a schedule.
unfoldable pub interleave : ℕ → List Call → List ℕ → ℕ × List Call
interleave max_ts calls [] = (max_ts, calls)
interleave max_ts calls (i ∷ schedule) =
    let next = step_at max_ts i calls in interleave next.0 next.1 schedule
