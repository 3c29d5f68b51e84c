-- ===== src/Mvcc/PointGetter.antt =====
-- internal/storage/mvcc/point_getter.go: the read of one key. Lock timestamps to bypass are a list.
use gookv.Prelude.{
  ℕ, Bool, false, not, ◌&&◌, ◌||◌, Option, none, some, List, [], ◌∷◌, leb, ◌==◌, if◌then◌else◌, ok,
  err, Error,
}
use gookv.TxnTypes.Lock.{Lock, lock_type_pessimistic}
use gookv.Mvcc.Snapshot.{Snapshot}
use gookv.Mvcc.Reader.{load_lock, get_write, get_value, Found}

pub data IsolationLevel : Type 0 where
  si rc : IsolationLevel

pub record PointGetter : Type 0 where
  pub snapshot : Snapshot
  pub ts : ℕ
  pub isolation_level : IsolationLevel
  pub bypass_locks : List ℕ

-- What `Get` answers: a value or nil, the lock that blocks the read, or an error of a decoder.
pub data Read : Type 0 where
  value : Option (List ℕ) → Read
  locked : List ℕ → Lock → Read
  failed : Error → Read

unfoldable pub contains : List ℕ → ℕ → Bool
contains [] ts = false
contains (t ∷ rest) ts = t == ts || contains rest ts

-- The lock blocks the read unless it is newer, pessimistic, or bypassed.
unfoldable pub blocks : PointGetter → Lock → Bool
unfolding contains
blocks pg lock =
    leb lock.start_ts pg.ts
    && not (lock.lock_type == lock_type_pessimistic)
    && not (contains pg.bypass_locks lock.start_ts)

unfoldable pub read_value : PointGetter → List ℕ → Found → Read
read_value pg key none = value none
read_value pg key (some (w, _)) = elim w.short_value [
  | some v ↦ value (some v)
  | none ↦ value (get_value pg.snapshot key w.start_ts)
]

unfoldable pub read_visible : PointGetter → List ℕ → Read
read_visible pg key = elim (get_write pg.snapshot key pg.ts) [
  | ok found ↦ read_value pg key found
  | err e ↦ failed e
]

unfoldable pub check_lock : PointGetter → List ℕ → Option Lock → Read
check_lock pg key none = read_visible pg key
check_lock pg key (some lock) = if blocks pg lock then locked key lock else read_visible pg key

unfoldable pub get : PointGetter → List ℕ → Read
get pg key = elim pg.isolation_level [
  | rc ↦ read_visible pg key
  | si ↦ elim (load_lock pg.snapshot key) [ ok lock ↦ check_lock pg key lock | err e ↦ failed e ]
]
