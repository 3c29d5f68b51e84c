-- ===== src/Mvcc/Versions.antt =====
-- The abstract view of CF_WRITE: the committed versions, sorted by user key and, for one key, by
-- falling commit timestamp. Each has a user key, a commit timestamp and a write record.
pub mod Newest
pub mod Next
pub mod Visible
pub mod Insert
pub mod Written
pub mod Keys
pub mod Range
use gookv.Prelude.{
  ℕ, zero, suc, ◌+◌, ◌<◌, ◌≤◌, ◌≡◌, ◌≢◌, refl, Bool, true, false, Option, none, some, List, [], ◌∷◌,
  length, leb, ltb, ◌==◌, ◌⊎◌, if◌then◌else◌, arith, Ordering, compare, All, map,
}
use gookv.Prelude.Order.{compare_bytes, then_compare, equal_bytes}
use gookv.Codec.Number.{IsU64}
use gookv.TxnTypes.Write.{Write, marshal}
use gookv.TxnTypes.Write.RoundTrip.{IsValid, stored}
use gookv.Mvcc.Key.{encode_key}
use gookv.Mvcc.Snapshot.{Entries}

pub record Version : Type 0 where
  pub key : List ℕ
  pub commit_ts : ℕ
  pub write : Write

-- The entry of CF_WRITE that holds a version.
abbrev pub entry : Version → List ℕ × List ℕ
entry v = (encode_key v.key v.commit_ts, marshal v.write)

-- The order of versions: the user key, then the newer version first.
abbrev pub position : Version → List ℕ → ℕ → Ordering
position v key ts = then_compare (compare_bytes v.key key) (compare ts v.commit_ts)

abbrev pub precedes : Version → List ℕ → ℕ → Bool
precedes v key ts = elim (position v key ts) [ Ordering.lt ↦ true | _ ↦ false ]

-- A version whose record can be written and read back unchanged.
pub record IsStorable (v : Version) : Type 0 where
  pub commit_ts_fits : IsU64 v.commit_ts
  pub write_fits : IsValid v.write
  pub write_stored : stored v.write ≡ v.write

-- What stands in front of (key, ts) in the order of versions is dropped.
unfoldable pub versions_from : List Version → List ℕ → ℕ → List Version
versions_from [] key ts = []
versions_from (v ∷ vs) key ts = if precedes v key ts then versions_from vs key ts else v ∷ vs

-- The version at the front, if it belongs to the key.
unfoldable pub first_of_key : List Version → List ℕ → Option (Write × ℕ)
first_of_key [] key = none
first_of_key (v ∷ vs) key = if equal_bytes v.key key then some (v.write, v.commit_ts) else none

-- Every version stands in front of those behind it.
abbrev pub IsSorted : List Version → Type 0
IsSorted [] = Unit
IsSorted (v ∷ vs) = All (λ w. position v w.key w.commit_ts ≡ Ordering.lt) vs × IsSorted vs
