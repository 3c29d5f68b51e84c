-- ===== src/Keys/Ranges.antt =====
-- The order and the ranges of internal keys.
use gookv.Prelude.{
  ℕ, ◌≡◌, ◌∙◌, refl, Bool, false, not, ◌&&◌, List, [], ◌∷◌, ◌++◌, length, ltb, ◌==◌, compare,
  Ordering, arith, ok, append-nil,
}
use gookv.Prelude.Order.{compare_bytes, then_compare, then_compare-eq}
use gookv.Codec.Number.{IsU64, put_uint64, be_bytes}
use gookv.Codec.Number.RoundTrip.{get-put_uint64}
use gookv.Codec.Number.Order.{compare-put_uint64}
use gookv.Mvcc.Snapshot.{less}
use gookv.Keys.{
  data_key, origin_key, raft_log_key, raft_state_key, apply_state_key, region_state_key,
  raft_log_key_range, region_id_at, region_id_from, region_id_from_raft_key,
  region_id_from_meta_key, raft_log_suffix, raft_state_suffix,
}

-- `start <= key < end`.
abbrev pub in_range : List ℕ → List ℕ × List ℕ → Bool
in_range key range = not (less key range.0) && less key range.1

nothing_behind : (o : Ordering) → then_compare o (compare_bytes [] []) ≡ o
unfolding compare_bytes
nothing_behind o = then_compare-eq o

compare-indexes :
    (i j : ℕ) → IsU64 i → IsU64 j → compare_bytes (put_uint64 i) (put_uint64 j) ≡ compare i j
compare-indexes i j hi hj =
    let both = compare-put_uint64 i j [] [] hi hj in
    let bare = rw (append-nil (put_uint64 i), append-nil (put_uint64 j)) at both in
    bare ∙ nothing_behind (compare i j)

compare-log_keys :
    (r q i j : ℕ)
    → IsU64 r
    → IsU64 q
    → IsU64 i
    → IsU64 j
    → compare_bytes (raft_log_key r i) (raft_log_key q j) ≡ then_compare (compare r q) (compare i j)
unfolding raft_log_key compare_bytes
compare-log_keys r q i j hr hq hi hj =
    rw
      (
        compare-put_uint64 r q (raft_log_suffix ∷ put_uint64 i) (raft_log_suffix ∷ put_uint64 j) hr
            hq,
        compare-indexes i j hi hj,
      )
      refl

compare-log_state :
    (r q i : ℕ)
    → IsU64 r
    → IsU64 q
    → compare_bytes (raft_log_key r i) (raft_state_key q) ≡ then_compare (compare r q) Ordering.lt
unfolding raft_log_key raft_state_key compare_bytes
compare-log_state r q i hr hq =
    rw (compare-put_uint64 r q (raft_log_suffix ∷ put_uint64 i) (raft_state_suffix ∷ []) hr hq) refl

-- For numbers of 64 bits, the range of `RaftLogKeyRange` for a region holds exactly the log entries of
-- that region, whatever their index, among the log entries of all regions.
pub in_range-raft_log_key :
    (r q i : ℕ)
    → IsU64 r
    → IsU64 q
    → IsU64 i
    → in_range (raft_log_key q i) (raft_log_key_range r) ≡ (q == r)
unfolding raft_log_key_range
in_range-raft_log_key r q i hr hq hi =
    ground (arith, compare-log_keys q r i 0 hq hr hi (omega arith), compare-log_state q r i hq hr)

long : (a b r : ℕ) (xs : List ℕ) → ltb (length (a ∷ b ∷ (put_uint64 r ++ xs))) 10 ≡ false
unfolding put_uint64 be_bytes
long a b r xs = ground arith

-- The region id is read back from every key that carries it, and the user key from its data key.
pub region_id_from-keys :
    (r i : ℕ) (key : List ℕ)
    → IsU64 r
    → (region_id_from_raft_key (raft_log_key r i) ≡ ok r)
      × (region_id_from_raft_key (raft_state_key r) ≡ ok r)
      × (region_id_from_raft_key (apply_state_key r) ≡ ok r)
      × (region_id_from_meta_key (region_state_key r) ≡ ok r)
      × (origin_key (data_key key) ≡ key)
unfolding region_id_from_raft_key region_id_from_meta_key raft_log_key raft_state_key
    apply_state_key region_state_key origin_key data_key region_id_from region_id_at
region_id_from-keys r i key h = (
  rw (long 1 2 r _, get-put_uint64 r _ h) refl,
  rw (long 1 2 r _, get-put_uint64 r _ h) refl,
  rw (long 1 2 r _, get-put_uint64 r _ h) refl,
  rw (long 1 3 r _, get-put_uint64 r _ h) refl,
  refl,
)
