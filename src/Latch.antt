-- ===== src/Latch.antt =====
-- internal/storage/txn/latch/latch.go: slots that serialise the commands on overlapping keys. A slot
-- index is below the number of slots, so the slice of slots is a function. The mutex of a slot makes
-- each visit of a slot one step; an operation is modelled as the visits it makes in a row. The
-- channels that `AcquireBlocking` sleeps on are not modelled: it repeats `Acquire` when it is woken,
-- and calls `Release` when it is cancelled.
pub mod Order
pub mod Exclusion
pub mod Releasing
pub mod Steps
pub mod Deadlock
use Prim.Native.Nat.{bit_and, bit_xor}
use gookv.Prelude.{
  ℕ, zero, suc, ◌+◌, ◌-◌, ◌*◌, ◌%◌, ◌^◌, Bool, true, false, ◌&&◌, ◌||◌, List, [], ◌∷◌, ◌++◌, drop,
  take, length, ltb, ◌==◌, if◌then◌else◌,
}
use gookv.Codec.Number.{u64_mod}

-- Command 0 is no command: the slot is free.
pub record LatchSlot : Type 0 where
  pub owner : ℕ
  pub wait_queue : List ℕ

abbrev pub Slots : Type 0
Slots = ℕ → LatchSlot

pub record Latches : Type 0 where
  pub slots : Slots
  pub size : ℕ

pub record Lock : Type 0 where
  pub required_hashes : List ℕ
  pub owned_count : ℕ

unfoldable pub set_slot : Slots → ℕ → LatchSlot → Slots
set_slot slots i slot j = if i == j then slot else slots j

-- `for size < slotCount { size <<= 1 }`; every round doubles the size, so `slotCount` rounds do.
unfoldable pub grow : ℕ → ℕ → ℕ → ℕ
grow zero size slot_count = size
grow (suc fuel) size slot_count =
    let doubled = grow fuel (size * 2) slot_count in if ltb size slot_count then doubled else size

unfoldable pub new : ℕ → Latches
new slot_count = record {
  slots = λ i. record { owner = 0; wait_queue = [] };
  size = grow slot_count 1 slot_count;
}

-- FNV-1a, as the standard library computes it.
unfoldable pub fnv_loop : ℕ → List ℕ → ℕ
fnv_loop h [] = h
fnv_loop h (b ∷ bs) = fnv_loop ((bit_xor h b * 1099511628211) % u64_mod) bs

unfoldable pub hash_key : List ℕ → ℕ
hash_key key = fnv_loop 14695981039346656037 key

unfoldable pub contains : List ℕ → ℕ → Bool
contains [] x = false
contains (y ∷ ys) x = y == x || contains ys x

-- The loop of `GenLock`, with the slots found so far, which are also what its map `seen` holds. The
-- last found comes first here; the sort makes one list of both orders.
unfoldable pub slot_loop : ℕ → List (List ℕ) → List ℕ → List ℕ
slot_loop size [] hashes = hashes
slot_loop size (key ∷ keys) hashes =
    let slot_idx = bit_and (hash_key key) (size - 1) in
    if contains hashes slot_idx
    then slot_loop size keys hashes
    else slot_loop size keys (slot_idx ∷ hashes)

-- `sort.Slice`, on numbers that are all different.
unfoldable pub insert : ℕ → List ℕ → List ℕ
insert x [] = x ∷ []
insert x (y ∷ ys) = let rest = insert x ys in if ltb x y then x ∷ y ∷ ys else y ∷ rest

unfoldable pub sort : List ℕ → List ℕ
sort [] = []
sort (x ∷ xs) = insert x (sort xs)

unfoldable pub gen_lock : Latches → List (List ℕ) → Lock
gen_lock l keys = record { required_hashes = sort (slot_loop l.size keys []); owned_count = 0 }

-- The loop of `Acquire` over the slots still missing: the slots, how many are owned, and whether all
-- are.
unfoldable pub acquire_loop : Slots → List ℕ → ℕ → ℕ → Slots × ℕ × Bool
acquire_loop slots [] owned id = (slots, owned, true)
acquire_loop slots (h ∷ hs) owned id =
    let next =
      acquire_loop (set_slot slots h (record (slots h) { owner = id })) hs (suc owned) id in
    if (slots h).owner == 0 || (slots h).owner == id then next else (
      set_slot slots h (record (slots h) { wait_queue = (slots h).wait_queue ++ (id ∷ []) }),
      owned,
      false,
    )

unfoldable pub acquire : Slots → Lock → ℕ → Slots × Lock × Bool
acquire slots lock id =
    let r = acquire_loop slots (drop lock.owned_count lock.required_hashes) lock.owned_count id in
    (r.0, record lock { owned_count = r.1 }, r.2)

-- A slot without its first waiter, and that waiter.
unfoldable pub pop : List ℕ → List ℕ × List ℕ
pop [] = ([], [])
pop (w ∷ ws) = (ws, w ∷ [])

unfoldable pub release_slot : Slots → ℕ → ℕ → Slots × List ℕ
release_slot slots h id =
    if (slots h).owner == id
    then (
      set_slot slots h (record { owner = 0; wait_queue = (pop (slots h).wait_queue).0 }),
      (pop (slots h).wait_queue).1,
    )
    else (slots, [])

unfoldable pub release_loop : Slots → List ℕ → ℕ → Slots × List ℕ
release_loop slots [] id = (slots, [])
release_loop slots (h ∷ hs) id =
    let first = release_slot slots h id in
    let rest = release_loop first.0 hs id in (rest.0, first.1 ++ rest.1)

unfoldable pub release : Slots → Lock → ℕ → Slots × Lock × List ℕ
release slots lock id =
    let r = release_loop slots (take lock.owned_count lock.required_hashes) id in
    (r.0, record lock { owned_count = 0 }, r.1)
