-- ===== src/Pd/Ids/Batch.antt =====
-- Batches of ids in internal/pd, as long as a uint64 does not wrap around.
use gookv.Prelude.{ℕ, zero, suc, ◌+◌, ◌%◌, ◌≤◌, ◌≡◌, arith, ap, ◌∙◌}
use gookv.Codec.Number.{u64_mod, IsU64}
use gookv.Pd.Ids.{IdAllocator, alloc, alloc_loop, at_least_one, alloc_batch, refill, id_batch_size}

pub small : (n : ℕ) → IsU64 n → n % u64_mod ≡ n
small n p = ground arith

alloc_lem :
    (a : IdAllocator)
    → IsU64 (a.next_id + 1)
    → alloc a ≡ (record { next_id = a.next_id + 1 }, a.next_id)
unfolding alloc
alloc_lem a p = ap (λ n. (record { next_id = n }, a.next_id)) (small (a.next_id + 1) p)

-- Without a wrap-around the loop takes so many ids.
alloc_loop_lem :
    (n next id : ℕ)
    → IsU64 (next + suc n)
    → ((alloc_loop (suc n) (record { next_id = next }) id).0.next_id ≡ next + suc n)
      × ((alloc_loop (suc n) (record { next_id = next }) id).1 ≡ next + n)
unfolding alloc_loop alloc
alloc_loop_lem zero next id p = (small (next + 1) p, omega arith)
alloc_loop_lem (suc n) next id p =
    let f = alloc_lem (record { next_id = next }) (omega arith) in
    let (a, b) = alloc_loop_lem n (next + 1) next (omega arith) in
    (
      ap (λ r. (alloc_loop (suc n) r.0 r.1).0.next_id) f ∙ omega (arith, a),
      ap (λ r. (alloc_loop (suc n) r.0 r.1).1) f ∙ omega (arith, b),
    )

pub alloc_batch_lem :
    (a : IdAllocator) (n : ℕ)
    → IsU64 (a.next_id + at_least_one n)
    → ((alloc_batch a n).0.next_id ≡ a.next_id + at_least_one n)
      × ((alloc_batch a n).1 + 1 ≡ a.next_id + at_least_one n)
unfolding alloc_batch
alloc_batch_lem a zero p = let (x, y) = alloc_loop_lem 0 a.next_id 0 p in (x, omega (arith, y))
alloc_batch_lem a (suc n) p = let (x, y) = alloc_loop_lem n a.next_id 0 p in (x, omega (arith, y))

pub refill_lem :
    (last : ℕ)
    → IsU64 (last + 1)
    → id_batch_size ≤ last + 1
    → ((refill last).next_id + id_batch_size ≡ last + 1) × ((refill last).end_id ≡ last + 1)
unfolding refill
refill_lem last p q = (ground arith, small (last + 1) p)
