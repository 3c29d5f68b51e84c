-- ===== src/Pd/Ids/Runs.antt =====
-- Runs of the ids of internal/pd: requests, changes of the leader, and allocations proposed elsewhere.
use gookv.Prelude.{
  ℕ, ◌+◌, ◌<◌, ◌≤◌, ◌≡◌, List, [], ◌∷◌, Option, none, some, leb, ◌⊎◌, inl, inr, arith, Bool-cases,
  false,
}
use gookv.Codec.Number.{IsU64}
use gookv.Pd.Ids.Batch.{small, alloc_batch_lem, refill_lem}
use gookv.Pd.Ids.{
  IdBuffer, Pd, Proposal, answered, unanswered, lost, at_least_one, alloc_batch, refill, reset,
  serve, propose, take_id, id_batch_size,
}

pub data Event : Type 0 where
  ask : Proposal → Event
  leader_change : Event
  elsewhere : ℕ → Event

unfoldable pub step : Pd → Event → Pd × Option ℕ
step pd (ask proposal) = take_id pd proposal
step pd leader_change = (record pd { buffer = reset }, none)
step pd (elsewhere batch_size) =
    (record pd { allocator = (alloc_batch pd.allocator batch_size).0 }, none)

abbrev note : Option ℕ → List ℕ → List ℕ
note none rest = rest
note (some id) rest = id ∷ rest

-- The ids that a run gives out.
unfoldable pub run : Pd → List Event → List ℕ
run pd [] = []
run pd (e ∷ events) = let next = step pd e in let rest = run next.0 events in note next.1 rest

-- How many ids an event takes from the allocator, at most.
unfoldable pub taken : Event → ℕ
taken (ask proposal) = id_batch_size
taken leader_change = 0
taken (elsewhere batch_size) = at_least_one batch_size

unfoldable pub taken_all : List Event → ℕ
taken_all [] = 0
taken_all (e ∷ events) = taken e + taken_all events

-- Every id is above the one before, and none is below a first one.
unfoldable pub Ascending : ℕ → List ℕ → Type 0
Ascending low [] = Unit
Ascending low (id ∷ rest) = (low ≤ id) × Ascending (id + 1) rest

-- Ids from `low` on are free: the allocator has not passed them but for those in the buffer.
unfoldable pub Free : ℕ → ℕ → IdBuffer → Type 0
Free low next b = (low ≤ next) × ((b.end_id ≤ b.next_id) ⊎ ((low ≤ b.next_id) × (b.end_id ≤ next)))

-- What holds after an event, and for the id that it gives out.
After : ℕ → ℕ → Pd × Option ℕ → Type 0
After low limit (pd, none) =
    Free low pd.allocator.next_id pd.buffer × (pd.allocator.next_id ≤ limit)
After low limit (pd, some id) =
    (low ≤ id) × Free (id + 1) pd.allocator.next_id pd.buffer × (pd.allocator.next_id ≤ limit)

serve-After :
    (low limit : ℕ) (pd : Pd)
    → low ≤ pd.buffer.next_id
    → pd.buffer.next_id < pd.buffer.end_id
    → pd.buffer.end_id ≤ pd.allocator.next_id
    → pd.allocator.next_id ≤ limit
    → IsU64 limit
    → After low limit (serve pd)
unfolding serve After Free
serve-After low limit pd p q r l f =
    rw (small (pd.buffer.next_id + 1) (omega arith)) (p, (omega arith, inr (omega arith, r)), l)

not_leb : (a b : ℕ) → leb a b ≡ false → b < a
not_leb a b e = ground arith

ne : (a b : ℕ) → a < b → b ≤ a → ⊥
ne a b p q = omega arith

Free-le : (low a b : ℕ) (buffer : IdBuffer) → a ≤ b → Free low a buffer → Free low b buffer
unfolding Free
Free-le low a b buffer p (q, inl e) = (omega arith, inl e)
Free-le low a b buffer p (q, inr (e, f)) = (omega arith, inr (e, omega arith))

propose-After :
    (low limit : ℕ) (pd : Pd) (proposal : Proposal)
    → Free low pd.allocator.next_id pd.buffer
    → pd.allocator.next_id + id_batch_size ≤ limit
    → IsU64 limit
    → After low limit (propose pd proposal)
unfolding propose After Free
propose-After low limit pd answered h p f =
    let (a, b) = alloc_batch_lem pd.allocator id_batch_size (omega arith) in
    let last_id = (alloc_batch pd.allocator id_batch_size).1 in
    let (c, d) = refill_lem last_id (omega (arith, b)) (omega (arith, b)) in
    serve-After low limit
      (record { allocator = (alloc_batch pd.allocator id_batch_size).0; buffer = refill last_id })
      (omega (arith, b, c, h.0)) (omega (arith, c, d)) (omega (arith, a, b, d)) (omega (arith, a)) f
propose-After low limit pd unanswered h p f =
    let (a, b) = alloc_batch_lem pd.allocator id_batch_size (omega arith) in
    (
      Free-le low pd.allocator.next_id (alloc_batch pd.allocator id_batch_size).0.next_id pd.buffer
          (omega (arith, a)) h,
      omega (arith, a),
    )
propose-After low limit pd lost h p f = (h, omega arith)

served-After :
    (low limit : ℕ) (pd : Pd)
    → Free low pd.allocator.next_id pd.buffer
    → pd.buffer.next_id < pd.buffer.end_id
    → pd.allocator.next_id ≤ limit
    → IsU64 limit
    → After low limit (serve pd)
unfolding Free
served-After low limit pd (h, inl e) p l f = elim (ne pd.buffer.next_id pd.buffer.end_id p e) [ ]
served-After low limit pd (h, inr (a, b)) p l f = serve-After low limit pd a p b l f

take_id-After :
    (low limit : ℕ) (pd : Pd) (proposal : Proposal)
    → Free low pd.allocator.next_id pd.buffer
    → pd.allocator.next_id + id_batch_size ≤ limit
    → IsU64 limit
    → After low limit (take_id pd proposal)
unfolding take_id
take_id-After low limit pd proposal h p f =
    elim (Bool-cases (leb pd.buffer.end_id pd.buffer.next_id)) [
      | inl e ↦ rw e (propose-After low limit pd proposal h p f)
      | inr e ↦ rw e (
          served-After low limit pd h (not_leb pd.buffer.end_id pd.buffer.next_id e) (omega arith)
            f)
    ]

elsewhere-After :
    (low limit : ℕ) (pd : Pd) (batch_size : ℕ)
    → Free low pd.allocator.next_id pd.buffer
    → pd.allocator.next_id + at_least_one batch_size ≤ limit
    → IsU64 limit
    → After low limit (record pd { allocator = (alloc_batch pd.allocator batch_size).0 }, none)
unfolding After
elsewhere-After low limit pd n h p f =
    let (a, b) = alloc_batch_lem pd.allocator n (omega arith) in
    (
      Free-le low pd.allocator.next_id (alloc_batch pd.allocator n).0.next_id pd.buffer
          (omega (arith, a)) h,
      omega (arith, a),
    )

step-After :
    (low limit : ℕ) (pd : Pd) (e : Event)
    → Free low pd.allocator.next_id pd.buffer
    → pd.allocator.next_id + taken e ≤ limit
    → IsU64 limit
    → After low limit (step pd e)
unfolding step taken After Free reset
step-After low limit pd (ask proposal) h p f = take_id-After low limit pd proposal h p f
step-After low limit pd leader_change h p f = ((h.0, inl (omega arith)), omega arith)
step-After low limit pd (elsewhere n) h p f = elsewhere-After low limit pd n h p f

note-Ascending :
    (low limit : ℕ) (pd : Pd) (o : Option ℕ) (rest : List ℕ)
    → ((next : ℕ)
        → Free next pd.allocator.next_id pd.buffer
        → pd.allocator.next_id ≤ limit
        → Ascending next rest)
    → After low limit (pd, o)
    → Ascending low (note o rest)
unfolding After Ascending
note-Ascending low limit pd none rest go (h, l) = go low h l
note-Ascending low limit pd (some id) rest go (p, h, l) = (p, go (id + 1) h l)

-- The ids that a run gives out ascend strictly, so that none is given out twice: with proposals that
-- fail, applied or not, with changes of the leader and with batches that were proposed elsewhere. It
-- starts where the ids from a first one on are free, and takes so few ids that a uint64 does not wrap
-- around.
pub run_ascends :
    (low : ℕ) (pd : Pd) (events : List Event)
    → Free low pd.allocator.next_id pd.buffer
    → IsU64 (pd.allocator.next_id + taken_all events)
    → Ascending low (run pd events)
unfolding run taken_all Ascending
run_ascends low pd [] h f = tt
run_ascends low pd (e ∷ events) h f =
    let next = step pd e in
    let limit = pd.allocator.next_id + taken e in
    note-Ascending low limit next.0 next.1 (run next.0 events)
      (λ low' k l. run_ascends low' next.0 events k (omega arith))
      (step-After low limit pd e h (omega arith) (omega arith))
