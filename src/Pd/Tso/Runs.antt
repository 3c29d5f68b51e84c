-- ===== src/Pd/Tso/Runs.antt =====
-- Runs of the placement driver's timestamps: the grants of one buffer between resets, failed proposals
-- and allocations that were proposed elsewhere.
pub mod Values
use gookv.Prelude.{
  ℕ, ◌<◌, ◌≤◌, ◌≡◌, refl, Option, none, some, List, [], ◌∷◌, ltb, if◌then◌else◌, arith, ◌⊎◌, inl,
  inr, Bool-cases, zero, suc,
}
use gookv.Pd.Tso.{
  Timestamp, TsoAllocator, TsoBuffer, Clock, Proposal, Pd, answered, unanswered, lost, allocate,
  tso_batch_size, serve, granted, unnoticed, propose, at_least_one, get_ts, reset, refill,
}
use gookv.Pd.Tso.Order.{Precedes, allocate_lem, allocate-zero}

-- A request for timestamps, a change of the leader, which resets the buffer, and an allocation that
-- another proposal makes.
pub data Event : Type 0 where
  ask : ℕ → Proposal → Event
  leader_change : Event
  elsewhere : ℕ → Clock → Event

unfoldable pub step : Pd → Event → Pd × Option Timestamp
step pd (ask count proposal) = get_ts pd count proposal
step pd leader_change = (record pd { buffer = reset }, none)
step pd (elsewhere count clock) = (unnoticed pd (allocate pd.allocator count clock), none)

-- How many timestamps an event asks for.
unfoldable pub wanted : Event → ℕ
wanted (ask count proposal) = at_least_one count
wanted leader_change = 0
wanted (elsewhere count clock) = 0

abbrev pub note : ℕ → Option Timestamp → List (ℕ × Timestamp) → List (ℕ × Timestamp)
note n none rest = rest
note n (some t) rest = (n, t) ∷ rest

-- The grants of a run: each is the last of so many timestamps.
unfoldable pub run : Pd → List Event → List (ℕ × Timestamp)
run pd [] = []
run pd (e ∷ events) =
    let next = step pd e in let rest = run next.0 events in note (wanted e) next.1 rest

-- Every grant lies behind the one before, and behind a first position, as pairs.
unfoldable pub Ascending : Timestamp → List (ℕ × Timestamp) → Type 0
Ascending last [] = Unit
Ascending last ((n, t) ∷ rest) = Precedes last n t × Ascending t rest

abbrev pub start : TsoBuffer → Timestamp
start b = record { physical = b.physical; logical = b.logical }

-- Nothing that was handed out is ahead of the allocator; what the buffer holds lies between the two.
unfoldable pub Holds : Timestamp → TsoAllocator → TsoBuffer → Type 0
Holds last a b =
    Precedes last 0 a.at
    × ((b.remain ≡ 0) ⊎ (Precedes last 0 (start b) × Precedes (start b) b.remain a.at))

-- After an event, and for what it grants.
unfoldable pub After : Timestamp → ℕ → Pd × Option Timestamp → Type 0
After last n (pd, none) = Holds last pd.allocator pd.buffer
After last n (pd, some t) = Precedes last n t × Holds t pd.allocator pd.buffer

serve-Holds :
    (last : Timestamp) (pd : Pd) (n : ℕ)
    → Holds last pd.allocator pd.buffer
    → 0 < n
    → n ≤ pd.buffer.remain
    → After last n (serve pd n)
unfolding serve After Holds Precedes
serve-Holds last pd n h p q = grind arith

refill-Holds :
    (last : Timestamp) (a a' : TsoAllocator) (batch : ℕ)
    → Precedes last 0 a.at
    → Precedes a.at batch a'.at
    → batch ≤ a'.at.logical
    → Holds last a' (refill a'.at batch)
unfolding refill Holds Precedes
refill-Holds last a a' batch h p q = grind arith

-- The allocator only moves forwards.
ahead-Holds :
    (last : Timestamp) (a a' : TsoAllocator) (b : TsoBuffer) (batch : ℕ)
    → Holds last a b
    → Precedes a.at batch a'.at
    → Holds last a' b
unfolding Holds Precedes
ahead-Holds last a a' b batch h p = grind arith

-- A proposal that nobody answers moves the allocator at most.
unnoticed-Holds :
    (last : Timestamp) (pd : Pd) (batch : ℕ) (clock : Clock)
    → Holds last pd.allocator pd.buffer
    → After last 0 (unnoticed pd (allocate pd.allocator batch clock), none)
unfolding After
unnoticed-Holds last pd zero clock h = rw (allocate-zero pd.allocator clock) h
unnoticed-Holds last pd (suc batch) clock h =
    let (a, e, ahead, enough) = allocate_lem pd.allocator (suc batch) clock (omega arith) in
    rw e (ahead-Holds last pd.allocator a pd.buffer (suc batch) h ahead)

granted-Holds :
    (last : Timestamp) (pd : Pd) (batch n : ℕ) (clock : Clock)
    → Holds last pd.allocator pd.buffer
    → 0 < n
    → n ≤ batch
    → After last n (granted pd batch n (allocate pd.allocator batch clock))
unfolding Holds refill
granted-Holds last pd batch n clock h p q =
    let (a, e, ahead, enough) = allocate_lem pd.allocator batch clock (omega arith) in
    rw e (
      serve-Holds last (record { allocator = a; buffer = refill a.at batch }) n
        (refill-Holds last pd.allocator a batch h.0 ahead enough) p q)

propose-Holds :
    (last : Timestamp) (pd : Pd) (batch n : ℕ) (proposal : Proposal)
    → Holds last pd.allocator pd.buffer
    → 0 < n
    → n ≤ batch
    → After last n (propose pd batch n proposal)
unfolding propose After
propose-Holds last pd batch n (answered clock) h p q = granted-Holds last pd batch n clock h p q
propose-Holds last pd batch n (unanswered clock) h p q = unnoticed-Holds last pd batch clock h
propose-Holds last pd batch n lost h p q = h

get_ts-Holds :
    (last : Timestamp) (pd : Pd) (count : ℕ) (proposal : Proposal)
    → Holds last pd.allocator pd.buffer
    → After last (at_least_one count) (get_ts pd count proposal)
unfolding get_ts
get_ts-Holds last pd count proposal h =
    let n = at_least_one count in
    elim (Bool-cases (ltb pd.buffer.remain n)) [
      | inl e ↦ rw e (
          propose-Holds last pd (if ltb tso_batch_size n then n else tso_batch_size) n proposal h
            (ground arith) (ground arith))
      | inr e ↦ rw e (serve-Holds last pd n h (ground arith) (ground arith))
    ]

reset-Holds :
    (last : Timestamp) (a : TsoAllocator) (b : TsoBuffer) → Holds last a b → Holds last a reset
unfolding Holds reset
reset-Holds last a b h = (h.0, inl refl)

step-Holds :
    (last : Timestamp) (pd : Pd) (e : Event)
    → Holds last pd.allocator pd.buffer
    → After last (wanted e) (step pd e)
unfolding After step wanted
step-Holds last pd (ask count proposal) h = get_ts-Holds last pd count proposal h
step-Holds last pd leader_change h = reset-Holds last pd.allocator pd.buffer h
step-Holds last pd (elsewhere count clock) h = unnoticed-Holds last pd count clock h

note-Ascending :
    (last : Timestamp) (n : ℕ) (pd : Pd) (o : Option Timestamp) (rest : List (ℕ × Timestamp))
    → ((t : Timestamp) → Holds t pd.allocator pd.buffer → Ascending t rest)
    → After last n (pd, o)
    → Ascending last (note n o rest)
unfolding After Ascending
note-Ascending last n pd none rest f h = f last h
note-Ascending last n pd (some t) rest f h = (h.0, f t h.1)

-- What a run grants ascends by physical part, and by logical part within a millisecond.
pub run-Ascending :
    (last : Timestamp) (pd : Pd) (events : List Event)
    → Holds last pd.allocator pd.buffer
    → Ascending last (run pd events)
unfolding run Ascending
run-Ascending last pd [] h = tt
run-Ascending last pd (e ∷ events) h =
    let next = step pd e in
    note-Ascending last (wanted e) next.0 next.1 (run next.0 events)
      (λ t k. run-Ascending t next.0 events k) (step-Holds last pd e h)
