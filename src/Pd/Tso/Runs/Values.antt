-- ===== src/Pd/Tso/Runs/Values.antt =====
-- The values of the timestamps that internal/pd grants: pkg/txntypes keeps 18 bits for the logical part.
use gookv.Prelude.{
  ℕ, ◌+◌, ◌*◌, ◌^◌, ◌<◌, ◌≤◌, Option, none, some, List, [], ◌∷◌, All, leb, ltb, if◌then◌else◌,
  arith, Bool-cases, inl, inr, zero, suc,
}
use gookv.Pd.Tso.{
  Timestamp, TsoAllocator, Clock, Proposal, Pd, answered, unanswered, lost, allocate,
  advance_physical, advance_logical, tso_batch_size, serve, granted, unnoticed, propose,
  at_least_one, get_ts, reset, refill,
}
use gookv.Pd.Tso.Order.{Precedes, not_zero}
use gookv.Pd.Tso.Runs.{
  Event, ask, leader_change, elsewhere, step, wanted, run, note, Ascending, Holds, run-Ascending,
}

-- The number that a timestamp stands for.
abbrev pub value : Timestamp → ℕ
value t = t.physical * 2 ^ 18 + t.logical

-- The `n` timestamps that end in `t` have the same physical part, and a logical part of 18 bits.
unfoldable pub IsGrant : ℕ → Timestamp → Type 0
IsGrant n t = (n ≤ t.logical) × (t.logical < 2 ^ 18)

-- Of each grant, all values are greater than those of the grants before, and than a first one.
unfoldable pub Ascends : ℕ → List (ℕ × Timestamp) → Type 0
Ascends last [] = Unit
Ascends last ((n, t) ∷ rest) = (last + n ≤ value t) × IsGrant n t × Ascends (value t) rest

-- An event asks for fewer timestamps than a millisecond has.
unfoldable pub IsSmall : Event → Type 0
IsSmall (ask count proposal) = count < 2 ^ 18
IsSmall leader_change = Unit
IsSmall (elsewhere count clock) = count < 2 ^ 18

-- The allocator and the end of the buffer keep to 18 bits.
unfoldable pub Fits : Pd → Type 0
Fits pd = (pd.allocator.at.logical < 2 ^ 18) × (pd.buffer.logical + pd.buffer.remain < 2 ^ 18)

-- After a step, and for what it grants.
Granted : ℕ → Pd × Option Timestamp → Type 0
Granted n (pd, none) = Fits pd
Granted n (pd, some t) = IsGrant n t × Fits pd

advance_physical-fits :
    (t : Timestamp) (now : ℕ) → t.logical < 2 ^ 18 → (advance_physical t now).logical < 2 ^ 18
unfolding advance_physical
advance_physical-fits t now p = elim (Bool-cases (ltb t.physical now)) [
  | inl e ↦ rw e (omega arith)
  | inr e ↦ rw e p
]

advance_logical-fits :
    (physical logical count now : ℕ)
    → count < 2 ^ 18
    → (advance_logical physical logical count now).logical < 2 ^ 18
unfolding advance_logical
advance_logical-fits physical logical count now p =
    elim (Bool-cases (leb (2 ^ 18) (logical + count))) [
      | inl e ↦ rw e p
      | inr e ↦ rw e (ground arith)
    ]

-- What an allocation gives keeps to 18 bits.
AllocationFits : Option (TsoAllocator × Timestamp) → Type 0
AllocationFits none = Unit
AllocationFits (some (a, t)) = (a.at.logical < 2 ^ 18) × (t.logical < 2 ^ 18)

allocate-fits :
    (a : TsoAllocator) (count : ℕ) (clock : Clock)
    → count < 2 ^ 18
    → AllocationFits (allocate a count clock)
unfolding allocate AllocationFits
allocate-fits a zero clock p = tt
allocate-fits a (suc count) clock p =
    let t = advance_physical a.at clock.first in
    let fits = advance_logical-fits t.physical t.logical (suc count) clock.second p in
    rw (not_zero (suc count) (omega arith)) (fits, fits)

serve-Granted : (pd : Pd) (n : ℕ) → Fits pd → n ≤ pd.buffer.remain → Granted n (serve pd n)
unfolding serve Granted Fits IsGrant
serve-Granted pd n f p = ((omega arith, omega (arith, f.1)), (f.0, omega (arith, f.1)))

unnoticed-Fits :
    (pd : Pd) (o : Option (TsoAllocator × Timestamp))
    → Fits pd
    → AllocationFits o
    → Fits (unnoticed pd o)
unfolding Fits AllocationFits
unnoticed-Fits pd none f a = f
unnoticed-Fits pd (some (a, t)) f h = (h.0, f.1)

granted-Granted :
    (pd : Pd) (batch n : ℕ) (o : Option (TsoAllocator × Timestamp))
    → Fits pd
    → AllocationFits o
    → batch < 2 ^ 18
    → n ≤ batch
    → Granted n (granted pd batch n o)
unfolding AllocationFits Granted Fits refill
granted-Granted pd batch n none f h p q = f
granted-Granted pd batch n (some (a, t)) f h p q =
    serve-Granted (record { allocator = a; buffer = refill t batch }) n (h.0, omega (arith, h.1)) q

propose-Granted :
    (pd : Pd) (batch n : ℕ) (proposal : Proposal)
    → Fits pd
    → batch < 2 ^ 18
    → n ≤ batch
    → Granted n (propose pd batch n proposal)
unfolding propose Granted
propose-Granted pd batch n (answered clock) f p q =
    granted-Granted pd batch n (allocate pd.allocator batch clock) f
      (allocate-fits pd.allocator batch clock p) p q
propose-Granted pd batch n (unanswered clock) f p q =
    unnoticed-Fits pd (allocate pd.allocator batch clock) f
      (allocate-fits pd.allocator batch clock p)
propose-Granted pd batch n lost f p q = f

get_ts-Granted :
    (pd : Pd) (count : ℕ) (proposal : Proposal)
    → Fits pd
    → count < 2 ^ 18
    → Granted (at_least_one count) (get_ts pd count proposal)
unfolding get_ts
get_ts-Granted pd count proposal f p =
    let n = at_least_one count in
    elim (Bool-cases (ltb pd.buffer.remain n)) [
      | inl e ↦ rw e (
          propose-Granted pd (if ltb tso_batch_size n then n else tso_batch_size) n proposal f
            (ground arith) (ground arith))
      | inr e ↦ rw e (serve-Granted pd n f (ground arith))
    ]

step-Granted : (pd : Pd) (e : Event) → Fits pd → IsSmall e → Granted (wanted e) (step pd e)
unfolding step wanted IsSmall Granted Fits reset
step-Granted pd (ask count proposal) f p = get_ts-Granted pd count proposal f p
step-Granted pd leader_change f p = (f.0, omega arith)
step-Granted pd (elsewhere count clock) f p =
    unnoticed-Fits pd (allocate pd.allocator count clock) f
      (allocate-fits pd.allocator count clock p)

-- Every grant of a run is in order.
AllGrants : List (ℕ × Timestamp) → Type 0
AllGrants [] = Unit
AllGrants ((n, t) ∷ rest) = IsGrant n t × AllGrants rest

note-AllGrants :
    (n : ℕ) (pd : Pd) (o : Option Timestamp) (rest : List (ℕ × Timestamp))
    → (Fits pd → AllGrants rest)
    → Granted n (pd, o)
    → AllGrants (note n o rest)
unfolding Granted AllGrants
note-AllGrants n pd none rest go f = go f
note-AllGrants n pd (some t) rest go f = (f.0, go f.1)

run-AllGrants :
    (pd : Pd) (events : List Event) → Fits pd → All IsSmall events → AllGrants (run pd events)
unfolding run AllGrants
run-AllGrants pd [] f s = tt
run-AllGrants pd (e ∷ events) f s =
    let next = step pd e in
    note-AllGrants (wanted e) next.0 next.1 (run next.0 events)
      (λ g. run-AllGrants next.0 events g s.1) (step-Granted pd e f s.0)

-- Where the logical parts keep to 18 bits, the order of pairs is that of the values.
Ascending-Ascends :
    (last : Timestamp) (grants : List (ℕ × Timestamp))
    → last.logical < 2 ^ 18
    → Ascending last grants
    → AllGrants grants
    → Ascends (value last) grants
unfolding Ascending AllGrants Ascends IsGrant Precedes
Ascending-Ascends last [] p a g = tt
Ascending-Ascends last ((n, t) ∷ rest) p a g =
    (grind (arith, a.0, g.0), g.0, Ascending-Ascends t rest g.0.1 a.1 g.1)

-- The timestamps of a run ascend as numbers, physical part times 2^18 plus logical part. It starts
-- from a state that holds what it has granted before, and asks for fewer than 2^18 at a time. Then,
-- whatever becomes of the proposals, however the clock is set back, and with every change of the
-- leader and every allocation made elsewhere, all n values of a grant are greater than those of the
-- grant before; they share the physical part, and their logical parts keep to 18 bits.
pub grants_ascend :
    (last : Timestamp) (pd : Pd) (events : List Event)
    → Holds last pd.allocator pd.buffer
    → last.logical < 2 ^ 18
    → Fits pd
    → All IsSmall events
    → Ascends (value last) (run pd events)
grants_ascend last pd events h p f s =
    Ascending-Ascends last (run pd events) p (run-Ascending last pd events h)
      (run-AllGrants pd events f s)
