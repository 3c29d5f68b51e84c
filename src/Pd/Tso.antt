-- ===== src/Pd/Tso.antt =====
-- internal/pd/server.go and tso_buffer.go: the allocation of timestamps. The allocator is part of the
-- replicated state; the buffer hands out what it was granted by a proposal. Counts are positive ints
-- or 0 here, and times are milliseconds since the epoch. A timestamp goes through JSON unchanged.
pub mod Order
pub mod Runs
use gookv.Prelude.{
  ℕ, ◌+◌, ◌-◌, ◌^◌, Option, none, some, List, [], ◌∷◌, leb, ltb, ◌==◌, if◌then◌else◌,
}

abbrev pub max_logical : ℕ
max_logical = 2 ^ 18

abbrev pub tso_batch_size : ℕ
tso_batch_size = 1000

pub record Timestamp : Type 0 where
  pub physical : ℕ
  pub logical : ℕ

-- `TSOAllocator` has the same two fields, and the interval of a save that never happens.
pub record TsoAllocator : Type 0 where
  pub at : Timestamp

-- Two readings of the clock.
pub record Clock : Type 0 where
  pub first : ℕ
  pub second : ℕ

-- The allocator after its first look at the clock.
unfoldable pub advance_physical : Timestamp → ℕ → Timestamp
advance_physical t now = if ltb t.physical now then record { physical = now; logical = 0 } else t

-- Past 18 bits the logical part starts again in the next millisecond.
unfoldable pub next_physical : ℕ → ℕ → ℕ
next_physical physical now = if leb (physical + 1) now then now else physical + 1

-- The allocator after it has counted on; the second reading of the clock is only used past the 18 bits.
unfoldable pub advance_logical : ℕ → ℕ → ℕ → ℕ → Timestamp
advance_logical physical logical count now =
    if leb max_logical (logical + count)
    then record { physical = next_physical physical now; logical = count }
    else record { physical = physical; logical = logical + count }

-- `Allocate`; `none` is its error for a count that is not positive.
unfoldable pub allocate : TsoAllocator → ℕ → Clock → Option (TsoAllocator × Timestamp)
allocate a count clock =
    let t = advance_physical a.at clock.first in
    let t' = advance_logical t.physical t.logical count clock.second in
    if count == 0 then none else some (record { at = t' }, t')

pub record TsoBuffer : Type 0 where
  pub physical : ℕ
  pub logical : ℕ
  pub remain : ℕ

unfoldable pub reset : TsoBuffer
reset = record { physical = 0; logical = 0; remain = 0 }

-- What becomes of a proposal: it is applied and answered; or `ProposeAndWait` fails, whether it is
-- applied or not.
pub data Proposal : Type 0 where
  answered unanswered : Clock → Proposal
  lost : Proposal

-- The part of `refill` behind the proposal. The timestamp is the answer of `Allocate` for the batch, so
-- that its logical part is not smaller than the batch.
unfoldable pub refill : Timestamp → ℕ → TsoBuffer
refill ts batch_size = record {
  physical = ts.physical;
  logical = ts.logical - batch_size;
  remain = batch_size;
}

pub record Pd : Type 0 where
  pub allocator : TsoAllocator
  pub buffer : TsoBuffer

unfoldable pub serve : Pd → ℕ → Pd × Option Timestamp
serve pd count =
    let b = pd.buffer in
    let logical = b.logical + count in
    (
      record pd {
        buffer = record { physical = b.physical; logical = logical; remain = b.remain - count };
      },
      some (record { physical = b.physical; logical = logical }),
    )

abbrev pub granted : Pd → ℕ → ℕ → Option (TsoAllocator × Timestamp) → Pd × Option Timestamp
granted pd batch_size count none = (pd, none)
granted pd batch_size count (some (a, ts)) =
    serve (record { allocator = a; buffer = refill ts batch_size }) count

abbrev pub unnoticed : Pd → Option (TsoAllocator × Timestamp) → Pd
unnoticed pd none = pd
unnoticed pd (some (a, ts)) = record pd { allocator = a }

unfoldable pub propose : Pd → ℕ → ℕ → Proposal → Pd × Option Timestamp
propose pd batch_size count (answered clock) =
    granted pd batch_size count (allocate pd.allocator batch_size clock)
propose pd batch_size count (unanswered clock) =
    (unnoticed pd (allocate pd.allocator batch_size clock), none)
propose pd batch_size count lost = (pd, none)

abbrev pub at_least_one : ℕ → ℕ
at_least_one count = if count == 0 then 1 else count

-- `GetTS`; `none` is an error.
unfoldable pub get_ts : Pd → ℕ → Proposal → Pd × Option Timestamp
get_ts pd count proposal =
    let n = at_least_one count in
    let batch_size = if ltb tso_batch_size n then n else tso_batch_size in
    if ltb pd.buffer.remain n then propose pd batch_size n proposal else serve pd n
