-- ===== src/Pd/Ids.antt =====
-- internal/pd/server.go, apply.go and id_buffer.go: the allocation of ids. The allocator is part of the
-- replicated state; the buffer hands out a range of ids that a proposal was granted. A batch is an int
-- that is positive or 0 here, and the last id is sent as eight bytes, which are read back unchanged.
pub mod Batch
pub mod Runs
use gookv.Prelude.{ℕ, zero, suc, ◌+◌, ◌-◌, ◌%◌, Option, none, some, leb, if◌then◌else◌}
use gookv.Codec.Number.{u64_mod}

abbrev pub id_batch_size : ℕ
id_batch_size = 100

pub record IdAllocator : Type 0 where
  pub next_id : ℕ

unfoldable pub new_id_allocator : IdAllocator
new_id_allocator = record { next_id = 1000 }

-- `IDAllocator.Alloc`.
unfoldable pub alloc : IdAllocator → IdAllocator × ℕ
alloc a = (record { next_id = (a.next_id + 1) % u64_mod }, a.next_id)

-- The loop of `CmdIDAlloc`, with the id of its last round.
unfoldable pub alloc_loop : ℕ → IdAllocator → ℕ → IdAllocator × ℕ
alloc_loop zero a id = (a, id)
alloc_loop (suc n) a id = let next = alloc a in alloc_loop n next.0 next.1

abbrev pub at_least_one : ℕ → ℕ
at_least_one zero = 1
at_least_one (suc n) = suc n

-- `CmdIDAlloc` of `applyCommand`.
unfoldable pub alloc_batch : IdAllocator → ℕ → IdAllocator × ℕ
alloc_batch a batch_size = alloc_loop (at_least_one batch_size) a 0

pub record IdBuffer : Type 0 where
  pub next_id : ℕ
  pub end_id : ℕ

unfoldable pub reset : IdBuffer
reset = record { next_id = 0; end_id = 0 }

-- What becomes of a proposal: it is applied and answered; or it fails, whether it is applied or not.
pub data Proposal : Type 0 where
  answered unanswered lost : Proposal

-- The part of `refill` behind the proposal.
unfoldable pub refill : ℕ → IdBuffer
refill last_id = record {
  next_id = (last_id + (u64_mod - id_batch_size) + 1) % u64_mod;
  end_id = (last_id + 1) % u64_mod;
}

pub record Pd : Type 0 where
  pub allocator : IdAllocator
  pub buffer : IdBuffer

unfoldable pub serve : Pd → Pd × Option ℕ
serve pd =
    let b = pd.buffer in
    (
      record pd { buffer = record { next_id = (b.next_id + 1) % u64_mod; end_id = b.end_id } },
      some b.next_id,
    )

unfoldable pub propose : Pd → Proposal → Pd × Option ℕ
propose pd answered =
    let (a, last_id) = alloc_batch pd.allocator id_batch_size in
    serve (record { allocator = a; buffer = refill last_id })
propose pd unanswered = (record pd { allocator = (alloc_batch pd.allocator id_batch_size).0 }, none)
propose pd lost = (pd, none)

-- `IDBuffer.Alloc`; `none` is an error.
unfoldable pub take_id : Pd → Proposal → Pd × Option ℕ
take_id pd proposal =
    if leb pd.buffer.end_id pd.buffer.next_id then propose pd proposal else serve pd
