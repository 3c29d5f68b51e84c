-- ===== src/Latch/Steps.antt =====
-- The calls on the latches as steps, and what holds in every state that they reach.
use gookv.Prelude.{
  ℕ, ◌≤◌, ◌≡◌, ◌≢◌, sym, List, [], take, length, ◌==◌, if◌then◌else◌, arith, Bool-cases, inl, inr,
}
use gookv.Latch.{Slots, Latches, Lock, gen_lock, acquire, release}
use gookv.Latch.Order.{IsAscending, gen_lock-IsAscending}
use gookv.Latch.Exclusion.{OwnsExactly, acquire-owns, acquire-keeps}
use gookv.Latch.Releasing.{release-owns, release-keeps}

-- The slots and the progress of every command.
pub record State : Type 0 where
  pub slots : Slots
  pub locks : ℕ → Lock

unfoldable pub set_lock : (ℕ → Lock) → ℕ → Lock → ℕ → Lock
set_lock locks id lock c = if id == c then lock else locks c

-- One call of the scheduler: a command that owns nothing gets a new lock, tries to acquire what it
-- misses, or releases what it has.
pub data Step : State → State → Type 0 where
  generate :
      {s : State} (l : Latches) (keys : List (List ℕ)) (id : ℕ)
      → (s.locks id).owned_count ≡ 0
      → Step s (record s { locks = set_lock s.locks id (gen_lock l keys) })
  acquire_call :
      {s : State} (id : ℕ)
      → id ≢ 0
      → Step s (record {
        slots = (acquire s.slots (s.locks id) id).0;
        locks = set_lock s.locks id (acquire s.slots (s.locks id) id).1;
      })
  release_call :
      {s : State} (id : ℕ)
      → id ≢ 0
      → Step s (record {
        slots = (release s.slots (s.locks id) id).0;
        locks = set_lock s.locks id (release s.slots (s.locks id) id).1;
      })

-- From free slots and empty locks on.
abbrev pub idle : State
idle = record {
  slots = λ i. record { owner = 0; wait_queue = [] };
  locks = λ c. record { required_hashes = []; owned_count = 0 };
}

pub data Reachable : State → Type 0 where
  start : Reachable idle
  next : {s t : State} → Reachable s → Step s t → Reachable t

-- Every command requires its slots in ascending order and owns exactly those it has counted.
pub record IsConsistent (s : State) : Type 0 where
  pub ascending : (c : ℕ) → IsAscending (s.locks c).required_hashes
  pub fits : (c : ℕ) → (s.locks c).owned_count ≤ length (s.locks c).required_hashes
  pub owns :
      (c : ℕ)
      → c ≢ 0
      → OwnsExactly s.slots c (take (s.locks c).owned_count (s.locks c).required_hashes)

-- What a step leaves of the invariant where it changes the lock of one command.
set_lock-IsConsistent :
    (s : State) (slots : Slots) (id : ℕ) (lock : Lock)
    → IsConsistent s
    → IsAscending lock.required_hashes
    → lock.owned_count ≤ length lock.required_hashes
    → (id ≢ 0 → OwnsExactly slots id (take lock.owned_count lock.required_hashes))
    → ((c : ℕ)
        → c ≢ 0
        → c ≢ id
        → OwnsExactly slots c (take (s.locks c).owned_count (s.locks c).required_hashes))
    → IsConsistent (record { slots = slots; locks = set_lock s.locks id lock })
unfolding set_lock
set_lock-IsConsistent s slots id lock i a f own others = record {
  ascending = λ c. elim (Bool-cases (id == c)) [
    | inl same ↦ rw same a
    | inr other ↦ rw other (i.ascending c)
  ];
  fits =
      λ c. elim (Bool-cases (id == c)) [ inl same ↦ rw same f | inr other ↦ rw other (i.fits c) ];
  owns = λ c z. elim (Bool-cases (id == c)) [
    | inl same ↦
        let eq : id ≡ c = ground (arith, same) in rw (same, ← eq) (own (ground (arith, z, eq)))
    | inr other ↦ rw other (others c z (ground (arith, other)))
  ];
}

idle-IsConsistent : IsConsistent idle
idle-IsConsistent = record {
  ascending = λ c. tt;
  fits = λ c. omega arith;
  owns = λ c z. record { owned = tt; only = λ h e. absurd (z (sym e)) };
}

Step-IsConsistent : {s t : State} → IsConsistent s → Step s t → IsConsistent t
unfolding gen_lock acquire release
Step-IsConsistent {s} i (generate l keys id unowned) =
    set_lock-IsConsistent s s.slots id (gen_lock l keys) i (gen_lock-IsAscending l keys)
      (omega arith) (λ z. let o = i.owns id z in rw unowned at o) (λ c z n. i.owns c z)
Step-IsConsistent {s} i (acquire_call id z) =
    let own = acquire-owns s.slots (s.locks id) id (i.fits id) (i.owns id z) in
    set_lock-IsConsistent s (acquire s.slots (s.locks id) id).0 id
      (acquire s.slots (s.locks id) id).1 i (i.ascending id) own.2 (λ _. own.0)
      (λ c y n. acquire-keeps s.slots (s.locks id) id c _ y n (i.owns c y))
Step-IsConsistent {s} i (release_call id z) =
    set_lock-IsConsistent s (release s.slots (s.locks id) id).0 id
      (release s.slots (s.locks id) id).1 i (i.ascending id) (omega arith)
      (λ _. release-owns s.slots (s.locks id) id z (i.owns id z))
      (λ c y n. release-keeps s.slots (s.locks id) id c _ z y n (i.owns c y))

-- In every reachable state every command requires its slots in ascending order and owns exactly the
-- first `owned_count` of them; so no slot is owned by two.
pub Reachable-IsConsistent : {s : State} → Reachable s → IsConsistent s
Reachable-IsConsistent start = idle-IsConsistent
Reachable-IsConsistent (next r step) = Step-IsConsistent (Reachable-IsConsistent r) step
