-- ===== src/Examples/Latches.antt =====
-- Two commands on the same slots.
use gookv.Prelude.{◌≡◌, refl, false, [], ◌∷◌, take, ◌==◌, arith, if◌then◌else◌, inl}
use gookv.Latch.{Slots, Latches, Lock, gen_lock, acquire, acquire_loop, set_slot, release}
use gookv.Latch.Exclusion.{OwnsExactly, acquire_is_exclusive}
use gookv.Latch.Releasing.{release_frees_all}
use gookv.Latch.Steps.{State, Reachable, idle, set_lock, generate, acquire_call, start, next}
use gookv.Latch.Deadlock.{Waits, no_deadlock}

-- Command 1 owns slot 3, command 2 owns slot 5, and all others are free.
abbrev slots : Slots
slots h =
    if h == 3
    then record { owner = 1; wait_queue = [] }
    else if h == 5
    then record { owner = 2; wait_queue = [] }
    else record { owner = 0; wait_queue = [] }

abbrev lock : Lock
lock = record { required_hashes = 3 ∷ 4 ∷ 5 ∷ []; owned_count = 1 }

one_owns : OwnsExactly slots 1 (3 ∷ [])
one_owns = record { owned = (refl, tt); only = λ h e. inl (ground (arith, e)) }

two_owns : OwnsExactly slots 2 (5 ∷ [])
two_owns = record { owned = (refl, tt); only = λ h e. inl (ground (arith, e)) }

-- It takes slot 4 and stops at slot 5.
acquire_stops : (acquire slots lock 1).2 ≡ false
unfolding acquire acquire_loop set_slot
acquire_stops = refl

acquire_is_exclusive_example :
    OwnsExactly
      (acquire slots lock 1).0
      1
      (take (acquire slots lock 1).1.owned_count (3 ∷ 4 ∷ 5 ∷ []))
    × ((acquire slots lock 1).2 ≡ ((acquire slots lock 1).1.owned_count == 3))
    × OwnsExactly (acquire slots lock 1).0 2 (5 ∷ [])
acquire_is_exclusive_example =
    acquire_is_exclusive slots lock 1 2 (5 ∷ []) (omega arith) one_owns (omega arith) (omega arith)
      two_owns

release_frees_all_example :
    OwnsExactly (release slots lock 1).0 1 []
    × ((release slots lock 1).1.owned_count ≡ 0)
    × OwnsExactly (release slots lock 1).0 2 (5 ∷ [])
release_frees_all_example =
    release_frees_all slots lock 1 2 (5 ∷ []) (omega arith) one_owns (omega arith) (omega arith)
      two_owns

abbrev latches : Latches
latches = record { slots = slots; size = 4 }

abbrev requested : State
requested = record idle {
  locks = set_lock idle.locks 1 (gen_lock latches ((1 ∷ []) ∷ (2 ∷ []) ∷ []));
}

abbrev acquired : State
acquired = record {
  slots = (acquire requested.slots (requested.locks 1) 1).0;
  locks = set_lock requested.locks 1 (acquire requested.slots (requested.locks 1) 1).1;
}

acquired-Reachable : Reachable acquired
acquired-Reachable =
    next (next start (generate latches ((1 ∷ []) ∷ (2 ∷ []) ∷ []) 1 refl))
      (acquire_call 1 (omega arith))

no_deadlock_example : ¬ Waits acquired 1 1
no_deadlock_example = no_deadlock acquired 1 acquired-Reachable
