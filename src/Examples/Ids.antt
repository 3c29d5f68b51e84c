-- ===== src/Examples/Ids.antt =====
-- Ids of the placement driver.
use gookv.Prelude.{List, [], ◌∷◌, inl, arith}
use gookv.Pd.Ids.{Pd, answered, unanswered, lost, reset, new_id_allocator}
use gookv.Pd.Ids.Runs.{
  Event, ask, leader_change, elsewhere, run, Ascending, Free, taken, taken_all, run_ascends,
}

abbrev new_pd : Pd
new_pd = record { allocator = new_id_allocator; buffer = reset }

abbrev events : List Event
events =
    ask answered
    ∷ ask lost
    ∷ leader_change
    ∷ elsewhere 3
    ∷ ask unanswered
    ∷ ask answered
    ∷ ask answered
    ∷ []

run_ascends_example : Ascending 1000 (run new_pd events)
unfolding new_id_allocator taken_all taken reset Free
run_ascends_example = run_ascends 1000 new_pd events (omega arith, inl (omega arith)) (omega arith)
