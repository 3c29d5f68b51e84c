-- ===== src/Examples/Managers.antt =====
-- The concurrency manager with two calls at once.
use gookv.Prelude.{ℕ, ◌≡◌, List, [], ◌∷◌, All, map}
use gookv.Txn.Concurrency.{loading, swapping, step, step_at, interleave}
use gookv.Txn.Concurrency.MaxTs.{IsReturned, updated, update_max_ts_is_atomic, alone-returns}

-- Both load 3; the second swaps first, so that the first has to load again.
abbrev schedule : List ℕ
schedule = 0 ∷ 1 ∷ 1 ∷ 0 ∷ 0 ∷ []

update_max_ts_is_atomic_example :
    (interleave 3 (map loading (5 ∷ 9 ∷ [])) schedule).0 ≡ updated 3 (5 ∷ 9 ∷ [])
unfolding interleave step_at step IsReturned
update_max_ts_is_atomic_example = update_max_ts_is_atomic 3 (5 ∷ 9 ∷ []) schedule (tt, (tt, tt))

alone-returns_example : All IsReturned (interleave 4 (swapping 5 3 ∷ []) (0 ∷ 0 ∷ 0 ∷ [])).1
alone-returns_example = alone-returns 4 (swapping 5 3)
