-- ===== src/Examples/Driver.antt =====
-- The placement driver at work: timestamps, and a move of a peer.
use gookv.Prelude.{All, ℕ, ◌≡◌, refl, none, some, List, [], ◌∷◌, inl, arith, ltb, length}
use gookv.Pd.Tso.{Timestamp, Pd, Clock, answered, unanswered, lost, reset}
use gookv.Pd.Tso.Order.{Precedes-refl}
use gookv.Pd.Tso.Runs.{Event, ask, leader_change, elsewhere, run, Holds}
use gookv.Pd.Tso.Runs.Values.{Ascends, IsSmall, Fits, value, grants_ascend}
use gookv.Pd.Moves.{
  Peer, Region, MoveTracker, PendingMove, removing, new_move_tracker, start_move, has_pending_move,
  advance, move_cooldown_heartbeats, has_peer_on_store, has_peer,
}
use gookv.Pd.Moves.Runs.{Heartbeat, heard, commands, beats_with, beats}
use gookv.Pd.Maps.{lookup}
use gookv.Pd.Moves.Runs.Quiet.{start_move_quiet}
use gookv.Pd.Moves.Runs.Cooldown.{cooldown_lasts}

abbrev at : ℕ → Clock
at now = record { first = now; second = now }

abbrev zero_ts : Timestamp
zero_ts = record { physical = 0; logical = 0 }

abbrev new_pd : Pd
new_pd = record { allocator = record { at = zero_ts }; buffer = reset }

-- The clock goes back, a proposal is lost, another goes unanswered, and the leader changes.
abbrev events : List Event
events =
    ask 600 (answered (at 50))
    ∷ ask 300 lost
    ∷ ask 300 (answered (at 40))
    ∷ leader_change
    ∷ elsewhere 10 (at 30)
    ∷ ask 5 (unanswered (at 30))
    ∷ ask 5 (answered (at 30))
    ∷ []

new_pd-Holds : Holds zero_ts new_pd.allocator new_pd.buffer
unfolding Holds reset
new_pd-Holds = (Precedes-refl zero_ts, inl refl)

new_pd-Fits : Fits new_pd
unfolding Fits reset
new_pd-Fits = (omega arith, omega arith)

events-IsSmall : All IsSmall events
unfolding IsSmall
events-IsSmall = (
  omega arith,
  (omega arith, (omega arith, (tt, (omega arith, (omega arith, (omega arith, tt)))))),
)

grants_ascend_example : Ascends (value zero_ts) (run new_pd events)
grants_ascend_example =
    grants_ascend zero_ts new_pd events new_pd-Holds (omega arith) new_pd-Fits events-IsSmall

abbrev source : Peer
source = record { id = 7; store_id = 1 }

abbrev moving : Region
moving = record { peers = source ∷ record { id = 8; store_id = 2 } ∷ [] }

abbrev moved : Region
moved = record { peers = record { id = 8; store_id = 2 } ∷ [] }

abbrev beat : ℕ → Region → Heartbeat
beat region_id region = record { region_id = region_id; region = region; leader = some source }

abbrev heartbeats : List Heartbeat
heartbeats = beat 3 moving ∷ beat 4 moved ∷ beat 3 moving ∷ beat 3 moving ∷ []

start_move_quiet_example :
    commands 3 (start_move new_move_tracker 3 (some source) 2 100) heartbeats ≡ []
unfolding beats_with has_peer_on_store has_peer beats
start_move_quiet_example =
    start_move_quiet new_move_tracker 3 (some source) 2 100 heartbeats (omega arith)

abbrev last_step : PendingMove
last_step = record {
  region_id = 3;
  source_peer = some source;
  target_store_id = 2;
  target_peer_id = 8;
  state = removing;
  started_at = 100;
  stabilize_count = 3;
}

abbrev tracker : MoveTracker
tracker = record { moves = (3, last_step) ∷ []; cooldowns = []; heartbeat_count = 20 }

cooldown_lasts_example :
    ((advance tracker 3 (some moved) none).1 ≡ none)
    × ((has_pending_move (heard (advance tracker 3 (some moved) none).0 heartbeats) 3).1
        ≡ ltb (length heartbeats) move_cooldown_heartbeats)
unfolding lookup has_peer_on_store has_peer
cooldown_lasts_example = cooldown_lasts tracker 3 last_step moved none heartbeats refl refl refl
