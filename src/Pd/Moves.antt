-- ===== src/Pd/Moves.antt =====
-- internal/pd/move_tracker.go: the moves of a region's peer from one store to another. The tracker is
-- advanced by region heartbeats; its two maps are association lists, and times are numbers.
pub mod Runs
use gookv.Prelude.{
  ℕ, ◌+◌, ◌-◌, Option, none, some, List, [], ◌∷◌, leb, ltb, ◌==◌, if◌then◌else◌, Bool, true, false,
  not, ◌&&◌, length,
}
use gookv.Pd.Maps.{lookup, put, erase, keep, count}

abbrev pub stabilize_heartbeats : ℕ
stabilize_heartbeats = 3

abbrev pub move_cooldown_heartbeats : ℕ
move_cooldown_heartbeats = 10

-- `metapb.Peer` and `metapb.Region`, as far as the tracker reads them.
pub record Peer : Type 0 where
  pub id : ℕ
  pub store_id : ℕ

pub record Region : Type 0 where
  pub peers : List Peer

pub data ConfChangeType : Type 0 where
  add_node remove_node : ConfChangeType

pub record ChangePeer : Type 0 where
  pub peer : Option Peer
  pub change_type : ConfChangeType

-- The commands of the tracker, which never merges or splits.
pub record ScheduleCommand : Type 0 where
  pub region_id : ℕ
  pub change_peer : Option ChangePeer
  pub transfer_leader : Option Peer

pub data MoveState : Type 0 where
  adding stabilizing transferring removing : MoveState

pub record PendingMove : Type 0 where
  pub region_id : ℕ
  pub source_peer : Option Peer
  pub target_store_id : ℕ
  pub target_peer_id : ℕ
  pub state : MoveState
  pub started_at : ℕ
  pub stabilize_count : ℕ

pub record MoveCooldown : Type 0 where
  pub completed_at : ℕ
  pub cooldown_expiry : ℕ

pub record MoveTracker : Type 0 where
  pub moves : List (ℕ × PendingMove)
  pub cooldowns : List (ℕ × MoveCooldown)
  pub heartbeat_count : ℕ

unfoldable pub new_move_tracker : MoveTracker
new_move_tracker = record { moves = []; cooldowns = []; heartbeat_count = 0 }

-- `GetStoreId`, which a missing peer answers with 0.
abbrev pub store_of : Option Peer → ℕ
store_of none = 0
store_of (some p) = p.store_id

unfoldable pub has_peer : List Peer → ℕ → Bool
has_peer [] store_id = false
has_peer (p ∷ peers) store_id = if p.store_id == store_id then true else has_peer peers store_id

unfoldable pub has_peer_on_store : Region → ℕ → Bool
has_peer_on_store region store_id = has_peer region.peers store_id

unfoldable pub peer_outside : List Peer → ℕ → ℕ → Option Peer
peer_outside [] exclude_store1 exclude_store2 = none
peer_outside (p ∷ peers) exclude_store1 exclude_store2 =
    if not (p.store_id == exclude_store1) && not (p.store_id == exclude_store2)
    then some p
    else peer_outside peers exclude_store1 exclude_store2

unfoldable pub pick_transfer_target : Region → ℕ → ℕ → Option Peer
pick_transfer_target region exclude_store1 exclude_store2 =
    peer_outside region.peers exclude_store1 exclude_store2

-- The id that `Advance` records for the target: that of the first peer on the store.
unfoldable pub peer_id_on : List Peer → ℕ → ℕ → ℕ
peer_id_on [] store_id old = old
peer_id_on (p ∷ peers) store_id old =
    if p.store_id == store_id then p.id else peer_id_on peers store_id old

unfoldable pub start_move : MoveTracker → ℕ → Option Peer → ℕ → ℕ → MoveTracker
start_move t region_id source_peer target_store_id now =
    let m : PendingMove = record {
      region_id = region_id;
      source_peer = source_peer;
      target_store_id = target_store_id;
      target_peer_id = 0;
      state = adding;
      started_at = now;
      stabilize_count = 0;
    } in
    record t { moves = put region_id m t.moves }

abbrev pub in_cooldown : ℕ → MoveCooldown → Bool
in_cooldown heartbeat_count cd = ltb heartbeat_count cd.cooldown_expiry

abbrev pub cooling : MoveTracker → ℕ → Option MoveCooldown → MoveTracker × Bool
cooling t region_id none = (t, false)
cooling t region_id (some cd) =
    if in_cooldown t.heartbeat_count cd
    then (t, true)
    else (record t { cooldowns = erase region_id t.cooldowns }, false)

abbrev pub pending : MoveTracker → ℕ → Option PendingMove → MoveTracker × Bool
pending t region_id none = cooling t region_id (lookup region_id t.cooldowns)
pending t region_id (some m) = (t, true)

-- `HasPendingMove`, which forgets a cooldown that has passed.
unfoldable pub has_pending_move : MoveTracker → ℕ → MoveTracker × Bool
has_pending_move t region_id = pending t region_id (lookup region_id t.moves)

unfoldable pub active_move_count : MoveTracker → ℕ
active_move_count t = length t.moves + count (in_cooldown t.heartbeat_count) t.cooldowns

unfoldable pub cleanup_stale : MoveTracker → ℕ → ℕ → MoveTracker
cleanup_stale t timeout now = record t {
  moves = keep (λ m. not (ltb timeout (now - m.started_at))) t.moves;
}

abbrev pub remove_source : ℕ → PendingMove → ScheduleCommand
remove_source region_id m = record {
  region_id = region_id;
  change_peer = some (record { peer = m.source_peer; change_type = remove_node });
  transfer_leader = none;
}

abbrev pub transfer_to : ℕ → Peer → ScheduleCommand
transfer_to region_id p = record {
  region_id = region_id;
  change_peer = none;
  transfer_leader = some p;
}

-- What a heartbeat makes of a move: it goes on, with a command or without one, or is complete.
pub data Progress : Type 0 where
  going_on : PendingMove → Option ScheduleCommand → Progress
  complete : Progress

abbrev pub leads_from : Option Peer → ℕ → Bool
leads_from none store_id = false
leads_from (some leader) store_id = leader.store_id == store_id

abbrev pub leads_elsewhere : Option Peer → ℕ → Bool
leads_elsewhere none store_id = false
leads_elsewhere (some leader) store_id = not (leader.store_id == store_id)

abbrev pub begin_transfer : ℕ → PendingMove → Option Peer → Progress
begin_transfer region_id m none =
    going_on (record m { state = removing }) (some (remove_source region_id m))
begin_transfer region_id m (some p) =
    going_on (record m { state = transferring }) (some (transfer_to region_id p))

abbrev pub retry_transfer : ℕ → PendingMove → Option Peer → Progress
retry_transfer region_id m none = going_on m none
retry_transfer region_id m (some p) = going_on m (some (transfer_to region_id p))

unfoldable pub stabilized : ℕ → PendingMove → Region → Option Peer → Progress
stabilized region_id m region leader =
    if leads_from leader (store_of m.source_peer)
    then begin_transfer region_id m (pick_transfer_target region (store_of m.source_peer) 0)
    else going_on (record m { state = removing }) (some (remove_source region_id m))

-- The cases of `Advance`, by the state of the move.
unfoldable pub advance_in : MoveState → ℕ → PendingMove → Region → Option Peer → Progress
advance_in adding region_id m region leader =
    if has_peer_on_store region m.target_store_id
    then going_on
        (record m {
          target_peer_id = peer_id_on region.peers m.target_store_id m.target_peer_id;
          state = stabilizing;
          stabilize_count = 0;
        })
        none
    else going_on m none
advance_in stabilizing region_id m region leader =
    let m' : PendingMove = record m { stabilize_count = m.stabilize_count + 1 } in
    if ltb (m.stabilize_count + 1) stabilize_heartbeats
    then going_on m' none
    else stabilized region_id m' region leader
advance_in transferring region_id m region leader =
    if leads_elsewhere leader (store_of m.source_peer)
    then going_on (record m { state = removing }) (some (remove_source region_id m))
    else retry_transfer region_id m (pick_transfer_target region (store_of m.source_peer) 0)
advance_in removing region_id m region leader =
    if has_peer_on_store region (store_of m.source_peer)
    then going_on m (some (remove_source region_id m))
    else complete

unfoldable pub progressed : MoveTracker → ℕ → Progress → MoveTracker × Option ScheduleCommand
progressed t region_id (going_on m command) =
    (record t { moves = put region_id m t.moves }, command)
progressed t region_id complete =
    let cd : MoveCooldown = record {
      completed_at = t.heartbeat_count;
      cooldown_expiry = t.heartbeat_count + move_cooldown_heartbeats;
    } in
    (record t { moves = erase region_id t.moves; cooldowns = put region_id cd t.cooldowns }, none)

abbrev pub advanced :
    MoveTracker
    → ℕ
    → Option PendingMove
    → Region
    → Option Peer
    → MoveTracker × Option ScheduleCommand
advanced t region_id none region leader = (t, none)
advanced t region_id (some m) region leader =
    progressed t region_id (advance_in m.state region_id m region leader)

-- `Advance`; the counter is one for all regions.
unfoldable pub advance :
    MoveTracker → ℕ → Option Region → Option Peer → MoveTracker × Option ScheduleCommand
advance t region_id none leader = (t, none)
advance t region_id (some region) leader =
    advanced (record t { heartbeat_count = t.heartbeat_count + 1 }) region_id
      (lookup region_id t.moves) region leader
