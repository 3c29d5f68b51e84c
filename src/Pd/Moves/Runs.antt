-- ===== src/Pd/Moves/Runs.antt =====
-- Runs of internal/pd/move_tracker.go: the heartbeats of all regions, one after the other.
pub mod Quiet
pub mod Cooldown
use gookv.Prelude.{
  ℕ, ◌+◌, ◌-◌, ◌<◌, ◌≤◌, ◌≡◌, ◌≢◌, refl, Bool, true, false, Option, none, some, List, [], ◌∷◌, leb,
  ltb, ◌==◌, if◌then◌else◌, arith, inl, inr, Bool-cases, ap, length, ==_iff, sym, ◌∙◌,
}
use gookv.Pd.Moves.{
  Peer, Region, ScheduleCommand, MoveState, adding, stabilizing, transferring, removing,
  PendingMove, MoveCooldown, MoveTracker, store_of, has_peer_on_store, start_move, has_pending_move,
  Progress, going_on, complete, advance_in, progressed, advanced, advance, stabilize_heartbeats,
  move_cooldown_heartbeats, cooling, pending,
}
use gookv.Pd.Maps.{
  lookup, put, erase, lookup-put, lookup-erase, lookup-put_other, lookup-erase_other,
}

-- A region's heartbeat.
pub record Heartbeat : Type 0 where
  pub region_id : ℕ
  pub region : Region
  pub leader : Option Peer

abbrev pub note : Option ScheduleCommand → List ScheduleCommand → List ScheduleCommand
note none rest = rest
note (some command) rest = command ∷ rest

unfoldable pub heard : MoveTracker → List Heartbeat → MoveTracker
heard t [] = t
heard t (h ∷ rest) = heard (advance t h.region_id (some h.region) h.leader).0 rest

-- The commands for one region in a run of heartbeats.
unfoldable pub commands : ℕ → MoveTracker → List Heartbeat → List ScheduleCommand
commands region_id t [] = []
commands region_id t (h ∷ rest) =
    let next = advance t h.region_id (some h.region) h.leader in
    let more = commands region_id next.0 rest in
    if h.region_id == region_id then note next.1 more else more

-- How many heartbeats a region sends.
unfoldable pub beats : ℕ → List Heartbeat → ℕ
beats region_id [] = 0
beats region_id (h ∷ rest) =
    let more = beats region_id rest in if h.region_id == region_id then more + 1 else more

-- How many it sends from the first on that shows a peer on a store.
unfoldable pub beats_with : ℕ → ℕ → List Heartbeat → ℕ
beats_with region_id store_id [] = 0
beats_with region_id store_id (h ∷ rest) =
    let more = beats_with region_id store_id rest in
    let counted = beats region_id rest in
    if h.region_id == region_id
    then if has_peer_on_store h.region store_id then counted + 1 else more
    else more

-- A heartbeat of another region leaves a region's move as it is.
advanced-other :
    (t : MoveTracker) (key other : ℕ) (o : Option PendingMove) (r : Region) (leader : Option Peer)
    → key ≢ other
    → lookup key (advanced t other o r leader).0.moves ≡ lookup key t.moves
unfolding progressed
advanced-other t key other none r leader p = refl
advanced-other t key other (some m) r leader p =
    elim (advance_in m.state other m r leader)
      as (λ x. lookup key (progressed t other x).0.moves ≡ lookup key t.moves) [
        | going_on m' command ↦ lookup-put_other key other m' t.moves p
        | complete ↦ lookup-erase_other key other t.moves p
      ]

pub advance-other :
    (t : MoveTracker) (key : ℕ) (h : Heartbeat)
    → key ≢ h.region_id
    → lookup key (advance t h.region_id (some h.region) h.leader).0.moves ≡ lookup key t.moves
unfolding advance
advance-other t key h p =
    advanced-other (record t { heartbeat_count = t.heartbeat_count + 1 }) key h.region_id
      (lookup h.region_id t.moves) h.region h.leader p

-- A heartbeat of the region itself goes on with its move.
pub advance-going_on :
    (t : MoveTracker) (key i : ℕ) (m m' : PendingMove) (c : Option ScheduleCommand) (r : Region)
    (leader : Option Peer)
    → i ≡ key
    → lookup key t.moves ≡ some m
    → advance_in m.state key m r leader ≡ going_on m' c
    → ((advance t i (some r) leader).1 ≡ c)
      × (lookup key (advance t i (some r) leader).0.moves ≡ some m')
unfolding advance progressed
advance-going_on t key i m m' c r leader p e f = rw (p, e, f) (refl, lookup-put key m' t.moves)

pub adding_waits :
    (key : ℕ) (m : PendingMove) (r : Region) (leader : Option Peer)
    → has_peer_on_store r m.target_store_id ≡ false
    → advance_in adding key m r leader ≡ going_on m none
unfolding advance_in
adding_waits key m r leader e = rw e refl

pub adding_ends :
    (key : ℕ) (m : PendingMove) (r : Region) (leader : Option Peer)
    → has_peer_on_store r m.target_store_id ≡ true
    → (m' : PendingMove) × (advance_in adding key m r leader ≡ going_on m' none)
      × (m'.state ≡ stabilizing)
      × (m'.stabilize_count ≡ 0)
unfolding advance_in
adding_ends key m r leader e = rw e (_, refl, refl, refl)

pub stabilizing_waits :
    (key : ℕ) (m : PendingMove) (r : Region) (leader : Option Peer)
    → m.stabilize_count + 1 < stabilize_heartbeats
    → advance_in stabilizing key m r leader
      ≡ going_on (record m { stabilize_count = m.stabilize_count + 1 }) none
unfolding advance_in
stabilizing_waits key m r leader p = ground arith
