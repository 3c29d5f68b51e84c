-- ===== src/Pd/Moves/Runs/Cooldown.antt =====
-- How long a region rests after a move of internal/pd/move_tracker.go.
use gookv.Prelude.{
  ℕ, ◌+◌, ◌≡◌, ◌≢◌, refl, false, Option, none, some, List, [], ◌∷◌, ltb, ◌==◌, arith, ◌⊎◌, inl, inr,
  Bool-cases, ap, length, ==_iff, ◌∙◌,
}
use gookv.Pd.Moves.{
  Peer, Region, removing, PendingMove, MoveCooldown, MoveTracker, store_of, has_peer_on_store,
  has_pending_move, going_on, complete, advance_in, progressed, advanced, advance,
  move_cooldown_heartbeats,
}
use gookv.Pd.Maps.{
  not_equal, lookup, lookup-put, lookup-erase, lookup-put_other, lookup-erase_other,
}
use gookv.Pd.Moves.Runs.{Heartbeat, heard}

-- What a heartbeat leaves of a region without a move: its cooldown.
advanced-resting :
    (t : MoveTracker) (key i : ℕ) (o : Option PendingMove) (r : Region) (leader : Option Peer)
    → (o ≡ none) ⊎ (key ≢ i)
    → lookup key t.moves ≡ none
    → (lookup key (advanced t i o r leader).0.moves ≡ none)
      × (lookup key (advanced t i o r leader).0.cooldowns ≡ lookup key t.cooldowns)
      × ((advanced t i o r leader).0.heartbeat_count ≡ t.heartbeat_count)
unfolding progressed
advanced-resting t key i none r leader p e = (e, refl, refl)
advanced-resting t key i (some m) r leader (inl p) e = ground arith
advanced-resting t key i (some m) r leader (inr p) e =
    elim (advance_in m.state i m r leader)
      as (λ x.
        (lookup key (progressed t i x).0.moves ≡ none)
        × (lookup key (progressed t i x).0.cooldowns ≡ lookup key t.cooldowns)
        × ((progressed t i x).0.heartbeat_count ≡ t.heartbeat_count)) [
          | going_on m' command ↦ (lookup-put_other key i m' t.moves p ∙ e, refl, refl)
          | complete ↦
              (lookup-erase_other key i t.moves p ∙ e, lookup-put_other key i _ t.cooldowns p, refl)
        ]

advance-resting :
    (t : MoveTracker) (key : ℕ) (h : Heartbeat)
    → lookup key t.moves ≡ none
    → (lookup key (advance t h.region_id (some h.region) h.leader).0.moves ≡ none)
      × (lookup key (advance t h.region_id (some h.region) h.leader).0.cooldowns
          ≡ lookup key t.cooldowns)
      × ((advance t h.region_id (some h.region) h.leader).0.heartbeat_count ≡ t.heartbeat_count + 1)
unfolding advance
advance-resting t key h e =
    advanced-resting (record t { heartbeat_count = t.heartbeat_count + 1 }) key h.region_id
      (lookup h.region_id t.moves) h.region h.leader
      (elim (Bool-cases (h.region_id == key)) [
        | inl f ↦ inl (ap (λ i. lookup i t.moves) ((==_iff h.region_id key).0 f) ∙ e)
        | inr f ↦ inr (not_equal h.region_id key f)
      ])
      e

heard-resting :
    (t : MoveTracker) (key : ℕ) (hs : List Heartbeat)
    → lookup key t.moves ≡ none
    → (lookup key (heard t hs).moves ≡ none)
      × (lookup key (heard t hs).cooldowns ≡ lookup key t.cooldowns)
      × ((heard t hs).heartbeat_count ≡ t.heartbeat_count + length hs)
unfolding heard
heard-resting t key [] e = (e, refl, omega arith)
heard-resting t key (h ∷ rest) e =
    let (a, b, c) = advance-resting t key h e in
    let (a', b', c') =
      heard-resting (advance t h.region_id (some h.region) h.leader).0 key rest a in
    (a', b' ∙ b, omega arith)

has_pending_move-cooling :
    (t : MoveTracker) (key : ℕ) (cd : MoveCooldown)
    → lookup key t.moves ≡ none
    → lookup key t.cooldowns ≡ some cd
    → (has_pending_move t key).1 ≡ ltb t.heartbeat_count cd.cooldown_expiry
unfolding has_pending_move
has_pending_move-cooling t key cd e f = rw (e, f) (ground arith)

ltb-ahead : (a b m n : ℕ) → a ≡ b + m → ltb a (b + n) ≡ ltb m n
ltb-ahead a b m n e = ground arith

advance-complete :
    (t : MoveTracker) (key : ℕ) (m : PendingMove) (r : Region) (leader : Option Peer)
    → lookup key t.moves ≡ some m
    → advance_in m.state key m r leader ≡ complete
    → advance t key (some r) leader
      ≡ progressed (record t { heartbeat_count = t.heartbeat_count + 1 }) key complete
unfolding advance
advance-complete t key m r leader e f = rw (e, f) refl

removing_ends :
    (key : ℕ) (m : PendingMove) (r : Region) (leader : Option Peer)
    → has_peer_on_store r (store_of m.source_peer) ≡ false
    → advance_in removing key m r leader ≡ complete
unfolding advance_in
removing_ends key m r leader e = rw e refl

-- A move that removes its source is complete with the first heartbeat of its region that shows no peer on
-- the source store: it asks for nothing, and the region then rests, which means that it counts as moving,
-- for exactly the next ten heartbeats, of whichever regions they are.
pub cooldown_lasts :
    (t : MoveTracker) (key : ℕ) (m : PendingMove) (r : Region) (leader : Option Peer)
    (hs : List Heartbeat)
    → lookup key t.moves ≡ some m
    → m.state ≡ removing
    → has_peer_on_store r (store_of m.source_peer) ≡ false
    → ((advance t key (some r) leader).1 ≡ none)
      × ((has_pending_move (heard (advance t key (some r) leader).0 hs) key).1
          ≡ ltb (length hs) move_cooldown_heartbeats)
unfolding progressed
cooldown_lasts t key m r leader hs e s p =
    let f =
      advance-complete t key m r leader e
        (ap (λ x. advance_in x key m r leader) s ∙ removing_ends key m r leader p) in
    let t' = (progressed (record t { heartbeat_count = t.heartbeat_count + 1 }) key complete).0 in
    let (a, b, c) = heard-resting t' key hs (lookup-erase key t.moves) in
    (
      ap (λ x. x.1) f,
      ap (λ x. (has_pending_move (heard x.0 hs) key).1) f
          ∙ (has_pending_move-cooling (heard t' hs) key _ a (b ∙ lookup-put key _ t.cooldowns)
              ∙ ltb-ahead _ _ (length hs) move_cooldown_heartbeats c),
    )
