-- ===== src/Pd/Moves/Runs/Quiet.antt =====
-- When a move of internal/pd/move_tracker.go gives its first command.
use gookv.Prelude.{
  ℕ, ◌+◌, ◌<◌, ◌≤◌, ◌≡◌, refl, true, false, Option, none, some, List, [], ◌∷◌, ◌==◌, arith, inl,
  inr, Bool-cases, ap, ==_iff, ◌∙◌,
}
use gookv.Pd.Moves.{
  Peer, adding, stabilizing, PendingMove, MoveTracker, has_peer_on_store, start_move, advance_in,
  advance, stabilize_heartbeats,
}
use gookv.Pd.Maps.{not_equal, lookup, lookup-put}
use gookv.Pd.Moves.Runs.{
  Heartbeat, commands, beats, beats_with, advance-other, advance-going_on, adding_waits,
  adding_ends, stabilizing_waits,
}

-- A region is quiet in a run if its move stays as the first heartbeat leaves it, and that one asks for
-- nothing.
commands-own :
    (t : MoveTracker) (key : ℕ) (h : Heartbeat) (rest : List Heartbeat)
    → (h.region_id == key) ≡ true
    → (advance t h.region_id (some h.region) h.leader).1 ≡ none
    → commands key (advance t h.region_id (some h.region) h.leader).0 rest ≡ []
    → commands key t (h ∷ rest) ≡ []
unfolding commands
commands-own t key h rest e f g = rw (e, f, g) refl

commands-other :
    (t : MoveTracker) (key : ℕ) (h : Heartbeat) (rest : List Heartbeat)
    → (h.region_id == key) ≡ false
    → commands key (advance t h.region_id (some h.region) h.leader).0 rest ≡ []
    → commands key t (h ∷ rest) ≡ []
unfolding commands
commands-other t key h rest e g = rw (e, g) refl

beats-own :
    (key : ℕ) (h : Heartbeat) (rest : List Heartbeat)
    → (h.region_id == key) ≡ true
    → beats key (h ∷ rest) ≡ beats key rest + 1
unfolding beats
beats-own key h rest e = rw e refl

beats-other :
    (key : ℕ) (h : Heartbeat) (rest : List Heartbeat)
    → (h.region_id == key) ≡ false
    → beats key (h ∷ rest) ≡ beats key rest
unfolding beats
beats-other key h rest e = rw e refl

beats_with-own :
    (key store : ℕ) (h : Heartbeat) (rest : List Heartbeat)
    → (h.region_id == key) ≡ true
    → has_peer_on_store h.region store ≡ true
    → beats_with key store (h ∷ rest) ≡ beats key rest + 1
unfolding beats_with
beats_with-own key store h rest e f = rw (e, f) refl

beats_with-own_without :
    (key store : ℕ) (h : Heartbeat) (rest : List Heartbeat)
    → (h.region_id == key) ≡ true
    → has_peer_on_store h.region store ≡ false
    → beats_with key store (h ∷ rest) ≡ beats_with key store rest
unfolding beats_with
beats_with-own_without key store h rest e f = rw (e, f) refl

beats_with-other :
    (key store : ℕ) (h : Heartbeat) (rest : List Heartbeat)
    → (h.region_id == key) ≡ false
    → beats_with key store (h ∷ rest) ≡ beats_with key store rest
unfolding beats_with
beats_with-other key store h rest e = rw e refl

-- A move that has stabilized for a while asks for nothing before the third heartbeat.
stabilizing-quiet :
    (t : MoveTracker) (key : ℕ) (m : PendingMove) (hs : List Heartbeat)
    → lookup key t.moves ≡ some m
    → m.state ≡ stabilizing
    → m.stabilize_count + beats key hs < stabilize_heartbeats
    → commands key t hs ≡ []
unfolding commands
stabilizing-quiet t key m [] e s p = refl
stabilizing-quiet t key m (h ∷ rest) e s p =
    let next = (advance t h.region_id (some h.region) h.leader).0 in
    let m' : PendingMove = record m { stabilize_count = m.stabilize_count + 1 } in
    elim (Bool-cases (h.region_id == key)) [
      | inl f ↦
          let q = beats-own key h rest f in
          let (c, l) =
            advance-going_on t key h.region_id m m' none h.region h.leader
              ((==_iff h.region_id key).0 f) e
              (ap (λ x. advance_in x key m h.region h.leader) s
                ∙ stabilizing_waits key m h.region h.leader (omega arith)) in
          commands-own t key h rest f c (stabilizing-quiet next key m' rest l s (omega arith))
      | inr f ↦
          let q = beats-other key h rest f in
          commands-other t key h rest f (
            stabilizing-quiet next key m rest
              (advance-other t key h (not_equal h.region_id key f) ∙ e) s (omega arith))
    ]

adding-quiet :
    (t : MoveTracker) (key : ℕ) (m : PendingMove) (hs : List Heartbeat)
    → lookup key t.moves ≡ some m
    → m.state ≡ adding
    → beats_with key m.target_store_id hs ≤ stabilize_heartbeats
    → commands key t hs ≡ []
unfolding commands
adding-quiet t key m [] e s p = refl
adding-quiet t key m (h ∷ rest) e s p =
    let store = m.target_store_id in
    let next = (advance t h.region_id (some h.region) h.leader).0 in
    elim (Bool-cases (h.region_id == key)) [
      | inl f ↦ elim (Bool-cases (has_peer_on_store h.region store)) [
        | inl g ↦
            let q = beats_with-own key store h rest f g in
            let (m', step, s', counted) = adding_ends key m h.region h.leader g in
            let (c, l) =
              advance-going_on t key h.region_id m m' none h.region h.leader
                ((==_iff h.region_id key).0 f) e
                (ap (λ x. advance_in x key m h.region h.leader) s ∙ step) in
            commands-own t key h rest f c (stabilizing-quiet next key m' rest l s' (omega arith))
        | inr g ↦
            let q = beats_with-own_without key store h rest f g in
            let (c, l) =
              advance-going_on t key h.region_id m m none h.region h.leader
                ((==_iff h.region_id key).0 f) e
                (ap (λ x. advance_in x key m h.region h.leader) s
                  ∙ adding_waits key m h.region h.leader g) in
            commands-own t key h rest f c (adding-quiet next key m rest l s (omega arith))
      ]
      | inr f ↦
          let q = beats_with-other key store h rest f in
          commands-other t key h rest f (
            adding-quiet next key m rest (advance-other t key h (not_equal h.region_id key f) ∙ e) s
              (omega arith))
    ]

-- After a move has begun, no command goes out for its region, neither a transfer of the leader nor the
-- removal of the source, in any run of heartbeats of any regions in which the region sends at most three
-- from the first on that shows a peer on the target store. So no peer is removed before the target store has
-- one, and that has stabilized for three heartbeats.
pub start_move_quiet :
    (t : MoveTracker) (key : ℕ) (source : Option Peer) (target now : ℕ) (hs : List Heartbeat)
    → beats_with key target hs ≤ stabilize_heartbeats
    → commands key (start_move t key source target now) hs ≡ []
unfolding start_move
start_move_quiet t key source target now hs p =
    adding-quiet _ key _ hs (lookup-put key _ t.moves) refl p
