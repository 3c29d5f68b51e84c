-- ===== src/Pd/Scheduler.antt =====
-- internal/pd/scheduler.go: the removal of excess replicas, the repair of lost ones, and the balance of
-- leaders. The balance of regions, which computes with floats, and the order in which `Schedule` asks are
-- left out.
pub mod Shedding
use gookv.Prelude.{
  ℕ, ◌+◌, ◌-◌, Option, none, some, List, [], ◌∷◌, leb, ltb, ◌==◌, if◌then◌else◌, Bool, true, false,
  not, ◌&&◌, ◌||◌, length,
}
use gookv.Pd.Moves.{Peer, ScheduleCommand, add_node, remove_node, has_peer, store_of}
use gookv.Pd.Metadata.{
  MetadataStore, Region, Store, StoreState, up, disconnected, down, tombstone, get_store_state,
  is_store_schedulable,
}
use gookv.Pd.Ids.{IdAllocator, alloc}

-- The entries for one store of `GetRegionCountPerStore` and `GetLeaderCountPerStore`.
unfoldable pub peers_on : ℕ → List Peer → ℕ
peers_on store_id [] = 0
peers_on store_id (p ∷ peers) =
    let more = peers_on store_id peers in if p.store_id == store_id then more + 1 else more

unfoldable pub region_count : ℕ → List (ℕ × Region) → ℕ
region_count store_id [] = 0
region_count store_id ((id, region) ∷ rest) =
    peers_on store_id region.peers + region_count store_id rest

unfoldable pub leader_count : ℕ → List (ℕ × Peer) → ℕ
leader_count store_id [] = 0
leader_count store_id ((id, leader) ∷ rest) =
    let more = leader_count store_id rest in if leader.store_id == store_id then more + 1 else more

abbrev pub is_leader : Option Peer → Peer → Bool
is_leader none p = false
is_leader (some leader) p = p.id == leader.id

-- The peer to remove so far, and the next one; at first any peer has more regions.
abbrev pub heavier : (ℕ → ℕ) → Peer → Option Peer → Peer
heavier counts p none = p
heavier counts p (some q) = if ltb (counts q.store_id) (counts p.store_id) then p else q

unfoldable pub heaviest : (ℕ → ℕ) → Option Peer → List Peer → Option Peer → Option Peer
heaviest counts leader [] best = best
heaviest counts leader (p ∷ peers) best =
    heaviest counts leader peers (if is_leader leader p then best else some (heavier counts p best))

abbrev pub remove_peer : ℕ → Option Peer → Option ScheduleCommand
remove_peer region_id none = none
remove_peer region_id (some p) = some (record {
  region_id = region_id;
  change_peer = some (record { peer = some p; change_type = remove_node });
  transfer_leader = none;
})

abbrev pub is_healthy : StoreState → Bool
is_healthy s = elim s [ up ↦ true | disconnected ↦ true | down ↦ false | tombstone ↦ false ]

abbrev pub add_peer : IdAllocator → ℕ → ℕ → IdAllocator × Option ScheduleCommand
add_peer ids region_id store_id =
    if store_id == 0
    then (ids, none)
    else let next = alloc ids in
      (
        next.0,
        some (record {
          region_id = region_id;
          change_peer = some (record {
            peer = some (record { id = next.1; store_id = store_id });
            change_type = add_node;
          });
          transfer_leader = none;
        }),
      )

-- The store with the fewest leaders so far, with their number.
abbrev pub fewer : ℕ → ℕ → Option (ℕ × ℕ) → ℕ × ℕ
fewer store_id n none = (store_id, n)
fewer store_id n (some best) = if ltb n best.1 then (store_id, n) else best

-- The transfer names a store only.
abbrev pub transfer_if : ℕ → ℕ → ℕ → Option (ℕ × ℕ) → Option ScheduleCommand
transfer_if region_id leader_store n none = none
transfer_if region_id leader_store n (some best) =
    if not (best.0 == 0) && not (best.0 == leader_store) && ltb (best.1 + 1) n
    then some (record {
      region_id = region_id;
      change_peer = none;
      transfer_leader = some (record { id = 0; store_id = best.0 });
    })
    else none

module _ {ℓ} {Stats : Type ℓ} where
  abbrev pub region_counts : MetadataStore Stats → ℕ → ℕ
  region_counts m store_id = region_count store_id m.regions

  unfoldable pub schedule_excess_replica_shedding :
      MetadataStore Stats → ℕ → ℕ → List Peer → Option Peer → Option ScheduleCommand
  schedule_excess_replica_shedding m max_peer_count region_id peers leader =
      if leb (length peers) max_peer_count
      then none
      else remove_peer region_id (heaviest (region_counts m) leader peers none)

  unfoldable pub healthy_count : MetadataStore Stats → List Peer → ℕ
  healthy_count m [] = 0
  healthy_count m (p ∷ peers) =
      let more = healthy_count m peers in
      if is_healthy (get_store_state m p.store_id) then more + 1 else more

  -- The first store that can take a peer; 0 where there is none.
  unfoldable pub pick_store : MetadataStore Stats → List Peer → List (ℕ × Store) → ℕ
  pick_store m peers [] = 0
  pick_store m peers ((id, store) ∷ rest) =
      if has_peer peers store.id || not (is_store_schedulable m store.id)
      then pick_store m peers rest
      else store.id

  unfoldable pub pick_store_for_region : MetadataStore Stats → List Peer → ℕ
  pick_store_for_region m peers = pick_store m peers m.stores

  unfoldable pub schedule_replica_repair :
      MetadataStore Stats → IdAllocator → ℕ → ℕ → List Peer → IdAllocator × Option ScheduleCommand
  schedule_replica_repair m ids max_peer_count region_id peers =
      if leb max_peer_count (healthy_count m peers)
      then (ids, none)
      else add_peer ids region_id (pick_store_for_region m peers)

  unfoldable pub least_leading : MetadataStore Stats → List Peer → Option (ℕ × ℕ) → Option (ℕ × ℕ)
  least_leading m [] best = best
  least_leading m (p ∷ peers) best =
      let n = leader_count p.store_id m.leaders in
      least_leading m peers
        (if is_store_schedulable m p.store_id then some (fewer p.store_id n best) else best)

  unfoldable pub schedule_leader_balance :
      MetadataStore Stats → ℕ → List Peer → Option Peer → Option ScheduleCommand
  schedule_leader_balance m region_id peers none = none
  schedule_leader_balance m region_id peers (some leader) =
      transfer_if region_id leader.store_id (leader_count leader.store_id m.leaders)
        (least_leading m peers none)
