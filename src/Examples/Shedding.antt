-- ===== src/Examples/Shedding.antt =====
-- A region with a replica too many.
use gookv.Prelude.{ℕ, ◌≡◌, refl, some, [], ◌∷◌, List, inl, inr, false, arith}
use gookv.Pd.Moves.{Peer}
use gookv.Pd.Metadata.{MetadataStore, new_metadata_store}
use gookv.Pd.Scheduler.{is_leader, remove_peer, region_counts, schedule_excess_replica_shedding}
use gookv.Pd.Scheduler.Shedding.{IsOneOf, Heaviest, shedding_spares_leader}

abbrev peer : ℕ → ℕ → Peer
peer id store_id = record { id = id; store_id = store_id }

abbrev peers : List Peer
peers = peer 11 1 ∷ peer 12 2 ∷ peer 13 3 ∷ []

abbrev metadata : MetadataStore ℕ
metadata = new_metadata_store 0 0

shedding_spares_leader_example :
    (p : Peer) × (schedule_excess_replica_shedding metadata 2 5 peers (some (peer 11 1))
      ≡ remove_peer 5 (some p))
    × (is_leader (some (peer 11 1)) p ≡ false)
    × IsOneOf p peers
    × Heaviest (region_counts metadata) (some (peer 11 1)) p peers
unfolding IsOneOf
shedding_spares_leader_example =
    shedding_spares_leader metadata 2 5 peers (some (peer 11 1)) (peer 12 2) (omega arith)
      (inr (inl refl)) refl
