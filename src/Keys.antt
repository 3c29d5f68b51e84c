-- ===== src/Keys.antt =====
-- pkg/keys/keys.go: the internal keys of the store, for user data and for the Raft state of regions.
pub mod Ranges
use gookv.Prelude.{
  ℕ, Bool, true, false, not, ◌||◌, List, [], ◌∷◌, ◌++◌, length, ltb, ◌==◌, if◌then◌else◌, Result,
  ok, err, insufficient_data, invalid_encoded_key, ◌>>=◌,
}
use gookv.Codec.Number.{put_uint64, get_uint64}

abbrev pub local_prefix : ℕ
local_prefix = 1

abbrev pub data_prefix : ℕ
data_prefix = b'z'

abbrev pub region_raft_prefix : ℕ
region_raft_prefix = 2

abbrev pub region_meta_prefix : ℕ
region_meta_prefix = 3

abbrev pub raft_log_suffix : ℕ
raft_log_suffix = 1

abbrev pub raft_state_suffix : ℕ
raft_state_suffix = 2

abbrev pub apply_state_suffix : ℕ
apply_state_suffix = 3

abbrev pub region_state_suffix : ℕ
region_state_suffix = 1

unfoldable pub data_key : List ℕ → List ℕ
data_key key = data_prefix ∷ key

unfoldable pub origin_key : List ℕ → List ℕ
origin_key [] = []
origin_key (b ∷ bs) = if b == data_prefix then bs else b ∷ bs

unfoldable pub raft_log_key : ℕ → ℕ → List ℕ
raft_log_key region_id log_index =
    local_prefix
    ∷ region_raft_prefix
    ∷ (put_uint64 region_id ++ (raft_log_suffix ∷ put_uint64 log_index))

unfoldable pub raft_state_key : ℕ → List ℕ
raft_state_key region_id =
    local_prefix ∷ region_raft_prefix ∷ (put_uint64 region_id ++ (raft_state_suffix ∷ []))

unfoldable pub apply_state_key : ℕ → List ℕ
apply_state_key region_id =
    local_prefix ∷ region_raft_prefix ∷ (put_uint64 region_id ++ (apply_state_suffix ∷ []))

unfoldable pub region_state_key : ℕ → List ℕ
region_state_key region_id =
    local_prefix ∷ region_meta_prefix ∷ (put_uint64 region_id ++ (region_state_suffix ∷ []))

unfoldable pub raft_log_key_range : ℕ → List ℕ × List ℕ
raft_log_key_range region_id = (raft_log_key region_id 0, raft_state_key region_id)

-- Behind the check of the length, which leaves no shorter key.
unfoldable pub region_id_at : ℕ → List ℕ → Result ℕ
region_id_at category (a ∷ b ∷ rest) =
    if not (a == local_prefix) || not (b == category)
    then err invalid_encoded_key
    else (do (v, _) ← get_uint64 rest; ok v)
region_id_at category _ = err insufficient_data

unfoldable pub region_id_from : ℕ → List ℕ → Result ℕ
region_id_from category key =
    if ltb (length key) 10 then err insufficient_data else region_id_at category key

unfoldable pub region_id_from_raft_key : List ℕ → Result ℕ
region_id_from_raft_key key = region_id_from region_raft_prefix key

unfoldable pub region_id_from_meta_key : List ℕ → Result ℕ
region_id_from_meta_key key = region_id_from region_meta_prefix key

unfoldable pub is_data_key : List ℕ → Bool
is_data_key [] = false
is_data_key (b ∷ bs) = b == data_prefix

unfoldable pub is_local_key : List ℕ → Bool
is_local_key [] = false
is_local_key (b ∷ bs) = b == local_prefix
