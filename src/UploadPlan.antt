-- ===== src/UploadPlan.antt =====
-- `build_node_index_datas` of astacus/coordinator/plugins/base.py: which node uploads which of the
-- files that the object storage lacks. The list of NodeIndexData objects that the loop fills is the
-- state.
mod Grouping
mod Assigning
pub mod Plan
mod Tests
use astacus.Prelude.{
  ℕ, suc, ◌+◌, Bool, ◌&&◌, ◌||◌, none, some, List, [], ◌∷◌, ◌++◌, String, map, ltb, leb, ◌==◌,
  string_eq, nat_eq, contains, length, get_elem?, set, sorted, if◌then◌else◌,
}
use astacus.Exceptions.{
  index_error, value_error, assertion, Outcome, returned, raised, Method, pure, raise, ◌>>=◌, ◌>>◌,
}
use astacus.Ipc.{SnapshotHash, SnapshotResult, hash_eq}

pub record NodeIndexData : Type 0 where
  pub node_index : ℕ
  pub sshashes : List SnapshotHash
  pub total_size : ℕ

unfoldable pub append_sshash : SnapshotHash → NodeIndexData → NodeIndexData
append_sshash h d = record d { total_size = d.total_size + h.size; sshashes = d.sshashes ++ h ∷ [] }

-- the dictionary from a hash to the indexes of the snapshots that have it
abbrev pub Groups : Type 0
Groups = List (SnapshotHash × List ℕ)

-- `sshash_to_node_indexes.setdefault(snapshot_hash, []).append(i)`
unfoldable pub add_index : Groups → SnapshotHash → ℕ → Groups
add_index [] h i = (h, i ∷ []) ∷ []
add_index ((k, is) ∷ groups) h i =
    if k == h then (k, is ++ i ∷ []) ∷ groups else (k, is) ∷ add_index groups h i

unfoldable pub add_hashes : Groups → List SnapshotHash → ℕ → Groups
add_hashes groups [] i = groups
add_hashes groups (h ∷ hs) i = add_hashes (add_index groups h i) hs i

-- `snapshot_result.hashes or []`
abbrev pub hashes_of : SnapshotResult → List SnapshotHash
hashes_of r = elim r.hashes [ none ↦ [] | some hs ↦ hs ]

unfoldable pub group_hashes : Groups → List SnapshotResult → ℕ → Groups
unfolding add_hashes add_index
group_hashes groups [] i = groups
group_hashes groups (r ∷ rs) i = group_hashes (add_hashes groups (hashes_of r) i) rs (suc i)

-- the order by (number of nodes, -size)
unfoldable pub rarer_first : SnapshotHash × List ℕ → SnapshotHash × List ℕ → Bool
rarer_first (h, is) (k, js) =
    ltb (length is) (length js) || (length is == length js && leb k.size h.size)

unfoldable pub load_of : ℕ → Method (List NodeIndexData) ℕ
load_of i datas = elim (get_elem? datas i) [
  | none ↦ (raised index_error, datas)
  | some d ↦ (returned d.total_size, datas)
]

-- `min` of the pairs (total size, index), with the least pair so far
unfoldable pub least_from : ℕ → ℕ → List ℕ → Method (List NodeIndexData) ℕ
unfolding load_of
least_from size index [] = pure index
least_from size index (i ∷ is) = do
  n ← load_of i
  if ltb n size || (n == size && ltb i index) then least_from n i is else least_from size index is

unfoldable pub least_loaded : List ℕ → Method (List NodeIndexData) ℕ
unfolding least_from
least_loaded [] = raise value_error
least_loaded (i ∷ is) = do n ← load_of i; least_from n i is

-- `node_index_datas[node_index].append_sshash(snapshot_hash)`
unfoldable pub append_at : ℕ → SnapshotHash → Method (List NodeIndexData) (Unit {0})
unfolding append_sshash
append_at i h datas = elim (get_elem? datas i) [
  | none ↦ (raised index_error, datas)
  | some d ↦ (returned tt, set datas i (append_sshash h d))
]

unfoldable pub assign : List String → Groups → Method (List NodeIndexData) (Unit {0})
unfolding least_loaded append_at
assign hexdigests [] = pure tt
assign hexdigests ((h, is) ∷ todo) =
    let rest = assign hexdigests todo in
    if contains hexdigests h.hexdigest
    then rest
    else (do node_index ← least_loaded is; append_at node_index h; rest)

-- `[data for data in node_index_datas if data.sshashes]`
unfoldable pub with_work : List NodeIndexData → List NodeIndexData
with_work [] = []
with_work (d ∷ ds) = let rest = with_work ds in elim d.sshashes [ [] ↦ rest | h ∷ hs ↦ d ∷ rest ]

unfoldable pub build_node_index_datas :
    List String → List SnapshotResult → List ℕ → Outcome (List NodeIndexData)
unfolding assign group_hashes with_work rarer_first sorted
build_node_index_datas hexdigests snapshots node_indices =
    if length snapshots == length node_indices
    then (let datas : List NodeIndexData =
          map (λ i. record { node_index = i; sshashes = []; total_size = 0 }) node_indices in
        let groups : Groups = sorted rarer_first (group_hashes [] snapshots 0) in
        let (result, filled) = assign hexdigests groups datas in
        elim result [ returned _ ↦ returned (with_work filled) | raised e ↦ raised e ])
    else raised assertion
