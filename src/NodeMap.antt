-- ===== src/NodeMap.antt =====
-- `get_node_to_backup_index` of astacus/coordinator/plugins/base.py: which node of the cluster
-- restores which snapshot of a backup. Indexes are natural numbers: a negative one in a request is
-- refused by the code as one beyond the end is.
pub mod Bounds
mod Counting
pub mod Coverage
mod Tests
use astacus.Prelude.{
  ℕ, suc, Bool, true, false, not, ◌||◌, Option, none, some, List, [], ◌∷◌, String, map, ltb, leb,
  ◌==◌, string_eq, length, set, replicate, lookup, insert, sorted, if◌then◌else◌,
}
use astacus.Exceptions.{
  Exn, insufficient_nodes, insufficient_azs, not_found, Outcome, returned, raised,
}
use astacus.Ipc.{SnapshotResult, PartialRestoreRequestNode}

-- `CoordinatorNode` of astacus/coordinator/config.py
pub record CoordinatorNode : Type 0 where
  pub url : String
  pub az : String

-- for each node, the index of a snapshot of the backup
abbrev pub NodeToBackup : Type 0
NodeToBackup = List (Option ℕ)

-- `Counter(keys)`: the keys by first occurrence, with how often each occurs
add_one : List (String × ℕ) → String → List (String × ℕ)
add_one counts key = elim (lookup counts key) [
  | none ↦ insert counts key 1
  | some n ↦ insert counts key (suc n)
]

count_from : List (String × ℕ) → List String → List (String × ℕ)
unfolding add_one
count_from counts [] = counts
count_from counts (key ∷ keys) = count_from (add_one counts key) keys

unfoldable pub counter : List String → List (String × ℕ)
unfolding count_from
counter keys = count_from [] keys

-- `Counter.most_common()`
unfoldable pub most_common : List (String × ℕ) → List (String × ℕ)
unfolding sorted
most_common counts = sorted (λ a b. leb b.1 a.1) counts

-- the dictionary from each key to the last of its positions
unfoldable pub last_index : ℕ → List String → List (String × ℕ) → List (String × ℕ)
last_index i [] d = d
last_index i (key ∷ keys) d = last_index (suc i) keys (insert d key i)

-- An index given by itself, or looked up by a key. One of the two is given, which
-- `PartialRestoreRequestNode` checks when it is made; a missing key is not in the dictionary.
unfoldable pub resolve : ℕ → List (String × ℕ) → Option ℕ → Option String → Outcome ℕ
resolve bound by_key (some i) key = if ltb i bound then returned i else raised not_found
resolve bound by_key none none = raised not_found
resolve bound by_key none (some key) = elim (lookup by_key key) [
  | none ↦ raised not_found
  | some i ↦ returned i
]

module _ (snapshot_results : List SnapshotResult) (nodes : List CoordinatorNode) where
  abbrev pub urls : List (String × ℕ)
  unfolding last_index
  urls = last_index 0 (map (λ n. n.url) nodes) []

  abbrev pub hostnames : List (String × ℕ)
  unfolding last_index
  hostnames = last_index 0 (map (λ r. r.hostname) snapshot_results) []

  unfoldable pub serve_requests :
      List PartialRestoreRequestNode → NodeToBackup → Outcome NodeToBackup
  unfolding resolve
  serve_requests [] mapping = returned mapping
  serve_requests (r ∷ requests) mapping =
      elim (resolve (length nodes) urls r.node_index r.node_url) [
        | raised e ↦ raised e
        | returned node_index ↦
            elim (resolve (length snapshot_results) hostnames r.backup_index r.backup_hostname) [
              | raised e ↦ raised e
              | returned backup_index ↦
                  serve_requests requests (set mapping node_index (some backup_index))
            ]
      ]

  unfoldable pub get_node_to_backup_index_from_partial_restore_nodes :
      List PartialRestoreRequestNode → Outcome NodeToBackup
  unfolding serve_requests
  get_node_to_backup_index_from_partial_restore_nodes requests =
      serve_requests requests (replicate (length nodes) none)

-- The inner loop: the first node of the zone that has nothing yet gets the snapshot. The mapping
-- has an entry for each node.
unfoldable pub place_backup : String → ℕ → List CoordinatorNode → NodeToBackup → NodeToBackup
place_backup node_az backup_index [] mapping = mapping
place_backup node_az backup_index (node ∷ nodes) [] = []
place_backup node_az backup_index (node ∷ nodes) (x ∷ mapping) =
    let rest = place_backup node_az backup_index nodes mapping in
    if not (node.az == node_az)
    then x ∷ rest
    else elim x [ none ↦ some backup_index ∷ mapping | some j ↦ some j ∷ rest ]

unfoldable pub place_zone :
    String → String → List CoordinatorNode → ℕ → List SnapshotResult → NodeToBackup → NodeToBackup
unfolding place_backup
place_zone backup_az node_az nodes backup_index [] mapping = mapping
place_zone backup_az node_az nodes backup_index (result ∷ results) mapping =
    place_zone backup_az node_az nodes (suc backup_index) results (
      if not (result.az == backup_az)
      then mapping
      else place_backup node_az backup_index nodes mapping)

unfoldable pub place_zones :
    List SnapshotResult
    → List CoordinatorNode
    → List (String × ℕ)
    → List (String × ℕ)
    → NodeToBackup
    → Outcome NodeToBackup
unfolding place_zone
place_zones results nodes [] node_azs mapping = returned mapping
place_zones results nodes (b ∷ backup_azs) [] mapping = returned mapping
place_zones results nodes ((backup_az, backup_n) ∷ backup_azs) ((node_az, node_n) ∷ node_azs)
      mapping =
    let rest =
      place_zones results nodes backup_azs node_azs
        (place_zone backup_az node_az nodes 0 results mapping) in
    if ltb node_n backup_n then raised insufficient_nodes else rest

unfoldable pub get_node_to_backup_index_from_azs :
    List SnapshotResult
    → List CoordinatorNode
    → List (String × ℕ)
    → List (String × ℕ)
    → Outcome NodeToBackup
unfolding place_zones most_common
get_node_to_backup_index_from_azs results nodes azs_in_backup azs_in_nodes =
    place_zones results nodes (most_common azs_in_backup) (most_common azs_in_nodes)
      (replicate (length nodes) none)

unfoldable pub by_azs : List SnapshotResult → List CoordinatorNode → Outcome NodeToBackup
unfolding counter get_node_to_backup_index_from_azs
by_azs results nodes =
    let azs_in_backup = counter (map (λ r. r.az) results) in
    let azs_in_nodes = counter (map (λ n. n.az) nodes) in
    if ltb (length nodes) (length results)
    then raised insufficient_nodes
    else if ltb (length azs_in_nodes) (length azs_in_backup)
    then raised insufficient_azs
    else get_node_to_backup_index_from_azs results nodes azs_in_backup azs_in_nodes

-- No request, and an empty list of them, ask for the whole backup.
unfoldable pub get_node_to_backup_index :
    Option (List PartialRestoreRequestNode)
    → List SnapshotResult
    → List CoordinatorNode
    → Outcome NodeToBackup
unfolding by_azs get_node_to_backup_index_from_partial_restore_nodes
get_node_to_backup_index none results nodes = by_azs results nodes
get_node_to_backup_index (some []) results nodes = by_azs results nodes
get_node_to_backup_index (some (r ∷ requests)) results nodes =
    get_node_to_backup_index_from_partial_restore_nodes results nodes (r ∷ requests)
