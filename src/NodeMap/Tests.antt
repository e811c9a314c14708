-- ===== src/NodeMap/Tests.antt =====
-- Two zones, restored onto a cluster with other zones.
use astacus.Prelude.{◌≡◌, refl, some, none, String, List, [], ◌∷◌, sorted}
use astacus.Exceptions.{returned, insufficient_nodes, raised}
use astacus.Ipc.{SnapshotResult}
use astacus.NodeMap.{CoordinatorNode, get_node_to_backup_index, counter, most_common, urls}
use astacus.NodeMap.Coverage.{restored, get_node_to_backup_index-restores}
use astacus.NodeMap.Bounds.{Fits, get_node_to_backup_index-Fits}

abbrev snapshot_of : String → String → SnapshotResult
snapshot_of hostname az = record {
  hostname = hostname;
  az = az;
  state = none;
  files = 0;
  total_size = 0;
  hashes = none;
}

abbrev backup : List SnapshotResult
backup = snapshot_of "a" "az1" ∷ snapshot_of "b" "az2" ∷ snapshot_of "c" "az2" ∷ []

abbrev cluster : List CoordinatorNode
cluster =
    record { url = "u0"; az = "x" }
    ∷ record { url = "u1"; az = "y" }
    ∷ record { url = "u2"; az = "x" }
    ∷ []

whole : get_node_to_backup_index none backup cluster ≡ returned (some 1 ∷ some 0 ∷ some 2 ∷ [])
unfolding get_node_to_backup_index counter most_common sorted
whole = refl

one_node :
    get_node_to_backup_index
      (some (
        record {
          backup_index = none;
          backup_hostname = some "c";
          node_index = none;
          node_url = some "u1";
        }
        ∷ []))
      backup
      cluster
    ≡ returned (none ∷ some 2 ∷ none ∷ [])
unfolding get_node_to_backup_index urls
one_node = refl

too_few :
    get_node_to_backup_index none backup (record { url = "u0"; az = "x" } ∷ [])
    ≡ raised insufficient_nodes
unfolding get_node_to_backup_index urls
too_few = refl

get_node_to_backup_index-Fits_example : Fits 3 3 (some 1 ∷ some 0 ∷ some 2 ∷ [])
get_node_to_backup_index-Fits_example =
    get_node_to_backup_index-Fits none backup cluster (some 1 ∷ some 0 ∷ some 2 ∷ []) whole

-- Only the third snapshot goes to the third node.
get_node_to_backup_index-restores_example : restored 2 (some 1 ∷ some 0 ∷ some 2 ∷ []) ≡ 1
get_node_to_backup_index-restores_example =
    get_node_to_backup_index-restores backup cluster (some 1 ∷ some 0 ∷ some 2 ∷ []) whole 2
