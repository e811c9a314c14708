-- ===== src/UploadPlan/Tests.antt =====
-- Two nodes that share a file, of which one file is stored already.
use astacus.Prelude.{ℕ, ◌≡◌, refl, none, some, String, List, [], ◌∷◌}
use astacus.Exceptions.{returned, raised, assertion}
use astacus.Ipc.{SnapshotHash, SnapshotResult}
use astacus.UploadPlan.{NodeIndexData, build_node_index_datas}
use astacus.UploadPlan.Plan.{IsPlan, build_node_index_datas-IsPlan}

abbrev hash : String → ℕ → SnapshotHash
hash hexdigest size = record { hexdigest = hexdigest; size = size }

abbrev node : List SnapshotHash → SnapshotResult
node hs = record {
  hostname = "h";
  az = "";
  state = none;
  files = 0;
  total_size = 0;
  hashes = some hs;
}

abbrev snapshots : List SnapshotResult
snapshots =
    node (hash "aa" 5 ∷ hash "bb" 3 ∷ hash "cc" 2 ∷ []) ∷ node (hash "bb" 3 ∷ hash "dd" 1 ∷ []) ∷ []

shared_goes_to_the_lighter :
    build_node_index_datas ("cc" ∷ []) snapshots (0 ∷ 1 ∷ [])
    ≡ returned (
        record { node_index = 0; sshashes = hash "aa" 5 ∷ []; total_size = 5 }
        ∷ record { node_index = 1; sshashes = hash "dd" 1 ∷ hash "bb" 3 ∷ []; total_size = 4 }
        ∷ [])
unfolding build_node_index_datas
shared_goes_to_the_lighter = refl

one_node_too_many : build_node_index_datas [] snapshots (0 ∷ 1 ∷ 2 ∷ []) ≡ raised assertion
unfolding build_node_index_datas
one_node_too_many = refl

build_node_index_datas-IsPlan_example :
    (plan : List NodeIndexData) × (build_node_index_datas ("cc" ∷ []) snapshots (0 ∷ 1 ∷ [])
      ≡ returned plan)
    × IsPlan snapshots (0 ∷ 1 ∷ []) ("cc" ∷ []) plan
build_node_index_datas-IsPlan_example =
    build_node_index_datas-IsPlan ("cc" ∷ []) snapshots (0 ∷ 1 ∷ []) refl
