-- ===== src/RestoreSteps.antt =====
-- `MapNodesStep` and `RestoreStep` of astacus/coordinator/plugins/base.py: the requests that a restore
-- sends to the nodes. The state is the requests that were sent, in order; `answer` tells whether a
-- node's start result is one.
pub mod Requests
mod Tests
use astacus.Prelude.{
  ℕ, zero, suc, Bool, true, false, not, Option, none, some, List, [], ◌∷◌, ◌++◌, String, map,
  get_elem?, if◌then◌else◌,
}
use astacus.Exceptions.{
  assertion, index_error, missing_snapshot_results, Outcome, returned, raised, Method,
}
use astacus.Progress.{Progress}
use astacus.Ipc.{SnapshotResult, SnapshotState, PartialRestoreRequestNode, BackupManifest}
use astacus.NodeMap.{CoordinatorNode, NodeToBackup, get_node_to_backup_index}
use astacus.Cluster.Waiting.{wait_successful_results}

-- `SnapshotDownloadRequest` and `SnapshotClearRequest`
pub data NodeRequest : Type 0 where
  download :
      (storage backup_name : String) (snapshot_index : ℕ) (root_globs : List String) → NodeRequest
  clear : (root_globs : List String) → NodeRequest

-- the requests with the urls of their nodes
abbrev pub Sent : Type 0
Sent = List (String × NodeRequest)

unfoldable pub map_nodes_step :
    Option (List PartialRestoreRequestNode)
    → BackupManifest
    → List CoordinatorNode
    → Outcome NodeToBackup
map_nodes_step partial_restore_nodes manifest nodes =
    get_node_to_backup_index partial_restore_nodes manifest.snapshot_results nodes

unfoldable pub is_partial : Option (List PartialRestoreRequestNode) → Bool
is_partial none = false
is_partial (some []) = false
is_partial (some (node ∷ nodes)) = true

-- the globs of a snapshot that must have a state
unfoldable pub globs_at : List SnapshotResult → ℕ → Outcome (List String)
globs_at results i = elim (get_elem? results i) [
  | none ↦ raised index_error
  | some result ↦ elim result.state [
    | none ↦ raised assertion
    | some state ↦ returned state.root_globs
  ]
]

module _ (storage_name backup_name : String) (partial : Bool) (results : List SnapshotResult) where
  -- the request for a node, if it gets one
  unfoldable pub request_for : Option ℕ → Outcome (Option NodeRequest)
  unfolding globs_at
  request_for (some backup_index) = elim (globs_at results backup_index) [
    | raised e ↦ raised e
    | returned globs ↦ returned (some (download storage_name backup_name backup_index globs))
  ]
  request_for none = if partial then returned none else (elim (globs_at results 0) [
    | raised e ↦ raised e
    | returned globs ↦ returned (some (clear globs))
  ])

  -- the loop over the nodes, which also collects the start results
  unfoldable pub send_requests :
      (String → Bool) → List CoordinatorNode → NodeToBackup → Method Sent (List Bool)
  unfolding request_for
  send_requests answer [] mapping sent = (returned [], sent)
  send_requests answer (node ∷ nodes) [] sent = (returned [], sent)
  send_requests answer (node ∷ nodes) (x ∷ mapping) sent = elim (request_for x) [
    | raised e ↦ (raised e, sent)
    | returned none ↦ send_requests answer nodes mapping sent
    | returned (some request) ↦
        (let (r, sent') = send_requests answer nodes mapping (sent ++ (node.url, request) ∷ []) in
          elim r [
            | raised e ↦ (raised e, sent')
            | returned starts ↦ (returned (answer node.url ∷ starts), sent')
          ])
  ]

-- `RestoreStep.run_step`
unfoldable pub restore_step :
    {R : Type 0}
    → (R → Progress)
    → ℕ
    → String
    → String
    → Option (List PartialRestoreRequestNode)
    → List SnapshotResult
    → List CoordinatorNode
    → NodeToBackup
    → (String → Bool)
    → List (List (Option R))
    → Method Sent (List R)
unfolding is_partial send_requests
restore_step progress maximum_failures storage_name backup_name partial_restore_nodes [] nodes
      mapping answer rounds sent =
    (raised missing_snapshot_results, sent)
restore_step progress maximum_failures storage_name backup_name partial_restore_nodes
      (result ∷ results) nodes mapping answer rounds sent =
    let (r, sent') =
      send_requests storage_name backup_name (is_partial partial_restore_nodes) (result ∷ results)
        answer nodes mapping sent in
    elim r [
      | raised e ↦ (raised e, sent')
      | returned starts ↦ (wait_successful_results progress maximum_failures starts rounds, sent')
    ]
