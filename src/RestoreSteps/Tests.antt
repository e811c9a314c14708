-- ===== src/RestoreSteps/Tests.antt =====
-- The restore of a backup of two nodes to three.
use astacus.Prelude.{
  ℕ, ◌≡◌, refl, true, false, none, some, String, List, [], ◌∷◌, map, total, length, one_if, ltb,
  arith, All, sorted,
}
use astacus.Exceptions.{returned}
use astacus.Ipc.{SnapshotResult}
use astacus.NodeMap.{CoordinatorNode, get_node_to_backup_index, counter, most_common}
use astacus.RestoreSteps.{Sent, download, clear, send_requests, request_for, globs_at}
use astacus.RestoreSteps.Requests.{HasState, downloads, send_requests_restore}

abbrev snapshot_of : String → SnapshotResult
snapshot_of hostname = record {
  hostname = hostname;
  az = "x";
  state = some (record { root_globs = "**/*.dat" ∷ []; files = [] });
  files = 0;
  total_size = 0;
  hashes = none;
}

abbrev backup : List SnapshotResult
backup = snapshot_of "a" ∷ snapshot_of "b" ∷ []

abbrev cluster : List CoordinatorNode
cluster =
    record { url = "u0"; az = "x" }
    ∷ record { url = "u1"; az = "x" }
    ∷ record { url = "u2"; az = "x" }
    ∷ []

whole : get_node_to_backup_index none backup cluster ≡ returned (some 0 ∷ some 1 ∷ none ∷ [])
unfolding get_node_to_backup_index counter most_common sorted
whole = refl

third_cleared :
    send_requests "default" "backup-1" false backup
      (λ _. true)
      cluster
      (some 0 ∷ some 1 ∷ none ∷ [])
      []
    ≡ (
      returned (true ∷ true ∷ true ∷ []),
      ("u0", download "default" "backup-1" 0 ("**/*.dat" ∷ []))
          ∷ ("u1", download "default" "backup-1" 1 ("**/*.dat" ∷ []))
          ∷ ("u2", clear ("**/*.dat" ∷ []))
          ∷ [],
    )
unfolding send_requests request_for globs_at
third_cleared = refl

backup_states : All HasState backup
backup_states = (
  (record { root_globs = "**/*.dat" ∷ []; files = [] }, refl),
  ((record { root_globs = "**/*.dat" ∷ []; files = [] }, refl), tt),
)

send_requests_restore_example :
    (out : Sent) × (send_requests "default" "backup-1" false backup
        (λ _. true)
        cluster
        (some 0 ∷ some 1 ∷ none ∷ [])
        []
      ≡ (returned (map (λ n. true) cluster), out))
    × (map (λ x. x.0) out ≡ map (λ n. n.url) cluster)
    × ((j : ℕ) → total (λ x. one_if (downloads j x)) out ≡ one_if (ltb j (length backup)))
send_requests_restore_example =
    send_requests_restore "default" "backup-1" backup (λ _. true) backup_states (omega arith)
      cluster (some 0 ∷ some 1 ∷ none ∷ []) whole
