-- ===== src/RestoreSteps/Requests.antt =====
-- Which requests a restore of a whole backup sends.
use astacus.Prelude.{
  ℕ, zero, suc, ◌<◌, ◌≡◌, refl, ap, ◌∙◌, Bool, false, Option, none, some, List, [], ◌∷◌, ◌++◌,
  String, map, arith, ◌==◌, nat_eq, length, total, All, one_if, ltb,
}
use astacus.Exceptions.{returned}
use astacus.Ipc.{SnapshotResult, SnapshotState}
use astacus.NodeMap.{CoordinatorNode, NodeToBackup, get_node_to_backup_index}
use astacus.NodeMap.Bounds.{Entry, get_node_to_backup_index-Fits}
use astacus.NodeMap.Coverage.{restored, get_node_to_backup_index-restores}
use astacus.RestoreSteps.{NodeRequest, download, clear, Sent, globs_at, request_for, send_requests}

-- The snapshot has a state.
abbrev pub HasState : SnapshotResult → Type 0
HasState r = (state : SnapshotState) × (r.state ≡ some state)

-- the node of the request downloads the snapshot
abbrev pub downloads : ℕ → String × NodeRequest → Bool
downloads j (url, download s b i globs) = i == j
downloads j (url, clear globs) = false

globs_at_index :
    (results : List SnapshotResult) (i : ℕ)
    → All HasState results
    → i < length results
    → (globs : List String) × (globs_at results i ≡ returned globs)
unfolding globs_at
globs_at_index [] i k h = absurd (omega arith)
globs_at_index (r ∷ results) zero k h =
    let (state, e) = k.0 in (state.root_globs, ground (arith, e))
globs_at_index (r ∷ results) (suc i) k h = globs_at_index results i k.1 (omega arith)

snoc-append :
    (sent : Sent) (x : String × NodeRequest) (out : Sent)
    → (sent ++ x ∷ []) ++ out ≡ sent ++ x ∷ out
snoc-append [] x out = refl
snoc-append (y ∷ sent) x out = ap (λ s. y ∷ s) (snoc-append sent x out)

append_nil : (sent : Sent) → sent ≡ sent ++ []
append_nil [] = refl
append_nil (y ∷ sent) = ap (λ s. y ∷ s) (append_nil sent)

-- the part of a restore's requests that goes to some of the nodes
pub record Serves (nodes : List CoordinatorNode) (mapping : NodeToBackup) (out : Sent)
    : Type 0 where
  pub urls : map (λ x. x.0) out ≡ map (λ n. n.url) nodes
  pub served : (j : ℕ) → total (λ x. one_if (downloads j x)) out ≡ restored j mapping

module _ (storage_name backup_name : String) (results : List SnapshotResult)
    (answer : String → Bool) (states : All HasState results)
    (some_result : 0 < length results) where
  request_for_node :
      (x : Option ℕ)
      → Entry (length results) x
      → (request : NodeRequest) × (request_for storage_name backup_name false results x
          ≡ returned (some request))
        × ((url : String) (j : ℕ) → one_if (downloads j (url, request)) ≡ restored j (x ∷ []))
  unfolding request_for
  request_for_node none h =
      let (globs, e) = globs_at_index results 0 states some_result in
      (clear globs, ground (arith, e), λ url j. ground arith)
  request_for_node (some i) h =
      let (globs, e) = globs_at_index results i states h in
      (download storage_name backup_name i globs, ground (arith, e), λ url j. ground arith)

  send_requests-Serves :
      (nodes : List CoordinatorNode) (mapping : NodeToBackup) (sent : Sent)
      → length mapping ≡ length nodes
      → All (Entry (length results)) mapping
      → (starts : List Bool) × (out : Sent) × (send_requests storage_name backup_name false results
            answer nodes mapping sent
          ≡ (returned starts, sent ++ out))
        × (starts ≡ map (λ n. answer n.url) nodes)
        × Serves nodes mapping out
  unfolding send_requests
  send_requests-Serves [] [] sent l h = (
    [],
    [],
    ap (λ s. (returned [], s)) (append_nil sent),
    refl,
    record { urls = refl; served = λ j. refl },
  )
  send_requests-Serves [] (x ∷ mapping) sent l h = absurd (ground (arith, l))
  send_requests-Serves (node ∷ nodes) [] sent l h = absurd (ground (arith, l))
  send_requests-Serves (node ∷ nodes) (x ∷ mapping) sent l h =
      let (request, e, counts) = request_for_node x h.0 in
      let (starts, out, run, answers, serves) =
        send_requests-Serves nodes mapping (sent ++ (node.url, request) ∷ []) (ground (arith, l))
          h.1 in
      (
        answer node.url ∷ starts,
        (node.url, request) ∷ out,
        ground (arith, e, run, snoc-append sent (node.url, request) out),
        ap (λ s. answer node.url ∷ s) answers,
        record {
          urls = ap (λ us. node.url ∷ us) serves.urls;
          served = λ j. ground (arith, counts node.url j, serves.served j);
        },
      )

  -- The restore of a whole backup, of at least one snapshot and all of them with a state, by the
  -- mapping that the code makes of it, sends one request to each node, in their order. Each snapshot
  -- is downloaded by exactly one node.
  pub send_requests_restore :
      (nodes : List CoordinatorNode) (mapping : NodeToBackup)
      → get_node_to_backup_index none results nodes ≡ returned mapping
      → (out : Sent) × (send_requests storage_name backup_name false results answer nodes mapping []
          ≡ (returned (map (λ n. answer n.url) nodes), out))
        × (map (λ x. x.0) out ≡ map (λ n. n.url) nodes)
        × ((j : ℕ) → total (λ x. one_if (downloads j x)) out ≡ one_if (ltb j (length results)))
  send_requests_restore nodes mapping e =
      let (len, entries) = get_node_to_backup_index-Fits none results nodes mapping e in
      let (starts, out, run, answers, serves) = send_requests-Serves nodes mapping [] len entries in
      (
        out,
        run ∙ ap (λ s. (returned s, out)) answers,
        serves.urls,
        λ j. serves.served j ∙ get_node_to_backup_index-restores results nodes mapping e j,
      )
