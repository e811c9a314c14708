-- ===== src/NodeMap/Bounds.antt =====
-- The mapping has an entry for each node, and names snapshots that the backup has.
use astacus.Prelude.{
  ℕ, zero, suc, ◌+◌, ◌≤◌, ◌<◌, ◌≡◌, refl, sym, Option, none, some, List, [], ◌∷◌, String, map,
  arith, length, set, replicate, lookup, insert, All, string_eq, ◌==◌, length-set, length-map,
  length-replicate, lookup-insert, Bool-cases, inl, inr, ◌∙◌, ap,
}
use astacus.Exceptions.{Outcome, Outcome-cases, returned}
use astacus.Ipc.{SnapshotResult, PartialRestoreRequestNode}
use astacus.NodeMap.{
  CoordinatorNode, NodeToBackup, last_index, resolve, serve_requests, place_backup, place_zone,
  place_zones, by_azs, get_node_to_backup_index_from_azs,
  get_node_to_backup_index_from_partial_restore_nodes, get_node_to_backup_index, urls, hostnames,
  counter, most_common,
}

abbrev pub Entry : ℕ → Option ℕ → Type 0
Entry bound none = Unit
Entry bound (some i) = i < bound

-- an entry for each node, and each entry below the number of snapshots
abbrev pub Fits : ℕ → ℕ → NodeToBackup → Type 0
Fits nodes snapshots mapping = (length mapping ≡ nodes) × All (Entry snapshots) mapping

abbrev FitsIfReturned : ℕ → ℕ → Outcome NodeToBackup → Type 0
FitsIfReturned nodes snapshots r =
    (mapping : NodeToBackup) → r ≡ returned mapping → Fits nodes snapshots mapping

All-set :
    (bound : ℕ) (m : NodeToBackup) (i j : ℕ)
    → j < bound
    → All (Entry bound) m
    → All (Entry bound) (set m i (some j))
All-set bound [] i j h k = tt
All-set bound (x ∷ m) zero j h k = (h, k.1)
All-set bound (x ∷ m) (suc i) j h k = (k.0, All-set bound m i j h k.1)

All-replicate : (bound n : ℕ) → All (Entry bound) (replicate n none)
All-replicate bound zero = tt
All-replicate bound (suc n) = (tt, All-replicate bound n)

abbrev Below : ℕ → List (String × ℕ) → Type 0
Below bound d = (key : String) (i : ℕ) → lookup d key ≡ some i → i < bound

last_index-Below :
    (bound i : ℕ) (keys : List String) (d : List (String × ℕ))
    → i + length keys ≤ bound
    → Below bound d
    → Below bound (last_index i keys d)
unfolding last_index
last_index-Below bound i [] d h k = k
last_index-Below bound i (key ∷ keys) d h k =
    last_index-Below bound (suc i) keys (insert d key i) (omega (arith, h))
      (λ key' j e. ground (arith, lookup-insert d key i key', k key' j))

resolve-Below :
    (bound : ℕ) (d : List (String × ℕ)) (index : Option ℕ) (key : Option String) (i : ℕ)
    → Below bound d
    → resolve bound d index key ≡ returned i
    → i < bound
unfolding resolve
resolve-Below bound d (some j) key i k h = ground arith
resolve-Below bound d none none i k h = ground arith
resolve-Below bound d none (some key) i k h = ground (arith, k key i)

module _ (results : List SnapshotResult) (nodes : List CoordinatorNode) where
  urls-Below : Below (length nodes) (urls results nodes)
  unfolding urls last_index
  urls-Below =
      last_index-Below (length nodes) 0 (map (λ n. n.url) nodes) []
        (omega (arith, length-map (λ n. n.url) nodes)) (λ key i e. ground arith)

  hostnames-Below : Below (length results) (hostnames results nodes)
  unfolding hostnames last_index
  hostnames-Below =
      last_index-Below (length results) 0 (map (λ r. r.hostname) results) []
        (omega (arith, length-map (λ r. r.hostname) results)) (λ key i e. ground arith)

  serve_requests_step :
      (r : PartialRestoreRequestNode) (rs : List PartialRestoreRequestNode) (m : NodeToBackup)
      (a b : ℕ)
      → resolve (length nodes) (urls results nodes) r.node_index r.node_url ≡ returned a
      → resolve (length results) (hostnames results nodes) r.backup_index r.backup_hostname
        ≡ returned b
      → serve_requests results nodes (r ∷ rs) m ≡ serve_requests results nodes rs (set m a (some b))
  unfolding serve_requests
  serve_requests_step r rs m a b h k = ground (arith, h, k)

  serve_requests-Fits :
      (rs : List PartialRestoreRequestNode) (m : NodeToBackup)
      → Fits (length nodes) (length results) m
      → FitsIfReturned (length nodes) (length results) (serve_requests results nodes rs m)
  unfolding serve_requests
  serve_requests-Fits [] m h out e = ground (arith, h.0)
  serve_requests-Fits (r ∷ rs) m h out e =
      elim (Outcome-cases (resolve (length nodes) (urls results nodes) r.node_index r.node_url)) [
        | inr (x, bad) ↦ ground (arith, bad)
        | inl (a, good) ↦
            elim (Outcome-cases (
              resolve (length results) (hostnames results nodes) r.backup_index
                r.backup_hostname)) [
                  | inr (x, bad) ↦ ground (arith, good, bad)
                  | inl (b, found) ↦
                      serve_requests-Fits rs (set m a (some b))
                        (
                          length-set m a (some b) ∙ h.0,
                          All-set (length results) m a b
                              (resolve-Below (length results) (hostnames results nodes)
                                r.backup_index r.backup_hostname b hostnames-Below found)
                              h.1,
                        )
                        out (sym (serve_requests_step r rs m a b good found) ∙ e)
                ]
      ]

place_backup-Fits :
    (bound : ℕ) (az : String) (b : ℕ) (nodes : List CoordinatorNode) (m : NodeToBackup)
    → b < bound
    → All (Entry bound) m
    → Fits (length m) bound (place_backup az b nodes m)
unfolding place_backup
place_backup-Fits bound az b [] m h k = (refl, k)
place_backup-Fits bound az b (n ∷ nodes) [] h k = (refl, k)
place_backup-Fits bound az b (n ∷ nodes) (none ∷ m) h k =
    let (l, f) = place_backup-Fits bound az b nodes m h k.1 in
    elim (Bool-cases (n.az == az)) [
      | inl e ↦ rw e (refl, (h, k.1))
      | inr e ↦ rw e (ap suc l, (tt, f))
    ]
place_backup-Fits bound az b (n ∷ nodes) (some j ∷ m) h k =
    let (l, f) = place_backup-Fits bound az b nodes m h k.1 in
    elim (Bool-cases (n.az == az)) [
      | inl e ↦ rw e (ap suc l, (k.0, f))
      | inr e ↦ rw e (ap suc l, (k.0, f))
    ]

place_zone-Fits :
    (bound : ℕ) (backup_az az : String) (nodes : List CoordinatorNode) (i : ℕ)
    (results : List SnapshotResult) (m : NodeToBackup)
    → i + length results ≤ bound
    → All (Entry bound) m
    → Fits (length m) bound (place_zone backup_az az nodes i results m)
unfolding place_zone
place_zone-Fits bound backup_az az nodes i [] m h k = (refl, k)
place_zone-Fits bound backup_az az nodes i (r ∷ rs) m h k =
    let (l, f) = place_backup-Fits bound az i nodes m (omega (arith, h)) k in
    elim (Bool-cases (r.az == backup_az)) [
      | inl e ↦ rw e (
          let (l', f') =
            place_zone-Fits bound backup_az az nodes (suc i) rs (place_backup az i nodes m)
              (omega (arith, h)) f in
          (l' ∙ l, f'))
      | inr e ↦ rw e (place_zone-Fits bound backup_az az nodes (suc i) rs m (omega (arith, h)) k)
    ]

place_zones_fits :
    (results : List SnapshotResult) (nodes : List CoordinatorNode) (bs ns : List (String × ℕ))
    (m : NodeToBackup)
    → All (Entry (length results)) m
    → FitsIfReturned (length m) (length results) (place_zones results nodes bs ns m)
unfolding place_zones
place_zones_fits results nodes [] ns m k out e = ground arith
place_zones_fits results nodes (b ∷ bs) [] m k out e = ground arith
place_zones_fits results nodes ((b, p) ∷ bs) ((n, q) ∷ ns) m k out e =
    let (l, f) = place_zone-Fits (length results) b n nodes 0 results m (omega arith) k in
    let (l', f') =
      place_zones_fits results nodes bs ns (place_zone b n nodes 0 results m) f out
        (ground (arith, e)) in
    (l' ∙ l, f')

from_azs_fits :
    (results : List SnapshotResult) (nodes : List CoordinatorNode) (bs ns : List (String × ℕ))
    → FitsIfReturned
        (length nodes)
        (length results)
        (get_node_to_backup_index_from_azs results nodes bs ns)
unfolding get_node_to_backup_index_from_azs
from_azs_fits results nodes bs ns out e =
    let (l, f) =
      place_zones_fits results nodes (most_common bs) (most_common ns)
        (replicate (length nodes) none) (All-replicate (length results) (length nodes)) out e in
    (l ∙ length-replicate (length nodes) none, f)

by_azs_fits :
    (results : List SnapshotResult) (nodes : List CoordinatorNode)
    → FitsIfReturned (length nodes) (length results) (by_azs results nodes)
unfolding by_azs
by_azs_fits results nodes out e =
    from_azs_fits results nodes (counter (map (λ r. r.az) results))
      (counter (map (λ n. n.az) nodes)) out (ground (arith, e))

-- A mapping that is returned has an entry for each node, and each entry that is not None is the
-- index of a snapshot of the backup.
pub get_node_to_backup_index-Fits :
    (requests : Option (List PartialRestoreRequestNode)) (results : List SnapshotResult)
    (nodes : List CoordinatorNode) (mapping : NodeToBackup)
    → get_node_to_backup_index requests results nodes ≡ returned mapping
    → Fits (length nodes) (length results) mapping
unfolding get_node_to_backup_index get_node_to_backup_index_from_partial_restore_nodes
get_node_to_backup_index-Fits none results nodes mapping e = by_azs_fits results nodes mapping e
get_node_to_backup_index-Fits (some []) results nodes mapping e =
    by_azs_fits results nodes mapping e
get_node_to_backup_index-Fits (some (r ∷ requests)) results nodes mapping e =
    serve_requests-Fits results nodes (r ∷ requests) (replicate (length nodes) none)
      (length-replicate (length nodes) none, All-replicate (length results) (length nodes)) mapping
      e
