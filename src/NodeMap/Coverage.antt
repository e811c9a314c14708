-- ===== src/NodeMap/Coverage.antt =====
-- A restore of the whole backup maps each of its snapshots to one node.
use astacus.Prelude.{
  ℕ, zero, suc, ◌+◌, ◌≤◌, ◌<◌, ◌≡◌, ◌≢◌, refl, ap, ◌∙◌, Bool, true, false, ◌&&◌, Option, none, some,
  String, List, [], ◌∷◌, map, arith, ◌==◌, string_eq, nat_eq, one_if, ltb, length, replicate, total,
  All, All-map, if◌then◌else◌, Bool-cases, ◌⊎◌, inl, inr, eq_iff, ==_refl,
}
use astacus.Exceptions.{returned}
use astacus.Ipc.{SnapshotResult}
use astacus.NodeMap.{
  CoordinatorNode, NodeToBackup, place_backup, place_zone, place_zones, counter, most_common,
  by_azs, get_node_to_backup_index_from_azs, get_node_to_backup_index,
}
use astacus.NodeMap.Counting.{
  Counts, key_count, occurrences, most_common-IsCounter, length-most_common,
}

abbrev is_entry : ℕ → Option ℕ → Bool
is_entry j none = false
is_entry j (some i) = i == j

-- how many nodes restore a snapshot
abbrev pub restored : ℕ → NodeToBackup → ℕ
restored j = total (λ x. one_if (is_entry j x))

abbrev is_unused : Option ℕ → Bool
is_unused none = true
is_unused (some i) = false

-- how many nodes of a zone have nothing yet
abbrev free : String → List CoordinatorNode → NodeToBackup → ℕ
free az (n ∷ nodes) (x ∷ m) = one_if (n.az == az && is_unused x) + free az nodes m
free az _ _ = 0

place_backup_restores :
    (az : String) (b : ℕ) (nodes : List CoordinatorNode) (m : NodeToBackup)
    → 0 < free az nodes m
    → ((j : ℕ) → restored j (place_backup az b nodes m) ≡ restored j m + one_if (b == j))
      × ((z : String)
          → free z nodes (place_backup az b nodes m) + one_if (az == z) ≡ free z nodes m)
unfolding place_backup
place_backup_restores az b [] m h = absurd (omega arith)
place_backup_restores az b (n ∷ nodes) [] h = absurd (omega arith)
place_backup_restores az b (n ∷ nodes) (none ∷ m) h = elim (Bool-cases (n.az == az)) [
  | inl e ↦
      (λ j. ground (arith, e), λ z. ground (arith, e, eq_iff n.az az, eq_iff n.az z, eq_iff az z))
  | inr e ↦
      (let (r, f) = place_backup_restores az b nodes m (ground (arith, e, h)) in
        (λ j. ground (arith, e, r j), λ z. ground (arith, e, f z)))
]
place_backup_restores az b (n ∷ nodes) (some i ∷ m) h =
    let (r, f) = place_backup_restores az b nodes m (ground (arith, h)) in
    (λ j. ground (arith, r j), λ z. ground (arith, f z))

abbrev in_zone : String → SnapshotResult → Bool
in_zone az r = r.az == az

-- whether the snapshot of an index, counted from `i`, is of the zone
abbrev zone_at : String → ℕ → List SnapshotResult → ℕ → Bool
zone_at az i [] j = false
zone_at az i (r ∷ rs) j = if i == j then in_zone az r else zone_at az (suc i) rs j

zone_at-below :
    (az : String) (i : ℕ) (rs : List SnapshotResult) (j : ℕ) → j < i → zone_at az i rs j ≡ false
zone_at-below az i [] j h = refl
zone_at-below az i (r ∷ rs) j h = ground (arith, zone_at-below az (suc i) rs j)

place_zone_restores :
    (backup_az az : String) (nodes : List CoordinatorNode) (i : ℕ) (rs : List SnapshotResult)
    (m : NodeToBackup)
    → total (λ r. one_if (in_zone backup_az r)) rs ≤ free az nodes m
    → ((j : ℕ)
        → restored j (place_zone backup_az az nodes i rs m)
          ≡ restored j m + one_if (zone_at backup_az i rs j))
      × ((z : String)
          → z ≢ az
          → free z nodes (place_zone backup_az az nodes i rs m) ≡ free z nodes m)
unfolding place_zone
place_zone_restores backup_az az nodes i [] m h = (λ j. omega arith, λ z n. refl)
place_zone_restores backup_az az nodes i (r ∷ rs) m h = elim (Bool-cases (r.az == backup_az)) [
  | inl e ↦
      (let (p, f) = place_backup_restores az i nodes m (ground (arith, e, h)) in
        let (p', f') =
          place_zone_restores backup_az az nodes (suc i) rs (place_backup az i nodes m)
            (ground (arith, e, h, f az, eq_iff az az)) in
        (
          λ j. ground (arith, e, p j, p' j, zone_at-below backup_az (suc i) rs j),
          λ z n. ground (arith, e, f z, f' z n, eq_iff az z, n),
        ))
  | inr e ↦
      (let (p', f') = place_zone_restores backup_az az nodes (suc i) rs m (ground (arith, e, h)) in
        (
          λ j. ground (arith, e, p' j, zone_at-below backup_az (suc i) rs j),
          λ z n. ground (arith, e, f' z n),
        ))
]

-- what is left of the nodes' zones once one of them was used
others_keep :
    (n : String) (nodes : List CoordinatorNode) (m m' : NodeToBackup) (ns : Counts)
    → key_count n ns ≡ 0
    → ((z : String) → z ≢ n → free z nodes m' ≡ free z nodes m)
    → All (λ p. p.1 ≤ free p.0 nodes m) ns
    → All (λ p. p.1 ≤ free p.0 nodes m') ns
others_keep n nodes m m' [] h f v = tt
others_keep n nodes m m' ((k, q) ∷ ns) h f v =
    (ground (arith, v.0, h, eq_iff k n, f k), others_keep n nodes m m' ns (ground (arith, h)) f v.1)

place_zones_restores :
    (results : List SnapshotResult) (nodes : List CoordinatorNode) (bs ns : Counts)
    (m out : NodeToBackup)
    → length bs ≤ length ns
    → All (λ p. p.1 ≡ total (λ r. one_if (in_zone p.0 r)) results) bs
    → All (λ p. p.1 ≤ free p.0 nodes m) ns
    → ((k : String) → key_count k ns ≤ 1)
    → place_zones results nodes bs ns m ≡ returned out
    → (j : ℕ) → restored j out ≡ restored j m + total (λ p. one_if (zone_at p.0 0 results j)) bs
unfolding place_zones
place_zones_restores results nodes [] ns m out l t v u e j = ground (arith, e)
place_zones_restores results nodes (b ∷ bs) [] m out l t v u e j = absurd (omega arith)
place_zones_restores results nodes ((b, p) ∷ bs) ((n, q) ∷ ns) m out l t v u e j =
    let enough : p ≤ q = ground (arith, e) in
    let (r, f) = place_zone_restores b n nodes 0 results m (omega (arith, enough, t.0, v.0)) in
    let m' = place_zone b n nodes 0 results m in
    let next =
      place_zones_restores results nodes bs ns m' out (omega (arith, l)) t.1
        (others_keep n nodes m m' ns (ground (arith, u n, eq_iff n n)) f v.1)
        (λ k. omega (arith, u k)) (ground (arith, e, enough)) j in
    omega (arith, next, r j)

total-map :
    (f : String → ℕ) (rs : List SnapshotResult)
    → total f (map (λ r. r.az) rs) ≡ total (λ r. f r.az) rs
total-map f [] = refl
total-map f (r ∷ rs) = ap (λ n. f r.az + n) (total-map f rs)

free-fresh :
    (az : String) (nodes : List CoordinatorNode)
    → free az nodes (replicate (length nodes) none) ≡ occurrences az (map (λ n. n.az) nodes)
free-fresh az [] = refl
free-fresh az (n ∷ nodes) = ground (arith, free-fresh az nodes)

-- An index beyond the snapshots is in no zone, and any other in that of its snapshot.
zone_of :
    (i : ℕ) (rs : List SnapshotResult) (k j : ℕ)
    → j ≡ i + k
    → ((length rs ≤ k) × ((az : String) → zone_at az i rs j ≡ false))
      ⊎ ((k < length rs)
          × (zone : String) × (0 < occurrences zone (map (λ r. r.az) rs))
          × ((az : String) → zone_at az i rs j ≡ (zone == az)))
zone_of i [] k j e = inl (omega arith, λ az. refl)
zone_of i (r ∷ rs) zero j e =
    inr (omega arith, r.az, ground (arith, ==_refl r.az), λ az. ground (arith, e))
zone_of i (r ∷ rs) (suc k) j e = elim (zone_of (suc i) rs k j (omega (arith, e))) [
  | inl (l, f) ↦ inl (omega (arith, l), λ az. ground (arith, e, f az))
  | inr (l, zone, o, f) ↦
      inr (omega (arith, l), zone, omega (arith, o), λ az. ground (arith, e, f az))
]

total-none :
    (results : List SnapshotResult) (j : ℕ) (bs : Counts)
    → ((az : String) → zone_at az 0 results j ≡ false)
    → total (λ p. one_if (zone_at p.0 0 results j)) bs ≡ 0
total-none results j [] f = refl
total-none results j (b ∷ bs) f = ground (arith, f b.0, total-none results j bs f)

total-zone :
    (results : List SnapshotResult) (j : ℕ) (zone : String) (bs : Counts)
    → ((az : String) → zone_at az 0 results j ≡ (zone == az))
    → total (λ p. one_if (zone_at p.0 0 results j)) bs ≡ key_count zone bs
total-zone results j zone [] f = refl
total-zone results j zone (b ∷ bs) f =
    ground (arith, f b.0, total-zone results j zone bs f, eq_iff zone b.0, eq_iff b.0 zone)

restored-fresh : (j n : ℕ) → restored j (replicate n none) ≡ 0
restored-fresh j zero = refl
restored-fresh j (suc n) = omega (arith, restored-fresh j n)

abbrev zones : List SnapshotResult → List String
zones results = map (λ r. r.az) results

abbrev node_zones : List CoordinatorNode → List String
node_zones nodes = map (λ n. n.az) nodes

from_azs_restores :
    (results : List SnapshotResult) (nodes : List CoordinatorNode) (out : NodeToBackup)
    → length (counter (zones results)) ≤ length (counter (node_zones nodes))
    → get_node_to_backup_index_from_azs results nodes
        (counter (zones results))
        (counter (node_zones nodes))
      ≡ returned out
    → (j : ℕ)
    → restored j out
      ≡ total (λ p. one_if (zone_at p.0 0 results j)) (most_common (counter (zones results)))
unfolding get_node_to_backup_index_from_azs
from_azs_restores results nodes out l e j =
    let (told, _) = most_common-IsCounter (zones results) in
    let (held, keys) = most_common-IsCounter (node_zones nodes) in
    let all =
      place_zones_restores results nodes (most_common (counter (zones results)))
        (most_common (counter (node_zones nodes))) (replicate (length nodes) none) out
        (omega (
          arith,
          l,
          length-most_common (counter (zones results)),
          length-most_common (counter (node_zones nodes)),
        ))
        (All-map (λ p. λ h. h ∙ total-map (λ z. one_if (z == p.0)) results)
          (most_common (counter (zones results))) told)
        (All-map (λ p. λ h. omega (arith, h, free-fresh p.0 nodes))
          (most_common (counter (node_zones nodes))) held)
        (λ k. ground (arith, keys k)) e j in
    omega (arith, all, restored-fresh j (length nodes))

-- A restore of a whole backup, where it does not raise, maps each snapshot of the backup to exactly
-- one node.
pub get_node_to_backup_index-restores :
    (results : List SnapshotResult) (nodes : List CoordinatorNode) (mapping : NodeToBackup)
    → get_node_to_backup_index none results nodes ≡ returned mapping
    → (j : ℕ) → restored j mapping ≡ one_if (ltb j (length results))
unfolding get_node_to_backup_index by_azs
get_node_to_backup_index-restores results nodes mapping e j =
    let l : length (counter (zones results)) ≤ length (counter (node_zones nodes)) =
      ground (arith, e) in
    let found = from_azs_restores results nodes mapping l (ground (arith, e, l)) j in
    elim (zone_of 0 results j j (omega arith)) [
      | inl (beyond, f) ↦
          ground
            (arith, found, beyond, total-none results j (most_common (counter (zones results))) f)
      | inr (within, zone, o, f) ↦ ground (
        arith,
        found,
        within,
        o,
        total-zone results j zone (most_common (counter (zones results))) f,
        (most_common-IsCounter (zones results)).1 zone,
      )
    ]
