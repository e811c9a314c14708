-- ===== src/UploadPlan/Grouping.antt =====
-- What the grouping of the hashes by their snapshots holds.
use astacus.Prelude.{
  ℕ, suc, ◌+◌, ◌≡◌, refl, Bool, true, false, ◌&&◌, ◌||◌, Option, none, some, List, [], ◌∷◌, arith,
  ◌==◌, contains, get_elem?, total, All, All-append, All-contains, Bool-cases, inl, inr, any,
  nat_eq, one_if, ap, subst, sym, ◌∙◌,
}
use astacus.Ipc.{SnapshotHash, SnapshotResult, hash_eq, hash_beq_iff}
use astacus.UploadPlan.{Groups, add_index, add_hashes, group_hashes, hashes_of}

-- whether some snapshot has the hash
abbrev pub known : List SnapshotResult → SnapshotHash → Bool
known rs h = any (λ r. contains (hashes_of r) h) rs

abbrev pub holds_in : Option SnapshotResult → SnapshotHash → Bool
holds_in none h = false
holds_in (some r) h = contains (hashes_of r) h

-- whether the snapshot of an index has the hash
abbrev pub holds_at : List SnapshotResult → ℕ → SnapshotHash → Bool
holds_at rs i h = holds_in (get_elem? rs i) h

-- how often a hash is a key
abbrev pub key_count : SnapshotHash → Groups → ℕ
key_count h = total (λ p. one_if (p.0 == h))

-- a group that is not empty and names snapshots that have the hash
abbrev pub IsGroup : List SnapshotResult → SnapshotHash × List ℕ → Type 0
IsGroup rs (h, []) = ⊥
IsGroup rs (h, i ∷ is) = (holds_at rs i h ≡ true) × All (λ j. holds_at rs j h ≡ true) is

key_count-add_index :
    (g : Groups) (k : SnapshotHash) (i : ℕ) (h : SnapshotHash)
    → key_count h (add_index g k i) ≡ key_count h g + one_if (k == h && (key_count k g == 0))
unfolding add_index
key_count-add_index [] k i h = ground arith
key_count-add_index ((j, is) ∷ g) k i h =
    ground
      (arith, key_count-add_index g k i h, hash_beq_iff j k, hash_beq_iff j h, hash_beq_iff k h)

abbrev Counted : (SnapshotHash → Bool) → Groups → Type 0
Counted seen g = (h : SnapshotHash) → key_count h g ≡ one_if (seen h)

add_hashes-Counted :
    (g : Groups) (hs : List SnapshotHash) (i : ℕ) (seen : SnapshotHash → Bool)
    → Counted seen g
    → Counted (λ h. seen h || contains hs h) (add_hashes g hs i)
unfolding add_hashes
add_hashes-Counted g [] i seen c h = ground (arith, c h)
add_hashes-Counted g (k ∷ hs) i seen c h = ground (
  arith,
  add_hashes-Counted (add_index g k i) hs i (λ j. seen j || k == j)
      (λ j. ground (arith, key_count-add_index g k i j, c j, c k, hash_beq_iff k j)) h,
)

group_hashes-Counted :
    (g : Groups) (rs : List SnapshotResult) (i : ℕ) (seen : SnapshotHash → Bool)
    → Counted seen g
    → Counted (λ h. seen h || known rs h) (group_hashes g rs i)
unfolding group_hashes
group_hashes-Counted g [] i seen c h = ground (arith, c h)
group_hashes-Counted g (r ∷ rs) i seen c h = ground (
  arith,
  group_hashes-Counted (add_hashes g (hashes_of r) i) rs (suc i)
      (λ j. seen j || contains (hashes_of r) j) (add_hashes-Counted g (hashes_of r) i seen c) h,
)

add_index-IsGroup :
    (rs : List SnapshotResult) (g : Groups) (k : SnapshotHash) (i : ℕ)
    → holds_at rs i k ≡ true
    → All (IsGroup rs) g
    → All (IsGroup rs) (add_index g k i)
unfolding add_index
add_index-IsGroup rs [] k i h v = ((h, tt), tt)
add_index-IsGroup rs ((j, []) ∷ g) k i h v = elim v.0 [ ]
add_index-IsGroup rs ((j, n ∷ is) ∷ g) k i h v = elim (Bool-cases (j == k)) [
  | inl e ↦ rw e (
    (
      v.0.0,
      All-append (λ m. holds_at rs m j ≡ true) is (i ∷ []) v.0.1
          (subst (λ x. holds_at rs i x ≡ true) (sym ((hash_beq_iff j k).0 e)) h, tt),
    ),
    v.1,
  )
  | inr e ↦ rw e (v.0, add_index-IsGroup rs g k i h v.1)
]

add_hashes-IsGroup :
    (rs : List SnapshotResult) (g : Groups) (hs : List SnapshotHash) (i : ℕ)
    → All (λ h. holds_at rs i h ≡ true) hs
    → All (IsGroup rs) g
    → All (IsGroup rs) (add_hashes g hs i)
unfolding add_hashes
add_hashes-IsGroup rs g [] i h v = v
add_hashes-IsGroup rs g (k ∷ hs) i h v =
    add_hashes-IsGroup rs (add_index g k i) hs i h.1 (add_index-IsGroup rs g k i h.0 v)

-- `rs` are the snapshots of `full` from the index `i` on.
abbrev IsFrom : List SnapshotResult → ℕ → List SnapshotResult → Type 0
IsFrom full i rs = (j : ℕ) → get_elem? full (i + j) ≡ get_elem? rs j

group_hashes-IsGroup :
    (full : List SnapshotResult) (g : Groups) (i : ℕ) (rs : List SnapshotResult)
    → IsFrom full i rs
    → All (IsGroup full) g
    → All (IsGroup full) (group_hashes g rs i)
unfolding group_hashes
group_hashes-IsGroup full g i [] f v = v
group_hashes-IsGroup full g i (r ∷ rs) f v =
    let here : get_elem? full i ≡ some r =
      subst (λ n. get_elem? full n ≡ some r) (omega arith) (f 0) in
    group_hashes-IsGroup full (add_hashes g (hashes_of r) i) (suc i) rs
      (λ j. subst (λ n. get_elem? full n ≡ get_elem? rs j) (omega arith) (f (suc j)))
      (add_hashes-IsGroup full g (hashes_of r) i
        (All-contains (λ h. holds_at full i h ≡ true) (hashes_of r)
          (λ h e. ap (λ o. holds_in o h) here ∙ e))
        v)

-- The groups of all snapshots: each hash that some snapshot has is a key once, and its indexes are
-- those of snapshots that have it.
pub all_groups-Counted :
    (rs : List SnapshotResult) (h : SnapshotHash)
    → key_count h (group_hashes [] rs 0) ≡ one_if (known rs h)
all_groups-Counted rs h = group_hashes-Counted [] rs 0 (λ k. false) (λ k. refl) h

pub All-groups-IsGroup : (rs : List SnapshotResult) → All (IsGroup rs) (group_hashes [] rs 0)
All-groups-IsGroup rs =
    group_hashes-IsGroup rs [] 0 rs (λ j. ap (λ n. get_elem? rs n) (omega arith)) tt
