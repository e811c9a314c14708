-- ===== src/UploadPlan/Plan.antt =====
-- What the plan of the uploads promises.
use astacus.Prelude.{
  ℕ, zero, suc, ◌≡◌, ◌≢◌, refl, sym, ap, true, not, ◌&&◌, some, String, List, [], ◌∷◌, map, arith,
  ◌==◌, string_eq, nat_eq, one_if, contains, get_elem?, length, total, total-sorted, All,
  All-sorted, List-cases, sorted, if◌then◌else◌, Bool-cases, inl, inr,
}
use astacus.Exceptions.{returned}
use astacus.Ipc.{SnapshotHash, SnapshotResult, hash_eq, hash_beq_iff}
use astacus.UploadPlan.{
  Groups, NodeIndexData, group_hashes, rarer_first, with_work, build_node_index_datas,
}
use astacus.UploadPlan.Grouping.{
  IsGroup, holds_at, known, key_count, all_groups-Counted, All-groups-IsGroup,
}
use astacus.UploadPlan.Assigning.{assigned_count, Fits, due, assign_returns}

-- the data are those of a node whose own snapshot has each of their hashes
abbrev pub IsOwner : List SnapshotResult → List ℕ → NodeIndexData → Type 0
IsOwner rs ns d =
    (i : ℕ) × (get_elem? ns i ≡ some d.node_index) × All (λ h. holds_at rs i h ≡ true) d.sshashes

-- Each hash of a snapshot that the storage lacks is uploaded once, and no other; each by a node that
-- has it; and each node of the plan has something to do.
pub record IsPlan (rs : List SnapshotResult) (ns : List ℕ) (hexdigests : List String)
    (plan : List NodeIndexData) : Type 0 where
  pub each_once :
      (h : SnapshotHash)
      → assigned_count h plan ≡ one_if (known rs h && not (contains hexdigests h.hexdigest))
  pub by_owners : All (IsOwner rs ns) plan
  pub has_work : All (λ d. d.sshashes ≢ []) plan

total-due :
    (hexdigests : List String) (k : SnapshotHash) (g : Groups)
    → total (due hexdigests k) g ≡ (if contains hexdigests k.hexdigest then 0 else key_count k g)
total-due hexdigests k [] = ground arith
total-due hexdigests k ((h, is) ∷ g) = elim (Bool-cases (h == k)) [
  | inl e ↦
      (let same : contains hexdigests h.hexdigest ≡ contains hexdigests k.hexdigest =
          ap (λ x. contains hexdigests x.hexdigest) ((hash_beq_iff h k).0 e) in
        ground (arith, total-due hexdigests k g, same, e))
  | inr e ↦ ground (arith, total-due hexdigests k g, e)
]

abbrev empty_data : ℕ → NodeIndexData
empty_data i = record { node_index = i; sshashes = []; total_size = 0 }

empty-Fits :
    (rs : List SnapshotResult) (ns : List ℕ)
    → length rs ≡ length ns
    → Fits rs ns (map empty_data ns)
empty-Fits [] [] h = tt
empty-Fits [] (n ∷ ns) h = omega arith
empty-Fits (r ∷ rs) [] h = omega arith
empty-Fits (r ∷ rs) (n ∷ ns) h = ((refl, tt), empty-Fits rs ns (omega arith))

assigned_count-empty : (k : SnapshotHash) (ns : List ℕ) → assigned_count k (map empty_data ns) ≡ 0
assigned_count-empty k [] = refl
assigned_count-empty k (n ∷ ns) = omega (arith, assigned_count-empty k ns)

assigned_count-with_work :
    (k : SnapshotHash) (ds : List NodeIndexData)
    → assigned_count k (with_work ds) ≡ assigned_count k ds
unfolding with_work
assigned_count-with_work k [] = refl
assigned_count-with_work k (d ∷ ds) = ground (arith, assigned_count-with_work k ds)

All-later :
    (r : SnapshotResult) (rs : List SnapshotResult) (n : ℕ) (ns : List ℕ) (ds : List NodeIndexData)
    → All (IsOwner rs ns) ds
    → All (IsOwner (r ∷ rs) (n ∷ ns)) ds
All-later r rs n ns [] h = tt
All-later r rs n ns (d ∷ ds) h = ((suc h.0.0, h.0.1, h.0.2), All-later r rs n ns ds h.1)

Fits-owners :
    (rs : List SnapshotResult) (ns : List ℕ) (ds : List NodeIndexData)
    → Fits rs ns ds
    → All (IsOwner rs ns) ds
Fits-owners [] [] [] f = tt
Fits-owners [] [] (d ∷ ds) f = elim f [ ]
Fits-owners [] (n ∷ ns) ds f = elim f [ ]
Fits-owners (r ∷ rs) [] ds f = elim f [ ]
Fits-owners (r ∷ rs) (n ∷ ns) [] f = elim f [ ]
Fits-owners (r ∷ rs) (n ∷ ns) (d ∷ ds) f =
    ((zero, ap some (sym f.0.0), f.0.1), All-later r rs n ns ds (Fits-owners rs ns ds f.1))

with_work-idle :
    (d : NodeIndexData) (ds : List NodeIndexData)
    → d.sshashes ≡ []
    → with_work (d ∷ ds) ≡ with_work ds
unfolding with_work
with_work-idle d ds e = ground (arith, e)

with_work-busy :
    (d : NodeIndexData) (ds : List NodeIndexData) (h : SnapshotHash) (hs : List SnapshotHash)
    → d.sshashes ≡ h ∷ hs
    → with_work (d ∷ ds) ≡ d ∷ with_work ds
unfolding with_work
with_work-busy d ds h hs e = ground (arith, e)

All-with_work :
    (P : NodeIndexData → Type 0) (ds : List NodeIndexData)
    → All P ds
    → All P (with_work ds) × All (λ d. d.sshashes ≢ []) (with_work ds)
All-with_work P [] h = unfold with_work in (tt, tt)
All-with_work P (d ∷ ds) h =
    let (p, w) = All-with_work P ds h.1 in
    elim (List-cases d.sshashes) [
      | inl e ↦ rw (with_work-idle d ds e) (p, w)
      | inr (k, ks, e) ↦
          rw (with_work-busy d ds k ks e) ((h.0, p), ((λ n. ground (arith, e, n)), w))
    ]

-- For as many snapshots as nodes the plan is made: it uploads each hash that the storage lacks once,
-- by a node that has it, nothing else, and leaves nodes without work out.
pub build_node_index_datas-IsPlan :
    (hexdigests : List String) (rs : List SnapshotResult) (ns : List ℕ)
    → length rs ≡ length ns
    → (plan : List NodeIndexData) × (build_node_index_datas hexdigests rs ns ≡ returned plan)
      × IsPlan rs ns hexdigests plan
unfolding build_node_index_datas
build_node_index_datas-IsPlan hexdigests rs ns h =
    let groups : Groups = sorted rarer_first (group_hashes [] rs 0) in
    let (out, returns, fits, count) =
      assign_returns rs ns hexdigests groups (map empty_data ns) (empty-Fits rs ns h)
        (All-sorted (IsGroup rs) rarer_first (group_hashes [] rs 0) (All-groups-IsGroup rs)) in
    let (owners, work) = All-with_work (IsOwner rs ns) out (Fits-owners rs ns out fits) in
    (
      with_work out,
      ground (arith, h, returns),
      record {
        each_once = λ k. ground (
          arith,
          assigned_count-with_work k out,
          count k,
          assigned_count-empty k ns,
          total-due hexdigests k groups,
          total-sorted rarer_first (λ p. one_if (p.0 == k)) (group_hashes [] rs 0),
          all_groups-Counted rs k,
        );
        by_owners = owners;
        has_work = work;
      },
    )
