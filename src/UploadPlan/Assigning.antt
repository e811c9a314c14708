-- ===== src/UploadPlan/Assigning.antt =====
-- The loop that assigns each hash to the least loaded of its nodes.
use astacus.Prelude.{
  ℕ, zero, suc, ◌+◌, ◌≡◌, refl, subst, ◌∙◌, true, false, not, ◌&&◌, ◌||◌, some, String, List, [],
  ◌∷◌, ◌++◌, arith, ◌==◌, string_eq, nat_eq, one_if, contains, get_elem?, set, total, ltb, All,
  All-append, Bool-cases, inl, inr,
}
use astacus.Exceptions.{returned, ◌>>=◌, bind-eq-returned}
use astacus.Ipc.{SnapshotHash, SnapshotResult, hash_eq}
use astacus.UploadPlan.{
  Groups, NodeIndexData, append_sshash, load_of, least_from, least_loaded, append_at, assign,
  hashes_of,
}
use astacus.UploadPlan.Grouping.{IsGroup, holds_at}

-- how often a hash is assigned
abbrev pub hash_count : SnapshotHash → List SnapshotHash → ℕ
hash_count h = total (λ k. one_if (k == h))

abbrev pub assigned_count : SnapshotHash → List NodeIndexData → ℕ
assigned_count h = total (λ d. hash_count h d.sshashes)

-- each node's data has its index, and hashes of its own snapshot only
abbrev pub Fits : List SnapshotResult → List ℕ → List NodeIndexData → Type 0
Fits [] [] [] = Unit
Fits (r ∷ rs) (n ∷ ns) (d ∷ ds) =
    ((d.node_index ≡ n) × All (λ h. contains (hashes_of r) h ≡ true) d.sshashes) × Fits rs ns ds
Fits _ _ _ = ⊥

data_at :
    (rs : List SnapshotResult) (ns : List ℕ) (ds : List NodeIndexData) (i : ℕ) (h : SnapshotHash)
    → Fits rs ns ds
    → holds_at rs i h ≡ true
    → (d : NodeIndexData) × (get_elem? ds i ≡ some d)
data_at [] [] [] i h f e = ground (arith, e)
data_at [] [] (d' ∷ ds) i h f e = elim f [ ]
data_at [] (n ∷ ns) ds i h f e = elim f [ ]
data_at (r ∷ rs) [] ds i h f e = elim f [ ]
data_at (r ∷ rs) (n ∷ ns) [] i h f e = elim f [ ]
data_at (r ∷ rs) (n ∷ ns) (d ∷ ds) zero h f e = (d, refl)
data_at (r ∷ rs) (n ∷ ns) (d ∷ ds) (suc i) h f e = data_at rs ns ds i h f.1 e

set-Fits :
    (rs : List SnapshotResult) (ns : List ℕ) (ds : List NodeIndexData) (i : ℕ) (h : SnapshotHash)
    (d : NodeIndexData)
    → Fits rs ns ds
    → holds_at rs i h ≡ true
    → get_elem? ds i ≡ some d
    → Fits rs ns (set ds i (append_sshash h d))
unfolding append_sshash
set-Fits [] [] [] i h d f e g = tt
set-Fits [] [] (d' ∷ ds) i h d f e g = elim f [ ]
set-Fits [] (n ∷ ns) ds i h d f e g = elim f [ ]
set-Fits (r ∷ rs) [] ds i h d f e g = elim f [ ]
set-Fits (r ∷ rs) (n ∷ ns) [] i h d f e g = elim f [ ]
set-Fits (r ∷ rs) (n ∷ ns) (c ∷ ds) zero h d f e g =
    let same : c ≡ d = cc in
    subst (λ x. Fits (r ∷ rs) (n ∷ ns) (append_sshash h x ∷ ds)) same
      (
        (
          f.0.0,
          All-append (λ k. contains (hashes_of r) k ≡ true) c.sshashes (h ∷ []) f.0.1 (e, tt),
        ),
        f.1,
      )
set-Fits (r ∷ rs) (n ∷ ns) (c ∷ ds) (suc i) h d f e g = (f.0, set-Fits rs ns ds i h d f.1 e g)

hash_count-append :
    (k h : SnapshotHash) (hs : List SnapshotHash)
    → hash_count k (hs ++ h ∷ []) ≡ hash_count k hs + one_if (h == k)
hash_count-append k h [] = omega arith
hash_count-append k h (j ∷ hs) = omega (arith, hash_count-append k h hs)

assigned_count-set :
    (ds : List NodeIndexData) (i : ℕ) (k h : SnapshotHash) (d : NodeIndexData)
    → get_elem? ds i ≡ some d
    → assigned_count k (set ds i (append_sshash h d)) ≡ assigned_count k ds + one_if (h == k)
unfolding append_sshash
assigned_count-set [] i k h d e = ground (arith, e)
assigned_count-set (c ∷ ds) zero k h d e =
    let same : c ≡ d = cc in
    subst
      (λ x. assigned_count k (append_sshash h x ∷ ds) ≡ assigned_count k (c ∷ ds) + one_if (h == k))
      same (omega (arith, hash_count-append k h c.sshashes))
assigned_count-set (c ∷ ds) (suc i) k h d e = omega (arith, assigned_count-set ds i k h d e)

module _ (rs : List SnapshotResult) (ns : List ℕ) (h : SnapshotHash) where
  abbrev Own : ℕ → Type 0
  Own i = holds_at rs i h ≡ true

  load_returns :
      (ds : List NodeIndexData) (i : ℕ)
      → Fits rs ns ds
      → Own i
      → (n : ℕ) × (load_of i ds ≡ (returned n, ds))
  unfolding load_of
  load_returns ds i f o = let (d, e) = data_at rs ns ds i h f o in (d.total_size, ground (arith, e))

  least_from_returns :
      (size index : ℕ) (is : List ℕ) (ds : List NodeIndexData)
      → Fits rs ns ds
      → Own index
      → All Own is
      → (i : ℕ) × (least_from size index is ds ≡ (returned i, ds)) × Own i
  unfolding least_from
  least_from_returns size index [] ds f o os = (index, refl, o)
  least_from_returns size index (j ∷ is) ds f o os =
      let (n, e) = load_returns ds j f os.0 in
      elim (Bool-cases (ltb n size || (n == size && ltb j index))) [
        | inl t ↦
            (let (i, k, p) = least_from_returns n j is ds f os.0 os.1 in
              (i, ground (arith, e, t, k), p))
        | inr t ↦
            (let (i, k, p) = least_from_returns size index is ds f o os.1 in
              (i, ground (arith, e, t, k), p))
      ]

  least_loaded_returns :
      (i : ℕ) (is : List ℕ) (ds : List NodeIndexData)
      → Fits rs ns ds
      → IsGroup rs (h, i ∷ is)
      → (j : ℕ) × (least_loaded (i ∷ is) ds ≡ (returned j, ds)) × Own j
  unfolding least_loaded
  least_loaded_returns i is ds f g =
      let (n, e) = load_returns ds i f g.0 in
      let (j, k, o) = least_from_returns n i is ds f g.0 g.1 in (j, ground (arith, e, k), o)

  -- One round of the loop assigns the hash once, to a node that has it.
  place_returns :
      (i : ℕ) (is : List ℕ) (ds : List NodeIndexData)
      → Fits rs ns ds
      → IsGroup rs (h, i ∷ is)
      → (out : List NodeIndexData) × ((least_loaded (i ∷ is) >>= λ j. append_at j h) ds
          ≡ (returned tt, out))
        × Fits rs ns out
        × ((k : SnapshotHash) → assigned_count k out ≡ assigned_count k ds + one_if (h == k))
  unfolding append_at
  place_returns i is ds f g =
      let (j, e, o) = least_loaded_returns i is ds f g in
      let (d, at) = data_at rs ns ds j h f o in
      (
        set ds j (append_sshash h d),
        ground (arith, e, at),
        set-Fits rs ns ds j h d f o at,
        λ k. assigned_count-set ds j k h d at,
      )

-- what one group adds to the count of a hash
abbrev pub due : List String → SnapshotHash → SnapshotHash × List ℕ → ℕ
due hexdigests k (h, is) = one_if (h == k && not (contains hexdigests h.hexdigest))

assign_skip :
    (hexdigests : List String) (h : SnapshotHash) (is : List ℕ) (todo : Groups)
    (ds : List NodeIndexData)
    → contains hexdigests h.hexdigest ≡ true
    → assign hexdigests ((h, is) ∷ todo) ds ≡ assign hexdigests todo ds
unfolding assign
assign_skip hexdigests h is todo ds e = ground (arith, e)

assign_step :
    (hexdigests : List String) (h : SnapshotHash) (is : List ℕ) (todo : Groups)
    (ds out : List NodeIndexData)
    → contains hexdigests h.hexdigest ≡ false
    → (least_loaded is >>= λ j. append_at j h) ds ≡ (returned tt, out)
    → assign hexdigests ((h, is) ∷ todo) ds ≡ assign hexdigests todo out
unfolding assign
assign_step hexdigests h is todo ds out e k =
    let (j, mid, chosen, put) = bind-eq-returned (least_loaded is) (λ j. append_at j h) ds k in
    ground (arith, e, chosen, put)

-- From data that fit, the loop returns; the data still fit, and each hash of a group that is not in
-- the storage is assigned once more.
pub assign_returns :
    (rs : List SnapshotResult) (ns : List ℕ) (hexdigests : List String) (todo : Groups)
    (ds : List NodeIndexData)
    → Fits rs ns ds
    → All (IsGroup rs) todo
    → (out : List NodeIndexData) × (assign hexdigests todo ds ≡ (returned tt, out))
      × Fits rs ns out
      × ((k : SnapshotHash)
          → assigned_count k out ≡ assigned_count k ds + total (due hexdigests k) todo)
unfolding assign
assign_returns rs ns hexdigests [] ds f g = (ds, refl, f, λ k. omega arith)
assign_returns rs ns hexdigests ((h, []) ∷ todo) ds f g = elim g.0 [ ]
assign_returns rs ns hexdigests ((h, i ∷ is) ∷ todo) ds f g =
    elim (Bool-cases (contains hexdigests h.hexdigest)) [
      | inl e ↦
          (let (out, r, f', c) = assign_returns rs ns hexdigests todo ds f g.1 in
            (out, assign_skip hexdigests h (i ∷ is) todo ds e ∙ r, f', λ k. ground (arith, c k, e)))
      | inr e ↦
          (let (mid, r, f', c) = place_returns rs ns h i is ds f g.0 in
            let (out, r', f'', c') = assign_returns rs ns hexdigests todo mid f' g.1 in
            (
              out,
              assign_step hexdigests h (i ∷ is) todo ds mid e r ∙ r',
              f'',
              λ k. ground (arith, c k, c' k, e),
            ))
    ]
