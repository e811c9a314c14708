-- ===== src/ZooKeeper/Tree.antt =====
-- Every node of the storage but a first part has its parent there.
use astacus.Prelude.{
  ℕ, suc, ◌≡◌, refl, sym, subst, Bool, true, false, List, [], ◌∷◌, ◌++◌, String, map, arith, ◌⊎◌,
  inl, inr, insert, remove, lookup-insert, lookup-remove, contains, contains-filter,
  contains-sorted, if◌then◌else◌, Bool-cases, sorted, ap, ◌∙◌, ◌==◌,
}
use astacus.ZooKeeper.{
  Parts, parts_eq, parts_beq_iff, Storage, has_node, make_parents, create_locked, parent, parts_le,
  Event, under, nodes_under, delete_all, delete_locked, commit_loop, commit_locked, Operations,
  Result, ok, failed, failed_results, Progress, ZkError, created, no_node, completed, stopped,
}

-- each node other than `p` has its parent
abbrev ClosedBut : Storage → Parts → Type 0
ClosedBut s p =
    (x : String) (q : Parts)
    → has_node s (x ∷ q) ≡ true
    → (q ≡ []) ⊎ (has_node s q ≡ true) ⊎ (q ≡ p)

abbrev pub IsTree : Storage → Type 0
IsTree s = (x : String) (q : Parts) → has_node s (x ∷ q) ≡ true → (q ≡ []) ⊎ (has_node s q ≡ true)

pub has_node-insert :
    (s : Storage) (p : Parts) (v : String) (q : Parts)
    → has_node (insert s p v) q ≡ (if p == q then true else has_node s q)
unfolding has_node
has_node-insert s p v q = ground (arith, lookup-insert s p v q)

has_node-remove :
    (s : Storage) (p q : Parts) → has_node (remove s p) q ≡ (if p == q then false else has_node s q)
unfolding has_node
has_node-remove s p q = ground (arith, lookup-remove s p q)

insert-ClosedBut :
    (s : Storage) (x : String) (p : Parts) (v : String)
    → ClosedBut s (x ∷ p)
    → ClosedBut (insert s (x ∷ p) v) p
insert-ClosedBut s x p v h y q k = ground (
  arith,
  has_node-insert s (x ∷ p) v (y ∷ q),
  has_node-insert s (x ∷ p) v q,
  h y q,
  parts_beq_iff (x ∷ p) (y ∷ q),
  parts_beq_iff (x ∷ p) q,
)

make_parents_found :
    (makepath : Bool) (s : Storage) (x : String) (p : Parts)
    → has_node s (x ∷ p) ≡ true
    → make_parents makepath s (x ∷ p) ≡ (ok (x ∷ p), s)
unfolding make_parents
make_parents_found makepath s x p h = ground (arith, h)

make_parents_missing :
    (s : Storage) (x : String) (p : Parts)
    → has_node s (x ∷ p) ≡ false
    → make_parents true s (x ∷ p) ≡ make_parents true (insert s (x ∷ p) "") p
unfolding make_parents
make_parents_missing s x p h = ground (arith, h)

make_parents_refused :
    (s : Storage) (x : String) (p : Parts)
    → has_node s (x ∷ p) ≡ false
    → make_parents false s (x ∷ p) ≡ (failed (no_node (x ∷ p)), s)
unfolding make_parents
make_parents_refused s x p h = ground (arith, h)

make_parents-IsTree :
    (makepath : Bool) (s : Storage) (p q : Parts) (t : Storage)
    → ClosedBut s p
    → make_parents makepath s p ≡ (ok q, t)
    → IsTree t
unfolding make_parents
make_parents-IsTree makepath s [] q t h e =
    subst IsTree (ap (λ r. r.1) e) (λ y r k. ground (arith, h y r k))
make_parents-IsTree true s (x ∷ p) q t h e = elim (Bool-cases (has_node s (x ∷ p))) [
  | inl found ↦
      subst IsTree (ap (λ r. r.1) (sym (make_parents_found true s x p found) ∙ e))
        (λ y r k. ground (arith, h y r k, found))
  | inr missing ↦
      make_parents-IsTree true (insert s (x ∷ p) "") p q t (insert-ClosedBut s x p "" h)
        (sym (make_parents_missing s x p missing) ∙ e)
]
make_parents-IsTree false s (x ∷ p) q t h e = elim (Bool-cases (has_node s (x ∷ p))) [
  | inl found ↦
      subst IsTree (ap (λ r. r.1) (sym (make_parents_found false s x p found) ∙ e))
        (λ y r k. ground (arith, h y r k, found))
  | inr missing ↦ ground (arith, make_parents_refused s x p missing, e)
]

pub create_locked-IsTree :
    (parts : Parts) (value : String) (makepath : Bool) (s t : Storage) (q : Parts)
    → IsTree s
    → create_locked parts value makepath s ≡ (ok q, t)
    → IsTree t
unfolding create_locked
create_locked-IsTree [] value makepath s t q h e =
    make_parents-IsTree makepath (insert s [] value) [] q t
      (λ y r k.
        ground (arith, h y r, k, has_node-insert s [] value (y ∷ r), has_node-insert s [] value r))
      (ground (arith, e))
create_locked-IsTree (x ∷ p) value makepath s t q h e =
    make_parents-IsTree makepath (insert s (x ∷ p) value) p q t
      (insert-ClosedBut s x p value (λ y r k. ground (arith, h y r k))) (ground (arith, e))

pub delete_all-eq :
    (ps : List Parts) (s : Storage) (q : Parts)
    → has_node (delete_all ps s) q ≡ (if contains ps q then false else has_node s q)
unfolding delete_all
delete_all-eq [] s q = refl
delete_all-eq (p ∷ ps) s q = ground (arith, delete_all-eq ps (remove s p) q, has_node-remove s p q)

contains-keys : (s : Storage) (q : Parts) → contains (map (λ n. n.0) s) q ≡ has_node s q
unfolding has_node
contains-keys [] q = refl
contains-keys ((p, v) ∷ s) q = ground (arith, contains-keys s q)

make_parents_succeeds : (s : Storage) (p : Parts) → (q : Parts) × ((make_parents true s p).0 ≡ ok q)
unfolding make_parents
make_parents_succeeds s [] = ([], refl)
make_parents_succeeds s (x ∷ p) = elim (Bool-cases (has_node s (x ∷ p))) [
  | inl e ↦ (x ∷ p, ground (arith, e))
  | inr e ↦
      (let (q, h) = make_parents_succeeds (insert s (x ∷ p) "") p in (q, ground (arith, e, h)))
]

-- A creation with its parents fails only for a node that is there, and then stores nothing.
pub create_locked_refused :
    (parts : Parts) (value : String) (s t : Storage) (x : ZkError)
    → create_locked parts value true s ≡ (failed x, t)
    → s ≡ t
unfolding create_locked
create_locked_refused parts value s t x e =
    let (q, h) = make_parents_succeeds (insert s parts value) (parent parts) in
    elim (Bool-cases (has_node s parts)) [
      | inl found ↦ ground (arith, e, found)
      | inr missing ↦ ground (arith, e, h, missing)
    ]

-- What a deletion of the nodes under a path leaves.
remaining :
    (parts : Parts) (s : Storage) (q : Parts)
    → has_node (delete_all (sorted parts_le (nodes_under parts s)) s) q
      ≡ (if under parts q then false else has_node s q)
unfolding nodes_under
remaining parts s q = ground (
  arith,
  delete_all-eq (sorted parts_le (nodes_under parts s)) s q,
  contains-sorted parts_le (nodes_under parts s) q,
  contains-filter (under parts) (map (λ n. n.0) s) q,
  contains-keys s q,
)

remaining-IsTree :
    (parts : Parts) (s : Storage)
    → IsTree s
    → IsTree (delete_all (sorted parts_le (nodes_under parts s)) s)
unfolding under
remaining-IsTree parts s h x q k =
    ground (arith, remaining parts s (x ∷ q), remaining parts s q, h x q)

-- A deletion that fails leaves the storage alone, and one that succeeds removes just the nodes
-- under the path.
pub delete_locked_cases :
    (parts : Parts) (recursive : Bool) (s : Storage)
    → ((delete_locked parts recursive s).1 ≡ s)
      ⊎ ((delete_locked parts recursive s).1 ≡ delete_all (sorted parts_le (nodes_under parts s)) s)
unfolding delete_locked
delete_locked_cases parts recursive s = ground arith

pub delete_locked-IsTree :
    (parts : Parts) (recursive : Bool) (s : Storage)
    → IsTree s
    → IsTree (delete_locked parts recursive s).1
delete_locked-IsTree parts recursive s h = elim (delete_locked_cases parts recursive s) [
  | inl e ↦ rw e h
  | inr e ↦ rw e (remaining-IsTree parts s h)
]

commit_step :
    (n : ℕ) (triggers : List Event) (p q : Parts) (v : String) (ops : Operations) (s t : Storage)
    → create_locked p v false s ≡ (ok q, t)
    → commit_loop n triggers ((p, v) ∷ ops) s
      ≡ commit_loop (suc n) (triggers ++ (q, created) ∷ []) ops t
unfolding commit_loop
commit_step n triggers p q v ops s t h = ground (arith, h)

commit_stop :
    (n : ℕ) (triggers : List Event) (p : Parts) (x : ZkError) (v : String) (ops : Operations)
    (s t : Storage)
    → create_locked p v false s ≡ (failed x, t)
    → commit_loop n triggers ((p, v) ∷ ops) s ≡ stopped n x
unfolding commit_loop
commit_stop n triggers p x v ops s t h = ground (arith, h)

pub Result-cases :
    {A B : Type 0} (r : Result ZkError A × B)
    → ((a : A) × (b : B) × (r ≡ (ok a, b))) ⊎ ((x : ZkError) × (b : B) × (r ≡ (failed x, b)))
Result-cases (ok a, b) = inl (a, b, refl)
Result-cases (failed x, b) = inr (x, b, refl)

-- Induction over the operations of a transaction that completed.
pub commit_loop-Ensures :
    (R : Operations → Storage → Storage → Type 0)
    → ((s : Storage) → R [] s s)
    → ((p q : Parts) (v : String) (ops : Operations) (s s' t : Storage)
        → create_locked p v false s ≡ (ok q, s')
        → R ops s' t
        → R ((p, v) ∷ ops) s t)
    → (n : ℕ) (triggers out : List Event) (ops : Operations) (s t : Storage)
    → commit_loop n triggers ops s ≡ completed out t
    → R ops s t
unfolding commit_loop
commit_loop-Ensures R done step n triggers out [] s t e =
    subst (R [] s) (ground (arith, e)) (done s)
commit_loop-Ensures R done step n triggers out ((p, v) ∷ ops) s t e =
    elim (Result-cases (create_locked p v false s)) [
      | inl (q, s', h) ↦ step p q v ops s s' t h (
          commit_loop-Ensures R done step (suc n) (triggers ++ (q, created) ∷ []) out ops s' t
            (sym (commit_step n triggers p q v ops s s' h) ∙ e))
      | inr (x, s', h) ↦ ground (arith, commit_stop n triggers p x v ops s s' h, e)
    ]

commit_loop-IsTree :
    (n : ℕ) (triggers out : List Event) (ops : Operations) (s t : Storage)
    → commit_loop n triggers ops s ≡ completed out t
    → IsTree s
    → IsTree t
commit_loop-IsTree =
    commit_loop-Ensures (λ ops s t. IsTree s → IsTree t) (λ s h. h)
      (λ p q v ops s s' t e rest h. rest (create_locked-IsTree p v false s s' q h e))

Progress-cases :
    (r : Progress)
    → ((out : List Event) × (t : Storage) × (r ≡ completed out t))
      ⊎ ((n : ℕ) × (x : ZkError) × (r ≡ stopped n x))
Progress-cases (completed out t) = inl (out, t, refl)
Progress-cases (stopped n x) = inr (n, x, refl)

-- A transaction's commit either fails and leaves the storage alone, or runs all operations.
pub commit_locked_cases :
    (ops : Operations) (s : Storage)
    → ((n : ℕ) × (x : ZkError) × (commit_locked ops s ≡ (failed (failed_results n x ops), s)))
      ⊎ ((out : List Event) × (t : Storage) × (commit_loop 0 [] ops s ≡ completed out t)
          × (commit_locked ops s ≡ (ok out, t)))
unfolding commit_locked
commit_locked_cases ops s = elim (Progress-cases (commit_loop 0 [] ops s)) [
  | inl (out, t, e) ↦ inr (out, t, e, ground (arith, e))
  | inr (n, x, e) ↦ inl (n, x, ground (arith, e))
]

pub commit_locked-IsTree :
    (ops : Operations) (s : Storage) → IsTree s → IsTree (commit_locked ops s).1
commit_locked-IsTree ops s h = elim (commit_locked_cases ops s) [
  | inl (n, x, e) ↦ rw e h
  | inr (out, t, loop, e) ↦ rw e (commit_loop-IsTree 0 [] out ops s t loop h)
]
