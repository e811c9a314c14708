-- ===== src/ZooKeeper/Commit.antt =====
-- A transaction does all of its operations or none.
use astacus.Prelude.{
  ℕ, zero, suc, ◌≡◌, refl, subst, ap, ◌∙◌, false, none, some, List, [], ◌∷◌, String, map, arith,
  ◌⊎◌, inl, inr, lookup, insert, lookup-insert, contains, All, length, length-map,
}
use astacus.ZooKeeper.{
  Parts, parts_eq, parts_beq_iff, Storage, has_node, make_parents, create_locked, parent,
  commit_locked, Operations, ok, failed, failed_results, ZkError, Event,
}
use astacus.ZooKeeper.Tree.{commit_loop-Ensures, commit_locked_cases}

-- None of the operations' nodes was there; all of them are there now with their values, and every
-- other node is as it was.
pub record AllDone (ops : Operations) (s t : Storage) : Type 0 where
  pub were_absent : All (λ o. lookup s o.0 ≡ none) ops
  pub are_present : All (λ o. lookup t o.0 ≡ some o.1) ops
  pub others : (q : Parts) → contains (map (λ o. o.0) ops) q ≡ false → lookup t q ≡ lookup s q

make_parents_keeps : (s : Storage) (p : Parts) → (make_parents false s p).1 ≡ s
unfolding make_parents
make_parents_keeps s [] = refl
make_parents_keeps s (x ∷ p) = ground arith

create_locked_made :
    (p q : Parts) (v : String) (s t : Storage)
    → create_locked p v false s ≡ (ok q, t)
    → (lookup s p ≡ none) × (t ≡ insert s p v)
unfolding create_locked has_node
create_locked_made p q v s t e =
    (ground (arith, e), ground (arith, e, make_parents_keeps (insert s p v) (parent p)))

absent_before :
    (p : Parts) (v : String) (ops : Operations) (s : Storage)
    → All (λ o. lookup (insert s p v) o.0 ≡ none) ops
    → All (λ o. lookup s o.0 ≡ none) ops
absent_before p v [] s h = tt
absent_before p v (o ∷ ops) s h =
    (ground (arith, h.0, lookup-insert s p v o.0), absent_before p v ops s h.1)

not_among :
    (p : Parts) (v : String) (ops : Operations) (s : Storage)
    → All (λ o. lookup (insert s p v) o.0 ≡ none) ops
    → contains (map (λ o. o.0) ops) p ≡ false
not_among p v [] s h = refl
not_among p v (o ∷ ops) s h = ground (
  arith,
  h.0,
  lookup-insert s p v o.0,
  not_among p v ops s h.1,
  parts_beq_iff o.0 p,
  parts_beq_iff p o.0,
)

AllDone-step :
    (p q : Parts) (v : String) (ops : Operations) (s s' t : Storage)
    → create_locked p v false s ≡ (ok q, s')
    → AllDone ops s' t
    → AllDone ((p, v) ∷ ops) s t
AllDone-step p q v ops s s' t e done =
    let (absent, made) = create_locked_made p q v s s' e in
    let absent' = subst (λ x. All (λ o. lookup x o.0 ≡ none) ops) made done.were_absent in
    record {
      were_absent = (absent, absent_before p v ops s absent');
      are_present = (
        done.others p (not_among p v ops s absent')
            ∙ (ap (λ x. lookup x p) made
                ∙ ground (arith, lookup-insert s p v p, parts_beq_iff p p)),
        done.are_present,
      );
      others = λ r k.
          (done.others r (ground (arith, k))
            ∙ (ap (λ x. lookup x r) made
                ∙ ground (arith, lookup-insert s p v r, k, parts_beq_iff p r)));
    }

length-failed_results :
    (n : ℕ) (x : ZkError) (ops : Operations) → length (failed_results n x ops) ≡ length ops
unfolding failed_results
length-failed_results n x [] = refl
length-failed_results zero x ((p, v) ∷ ops) =
    ap suc (length-map (λ o. ZkError.runtime_inconsistency o.0) ops)
length-failed_results (suc n) x ((p, v) ∷ ops) = ap suc (length-failed_results n x ops)

-- A commit either fails, with an error for each operation and the storage as it was, or returns
-- with all the operations done: their nodes are new, hold their values, and no other node changed.
pub commit_locked-IsAtomic :
    (ops : Operations) (s : Storage)
    → ((es : List ZkError) × (commit_locked ops s ≡ (failed es, s)) × (length es ≡ length ops))
      ⊎ ((out : List Event) × (t : Storage) × (commit_locked ops s ≡ (ok out, t)) × AllDone ops s t)
commit_locked-IsAtomic ops s = elim (commit_locked_cases ops s) [
  | inl (n, x, e) ↦ inl (failed_results n x ops, e, length-failed_results n x ops)
  | inr (out, t, loop, e) ↦ inr (
    out,
    t,
    e,
    commit_loop-Ensures AllDone
        (λ s. record { were_absent = tt; are_present = tt; others = λ q k. refl }) AllDone-step 0 []
        out ops s t loop,
  )
]
