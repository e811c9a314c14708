-- ===== src/Progress/Bounds.antt =====
-- What a run of calls on one Progress object leaves behind (astacus/common/progress.py).
use astacus.Prelude.{
  ℕ, suc, ◌+◌, ◌≤◌, ◌≡◌, refl, Bool, true, false, List, [], ◌∷◌, arith, length, if◌then◌else◌, ◌⊎◌,
}
use astacus.Exceptions.{Outcome, assertion, returned, raised, Method, pure, ◌>>◌, bind-eq-returned}
use astacus.Progress.{Progress, add_total, start, add_fail, add_success, done, wrap_items, wrap}

pub data Call : Type 0 where
  total success fail begin : ℕ → Call
  finish : Call

unfoldable pub call : Call → Method Progress (Unit {0})
unfolding add_total start add_fail add_success done
call (total n) = add_total n
call (success n) = add_success n
call (fail n) = add_fail n
call (begin n) = start n
call finish = done

unfoldable pub run_calls : List Call → Method Progress (Unit {0})
run_calls [] = pure tt
run_calls (c ∷ cs) = do call c; run_calls cs

-- what each call should add to the meter
abbrev pub added_total : List Call → ℕ
added_total [] = 0
added_total (total n ∷ cs) = n + added_total cs
added_total (begin n ∷ cs) = n + added_total cs
added_total (_ ∷ cs) = added_total cs

abbrev pub added_success : List Call → ℕ
added_success [] = 0
added_success (success n ∷ cs) = n + added_success cs
added_success (_ ∷ cs) = added_success cs

abbrev pub added_fail : List Call → ℕ
added_fail [] = 0
added_fail (fail n ∷ cs) = n + added_fail cs
added_fail (_ ∷ cs) = added_fail cs

pub record IsAccounted (cs : List Call) (p q : Progress) : Type 0 where
  pub total : q.total ≡ p.total + added_total cs
  pub handled : q.handled ≡ p.handled + added_success cs
  pub failed : q.failed ≡ p.failed + added_fail cs
  pub within : q.handled ≤ q.total

call-IsAccounted :
    (c : Call) (p q : Progress)
    → p.handled ≤ p.total
    → call c p ≡ (returned tt, q)
    → IsAccounted (c ∷ []) p q
unfolding call
call-IsAccounted (total n) p q w h = ground arith
call-IsAccounted (success n) p q w h = ground arith
call-IsAccounted (fail n) p q w h = ground arith
call-IsAccounted (begin n) p q w h = ground arith
call-IsAccounted finish p q w h = ground arith

IsAccounted-cons :
    (c : Call) (cs : List Call) {p mid q : Progress}
    → IsAccounted (c ∷ []) p mid
    → IsAccounted cs mid q
    → IsAccounted (c ∷ cs) p q
IsAccounted-cons (total n) cs h k = omega arith
IsAccounted-cons (success n) cs h k = omega arith
IsAccounted-cons (fail n) cs h k = omega arith
IsAccounted-cons (begin n) cs h k = omega arith
IsAccounted-cons finish cs h k = omega arith

-- If a run of calls raises nothing, the meter has grown by exactly what the calls said, and no more
-- is handled than the total.
pub run_calls-IsAccounted :
    (cs : List Call) (p q : Progress)
    → p.handled ≤ p.total
    → run_calls cs p ≡ (returned tt, q)
    → IsAccounted cs p q
unfolding run_calls
run_calls-IsAccounted [] p q w h = ground arith
run_calls-IsAccounted (c ∷ cs) p q w h =
    let (_, mid, first, rest) = bind-eq-returned (call c) (λ _. run_calls cs) p h in
    IsAccounted-cons c cs (call-IsAccounted c p mid w first)
      (run_calls-IsAccounted cs mid q (call-IsAccounted c p mid w first).within rest)

-- A finished meter is frozen: whatever is added to it with a positive count raises AssertionError.
pub finished_is_frozen :
    (c : Call) (p : Progress)
    → p.final ≡ true
    → ((call c p).0 ≡ raised assertion) ⊎ ((c ≡ total 0) ⊎ (c ≡ begin 0))
unfolding call
finished_is_frozen (total n) p h = ground arith
finished_is_frozen (success n) p h = ground arith
finished_is_frozen (fail n) p h = ground arith
finished_is_frozen (begin n) p h = ground arith
finished_is_frozen finish p h = ground arith

-- A plain loop over the items, up to the first one whose work raises, and the number of items
-- that were finished.
abbrev pub for_each {ℓ κ} :
    {A : Type ℓ} {C : Type κ}
    → (A → Method C (Unit {0}))
    → List A
    → C
    → (Outcome (Unit {0}) × C) × ℕ
for_each work [] c = ((returned tt, c), 0)
for_each work (x ∷ xs) c =
    let (r, c') = work x c in
    let (rest, n) = for_each work xs c' in
    elim r [ raised e ↦ ((raised e, c'), 0) | returned _ ↦ (rest, suc n) ]

-- the same work, which leaves the meter alone
abbrev pub beside_meter {ℓ κ} :
    {A : Type ℓ} {C : Type κ} → (A → Method C (Unit {0})) → A → Method (Progress × C) (Unit {0})
beside_meter work x (p, c) = let (r, c') = work x c in (r, (p, c'))

-- the outcome and the consumer's state of the plain loop, with as many items handled as it finished
abbrev counted {ℓ} :
    {C : Type ℓ} → Progress → (Outcome (Unit {0}) × C) × ℕ → Outcome (Unit {0}) × (Progress × C)
counted p ((r, c), n) = (r, (record p { handled = p.handled + n }, c))

module _ {ℓ κ} {A : Type ℓ} {C : Type κ} (work : A → Method C (Unit {0})) where
  wrap_items_lem :
      (xs : List A) (p : Progress) (c : C)
      → p.handled + length xs ≤ p.total
      → p.final ≡ false
      → wrap_items xs (beside_meter work) (p, c) ≡ counted p (for_each work xs c)
  unfolding wrap_items
  wrap_items_lem [] p c h f = ground arith
  wrap_items_lem (x ∷ xs) p c h f =
      ground (arith, wrap_items_lem xs (record p { handled = p.handled + 1 }) (work x c).1)

  -- Wrapping a sized iterable, in an unfinished meter that has no more handled than its total and
  -- that the consumer leaves alone, hands the items to the consumer in order: the outcome and what
  -- the consumer leaves are those of a plain loop over them. The total grows by the length, and the
  -- handled ones by the items that were finished before the consumer raised, if it did. An iterable
  -- without a length hands the consumer no item, and the meter stays as it is.
  pub wrap_lem :
      (has_len : Bool) (xs : List A) (p : Progress) (c : C)
      → p.handled ≤ p.total
      → p.final ≡ false
      → wrap has_len xs (beside_meter work) (p, c) ≡ (
          if has_len
          then (
            (for_each work xs c).0.0,
            (
              record p {
                total = p.total + length xs;
                handled = p.handled + (for_each work xs c).1;
              },
              (for_each work xs c).0.1,
            ),
          )
          else (returned tt, (p, c)))
  unfolding wrap
  wrap_lem false xs p c h f = refl
  wrap_lem true [] p c h f = ground arith
  wrap_lem true (x ∷ xs) p c h f =
      ground (arith, wrap_items_lem (x ∷ xs) (record p { total = p.total + length (x ∷ xs) }) c)
