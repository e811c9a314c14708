-- ===== src/Progress/Merge.antt =====
-- `Progress.merge` of astacus/common/progress.py.
use astacus.Prelude.{
  ℕ, ◌+◌, ◌≤◌, ◌≡◌, Bool, ◌&&◌, List, [], ◌∷◌, arith, all, sum, map, All, ◌==◌, nat_eq,
}
use astacus.Progress.{Progress, fresh, finished_successfully}

-- The argument, as an object with a state: a collection can be iterated again, and a generator has the
-- items that no iteration has taken yet.
pub data Iterable : Type 0 where
  collection generator : List Progress → Iterable

-- a whole iteration: the items that it yields, and the object afterwards
iterate : Iterable → List Progress × Iterable
iterate (collection ps) = (ps, collection ps)
iterate (generator ps) = (ps, generator [])

add_up : Progress → List Progress → Progress
add_up p [] = p
add_up p (q ∷ qs) =
    add_up
      (record p {
        handled = p.handled + q.handled;
        failed = p.failed + q.failed;
        total = p.total + q.total;
      })
      qs

unfoldable pub merge : Iterable → Progress
unfolding iterate add_up
merge progresses =
    let (summed, progresses') = iterate progresses in
    let (tested, _) = iterate progresses' in
    let p = add_up fresh summed in record p { final = all (λ q. q.final) tested }

abbrev handled_of : List Progress → ℕ
handled_of ps = sum (map (λ p. p.handled) ps)

abbrev failed_of : List Progress → ℕ
failed_of ps = sum (map (λ p. p.failed) ps)

abbrev total_of : List Progress → ℕ
total_of ps = sum (map (λ p. p.total) ps)

pub record IsSumOf (ps : List Progress) (p : Progress) : Type 0 where
  pub handled : p.handled ≡ sum (map (λ q. q.handled) ps)
  pub failed : p.failed ≡ sum (map (λ q. q.failed) ps)
  pub total : p.total ≡ sum (map (λ q. q.total) ps)

add_up-eq :
    (p : Progress) (qs : List Progress)
    → ((add_up p qs).handled ≡ p.handled + handled_of qs)
      × ((add_up p qs).failed ≡ p.failed + failed_of qs)
      × ((add_up p qs).total ≡ p.total + total_of qs)
unfolding add_up
add_up-eq p [] = omega arith
add_up-eq p (q ∷ qs) = omega (
  arith,
  add_up-eq
      (record p {
        handled = p.handled + q.handled;
        failed = p.failed + q.failed;
        total = p.total + q.total;
      })
      qs,
)

-- Merging adds the three counters up, whatever the kind of iterable.
pub merge-IsSumOf :
    (ps : List Progress) → IsSumOf ps (merge (collection ps)) × IsSumOf ps (merge (generator ps))
unfolding merge
merge-IsSumOf ps = (omega (arith, add_up-eq fresh ps), omega (arith, add_up-eq fresh ps))

-- A meter that handles no more than its total.
abbrev pub IsWithin : Progress → Type 0
IsWithin p = p.handled ≤ p.total

handled-le-total : (ps : List Progress) → All IsWithin ps → handled_of ps ≤ total_of ps
handled-le-total [] h = omega arith
handled-le-total (p ∷ ps) h = omega (arith, h.0, handled-le-total ps h.1)

sums_successful :
    (ps : List Progress)
    → All IsWithin ps
    → all (λ q. q.final) ps && (failed_of ps == 0 && handled_of ps == total_of ps)
      ≡ all finished_successfully ps
unfolding finished_successfully
sums_successful [] h = ground arith
sums_successful (p ∷ ps) h = ground (arith, sums_successful ps h.1, handled-le-total ps h.1)

-- Of meters that handle no more than their totals, the merge of a collection has finished
-- successfully exactly when each of them has.
pub finished_successfully-merge :
    (ps : List Progress)
    → All IsWithin ps
    → finished_successfully (merge (collection ps)) ≡ all finished_successfully ps
unfolding merge finished_successfully
finished_successfully-merge ps h = ground (arith, sums_successful ps h, add_up-eq fresh ps)

-- whether a meter has handled its total without a failure, finished or not
abbrev pub is_through : Progress → Bool
is_through p = p.failed == 0 && p.handled == p.total

sums_through :
    (ps : List Progress)
    → All IsWithin ps
    → (failed_of ps == 0 && handled_of ps == total_of ps) ≡ all is_through ps
sums_through [] h = ground arith
sums_through (p ∷ ps) h = ground (arith, sums_through ps h.1, handled-le-total ps h.1)

-- Of meters that handle no more than their totals, the merge of a generator has finished
-- successfully exactly when each of them has handled its total without a failure, whether or not
-- they have finished: the counting loop has used the generator up before `all` reads it.
pub finished_successfully-merge_generator :
    (ps : List Progress)
    → All IsWithin ps
    → finished_successfully (merge (generator ps)) ≡ all is_through ps
unfolding merge finished_successfully
finished_successfully-merge_generator ps h = ground (arith, sums_through ps h, add_up-eq fresh ps)
