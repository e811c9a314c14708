-- ===== src/Cluster/Waiting.antt =====
-- `wait_successful_results` of astacus/coordinator/cluster.py: the polling of the nodes for the results
-- of an operation. The turns of the backoff are a list, each with what the nodes answer if they are
-- asked in it; the progress handler and the decoding of answers are left out.
use astacus.Prelude.{
  ℕ, suc, Bool, false, not, Option, none, some, List, [], ◌∷◌, leb, any, map, if◌then◌else◌,
}
use astacus.Exceptions.{wait_result, Outcome, returned, raised}
use astacus.Progress.{Progress, finished_failed}

-- `results[i]` and `failures[i]`
pub record Polled (R : Type 0) : Type 0 where
  pub result : Option R
  pub failures : ℕ

abbrev pub unasked : {R : Type 0} → Polled R
unasked = record { result = none; failures = 0 }

-- the answer of the next node, if it gives one, and those of the others
abbrev pub answer : {R : Type 0} → List (Option R) → Option R
answer [] = none
answer (reply ∷ replies) = reply

abbrev pub others : {R : Type 0} → List (Option R) → List (Option R)
others [] = []
others (reply ∷ replies) = replies

-- `progress` is the field of a result.
module _ {R : Type 0} (progress : R → Progress) (maximum_failures : ℕ) where
  abbrev pub is_final : Option R → Bool
  is_final none = false
  is_final (some r) = (progress r).final

  -- one node in one turn
  unfoldable pub poll_node : Option R → Polled R → Outcome (Polled R)
  poll_node reply p = if is_final p.result then returned p else (elim reply [
    | none ↦
        if leb maximum_failures (suc p.failures)
        then raised wait_result
        else returned (record p { failures = suc p.failures })
    | some r ↦
        if finished_failed (progress r)
        then raised wait_result
        else returned (record { result = some r; failures = 0 })
  ])

  -- one turn; a node without an answer in the list does not answer
  unfoldable pub poll_round : List (Option R) → List (Polled R) → Outcome (List (Polled R))
  unfolding poll_node
  poll_round replies [] = returned []
  poll_round replies (p ∷ ps) =
      let rest = poll_round (others replies) ps in
      elim (poll_node (answer replies) p) [
        | raised e ↦ raised e
        | returned q ↦ elim rest [ raised e ↦ raised e | returned qs ↦ returned (q ∷ qs) ]
      ]

  -- the results of the nodes that have one
  abbrev pub results_of : List (Polled R) → List R
  results_of [] = []
  results_of (p ∷ ps) = elim p.result [ none ↦ results_of ps | some r ↦ r ∷ results_of ps ]

  unfoldable pub poll_all : List (List (Option R)) → List (Polled R) → Outcome (List R)
  unfolding poll_round
  poll_all [] ps = raised wait_result
  poll_all (replies ∷ rounds) ps = elim (poll_round replies ps) [
    | raised e ↦ raised e
    | returned qs ↦
        (let rest = poll_all rounds qs in
          if any (λ p. not (is_final p.result)) qs then rest else returned (results_of qs))
  ]

  -- `starts` tells for each node whether its start result is one
  unfoldable pub wait_successful_results : List Bool → List (List (Option R)) → Outcome (List R)
  unfolding poll_all
  wait_successful_results starts rounds =
      if any not starts then raised wait_result else poll_all rounds (map (λ _. unasked) starts)
