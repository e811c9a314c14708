-- ===== src/Cluster/Polling.antt =====
-- What a wait for the nodes' results comes to.
use astacus.Prelude.{
  ℕ, suc, ◌≡◌, inl, inr, refl, sym, ap, subst, ◌∙◌, Bool, true, false, not, Option, some, List, [],
  ◌∷◌, arith, any, map, All, length, Bool-cases, Option-cases,
}
use astacus.Exceptions.{Outcome-cases, returned}
use astacus.Progress.{Progress, finished_failed, finished_successfully}
use astacus.Cluster.Waiting.{
  Polled, unasked, answer, others, is_final, poll_node, poll_round, results_of, poll_all,
  wait_successful_results,
}

module _ {R : Type 0} (progress : R → Progress) (maximum_failures : ℕ) where
  -- A result that is there has not failed.
  abbrev pub NotFailed : Polled R → Type 0
  NotFailed p = (r : R) → p.result ≡ some r → finished_failed (progress r) ≡ false

  poll_node-NotFailed :
      (reply : Option R) (p q : Polled R)
      → NotFailed p
      → poll_node progress maximum_failures reply p ≡ returned q
      → NotFailed q
  unfolding poll_node
  poll_node-NotFailed reply p q k e r at = ground (arith, e, at, k r)

  -- the cases of a turn that goes on
  round_cons :
      (replies : List (Option R)) (p : Polled R) (ps qs : List (Polled R))
      → poll_round progress maximum_failures replies (p ∷ ps) ≡ returned qs
      → (q : Polled R) × (rest : List (Polled R)) × (poll_node progress maximum_failures
            (answer replies)
            p
          ≡ returned q)
        × (poll_round progress maximum_failures (others replies) ps ≡ returned rest)
        × (qs ≡ q ∷ rest)
  unfolding poll_round
  round_cons replies p ps qs e =
      elim (Outcome-cases (poll_node progress maximum_failures (answer replies) p)) [
        | inr (x, h) ↦ absurd (ground (arith, e, h))
        | inl (q, h) ↦
            elim (Outcome-cases (poll_round progress maximum_failures (others replies) ps)) [
              | inr (x, h') ↦ absurd (ground (arith, e, h, h'))
              | inl (rest, h') ↦ (q, rest, h, h', ground (arith, e, h, h'))
            ]
      ]

  poll_round-NotFailed :
      (replies : List (Option R)) (ps qs : List (Polled R))
      → All NotFailed ps
      → poll_round progress maximum_failures replies ps ≡ returned qs
      → All NotFailed qs × (length qs ≡ length ps)
  unfolding poll_round
  poll_round-NotFailed replies [] [] k e = (tt, refl)
  poll_round-NotFailed replies [] (q ∷ qs) k e = absurd (ground (arith, e))
  poll_round-NotFailed replies (p ∷ ps) qs k e =
      let (q, rest, h, h', same) = round_cons replies p ps qs e in
      let (more, len) = poll_round-NotFailed (others replies) ps rest k.1 h' in
      subst (λ x. All NotFailed x × (length x ≡ suc (length ps))) (sym same)
        ((poll_node-NotFailed (answer replies) p q k.0 h, more), ap suc len)

  -- the result of a node that is done
  abbrev pub IsSuccess : R → Type 0
  IsSuccess r = finished_successfully (progress r) ≡ true

  final_of :
      (r : R)
      → finished_failed (progress r) ≡ false
      → (progress r).final ≡ true
      → finished_successfully (progress r) ≡ true
  unfolding finished_failed
  final_of r f e = ground (arith, f, e)

  results-IsSuccess :
      (qs : List (Polled R))
      → All NotFailed qs
      → any (λ p. not (is_final progress maximum_failures p.result)) qs ≡ false
      → All IsSuccess (results_of progress maximum_failures qs)
        × (length (results_of progress maximum_failures qs) ≡ length qs)
  results-IsSuccess [] k e = (tt, refl)
  results-IsSuccess (q ∷ qs) k e =
      let (more, len) = results-IsSuccess qs k.1 (ground (arith, e)) in
      elim (Option-cases q.result) [
        | inl n ↦ absurd (ground (arith, e, n))
        | inr (r, at) ↦
            (let good : IsSuccess r = ground (arith, e, at, k.0 r at, final_of r) in
              rw (at, All) ((good, more), ap suc len))
      ]

  poll_all-IsSuccess :
      (rounds : List (List (Option R))) (ps : List (Polled R)) (rs : List R)
      → All NotFailed ps
      → poll_all progress maximum_failures rounds ps ≡ returned rs
      → All IsSuccess rs × (length rs ≡ length ps)
  unfolding poll_all
  poll_all-IsSuccess [] ps rs k e = absurd (ground (arith, e))
  poll_all-IsSuccess (replies ∷ rounds) ps rs k e =
      elim (Outcome-cases (poll_round progress maximum_failures replies ps)) [
        | inr (x, h) ↦ absurd (ground (arith, e, h))
        | inl (qs, h) ↦
            (let (k', len) = poll_round-NotFailed replies ps qs k h in
              elim (Bool-cases (any (λ p. not (is_final progress maximum_failures p.result)) qs)) [
                | inl go ↦
                    (let (good, len') =
                        poll_all-IsSuccess rounds qs rs k' (ground (arith, e, h, go)) in
                      (good, len' ∙ len))
                | inr stop ↦
                    (let (good, len') = results-IsSuccess qs k' stop in
                      subst (λ x. All IsSuccess x × (length x ≡ length ps))
                        (ground (arith, e, h, stop)) (good, len' ∙ len))
              ])
      ]

  unasked-NotFailed : (starts : List Bool) → All NotFailed (map (λ _. unasked) starts)
  unasked-NotFailed [] = tt
  unasked-NotFailed (b ∷ starts) = ((λ r at. ground (arith, at)), unasked-NotFailed starts)

  pub length-unasked :
      (starts : List Bool) → length (map (λ _. unasked {R = R}) starts) ≡ length starts
  length-unasked [] = refl
  length-unasked (b ∷ starts) = ap suc (length-unasked starts)

  -- A wait that returns has one result for each node, and the operation of each has finished
  -- successfully.
  pub wait_successful_results-IsSuccess :
      (starts : List Bool) (rounds : List (List (Option R))) (rs : List R)
      → wait_successful_results progress maximum_failures starts rounds ≡ returned rs
      → All IsSuccess rs × (length rs ≡ length starts)
  unfolding wait_successful_results
  wait_successful_results-IsSuccess starts rounds rs e =
      let run : poll_all progress maximum_failures rounds (map (λ _. unasked) starts)
          ≡ returned rs =
        ground (arith, e) in
      let (good, len) =
        poll_all-IsSuccess rounds (map (λ _. unasked) starts) rs (unasked-NotFailed starts) run in
      (good, len ∙ length-unasked starts)
