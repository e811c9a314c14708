-- ===== src/Cluster/Progressing.antt =====
-- When a wait for the nodes' results ends well.
use astacus.Prelude.{
  ℕ, suc, ◌+◌, ◌≤◌, ◌<◌, ◌≡◌, inl, inr, refl, sym, ap, ◌∙◌, Bool, true, false, not, Option, some,
  List, [], ◌∷◌, ◌++◌, arith, any, map, All, length, Bool-cases, Option-cases,
}
use astacus.Exceptions.{returned}
use astacus.Progress.{Progress, finished_failed, finished_successfully}
use astacus.Cluster.Waiting.{
  Polled, unasked, answer, others, is_final, poll_node, poll_round, results_of, poll_all,
  wait_successful_results,
}
use astacus.Cluster.Polling.{length-unasked}

module _ {R : Type 0} (progress : R → Progress) (maximum_failures : ℕ) where
  -- An answer, if there is one, does not tell of a failure.
  abbrev pub NoFailure : Option R → Type 0
  NoFailure reply = (r : R) → reply ≡ some r → finished_failed (progress r) ≡ false

  -- an answer of a node that has finished successfully
  abbrev pub IsDone : Option R → Type 0
  IsDone reply = (r : R) × (reply ≡ some r) × (finished_successfully (progress r) ≡ true)

  abbrev AtMost : ℕ → List (Polled R) → Type 0
  AtMost k ps = All (λ p. p.failures ≤ k) ps

  poll_node_goes_on :
      (reply : Option R) (p : Polled R) (k : ℕ)
      → NoFailure reply
      → p.failures ≤ k
      → suc k < maximum_failures
      → (q : Polled R) × (poll_node progress maximum_failures reply p ≡ returned q)
        × (q.failures ≤ suc k)
  unfolding poll_node
  poll_node_goes_on reply p k f h m =
      elim (Bool-cases (is_final progress maximum_failures p.result)) [
        | inl e ↦ (p, ground (arith, e), ground (arith, h))
        | inr e ↦ elim (Option-cases reply) [
          | inl n ↦ (
            record p { failures = suc p.failures },
            ground (arith, e, n, h, m),
            ground (arith, h),
          )
          | inr (r, at) ↦ (
            record { result = some r; failures = 0 },
            ground (arith, e, at, f r at),
            ground arith,
          )
        ]
      ]

  answer-NoFailure :
      (replies : List (Option R)) → All NoFailure replies → NoFailure (answer replies)
  answer-NoFailure [] f r e = ground (arith, e)
  answer-NoFailure (reply ∷ replies) f r e = f.0 r e

  others-NoFailure :
      (replies : List (Option R)) → All NoFailure replies → All NoFailure (others replies)
  others-NoFailure [] f = tt
  others-NoFailure (reply ∷ replies) f = f.1

  poll_round_goes_on :
      (replies : List (Option R)) (ps : List (Polled R)) (k : ℕ)
      → All NoFailure replies
      → AtMost k ps
      → suc k < maximum_failures
      → (qs : List (Polled R)) × (poll_round progress maximum_failures replies ps ≡ returned qs)
        × AtMost (suc k) qs
        × (length qs ≡ length ps)
  unfolding poll_round
  poll_round_goes_on replies [] k f h m = ([], refl, tt, refl)
  poll_round_goes_on replies (p ∷ ps) k f h m =
      let (q, one, le) =
        poll_node_goes_on (answer replies) p k (answer-NoFailure replies f) h.0 m in
      let (qs, run, les, len) =
        poll_round_goes_on (others replies) ps k (others-NoFailure replies f) h.1 m in
      (q ∷ qs, ground (arith, one, run), (le, les), ap suc len)

  poll_node_ends :
      (reply : Option R) (p : Polled R)
      → IsDone reply
      → (q : Polled R) × (poll_node progress maximum_failures reply p ≡ returned q)
        × (is_final progress maximum_failures q.result ≡ true)
  unfolding poll_node finished_failed finished_successfully
  poll_node_ends reply p (r, at, s) =
      elim (Bool-cases (is_final progress maximum_failures p.result)) [
        | inl e ↦ (p, ground (arith, e), e)
        | inr e ↦
            (record { result = some r; failures = 0 }, ground (arith, e, at, s), ground (arith, s))
      ]

  poll_round_ends :
      (replies : List (Option R)) (ps : List (Polled R))
      → All IsDone replies
      → length ps ≡ length replies
      → (qs : List (Polled R)) × (poll_round progress maximum_failures replies ps ≡ returned qs)
        × (any (λ p. not (is_final progress maximum_failures p.result)) qs ≡ false)
  unfolding poll_round
  poll_round_ends replies [] d len = ([], refl, refl)
  poll_round_ends [] (p ∷ ps) d len = absurd (ground (arith, len))
  poll_round_ends (reply ∷ replies) (p ∷ ps) d len =
      let (q, one, final) = poll_node_ends reply p d.0 in
      let (qs, run, finals) = poll_round_ends replies ps d.1 (ground (arith, len)) in
      (q ∷ qs, ground (arith, one, run), ground (arith, final, finals))

  poll_all_ends :
      (rounds : List (List (Option R))) (last : List (Option R)) (ps : List (Polled R)) (k : ℕ)
      → All (λ replies. All NoFailure replies) rounds
      → All IsDone last
      → AtMost k ps
      → k + length rounds < maximum_failures
      → length ps ≡ length last
      → (rs : List R) × (poll_all progress maximum_failures (rounds ++ last ∷ []) ps ≡ returned rs)
  unfolding poll_all
  poll_all_ends [] last ps k f d h m len =
      let (qs, run, finals) = poll_round_ends last ps d len in
      (results_of progress maximum_failures qs, ground (arith, run, finals))
  poll_all_ends (replies ∷ rounds) last ps k f d h m len =
      let (qs, run, h', len') = poll_round_goes_on replies ps k f.0 h (ground (arith, m)) in
      let (rs, rest) =
        poll_all_ends rounds last qs (suc k) f.1 d h' (ground (arith, m)) (len' ∙ len) in
      elim (Bool-cases (any (λ p. not (is_final progress maximum_failures p.result)) qs)) [
        | inl go ↦ (rs, ground (arith, run, rest, go))
        | inr stop ↦ (results_of progress maximum_failures qs, ground (arith, run, stop))
      ]

  unasked-AtMost : (starts : List Bool) → AtMost 0 (map (λ _. unasked) starts)
  unasked-AtMost [] = tt
  unasked-AtMost (b ∷ starts) = (ground arith, unasked-AtMost starts)

  -- Where every node has started, no answer tells of a failure, and in some turn, before which there
  -- are fewer turns than failures are allowed, every node that is asked has finished successfully, the
  -- wait returns, whatever answers are missing until then.
  pub wait_successful_results_returns :
      (starts : List Bool) (rounds : List (List (Option R))) (last : List (Option R))
      → any not starts ≡ false
      → All (λ replies. All NoFailure replies) rounds
      → All IsDone last
      → length rounds < maximum_failures
      → length last ≡ length starts
      → (rs : List R) × (wait_successful_results progress maximum_failures starts
            (rounds ++ last ∷ [])
          ≡ returned rs)
  unfolding wait_successful_results
  wait_successful_results_returns starts rounds last b f d m len =
      let (rs, run) =
        poll_all_ends rounds last (map (λ _. unasked) starts) 0 f d (unasked-AtMost starts)
          (ground (arith, m)) (length-unasked progress maximum_failures starts ∙ sym len) in
      (rs, ground (arith, b, run))
