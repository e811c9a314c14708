-- ===== src/Steps/Attempts.antt =====
-- An operation succeeds by one attempt that runs every step.
use astacus.Prelude.{
  ℕ, zero, suc, ◌+◌, ◌≤◌, ◌<◌, ◌≡◌, ap, Bool, true, false, List, [], ◌∷◌, arith, inl, inr,
  Bool-cases,
}
use astacus.Exceptions.{Outcome-cases, returned, is_transient, is_permanent}
use astacus.Steps.{Context, Step, set_result, try_run, run_attempts, is_step_failure}

module _ {W R : Type 0} (is_none : R → Bool) (shutting_down : W → Bool) where
  -- The steps ran in their order, none of them during a shutdown, each with the results of those
  -- before it.
  abbrev pub Ran : List (Step W R) → Context R → W → W → Type 0
  Ran [] context w t = w ≡ t
  Ran (step ∷ steps) context w t =
      (shutting_down w ≡ false)
      × (v : R) × (w' : W) × (c : Context R) × (step.run_step context w ≡ (returned v, w'))
      × (set_result is_none context step.name v ≡ returned c)
      × Ran steps c w' t

  try_run-Ran :
      (steps : List (Step W R)) (context : Context R) (w t : W)
      → try_run is_none shutting_down steps context w ≡ (returned true, t)
      → Ran steps context w t
  unfolding try_run
  try_run-Ran [] context w t e = ground (arith, e)
  try_run-Ran (step ∷ steps) context w t e = elim (Bool-cases (shutting_down w)) [
    | inl h ↦ ground (arith, h, e)
    | inr h ↦ elim (Outcome-cases (step.run_step context w).0) [
      | inr (x, k) ↦ elim (Bool-cases (is_step_failure x)) [
        | inl f ↦ ground (arith, h, k, f, e)
        | inr f ↦ ground (arith, h, k, f, e)
      ]
      | inl (v, k) ↦ elim (Outcome-cases (set_result is_none context step.name v)) [
        | inr (x, l) ↦ ground (arith, h, k, l, e)
        | inl (c, l) ↦ (
          h,
          v,
          (step.run_step context w).1,
          c,
          ap (λ r. (r, (step.run_step context w).1)) k,
          l,
          try_run-Ran steps c (step.run_step context w).1 t (ground (arith, h, k, l, e)),
        )
      ]
    ]
  ]

  -- Some attempt, from the one of a number on and below another, ran every step and ended here.
  abbrev pub SomeRan : List (Step W R) → ℕ → ℕ → W → Type 0
  SomeRan steps first bound t =
      (attempt : ℕ) × (w : W) × (first ≤ attempt)
      × (attempt < bound)
      × Ran steps (record { attempt = attempt; step_results = [] }) w t

  later :
      (steps : List (Step W R)) (left attempt : ℕ) (t : W)
      → SomeRan steps (suc attempt) (suc attempt + left) t
      → SomeRan steps attempt (attempt + suc left) t
  later steps left attempt t (n, w, low, high, ran) =
      (n, w, omega (arith, low), omega (arith, high), ran)

  -- Attempts that end in success do so by an attempt, of those allowed, in which every step ran.
  pub run_attempts-SomeRan :
      (steps : List (Step W R)) (left attempt : ℕ) (w t : W)
      → run_attempts is_none shutting_down steps left attempt w ≡ (returned true, t)
      → SomeRan steps attempt (attempt + left) t
  unfolding run_attempts
  run_attempts-SomeRan steps zero attempt w t e = ground (arith, e)
  run_attempts-SomeRan steps (suc left) attempt w t e =
      let context : Context R = record { attempt = attempt; step_results = [] } in
      let first = try_run is_none shutting_down steps context w in
      elim (Outcome-cases first.0) [
        | inl (true, h) ↦ (
          attempt,
          w,
          omega arith,
          omega arith,
          try_run-Ran steps context w t (ground (arith, h, e)),
        )
        | inl (false, h) ↦
            later steps left attempt t
              (run_attempts-SomeRan steps left (suc attempt) first.1 t (ground (arith, h, e)))
        | inr (x, h) ↦ elim (Bool-cases (is_transient x)) [
          | inl f ↦
              later steps left attempt t
                (run_attempts-SomeRan steps left (suc attempt) first.1 t (ground (arith, h, f, e)))
          | inr f ↦ elim (Bool-cases (is_permanent x)) [
            | inl p ↦ ground (arith, h, f, p, e)
            | inr p ↦ ground (arith, h, f, p, e)
          ]
        ]
      ]
