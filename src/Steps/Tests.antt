-- ===== src/Steps/Tests.antt =====
-- Two steps on a counter, the first of which fails once.
use astacus.Prelude.{
  ℕ, suc, ◌+◌, ◌≡◌, refl, Bool, true, false, List, [], ◌∷◌, ltb, if◌then◌else◌, string_eq,
}
use astacus.Exceptions.{transient, returned, raised}
use astacus.Steps.{Step, run_attempts, run_with_lock}
use astacus.Steps.Attempts.{SomeRan, run_attempts-SomeRan}

abbrev never : ℕ → Bool
never n = false

abbrev steps : List (Step ℕ ℕ)
steps =
    record {
      name = "first";
      run_step = λ context n. if ltb n 1 then (raised transient, suc n) else (returned n, suc n);
    }
    ∷ record { name = "second"; run_step = λ context n. (returned context.attempt, n + 10) }
    ∷ []

second_attempt : run_attempts never never steps 3 1 0 ≡ (returned true, 12)
unfolding run_attempts
second_attempt = refl

one_attempt : run_with_lock never never (λ n. (returned tt, 99)) 1 steps 0 ≡ (returned tt, 99)
unfolding run_with_lock
one_attempt = refl

run_attempts-SomeRan_example : SomeRan never never steps 1 4 12
run_attempts-SomeRan_example = run_attempts-SomeRan never never steps 3 1 0 12 second_attempt
