-- ===== src/Steps.antt =====
-- The steps of a coordinator's operation: `StepsContext` of astacus/coordinator/plugins/base.py, and
-- `try_run` and `run_with_lock` of `SteppedCoordinatorOp` in astacus/coordinator/coordinator.py, less
-- their statistics and progress. A step's class is its name; the world is what its code acts on.
pub mod Attempts
mod Tests
use astacus.Prelude.{
  ℕ, zero, suc, Bool, true, false, not, ◌||◌, Option, none, some, String, List, [], ◌∷◌, string_eq,
  lookup, insert, if◌then◌else◌,
}
use astacus.Exceptions.{
  Exn, step_failed, wait_result, runtime_error, key_error, is_permanent, is_transient, Outcome,
  returned, raised, Method,
}

pub record Context (R : Type 0) : Type 0 where
  pub attempt : ℕ
  pub step_results : List (String × R)

pub record Step (W R : Type 0) : Type 0 where
  pub name : String
  pub run_step : Context R → Method W R

unfoldable pub get_result : {R : Type 0} → Context R → String → Outcome R
get_result context step_class = elim (lookup context.step_results step_class) [
  | none ↦ raised key_error
  | some r ↦ returned r
]

-- `except (StepFailedError, WaitResultError)`
unfoldable pub is_step_failure : Exn → Bool
is_step_failure step_failed = true
is_step_failure wait_result = true
is_step_failure _ = false

-- `is_none` tells a result that is None, and `shutting_down` reads the flag of the state.
module _ {R : Type 0} (is_none : R → Bool) where
  -- A result is set once, except that None may be set again.
  unfoldable pub set_result : Context R → String → R → Outcome (Context R)
  set_result context step_class result =
      let context' : Context R = record context {
        step_results = insert context.step_results step_class result;
      } in
      elim (lookup context.step_results step_class) [
        | none ↦ returned context'
        | some r ↦
            if not (is_none r) || not (is_none result)
            then raised runtime_error
            else returned context'
      ]

module _ {W R : Type 0} (is_none : R → Bool) (shutting_down : W → Bool) where
  unfoldable pub try_run : List (Step W R) → Context R → Method W Bool
  unfolding set_result is_step_failure
  try_run [] context w = (returned true, w)
  try_run (step ∷ steps) context w =
      let (r, w') = step.run_step context w in
      let rest : Context R → Outcome Bool × W = λ c. try_run steps c w' in
      if shutting_down w then (returned false, w) else (elim r [
        | raised e ↦ if is_step_failure e then (returned false, w') else (raised e, w')
        | returned v ↦ elim (set_result is_none context step.name v) [
          | raised e ↦ (raised e, w')
          | returned c ↦ rest c
        ]
      ])

  -- The attempts that are left, from the one of a number on; whether one of them ran all steps.
  unfoldable pub run_attempts : List (Step W R) → ℕ → ℕ → Method W Bool
  unfolding try_run
  run_attempts steps zero attempt w = (returned false, w)
  run_attempts steps (suc left) attempt w =
      let (r, w') = try_run steps (record { attempt = attempt; step_results = [] }) w in
      let rest = run_attempts steps left (suc attempt) w' in
      elim r [
        | returned complete ↦ if complete then (returned true, w') else rest
        | raised e ↦
            if is_transient e
            then rest
            else if is_permanent e
            then (returned false, w')
            else (raised e, w')
      ]

  -- `set_status_fail` acts on the world where no attempt ran all steps.
  unfoldable pub run_with_lock :
      (W → Outcome (Unit {0}) × W) → ℕ → List (Step W R) → Method W (Unit {0})
  unfolding run_attempts
  run_with_lock set_status_fail attempts steps w =
      let (r, w') = run_attempts steps attempts 1 w in
      elim r [
        | raised e ↦ (raised e, w')
        | returned complete ↦ if complete then (returned tt, w') else set_status_fail w'
      ]
