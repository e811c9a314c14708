-- ===== src/Progress/Tests.antt =====
-- Runs of the progress meter on small inputs, and the theorems about it at such inputs.
use astacus.Prelude.{
  ℕ, ◌≤◌, ◌≡◌, refl, true, false, some, List, [], ◌∷◌, arith, all, ◌==◌, ◌++◌, if◌then◌else◌,
  nat_eq,
}
use astacus.Exceptions.{returned, raised, assertion, value_error, Method}
use astacus.Progress.{
  Progress, fresh, increase_worth_reporting, finished_successfully, wrap, add_success,
}
use astacus.Progress.Bounds.{
  Call, total, success, fail, begin, finish, call, run_calls, IsAccounted, run_calls-IsAccounted,
  wrap_lem, beside_meter,
}
use astacus.Progress.Merge.{
  collection, generator, merge, IsSumOf, merge-IsSumOf, finished_successfully-merge,
  finished_successfully-merge_generator, is_through,
}
use astacus.Progress.Reporting.{reports, reports-le}

abbrev half_way : Progress
half_way = record { handled = 2; failed = 1; total = 5; final = false }

abbrev complete : Progress
complete = record { handled = 3; failed = 0; total = 3; final = true }

abbrev calls : List Call
calls = begin 3 ∷ total 2 ∷ success 4 ∷ fail 1 ∷ finish ∷ []

run_calls-calls :
    run_calls calls fresh
    ≡ (returned tt, record { handled = 4; failed = 1; total = 5; final = true })
unfolding run_calls call
run_calls-calls = refl

too_many : (add_success 4 half_way).0 ≡ raised assertion
unfolding add_success
too_many = refl

log_unused : increase_worth_reporting (λ v. v) 5 (some 6) (some 1000) ≡ false
unfolding increase_worth_reporting
log_unused = refl

run_calls-IsAccounted_example :
    IsAccounted calls fresh (record { handled = 4; failed = 1; total = 5; final = true })
run_calls-IsAccounted_example = run_calls-IsAccounted calls fresh _ (omega arith) run_calls-calls

-- a consumer that notes the items, and raises at a zero
abbrev note : ℕ → Method (List ℕ) (Unit {0})
note x seen = if x == 0 then (raised value_error, seen) else (returned tt, seen ++ x ∷ [])

wrap_lem_example : wrap true (7 ∷ 8 ∷ 0 ∷ 9 ∷ []) (beside_meter note) (fresh, []) ≡ (
  raised value_error,
  (record { handled = 2; failed = 0; total = 4; final = false }, 7 ∷ 8 ∷ []),
)
wrap_lem_example = wrap_lem note true (7 ∷ 8 ∷ 0 ∷ 9 ∷ []) fresh [] (omega arith) refl

merge-IsSumOf_example :
    IsSumOf (complete ∷ half_way ∷ []) (merge (collection (complete ∷ half_way ∷ [])))
    × IsSumOf (complete ∷ half_way ∷ []) (merge (generator (complete ∷ half_way ∷ [])))
merge-IsSumOf_example = merge-IsSumOf (complete ∷ half_way ∷ [])

finished_successfully-merge_example :
    finished_successfully (merge (collection (complete ∷ half_way ∷ [])))
    ≡ all finished_successfully (complete ∷ half_way ∷ [])
finished_successfully-merge_example =
    finished_successfully-merge (complete ∷ half_way ∷ []) (omega arith)

-- a meter that has handled its total, and to which more may be added
abbrev between : Progress
between = record { handled = 3; failed = 0; total = 3; final = false }

finished_successfully-merge_generator_example :
    finished_successfully (merge (generator (complete ∷ between ∷ [])))
    ≡ all is_through (complete ∷ between ∷ [])
finished_successfully-merge_generator_example =
    finished_successfully-merge_generator (complete ∷ between ∷ []) (omega arith)

reports-le_example : reports (λ v. v) 250 250 ≤ 100
reports-le_example = reports-le (λ v. v) 250 (omega arith)
