-- ===== src/Progress/Reporting.antt =====
-- How often `increase_worth_reporting` of astacus/common/progress.py lets a counter be logged.
use native.Mathlib.Nat.{le_refl, mul-div_cancel, div-lt_iff_lt-mul}
use astacus.Prelude.{ℕ, zero, suc, ◌+◌, ◌*◌, ◌/◌, ◌≤◌, ◌<◌, ◌≡◌, some, arith, if◌then◌else◌, nat_eq}
use astacus.Progress.{increase_worth_reporting}

module _ (log_exp : ℕ → ℕ) (total : ℕ) where
  -- the reports while a counter goes up from 0 to `n` in single steps
  pub reports : ℕ → ℕ
  reports zero = 0
  reports (suc n) =
      reports n + (if increase_worth_reporting log_exp n (some (suc n)) (some total) then 1 else 0)

  percent_mono : (n : ℕ) → 0 < total → 100 * n / total ≤ 100 * suc n / total
  percent_mono n h = grind arith

  percent_before_last :
      (n : ℕ) → 100 < total → suc n ≡ total → 100 * n / total < 100 * suc n / total
  percent_before_last n h k = rw k (
      rw (mul-div_cancel 100 {n = total} (omega arith))
        ((div-lt_iff_lt-mul {k = total} (omega arith)).1 (omega arith)))

  reports-le-percent : (n : ℕ) → 100 < total → n ≤ total → reports n ≤ 100 * n / total
  unfolding reports increase_worth_reporting
  reports-le-percent zero h k = omega arith
  reports-le-percent (suc n) h k = ground (
    arith,
    reports-le-percent n h (omega arith),
    percent_mono n (omega arith),
    percent_before_last n h,
  )

  -- With a known total above 100, a counter that goes from 0 to the total in single steps is
  -- reported at most 100 times.
  pub reports-le : 100 < total → reports total ≤ 100
  reports-le h =
      rw (mul-div_cancel 100 {n = total} (omega arith)) at
        (reports-le-percent total h (le_refl total))
