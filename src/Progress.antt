-- ===== src/Progress.antt =====
-- astacus/common/progress.py: the progress meter of a node's or a coordinator's operation. Log lines
-- are left out; the test that decides on them is modelled.
pub mod Bounds
pub mod Merge
pub mod Reporting
mod Tests
use astacus.Prelude.{
  ℕ, zero, suc, ◌+◌, ◌*◌, ◌/◌, Bool, true, false, not, ◌&&◌, ◌||◌, Option, none, some, List, [],
  ◌∷◌, leb, ltb, ◌==◌, nat_eq, length, if◌then◌else◌,
}
use astacus.Exceptions.{Method, pure, ◌>>=◌, ◌>>◌, get, modify, assert}

pub record Progress : Type 0 where
  pub handled : ℕ
  pub failed : ℕ
  pub total : ℕ
  pub final : Bool

abbrev pub fresh : Progress
fresh = record { handled = 0; failed = 0; total = 0; final = false }

-- `100 * value // total`; a value of `none` is the -1 that stands before 0.
percent : Option ℕ → ℕ → Option ℕ
percent none total = none
percent (some value) total = some (100 * value / total)

same : Option ℕ → Option ℕ → Bool
same none none = true
same (some a) (some b) = a == b
same _ _ = false

below_ten : Option ℕ → Bool
below_ten none = true
below_ten (some value) = leb value 10

-- `log_exp v` is `int(math.log(v) / _log_1_1)`, floating-point code of Python's library.
module _ (log_exp : ℕ → ℕ) where
  exponent : Option ℕ → ℕ
  exponent none = 0
  exponent (some value) = log_exp value

  -- the test once both values are known
  pub worth_reporting : Option ℕ → ℕ → Option ℕ → Bool
  unfolding percent same below_ten exponent
  worth_reporting value new_value (some total) =
      if new_value == total || leb total 100
      then true
      else not (same (percent value total) (percent (some new_value) total))
  worth_reporting value new_value none =
      if below_ten value || leb new_value 10
      then true
      else not (exponent value == log_exp new_value)

  pub increase_worth_reporting : ℕ → Option ℕ → Option ℕ → Bool
  unfolding worth_reporting
  increase_worth_reporting value (some new_value) total =
      worth_reporting (some value) new_value total
  increase_worth_reporting value none total =
      worth_reporting (elim value [ zero ↦ none | suc v ↦ some v ]) value total

unfoldable pub add_total : ℕ → Method Progress (Unit {0})
add_total n p =
    if n == 0
    then (pure tt) p
    else (do modify (λ p. record p { total = p.total + n }); p' ← get; assert (not p'.final)) p

unfoldable pub start : ℕ → Method Progress (Unit {0})
unfolding add_total
start n = do p ← get; assert (p.total == 0); add_total n

unfoldable pub add_fail : ℕ → Method Progress (Unit {0})
add_fail n = do
  assert (ltb 0 n)
  modify (λ p. record p { failed = p.failed + n })
  p ← get
  assert (not p.final)

unfoldable pub add_success : ℕ → Method Progress (Unit {0})
add_success n = do
  assert (ltb 0 n)
  modify (λ p. record p { handled = p.handled + n })
  p ← get
  assert (leb p.handled p.total)
  assert (not p.final)

unfoldable pub download_success : ℕ → Method Progress (Unit {0})
unfolding add_success
download_success size = add_success size

unfoldable pub upload_success : Method Progress (Unit {0})
unfolding add_success
upload_success = add_success 1

unfoldable pub upload_missing : Method Progress (Unit {0})
unfolding add_fail
upload_missing = add_fail 1

unfoldable pub upload_failure : Method Progress (Unit {0})
unfolding add_fail
upload_failure = add_fail 1

unfoldable pub done : Method Progress (Unit {0})
done = do
  p ← get
  assert (leb p.handled p.total)
  assert (not p.final)
  modify (λ p. record p { final = true })

unfoldable pub finished_successfully : Progress → Bool
finished_successfully p = p.final && p.failed == 0 && p.handled == p.total

unfoldable pub finished_failed : Progress → Bool
unfolding finished_successfully
finished_failed p = p.final && not (finished_successfully p)

-- a change of the meter, beside the state of the code that consumes a generator
on_meter {ℓ} : {C : Type ℓ} → Method Progress (Unit {0}) → Method (Progress × C) (Unit {0})
on_meter m (p, c) = let (r, p') = m p in (r, (p', c))

-- `wrap`, with the consumer's work on an item as `body`. It is a generator: over an iterable that
-- has no length its `return i` ends the iteration before the first item. If the body raises, the
-- generator is not resumed.
wrap_items {ℓ κ} :
    {A : Type ℓ} {C : Type κ}
    → List A
    → (A → Method (Progress × C) (Unit {0}))
    → Method (Progress × C) (Unit {0})
unfolding add_success on_meter
wrap_items [] body = pure tt
wrap_items (x ∷ xs) body = do body x; on_meter (add_success 1); wrap_items xs body

pub wrap {ℓ κ} :
    {A : Type ℓ} {C : Type κ}
    → Bool
    → List A
    → (A → Method (Progress × C) (Unit {0}))
    → Method (Progress × C) (Unit {0})
unfolding add_total wrap_items on_meter
wrap has_len i body =
    if has_len then (do on_meter (add_total (length i)); wrap_items i body) else pure tt
