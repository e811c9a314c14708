-- ===== src/Backoff.antt =====
-- `exponential_backoff` of astacus/common/utils.py: the iterator that says whether and after which
-- delay an attempt is made. Times are natural numbers of one unit, and the multiplier is a natural
-- number. The sleeping itself is left out; each step takes the reading of the clock before it.
pub mod Bounds
mod Tests
use astacus.Prelude.{
  ℕ, zero, suc, ◌+◌, ◌*◌, ◌-◌, ◌^◌, min, Bool, true, false, ◌||◌, Option, none, some, List, [], ◌∷◌,
  ltb, if◌then◌else◌,
}
use astacus.Exceptions.{assertion, Outcome, returned, raised}

-- the arguments of `exponential_backoff`
pub record Settings : Type 0 where
  pub initial : ℕ
  pub retries : Option ℕ
  pub multiplier : ℕ
  pub maximum : Option ℕ
  pub duration : Option ℕ

-- `_Iter`: the number of the next retry, which is `retry + 1`, and the time of the first attempt
pub record Iter : Type 0 where
  pub next_retry : ℕ
  pub initial : ℕ

abbrev pub fresh : Iter
fresh = record { next_retry = 0; initial = 0 }

-- `assert duration is not None or retries is not None`
unfoldable pub exponential_backoff : Settings → Outcome Iter
exponential_backoff s = elim s.duration [
  | some d ↦ returned fresh
  | none ↦ elim s.retries [ some r ↦ returned fresh | none ↦ raised assertion ]
]

abbrev pub is_over : Option ℕ → ℕ → Bool
is_over none n = false
is_over (some r) n = ltb r n

abbrev pub at_most : Option ℕ → ℕ → ℕ
at_most none n = n
at_most (some m) n = min n m

-- the delay before a retry that is not the first attempt
unfoldable pub retry_delay : Settings → ℕ → ℕ
retry_delay s retry = at_most s.maximum (s.initial * s.multiplier ^ (retry - 1))

-- `time_left_after_sleep < 0`
abbrev pub is_late : Option ℕ → ℕ → ℕ → Bool
is_late none start end = false
is_late (some d) start end = ltb (start + d) end

pub record Attempt : Type 0 where
  pub retry : ℕ
  pub delay : ℕ

-- `_delay` for the retry of a number, since the first attempt at `start`
unfoldable pub delay_of : Settings → ℕ → ℕ → ℕ → Option ℕ
unfolding retry_delay
delay_of s time_now start zero = some 0
delay_of s time_now start (suc n) =
    if is_over s.retries (suc n)
    then none
    else if is_late s.duration start (time_now + retry_delay s (suc n))
    then none
    else some (retry_delay s (suc n))

-- `self.initial = time_now` at the first attempt
abbrev pub start_of : ℕ → ℕ → ℕ → ℕ
start_of zero time_now start = time_now
start_of (suc n) time_now start = start

-- one `__next__`, at a reading of the clock: the attempt, or the end of the iteration
unfoldable pub next : Settings → ℕ → Iter → Option Attempt × Iter
unfolding delay_of
next s time_now it = (
  elim (delay_of s time_now it.initial it.next_retry) [
    | none ↦ none
    | some d ↦ some (record { retry = it.next_retry; delay = d })
  ],
  record { next_retry = suc it.next_retry; initial = start_of it.next_retry time_now it.initial },
)

-- the attempts of a loop over the iterator, by the readings of the clock
unfoldable pub attempts : Settings → List ℕ → Iter → List Attempt
unfolding next
attempts s [] it = []
attempts s (t ∷ ts) it =
    let (a, it') = next s t it in
    let rest = attempts s ts it' in elim a [ none ↦ [] | some b ↦ b ∷ rest ]
