-- ===== src/Backoff/Bounds.antt =====
-- How often, and how late, an attempt is made (astacus/common/utils.py).
use astacus.Prelude.{
  ℕ, zero, suc, ◌+◌, ◌*◌, ◌^◌, ◌≤◌, ◌<◌, ◌≡◌, refl, Option, none, some, true, Bool-cases, List, [],
  ◌∷◌, arith, ◌⊎◌, inl, inr, length, Option-cases,
}
use astacus.Backoff.{
  Settings, Iter, fresh, Attempt, next, delay_of, attempts, retry_delay, at_most, is_over, is_late,
  start_of,
}

-- the delay before an attempt: none before the first, and for retry n the initial delay times the
-- multiplier to the power n - 1, at most the maximum
abbrev pub expected_delay : Settings → ℕ → ℕ
expected_delay s zero = 0
expected_delay s (suc n) = at_most s.maximum (s.initial * s.multiplier ^ n)

-- a retry is made after its delay, within the number of retries and the duration from the start
abbrev pub IsMade : Settings → ℕ → ℕ → ℕ → ℕ → Type 0
IsMade s now start retry delay =
    (delay ≡ expected_delay s retry)
    × ((r : ℕ) → s.retries ≡ some r → retry ≤ r)
    × ((d : ℕ) → s.duration ≡ some d → (retry ≡ 0) ⊎ (now + delay ≤ start + d))

-- no further attempt: the retries are used up, or the wait would end behind the duration
abbrev pub IsOver : Settings → ℕ → ℕ → ℕ → Type 0
IsOver s now start retry =
    ((r : ℕ) × (s.retries ≡ some r) × (r < retry))
    ⊎ ((d : ℕ) × (s.duration ≡ some d) × (start + d < now + expected_delay s retry))

delay_of-IsMade :
    (s : Settings) (now start retry delay : ℕ)
    → delay_of s now start retry ≡ some delay
    → IsMade s now start retry delay
unfolding delay_of retry_delay
delay_of-IsMade s now start zero delay e = (ground (arith, e), λ r h. omega arith, λ d h. inl refl)
delay_of-IsMade s now start (suc n) delay e =
    (ground (arith, e), λ r h. ground (arith, e, h), λ d h. inr (ground (arith, e, h)))

is_over-retries :
    (retries : Option ℕ) (n : ℕ) → is_over retries n ≡ true → (r : ℕ) × (retries ≡ some r) × (r < n)
is_over-retries none n h = ground arith
is_over-retries (some r) n h = (r, refl, ground arith)

is_late-duration :
    (duration : Option ℕ) (start end : ℕ)
    → is_late duration start end ≡ true
    → (d : ℕ) × (duration ≡ some d) × (start + d < end)
is_late-duration none start end h = ground arith
is_late-duration (some d) start end h = (d, refl, ground arith)

delay_of-IsOver :
    (s : Settings) (now start retry : ℕ)
    → delay_of s now start retry ≡ none
    → IsOver s now start retry
unfolding delay_of retry_delay
delay_of-IsOver s now start zero e = ground (arith, e)
delay_of-IsOver s now start (suc n) e = elim (Bool-cases (is_over s.retries (suc n))) [
  | inl h ↦ inl (is_over-retries s.retries (suc n) h)
  | inr h ↦ inr (is_late-duration s.duration start _ (ground (arith, e, h)))
]

next-IsMade :
    (s : Settings) (now : ℕ) (it : Iter) (a : Attempt)
    → (next s now it).0 ≡ some a
    → (a.retry ≡ it.next_retry) × IsMade s now it.initial it.next_retry a.delay
unfolding next
next-IsMade s now it a e = elim (Option-cases (delay_of s now it.initial it.next_retry)) [
  | inl h ↦ ground (arith, e, h)
  | inr (d, h) ↦ (
    ground (arith, e, h),
    delay_of-IsMade s now it.initial it.next_retry a.delay (ground (arith, e, h)),
  )
]

next-IsOver :
    (s : Settings) (now : ℕ) (it : Iter)
    → (next s now it).0 ≡ none
    → IsOver s now it.initial it.next_retry
unfolding next
next-IsOver s now it e =
    delay_of-IsOver s now it.initial it.next_retry
      (elim (Option-cases (delay_of s now it.initial it.next_retry)) [
        | inl h ↦ h
        | inr (d, h) ↦ ground (arith, e, h)
      ])

-- the attempts from retry n on, at the readings of the clock, since the first attempt at `start`:
-- one for each reading, until no further one is due
abbrev pub IsRun : Settings → ℕ → ℕ → List ℕ → List Attempt → Type 0
IsRun s start n [] [] = Unit
IsRun s start n [] (a ∷ made) = ⊥
IsRun s start n (t ∷ ts) [] = IsOver s t start n
IsRun s start n (t ∷ ts) (a ∷ made) =
    (a.retry ≡ n) × IsMade s t start n a.delay × IsRun s start (suc n) ts made

attempts_end :
    (s : Settings) (t : ℕ) (ts : List ℕ) (it : Iter)
    → (next s t it).0 ≡ none
    → attempts s (t ∷ ts) it ≡ []
unfolding attempts
attempts_end s t ts it e = ground (arith, e)

attempts_step :
    (s : Settings) (t : ℕ) (ts : List ℕ) (it : Iter) (a : Attempt)
    → (next s t it).0 ≡ some a
    → attempts s (t ∷ ts) it
      ≡ a
        ∷ attempts s ts (record {
          next_retry = suc it.next_retry;
          initial = start_of it.next_retry t it.initial;
        })
unfolding attempts next
attempts_step s t ts it a e = ground (arith, e)

attempts_after :
    (s : Settings) (start n : ℕ) (ts : List ℕ)
    → IsRun s start (suc n) ts (attempts s ts (record { next_retry = suc n; initial = start }))
unfolding attempts
attempts_after s start n [] = tt
attempts_after s start n (t ∷ ts) =
    let it : Iter = record { next_retry = suc n; initial = start } in
    elim (Option-cases (next s t it).0) [
      | inl e ↦ rw (attempts_end s t ts it e) (next-IsOver s t it e)
      | inr (a, e) ↦
          (let (p, made) = next-IsMade s t it a e in
            rw (attempts_step s t ts it a e) (p, made, attempts_after s start (suc n) ts))
    ]

-- The attempts of a loop, at whatever readings of the clock, are numbered from 0. The first is made at
-- once. Each retry has the delay of its number, at most the maximum that is set; its number is at
-- most the number of retries that is set, and its wait ends within the duration that is set, counted
-- from the first reading. No attempt is missing: they end with the readings, or where the next
-- number is above the number of retries or the next wait would end behind the duration.
pub attempts-IsRun :
    (s : Settings) (t : ℕ) (ts : List ℕ) → IsRun s t 0 (t ∷ ts) (attempts s (t ∷ ts) fresh)
unfolding attempts next delay_of
attempts-IsRun s t ts = (refl, (refl, λ r h. omega arith, λ d h. inl refl), attempts_after s t 0 ts)

attempts_from :
    (s : Settings) (r : ℕ) (ts : List ℕ) (it : Iter)
    → s.retries ≡ some r
    → it.next_retry ≤ suc r
    → length (attempts s ts it) + it.next_retry ≤ suc r
unfolding attempts next
attempts_from s r [] it h k = omega (arith, k)
attempts_from s r (t ∷ ts) it h k = elim (Option-cases (next s t it).0) [
  | inl e ↦ ground (arith, e, k)
  | inr (a, e) ↦
      (let (p, (_, few, _)) = next-IsMade s t it a e in
        ground (
          arith,
          e,
          p,
          few r h,
          attempts_from s r ts (next s t it).1 h (ground (arith, p, few r h)),
        ))
]

-- With a number of retries, a loop makes at most one attempt more than that, at whatever readings
-- of the clock.
pub length-attempts :
    (s : Settings) (r : ℕ) (ts : List ℕ) → s.retries ≡ some r → length (attempts s ts fresh) ≤ suc r
length-attempts s r ts h = omega (arith, attempts_from s r ts fresh h (omega arith))
