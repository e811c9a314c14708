-- ===== src/Backoff/Tests.antt =====
-- Two retries with a delay that doubles up to a maximum.
use astacus.Prelude.{◌≤◌, ◌≡◌, refl, none, some, [], ◌∷◌, length}
use astacus.Backoff.{Settings, Attempt, attempts, next, fresh}
use astacus.Backoff.Bounds.{length-attempts, attempts-IsRun, IsRun}

abbrev settings : Settings
settings = record {
  initial = 3;
  retries = some 2;
  multiplier = 2;
  maximum = some 5;
  duration = some 20;
}

all_attempts :
    attempts settings (100 ∷ 100 ∷ 103 ∷ 108 ∷ []) fresh
    ≡ record { retry = 0; delay = 0 }
      ∷ record { retry = 1; delay = 3 }
      ∷ record { retry = 2; delay = 5 }
      ∷ []
unfolding attempts
all_attempts = refl

too_late : (next settings 116 (record { next_retry = 2; initial = 100 })).0 ≡ none
unfolding next
too_late = refl

length-attempts_example : length (attempts settings (100 ∷ 100 ∷ 103 ∷ 108 ∷ []) fresh) ≤ 3
length-attempts_example = length-attempts settings 2 (100 ∷ 100 ∷ 103 ∷ 108 ∷ []) refl

abbrev second_retry : Attempt
second_retry = record { retry = 2; delay = 5 }

in_time : (next settings 110 (record { next_retry = 2; initial = 100 })).0 ≡ some second_retry
unfolding next
in_time = refl

attempts-IsRun_example :
    IsRun settings 100 0
      (100 ∷ 100 ∷ 103 ∷ 108 ∷ [])
      (attempts settings (100 ∷ 100 ∷ 103 ∷ 108 ∷ []) fresh)
attempts-IsRun_example = attempts-IsRun settings 100 (100 ∷ 103 ∷ 108 ∷ [])
