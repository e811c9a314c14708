-- ===== src/FifoCache/Tests.antt =====
-- A cache of two items.
use astacus.Prelude.{
  ℕ, ◌*◌, ◌≡◌, refl, [], ◌∷◌, nat_eq, arith, Option, none, some, ◌==◌, if◌then◌else◌,
}
use astacus.Exceptions.{raised, key_error, assertion, ◌>>◌}
use astacus.FifoCache.{FifoCache, has_key, set_item, wrapper, pop_oldest}
use astacus.FifoCache.Transparent.{IsValid, answer, wrapper-IsTransparent}

abbrev ten_times : ℕ → Option ℕ
ten_times n = if n == 0 then none else some (n * 10)

abbrev full : FifoCache ℕ (Option ℕ)
full = record { size = 2; cache = (1, some 10) ∷ (0, none) ∷ []; key_queue = 1 ∷ 0 ∷ [] }

full-IsValid : IsValid ten_times full
full-IsValid = record {
  has_room = omega arith;
  is_bounded = omega arith;
  queue_is_keys = refl;
  is_distinct = (refl, (refl, tt));
  holds = (refl, (refl, tt));
}

none_again : (wrapper ten_times 0 full).0 ≡ raised assertion
unfolding wrapper
none_again = refl

oldest_goes : (wrapper ten_times 3 full).1.key_queue ≡ 0 ∷ 3 ∷ []
unfolding wrapper set_item
oldest_goes = refl

-- A key that is set again is queued twice, and the queue then names a key that is gone.
abbrev one : FifoCache ℕ ℕ
one = record { size = 2; cache = (1, 10) ∷ []; key_queue = 1 ∷ [] }

set_again :
    ((set_item 1 11 >> set_item 2 20 >> set_item 3 30 >> set_item 4 40) one).0 ≡ raised key_error
unfolding set_item pop_oldest
set_again = refl

wrapper-IsTransparent_example :
    ((wrapper ten_times 3 full).0 ≡ answer (has_key full 3) (ten_times 3))
    × IsValid ten_times (wrapper ten_times 3 full).1
wrapper-IsTransparent_example = wrapper-IsTransparent ten_times full 3 full-IsValid
