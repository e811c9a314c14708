-- ===== src/NodeLock/Tests.antt =====
-- Two coordinators and one node.
use astacus.Prelude.{
  ◌≡◌, ◌≢◌, ◌≤◌, ◌<◌, inl, none, refl, arith, true, false, some, List, [], ◌∷◌, string_eq, String,
  eq_iff, ◌==◌,
}
use astacus.Exceptions.{raised, returned, http_error}
use astacus.NodeLock.{LockEntry, lock, is_locked}
use astacus.NodeLock.Exclusion.{
  Request, lock_request, relock_request, unlock_request, serve_all, serve_all-ByOthers, Held,
  Expired, endpoints-Contract,
}

differ : (a b : String) → (a == b) ≡ false → a ≢ b
differ a b h e = ground (arith, eq_iff a b)

abbrev by_first : LockEntry
by_first = record { locker = "first"; locked_until = 60 }

abbrev attempts : List Request
attempts =
    lock_request 10 "second" 5 ∷ unlock_request 20 "second" ∷ relock_request 60 "second" 5 ∷ []

serve_all-ByOthers_example : serve_all 1 attempts (some by_first) ≡ some by_first
serve_all-ByOthers_example = serve_all-ByOthers 1 by_first attempts (differ "first" "" refl) (
  omega arith,
  differ "second" "first" refl,
  (omega arith, differ "second" "first" refl, (omega arith, differ "second" "first" refl, tt)),
)

taken_while_held : (lock 1 60 "second" 5 (some by_first)).0 ≡ raised (http_error 409)
unfolding lock is_locked
taken_while_held = refl

free_after : (lock 1 61 "second" 5 (some by_first)).0 ≡ returned true
unfolding lock is_locked
free_after = refl

granted_first : lock 1 10 "first" 50 none ≡ (returned true, some by_first)
unfolding lock is_locked
granted_first = refl

endpoints-Contract_example :
    (60 ≤ 60 → Held 1 60 "first" "second" 5 (some by_first))
    × (60 < 60 → Expired 1 60 "second" 5 (some by_first))
endpoints-Contract_example =
    endpoints-Contract 1 10 "first" 50 none (some by_first) (differ "first" "" refl)
      (inl granted_first) 60 "second" 5
