-- ===== src/NodeLock.antt =====
-- astacus/node/state.py and the lock endpoints of astacus/node/api.py: the lock that one coordinator
-- holds on a node until it expires. Times are the readings of `time.monotonic()`, in units of which
-- one second is `second` many; each endpoint runs under `mutate_lock`, at one reading.
pub mod Exclusion
mod Tests
use astacus.Prelude.{
  ℕ, ◌+◌, ◌*◌, Bool, true, false, not, Option, none, some, String, List, [], ◌∷◌, ltb, ◌==◌,
  string_eq, if◌then◌else◌,
}
use astacus.Exceptions.{Exn, http_error, assertion, Outcome, returned, raised, Method}

-- `LockEntry`
pub record LockEntry : Type 0 where
  pub locker : String
  pub locked_until : ℕ

abbrev pub LockState : Type 0
LockState = Option LockEntry

-- `NodeState.is_locked`: the locker, or False
unfoldable pub is_locked : ℕ → LockState → Option String
is_locked now none = none
is_locked now (some lock) = if ltb lock.locked_until now then none else some lock.locker

-- The value of `is_locked` as a condition: False, and an empty locker, are false.
unfoldable pub truthy : Option String → Bool
truthy none = false
truthy (some locker) = not (locker == "")

-- `state.is_locked != locker`
unfoldable pub held_by : Option String → String → Bool
held_by none locker = false
held_by (some holder) locker = holder == locker

-- `still_locked_callback`: the generator yields True while the original locker holds the lock, and
-- False for ever after. Its state is whether it still is in the first loop.
unfoldable pub still_locked : LockEntry → Bool → ℕ → LockState → Bool
unfolding held_by is_locked
still_locked original in_first_loop now lock =
    if in_first_loop then held_by (is_locked now lock) original.locker else false

module _ (second : ℕ) where
  unfoldable pub take_lock : ℕ → String → ℕ → LockState
  take_lock now locker ttl = some (record { locker = locker; locked_until = now + ttl * second })

  -- The endpoints return the value of "locked" in their reply.
  unfoldable pub lock : ℕ → String → ℕ → Method LockState Bool
  unfolding is_locked truthy take_lock
  lock now locker ttl s =
      if truthy (is_locked now s)
      then (raised (http_error 409), s)
      else (returned true, take_lock now locker ttl)

  unfoldable pub relock : ℕ → String → ℕ → Method LockState Bool
  unfolding is_locked truthy held_by take_lock
  relock now locker ttl s =
      if not (truthy (is_locked now s))
      then (raised (http_error 409), s)
      else if not (held_by (is_locked now s) locker)
      then (raised (http_error 403), s)
      else (returned true, take_lock now locker ttl)

unfoldable pub unlock : ℕ → String → Method LockState Bool
unfolding is_locked truthy held_by
unlock now locker s =
    if not (truthy (is_locked now s))
    then (raised (http_error 409), s)
    else if not (held_by (is_locked now s) locker)
    then (raised (http_error 403), s)
    else (returned false, none)
