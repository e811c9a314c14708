-- ===== src/NodeLock/Exclusion.antt =====
-- One holder at a time, and for as long as it was granted (astacus/node/api.py).
use astacus.Prelude.{
  ℕ, ◌+◌, ◌*◌, ◌≤◌, ◌<◌, ◌≡◌, ◌≢◌, ◌⊎◌, inl, inr, refl, true, false, none, some, String, List, [],
  ◌∷◌, arith, eq_iff, string_eq, nat_eq,
}
use astacus.Exceptions.{http_error, returned, raised}
use astacus.NodeLock.{
  LockEntry, LockState, is_locked, truthy, held_by, take_lock, lock, relock, unlock,
}

-- a request to a node, at a reading of its clock
pub data Request : Type 0 where
  lock_request relock_request : (now : ℕ) (locker : String) (ttl : ℕ) → Request
  unlock_request : (now : ℕ) (locker : String) → Request

abbrev pub time_of : Request → ℕ
time_of (lock_request now _ _) = now
time_of (relock_request now _ _) = now
time_of (unlock_request now _) = now

abbrev pub locker_of : Request → String
locker_of (lock_request _ locker _) = locker
locker_of (relock_request _ locker _) = locker
locker_of (unlock_request _ locker) = locker

module _ (second : ℕ) where
  unfoldable pub serve : Request → LockState → LockState
  unfolding lock relock unlock
  serve (lock_request now locker ttl) s = (lock second now locker ttl s).1
  serve (relock_request now locker ttl) s = (relock second now locker ttl s).1
  serve (unlock_request now locker) s = (unlock now locker s).1

  unfoldable pub serve_all : List Request → LockState → LockState
  unfolding serve
  serve_all [] s = s
  serve_all (r ∷ rs) s = serve_all rs (serve r s)

  -- requests by others than the holder, none later than the end of its lock
  abbrev pub ByOthers : LockEntry → List Request → Type 0
  ByOthers held [] = Unit
  ByOthers held (r ∷ rs) =
      (time_of r ≤ held.locked_until) × (locker_of r ≢ held.locker) × ByOthers held rs

  serve_other :
      (held : LockEntry) (r : Request)
      → held.locker ≢ ""
      → time_of r ≤ held.locked_until
      → locker_of r ≢ held.locker
      → serve r (some held) ≡ some held
  unfolding serve
  serve_other held (lock_request now locker ttl) h k l =
      ground (arith, eq_iff held.locker "", eq_iff held.locker locker)
  serve_other held (relock_request now locker ttl) h k l =
      ground (arith, eq_iff held.locker "", eq_iff held.locker locker)
  serve_other held (unlock_request now locker) h k l =
      ground (arith, eq_iff held.locker "", eq_iff held.locker locker)

  -- While a lock with a nonempty locker has not expired, no sequence of requests by other lockers
  -- changes it.
  pub serve_all-ByOthers :
      (held : LockEntry) (rs : List Request)
      → held.locker ≢ ""
      → ByOthers held rs
      → serve_all rs (some held) ≡ some held
  unfolding serve_all
  serve_all-ByOthers held [] h o = refl
  serve_all-ByOthers held (r ∷ rs) h o =
      rw (serve_other held r h o.0 o.1) (serve_all-ByOthers held rs h o.2)

  -- `lock` or `relock` answered that the locker has the node, and left `t`.
  abbrev pub Granted : ℕ → String → ℕ → LockState → LockState → Type 0
  Granted now locker ttl s t =
      (lock second now locker ttl s ≡ (returned true, t))
      ⊎ (relock second now locker ttl s ≡ (returned true, t))

  Granted-until :
      (now : ℕ) (locker : String) (ttl : ℕ) (s t : LockState)
      → Granted now locker ttl s t
      → t ≡ some (record { locker = locker; locked_until = now + ttl * second })
  unfolding lock relock take_lock
  Granted-until now locker ttl s t (inl e) = ground (arith, e)
  Granted-until now locker ttl s t (inr e) = ground (arith, e)

  -- the answers to a request by `other` while a lock is held, and once it has expired
  pub record Held (later : ℕ) (locker other : String) (ttl : ℕ) (t : LockState) : Type 0 where
    pub lock_taken : lock second later other ttl t ≡ (raised (http_error 409), t)
    pub relock_own :
        locker ≡ other
        → relock second later other ttl t
          ≡ (returned true, some (record { locker = other; locked_until = later + ttl * second }))
    pub unlock_own : locker ≡ other → unlock later other t ≡ (returned false, none)
    pub relock_other :
        locker ≢ other → relock second later other ttl t ≡ (raised (http_error 403), t)
    pub unlock_other : locker ≢ other → unlock later other t ≡ (raised (http_error 403), t)

  pub record Expired (later : ℕ) (other : String) (ttl : ℕ) (t : LockState) : Type 0 where
    pub lock_free :
        lock second later other ttl t
        ≡ (returned true, some (record { locker = other; locked_until = later + ttl * second }))
    pub relock_late : relock second later other ttl t ≡ (raised (http_error 409), t)
    pub unlock_late : unlock later other t ≡ (raised (http_error 409), t)

  held :
      (until later : ℕ) (locker other : String) (ttl : ℕ)
      → locker ≢ ""
      → later ≤ until
      → Held later locker other ttl (some (record { locker = locker; locked_until = until }))
  unfolding lock relock unlock is_locked truthy held_by take_lock
  held until later locker other ttl h k = record {
    lock_taken = ground (arith, eq_iff locker "");
    relock_own = λ e. ground (arith, eq_iff locker "", eq_iff locker other);
    unlock_own = λ e. ground (arith, eq_iff locker "", eq_iff locker other);
    relock_other = λ e. ground (arith, eq_iff locker "", eq_iff locker other);
    unlock_other = λ e. ground (arith, eq_iff locker "", eq_iff locker other);
  }

  expired :
      (until later : ℕ) (locker other : String) (ttl : ℕ)
      → until < later
      → Expired later other ttl (some (record { locker = locker; locked_until = until }))
  unfolding lock relock unlock is_locked truthy take_lock
  expired until later locker other ttl k = record {
    lock_free = ground arith;
    relock_late = ground arith;
    unlock_late = ground arith;
  }

  -- A lock that was granted to a nonempty locker, by locking or relocking, is in force up to and at
  -- the granted number of seconds after the grant: until then a lock by anyone is refused by 409, a
  -- relock and an unlock by the holder are served and by another refused by 403. From then on anyone
  -- gets the lock, and relock and unlock are refused by 409. What is refused changes nothing.
  pub endpoints-Contract :
      (now : ℕ) (locker : String) (ttl : ℕ) (s t : LockState)
      → locker ≢ ""
      → Granted now locker ttl s t
      → (later : ℕ) (other : String) (ttl' : ℕ)
      → (later ≤ now + ttl * second → Held later locker other ttl' t)
        × (now + ttl * second < later → Expired later other ttl' t)
  endpoints-Contract now locker ttl s t h g later other ttl' =
      rw (Granted-until now locker ttl s t g) (
        λ k. held (now + ttl * second) later locker other ttl' h k,
        λ k. expired (now + ttl * second) later locker other ttl' k,
      )
