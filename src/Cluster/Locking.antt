-- ===== src/Cluster/Locking.antt =====
-- A cluster's lock is on all of its nodes or given back.
use astacus.Prelude.{
  ℕ, ◌+◌, ◌*◌, ◌≡◌, ◌≢◌, refl, true, false, some, String, List, [], ◌∷◌, map, arith, ◌⊎◌, inl, inr,
  All, string_eq, ==_refl, eq_iff,
}
use astacus.Exceptions.{returned, raised, http_error}
use astacus.NodeLock
use astacus.NodeLock.{LockState, LockEntry, is_locked}
use astacus.Cluster.{
  LockCall, lock, relock, unlock, LockResult, ok, failure, exception, Reply, no_response,
  error_status, locked, Delivery, request_lost, reply_lost, delivered, combine, Node, lock_node,
  unlock_node, request_lock, request_unlock, acquire_cluster_lock, call_node, reply_of,
}

failure_stays : (call : LockCall) (replies : List Reply) → combine call failure replies ≡ failure
unfolding combine
failure_stays call [] = refl
failure_stays call (no_response ∷ replies) = failure_stays call replies
failure_stays call (error_status ∷ replies) = failure_stays call replies
failure_stays call (locked b ∷ replies) = ground (arith, failure_stays call replies)

exception_stays : (call : LockCall) (replies : List Reply) → combine call exception replies ≢ ok
unfolding combine
exception_stays call [] e = ground arith
exception_stays call (no_response ∷ replies) e = exception_stays call replies e
exception_stays call (error_status ∷ replies) e = ground (arith, failure_stays call replies, e)
exception_stays lock (locked true ∷ replies) e = exception_stays lock replies e
exception_stays lock (locked false ∷ replies) e = ground (arith, failure_stays lock replies, e)
exception_stays relock (locked true ∷ replies) e = exception_stays relock replies e
exception_stays relock (locked false ∷ replies) e = ground (arith, failure_stays relock replies, e)
exception_stays unlock (locked true ∷ replies) e = ground (arith, failure_stays unlock replies, e)
exception_stays unlock (locked false ∷ replies) e = exception_stays unlock replies e

combine_ok :
    (replies : List Reply) → combine lock ok replies ≡ ok → All (λ r. r ≡ locked true) replies
unfolding combine
combine_ok [] e = tt
combine_ok (no_response ∷ replies) e = elim (exception_stays lock replies e) [ ]
combine_ok (error_status ∷ replies) e = ground (arith, failure_stays lock replies, e)
combine_ok (locked true ∷ replies) e = (refl, combine_ok replies e)
combine_ok (locked false ∷ replies) e = ground (arith, failure_stays lock replies, e)

module _ (second : ℕ) (locker : String) (ttl : ℕ) where
  -- the node's lock is the locker's, for as long as it was asked for
  abbrev pub IsHeld : Node → Node → Type 0
  IsHeld before node =
      node.state ≡ some (record { locker = locker; locked_until = before.lock_at + ttl * second })

  call_locked :
      (d : Delivery) (now : ℕ) (s : LockState)
      → (call_node d (NodeLock.lock second now locker ttl) s).0 ≡ locked true
      → (call_node d (NodeLock.lock second now locker ttl) s).1
        ≡ some (record { locker = locker; locked_until = now + ttl * second })
  unfolding call_node NodeLock.lock reply_of
  call_locked request_lost now s e = ground arith
  call_locked reply_lost now s e = ground arith
  call_locked delivered now s e = ground arith

  lock_node_locked :
      (n : Node)
      → (lock_node second locker ttl n).0 ≡ locked true
      → IsHeld n (lock_node second locker ttl n).1
  unfolding lock_node
  lock_node_locked n e = call_locked n.lock_delivery n.lock_at n.state e

  -- the node's lock is not the locker's any more
  abbrev pub IsFree : Node → Type 0
  IsFree node = is_locked node.unlock_at node.state ≢ some locker

  call_frees :
      (d : Delivery) (now : ℕ) (s : LockState)
      → locker ≢ ""
      → d ≢ request_lost
      → is_locked now (call_node d (NodeLock.unlock now locker) s).1 ≢ some locker
  unfolding call_node NodeLock.unlock is_locked reply_of
  call_frees request_lost now s named reaches e = reaches refl
  call_frees reply_lost now s named reaches e = ground (arith, eq_iff locker "", ==_refl locker)
  call_frees delivered now s named reaches e = ground (arith, eq_iff locker "", ==_refl locker)

  unlock_node_frees :
      (n : Node)
      → locker ≢ ""
      → n.unlock_delivery ≢ request_lost
      → IsFree (unlock_node second locker ttl n).1
  unfolding unlock_node
  unlock_node_frees n named reaches = call_frees n.unlock_delivery n.unlock_at n.state named reaches

  -- each node with the node after it
  abbrev AllHeld : List Node → List Node → Type 0
  AllHeld [] [] = Unit
  AllHeld (n ∷ before) (m ∷ nodes) = IsHeld n m × AllHeld before nodes
  AllHeld _ _ = ⊥

  all_held :
      (nodes : List Node)
      → All (λ r. r ≡ locked true) (map (λ n. (lock_node second locker ttl n).0) nodes)
      → AllHeld nodes (map (λ n. (lock_node second locker ttl n).1) nodes)
  all_held [] h = tt
  all_held (n ∷ nodes) h = (lock_node_locked n h.0, all_held nodes h.1)

  abbrev Reached : List Node → Type 0
  Reached = All (λ n. n.unlock_delivery ≢ request_lost)

  Reached-after :
      (nodes : List Node)
      → Reached nodes
      → Reached (map (λ n. (lock_node second locker ttl n).1) nodes)
  unfolding lock_node
  Reached-after [] h = tt
  Reached-after (n ∷ nodes) h = (h.0, Reached-after nodes h.1)

  All-IsFree :
      (nodes : List Node)
      → locker ≢ ""
      → Reached nodes
      → All IsFree (map (λ n. (unlock_node second locker ttl n).1) nodes)
  All-IsFree [] named h = tt
  All-IsFree (n ∷ nodes) named h = (unlock_node_frees n named h.0, All-IsFree nodes named h.1)

  LockResult-cases : (r : LockResult) → (r ≡ ok) ⊎ (r ≢ ok)
  LockResult-cases ok = inl refl
  LockResult-cases failure = inr (λ e. ground arith)
  LockResult-cases exception = inr (λ e. ground arith)

  acquire_ok :
      (nodes : List Node)
      → (request_lock second locker ttl nodes).0 ≡ ok
      → acquire_cluster_lock second locker ttl nodes
        ≡ (returned tt, (request_lock second locker ttl nodes).1)
  unfolding acquire_cluster_lock
  acquire_ok nodes e = ground (arith, e)

  acquire_refused :
      (nodes : List Node)
      → (request_lock second locker ttl nodes).0 ≢ ok
      → acquire_cluster_lock second locker ttl nodes ≡ (
        raised (http_error 409),
        (request_unlock second locker ttl (request_lock second locker ttl nodes).1).1,
      )
  unfolding acquire_cluster_lock
  acquire_refused nodes e = ground (arith, e)

  held_if_ok :
      (nodes : List Node)
      → (request_lock second locker ttl nodes).0 ≡ ok
      → AllHeld nodes (request_lock second locker ttl nodes).1
  unfolding request_lock
  held_if_ok nodes e =
      all_held nodes (combine_ok (map (λ n. (lock_node second locker ttl n).0) nodes) e)

  IsFree-if_unlocked :
      (nodes : List Node)
      → locker ≢ ""
      → Reached nodes
      → All IsFree (request_unlock second locker ttl (request_lock second locker ttl nodes).1).1
  unfolding request_lock request_unlock
  IsFree-if_unlocked nodes named h =
      All-IsFree (map (λ n. (lock_node second locker ttl n).1) nodes) named (Reached-after nodes h)

  -- returned with all locks, or raised with none
  abbrev pub IsAllOrNothing : List Node → Type 0
  IsAllOrNothing nodes =
      ((after : List Node) × (acquire_cluster_lock second locker ttl nodes ≡ (returned tt, after))
        × AllHeld nodes after)
      ⊎ ((after : List Node) × (acquire_cluster_lock second locker ttl nodes
            ≡ (raised (http_error 409), after))
          × All IsFree after)

  -- An acquisition of the cluster's lock returns with the lock of every node, until its time to
  -- live after the call; or it raises, with no node's lock in the locker's hand, provided that the
  -- locker is not empty and every unlock request arrives.
  pub acquire_cluster_lock-IsAllOrNothing :
      (nodes : List Node) → locker ≢ "" → Reached nodes → IsAllOrNothing nodes
  acquire_cluster_lock-IsAllOrNothing nodes named h =
      elim (LockResult-cases (request_lock second locker ttl nodes).0) [
        | inl e ↦
            inl ((request_lock second locker ttl nodes).1, acquire_ok nodes e, held_if_ok nodes e)
        | inr e ↦ inr (
          (request_unlock second locker ttl (request_lock second locker ttl nodes).1).1,
          acquire_refused nodes e,
          IsFree-if_unlocked nodes named h,
        )
      ]
