-- ===== src/Cluster.antt =====
-- The lock calls of `Cluster` in astacus/coordinator/cluster.py, and `acquire_cluster_lock` of
-- astacus/coordinator/coordinator.py, over nodes whose endpoints are those of NodeLock. The network
-- may lose a request, or the reply to it.
pub mod Locking
pub mod Waiting
pub mod Polling
pub mod Progressing
mod Tests
use astacus.Prelude.{ℕ, Bool, true, false, not, ◌&&◌, String, List, [], ◌∷◌, map, if◌then◌else◌}
use astacus.Exceptions.{Outcome, returned, raised, http_error, Method}
use astacus.NodeLock
use astacus.NodeLock.{LockState}

pub data LockCall : Type 0 where
  lock relock unlock : LockCall

pub data LockResult : Type 0 where
  ok failure exception : LockResult

-- what a node call comes back with: no response, an error status, or the value of "locked"
pub data Reply : Type 0 where
  no_response error_status : Reply
  locked : Bool → Reply

-- what the network does to one call
pub data Delivery : Type 0 where
  request_lost reply_lost delivered : Delivery

expected : LockCall → Bool
expected unlock = false
expected _ = true

is_failure : LockResult → Bool
is_failure failure = true
is_failure _ = false

same : Bool → Bool → Bool
same true b = b
same false b = not b

-- the loop over the results, with the value of `rv` so far
unfoldable pub combine : LockCall → LockResult → List Reply → LockResult
unfolding expected is_failure same
combine call rv [] = rv
combine call rv (no_response ∷ replies) =
    combine call (if is_failure rv then rv else exception) replies
combine call rv (error_status ∷ replies) = combine call failure replies
combine call rv (locked b ∷ replies) =
    combine call (if same b (expected call) then rv else failure) replies

-- A node with its lock, the readings of its clock at the two calls that an acquisition makes, and
-- what happens to them.
pub record Node : Type 0 where
  pub state : LockState
  pub lock_at : ℕ
  pub unlock_at : ℕ
  pub lock_delivery : Delivery
  pub unlock_delivery : Delivery

unfoldable pub reply_of : Outcome Bool → Reply
reply_of (returned b) = locked b
reply_of (raised e) = error_status

unfoldable pub call_node : Delivery → Method LockState Bool → LockState → Reply × LockState
unfolding reply_of
call_node request_lost endpoint state = (no_response, state)
call_node reply_lost endpoint state = (no_response, (endpoint state).1)
call_node delivered endpoint state = (reply_of (endpoint state).0, (endpoint state).1)

module _ (second : ℕ) (locker : String) (ttl : ℕ) where
  unfoldable pub lock_node : Node → Reply × Node
  unfolding call_node
  lock_node node =
      let (reply, state) =
        call_node node.lock_delivery (NodeLock.lock second node.lock_at locker ttl) node.state in
      (reply, record node { state = state })

  unfoldable pub unlock_node : Node → Reply × Node
  unfolding call_node
  unlock_node node =
      let (reply, state) =
        call_node node.unlock_delivery (NodeLock.unlock node.unlock_at locker) node.state in
      (reply, record node { state = state })

  unfoldable pub request_lock : List Node → LockResult × List Node
  unfolding lock_node combine
  request_lock nodes =
      (combine lock ok (map (λ n. (lock_node n).0) nodes), map (λ n. (lock_node n).1) nodes)

  unfoldable pub request_unlock : List Node → LockResult × List Node
  unfolding unlock_node combine
  request_unlock nodes =
      (combine unlock ok (map (λ n. (unlock_node n).0) nodes), map (λ n. (unlock_node n).1) nodes)

  unfoldable pub acquire_cluster_lock : Method (List Node) (Unit {0})
  unfolding request_lock request_unlock
  acquire_cluster_lock nodes =
      let (result, locked_nodes) = request_lock nodes in
      elim result [
        | ok ↦ (returned tt, locked_nodes)
        | _ ↦ (raised (http_error 409), (request_unlock locked_nodes).1)
      ]
