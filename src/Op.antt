-- ===== src/Op.antt =====
-- astacus/common/op.py: the state of the one operation that a server runs, the methods of `Op` and
-- `OpMixin`, and the wrapper that runs an operation in the background. `Op.info` is the object that
-- the server's state holds as `op_info`, so an operation reads and writes the state's. Log lines are
-- left out; increases of the statsd counter `astacus_fail` are kept in order.
pub mod Lifecycle
mod Tests
use astacus.Prelude.{
  ℕ, ◌+◌, ◌≡◌, refl, Bool, true, false, not, ◌&&◌, ◌||◌, Option, none, some, List, [], ◌∷◌, String,
  ◌==◌, nat_eq, string_eq, if◌then◌else◌, Eq, ◌++◌,
}
use astacus.Exceptions.{
  Exn, expired_operation, cancelled, http_error, Outcome, returned, raised, Method, pure, raise,
  lift, ◌>>=◌, ◌>>◌, get, modify, assert,
}

-- `Op.Status`
pub data Status : Type 0 where
  starting running fail done : Status

pub status_beq : Status → Status → Bool
status_beq starting starting = true
status_beq running running = true
status_beq fail fail = true
status_beq done done = true
status_beq _ _ = false

-- `Op.Info`
pub record Info : Type 0 where
  pub op_id : ℕ
  pub op_name : String
  pub op_status : Option Status

-- `OpState`, with the counter increases that were sent. An operation object is known by its id.
pub record OpState : Type 0 where
  pub op_info : Info
  pub op : Option ℕ
  pub next_op_id : ℕ
  pub failures : List String

abbrev pub initial : OpState
initial = record {
  op_info = record { op_id = 0; op_name = ""; op_status = none };
  op = none;
  next_op_id = 1;
  failures = [];
}

-- The number is read before the `finally` block increases it.
unfoldable pub allocate_op_id : Method OpState ℕ
allocate_op_id s = (returned s.next_op_id, record s { next_op_id = s.next_op_id + 1 })

unfoldable pub has_status : Option Status → Status → Bool
unfolding status_beq
has_status none status = false
has_status (some current) status = status_beq current status

-- `from_status and from_status != self.info.op_status`
from_other : Option Status → Option Status → Bool
unfolding has_status
from_other none current = false
from_other (some from_status) current = not (has_status current from_status)

-- `Op`: the operation that holds the id
module _ (op_id : ℕ) where
  unfoldable pub check_op_id : Method OpState (Unit {0})
  check_op_id s =
      if s.op_info.op_id == op_id then (returned tt, s) else (raised expired_operation, s)

  unfoldable pub set_status : Status → Option Status → Method OpState Bool
  unfolding check_op_id from_other has_status
  set_status status from_status = do
    assert (not (op_id == 0))
    check_op_id
    s ← get
    if from_other from_status s.op_info.op_status
        then pure false
        else if has_status s.op_info.op_status status
        then pure false
        else (do
          modify (λ s. record s { op_info = record s.op_info { op_status = some status } })
          pure true)

-- `OpMixin.get_op_and_op_info`; an empty name is no name.
unfoldable pub get_op_and_op_info : ℕ → String → Method OpState (Option ℕ × Info)
get_op_and_op_info op_id op_name s =
    if not (op_id == s.op_info.op_id) || (not (op_name == "") && not (op_name == s.op_info.op_name))
    then (raised (http_error 404), s)
    else (returned (s.op, s.op_info), s)

-- `async def` or `def`: a cancellation is handled by the first only.
pub data Kind : Type 0 where
  async sync : Kind

-- `with contextlib.suppress(ExpiredOperationException): …`
pub suppress_expired {ℓ} : {S : Type ℓ} → Outcome (Unit {0}) × S → Outcome (Unit {0}) × S
suppress_expired (raised expired_operation, s) = (returned tt, s)
suppress_expired (r, s) = (r, s)

-- What a class of operations overrides, and what its background task does.
module _ {ℓ} {S : Type ℓ} (set_status : Status → Option Status → Method S Bool)
    (set_status_fail : Method S (Unit {0})) (fun : Method S (Unit {0})) where
  run_body : Method S (Unit {0})
  run_body = do set_status running none; fun; set_status done (some running); pure tt

  then_raise : Exn → Outcome (Unit {0}) × S → Outcome (Unit {0}) × S
  then_raise ex (returned _, s) = (raised ex, s)
  then_raise ex (raised e, s) = (raised e, s)

  handle : Kind → Outcome (Unit {0}) × S → Outcome (Unit {0}) × S
  unfolding suppress_expired then_raise
  handle kind (returned _, s) = (returned tt, s)
  handle kind (raised expired_operation, s) = (returned tt, s)
  handle async (raised cancelled, s) = suppress_expired (set_status_fail s)
  handle sync (raised cancelled, s) = (raised cancelled, s)
  handle kind (raised ex, s) = then_raise ex (suppress_expired (set_status_fail s))

  -- `_async_wrapper` and `_sync_wrapper` of `start_op`
  unfoldable pub wrapper : Kind → Method S (Unit {0})
  unfolding handle run_body
  wrapper kind s = handle kind (run_body s)

-- `Op.set_status_fail`, which calls the operation's own `set_status`
unfoldable pub set_status_fail : ℕ → String → Method OpState (Unit {0})
unfolding set_status
set_status_fail op_id class_name = do
  modify (λ s. record s { failures = s.failures ++ class_name ∷ [] })
  set_status op_id fail none
  pure tt

pub record StartResult : Type 0 where
  pub op_id : ℕ
  pub status_url : String

-- `OpMixin.start_op` up to the background task, for an operation of the class `Op`; `url_of` is the
-- URL that the request's parts and an id make.
unfoldable pub start_op : (ℕ → String) → ℕ → String → Method OpState StartResult
unfolding set_status
start_op url_of op_id op_name = do
  modify (λ s. record s {
    op_info = record s.op_info { op_id = op_id; op_name = op_name };
    op = some op_id;
  })
  set_status op_id starting none
  pure (record { op_id = op_id; status_url = url_of op_id })
