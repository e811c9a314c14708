-- ===== src/Op/Lifecycle.antt =====
-- How an operation ends, and that an operation which another has replaced leaves it alone
-- (astacus/common/op.py).
use mathlib.Core.List.{append-nil}
use astacus.Prelude.{
  ℕ, ◌+◌, ◌≡◌, ◌≢◌, refl, Bool, true, not, Option, none, some, List, [], ◌∷◌, String, arith, ◌++◌,
  ==_refl, string_eq, ◌<◌,
}
use astacus.Exceptions.{expired_operation, cancelled, http_error, Outcome, returned, raised, Method}
use astacus.Op.{
  Status, starting, running, fail, done, OpState, allocate_op_id, set_status, set_status_fail, Kind,
  async, sync, has_status, wrapper, start_op, get_op_and_op_info,
}

-- the wrapper of an operation of the class `Op`
abbrev pub run : ℕ → String → Method OpState (Unit {0}) → Kind → Method OpState (Unit {0})
run op_id class_name = wrapper (set_status op_id) (set_status_fail op_id class_name)

-- How the background task ends, by what the operation's function did: its outcome, the status that
-- is left, and the increases of the failure counter.
abbrev pub ending : Kind → String → Outcome (Unit {0}) → Outcome (Unit {0}) × Status × List String
ending kind class_name (returned _) = (returned tt, done, [])
ending kind class_name (raised expired_operation) = (returned tt, running, [])
ending async class_name (raised cancelled) = (returned tt, fail, class_name ∷ [])
ending sync class_name (raised cancelled) = (raised cancelled, running, [])
ending kind class_name (raised ex) = (raised ex, fail, class_name ∷ [])

abbrev with_status : Status → OpState → OpState
with_status status s = record s { op_info = record s.op_info { op_status = some status } }

has_status-eq :
    (current : Option Status) (status : Status)
    → has_status current status ≡ true
    → current ≡ some status
unfolding has_status
has_status-eq none status h = cc
has_status-eq (some starting) status h = ground arith
has_status-eq (some running) status h = ground arith
has_status-eq (some fail) status h = ground arith
has_status-eq (some done) status h = ground arith

module _ (op_id : ℕ) (s : OpState) where
  set_status_self :
      (status : Status)
      → op_id ≢ 0
      → s.op_info.op_id ≡ op_id
      → (changed : Bool) × (set_status op_id status none s
          ≡ (returned changed, with_status status s))
  unfolding set_status
  set_status_self status h i = (
    not (has_status s.op_info.op_status status),
    ground (arith, has_status-eq s.op_info.op_status status),
  )

  set_status-done :
      op_id ≢ 0
      → s.op_info.op_id ≡ op_id
      → s.op_info.op_status ≡ some running
      → set_status op_id done (some running) s ≡ (returned true, with_status done s)
  unfolding set_status
  set_status-done h i k = ground arith

  set_status_fail_self :
      (class_name : String)
      → op_id ≢ 0
      → s.op_info.op_id ≡ op_id
      → set_status_fail op_id class_name s
        ≡ (returned tt, with_status fail (record s { failures = s.failures ++ class_name ∷ [] }))
  unfolding set_status_fail set_status
  set_status_fail_self class_name h i = ground (arith, has_status-eq s.op_info.op_status fail)

  set_status_fail_expired :
      (class_name : String)
      → op_id ≢ 0
      → s.op_info.op_id ≢ op_id
      → set_status_fail op_id class_name s
        ≡ (raised expired_operation, record s { failures = s.failures ++ class_name ∷ [] })
  unfolding set_status_fail set_status
  set_status_fail_expired class_name h i = ground arith

  set_status_expired :
      (status : Status) (from_status : Option Status)
      → op_id ≢ 0
      → s.op_info.op_id ≢ op_id
      → set_status op_id status from_status s ≡ (raised expired_operation, s)
  unfolding set_status
  set_status_expired status from_status h i = ground arith

module _ (op_id : ℕ) (class_name : String) (kind : Kind) (fun : Method OpState (Unit {0}))
    (s : OpState) where
  -- For an operation whose function leaves `op_info` as the wrapper had set it: if the function
  -- returned, the status is done. If it raised ExpiredOperationException, the status stays running,
  -- nothing is counted and the wrapper returns. If a function that is no coroutine was cancelled, the
  -- status stays running, nothing is counted and the cancellation is passed on. If it raised anything
  -- else, the status is fail and the failure is counted; a coroutine's cancellation is not passed on,
  -- any other exception is.
  pub run_ends_with :
      (r : Outcome (Unit {0})) (t : OpState)
      → fun (with_status running s) ≡ (r, t)
      → op_id ≢ 0
      → s.op_info.op_id ≡ op_id
      → t.op_info ≡ (with_status running s).op_info
      → run op_id class_name fun kind s ≡ (
        (ending kind class_name r).0,
        record t {
          op_info = record t.op_info { op_status = some (ending kind class_name r).1 };
          failures = t.failures ++ (ending kind class_name r).2;
        },
      )
  unfolding wrapper
  run_ends_with (returned _) t e h i k =
      let (b, started) = set_status_self op_id s running h i in
      ground (arith, started, e, set_status-done op_id t h, append-nil t.failures)
  run_ends_with (raised ex) t e h i k =
      let (b, started) = set_status_self op_id s running h i in
      ground (arith, started, e, set_status_fail_self op_id t class_name h, append-nil t.failures)

  -- If another operation has taken over while the function ran, the wrapper ends with the same
  -- outcome and the same count, and leaves the other operation's information as it is.
  pub run_when_replaced :
      (r : Outcome (Unit {0})) (t : OpState)
      → fun (with_status running s) ≡ (r, t)
      → op_id ≢ 0
      → s.op_info.op_id ≡ op_id
      → t.op_info.op_id ≢ op_id
      → run op_id class_name fun kind s ≡ (
        (ending kind class_name r).0,
        record t { failures = t.failures ++ (ending kind class_name r).2 },
      )
  unfolding wrapper
  run_when_replaced (returned _) t e h i k =
      let (b, started) = set_status_self op_id s running h i in
      ground (
        arith,
        started,
        e,
        set_status_expired op_id t done (some running) h k,
        append-nil t.failures,
      )
  run_when_replaced (raised ex) t e h i k =
      let (b, started) = set_status_self op_id s running h i in
      ground
        (arith, started, e, set_status_fail_expired op_id t class_name h k, append-nil t.failures)

pub record Supersedes (older : ℕ) (op_id : ℕ) (name : String) (t : OpState) : Type 0 where
  pub started : t.op_info.op_status ≡ some starting
  pub found : get_op_and_op_info op_id name t ≡ (returned (some op_id, t.op_info), t)
  pub expired :
      (status : Status) (from_status : Option Status)
      → set_status older status from_status t ≡ (raised expired_operation, t)
  pub unknown : (other : String) → get_op_and_op_info older other t ≡ (raised (http_error 404), t)

start_op_lem :
    (url_of : ℕ → String) (op_id : ℕ) (name : String) (s : OpState)
    → 0 < op_id
    → start_op url_of op_id name s ≡ (
      returned (record { op_id = op_id; status_url = url_of op_id }),
      record s {
        op_info = record { op_id = op_id; op_name = name; op_status = some starting };
        op = some op_id;
      },
    )
unfolding start_op
start_op_lem url_of op_id name s h =
    let s' : OpState = record s {
      op_info = record s.op_info { op_id = op_id; op_name = name };
      op = some op_id;
    } in
    let (b, e) = set_status_self op_id s' starting (omega arith) refl in ground (arith, e)

abbrev superseding : ℕ → String → OpState → OpState
superseding op_id name s = record s {
  op_info = record { op_id = op_id; op_name = name; op_status = some starting };
  op = some op_id;
}

superseding-Supersedes :
    (older op_id : ℕ) (name : String) (s : OpState)
    → 0 < older
    → older < op_id
    → Supersedes older op_id name (superseding op_id name s)
superseding-Supersedes older op_id name s h k = record {
  started = refl;
  found = unfold get_op_and_op_info in ground (arith, ==_refl name);
  expired = λ status from_status.
      set_status_expired older _ status from_status (omega arith) (omega arith);
  unknown = λ other. unfold get_op_and_op_info in ground arith;
}

-- What `start_op` answers and leaves behind under the id that `allocate_op_id` returned: the id is
-- not handed out again, it is in the answer, and an operation with an earlier id is superseded.
abbrev pub IsStarted : (ℕ → String) → ℕ → String → ℕ → OpState → Type 0
IsStarted url_of older name op_id t =
    (older < op_id)
    × (op_id < t.next_op_id)
    × ((start_op url_of op_id name t).0
        ≡ returned (record { op_id = op_id; status_url = url_of op_id }))
    × Supersedes older op_id name (start_op url_of op_id name t).1

-- The id that `allocate_op_id` returns is above each positive number below the next id, and below the
-- next id afterwards. An operation that is started under it answers with it, is found under it and
-- its name, and has status starting; an operation with an earlier id can no longer change the status,
-- and a request for it is answered by 404.
pub start_op-Supersedes :
    (url_of : ℕ → String) (older : ℕ) (name : String) (s : OpState) (op_id : ℕ) (t : OpState)
    → 0 < older
    → older < s.next_op_id
    → allocate_op_id s ≡ (returned op_id, t)
    → IsStarted url_of older name op_id t
unfolding allocate_op_id
start_op-Supersedes url_of older name s op_id t h k e =
    let same : s.next_op_id ≡ op_id = ground (arith, e) in
    let next : t.next_op_id ≡ op_id + 1 = ground (arith, e) in
    (
      omega arith,
      omega arith,
      rw (start_op_lem url_of op_id name t (omega arith)) refl,
      rw (start_op_lem url_of op_id name t (omega arith))
          (superseding-Supersedes older op_id name t h (omega arith)),
    )
