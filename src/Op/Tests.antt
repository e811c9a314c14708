-- ===== src/Op/Tests.antt =====
-- Operations on a fresh server, and the theorems about them at such states.
use astacus.Prelude.{ℕ, ◌≡◌, refl, some, [], ◌∷◌, String, arith}
use astacus.Exceptions.{value_error, returned, raised, pure, raise}
use astacus.Op.{
  starting, running, fail, done, OpState, initial, allocate_op_id, async, sync, start_op, wrapper,
  set_status, set_status_fail,
}
use astacus.Op.Lifecycle.{run, run_ends_with, run_when_replaced, IsStarted, start_op-Supersedes}

abbrev url_of : ℕ → String
url_of n = "/backup"

abbrev begun : OpState
begun = record {
  op_info = record { op_id = 1; op_name = "backup"; op_status = some starting };
  op = some 1;
  next_op_id = 2;
  failures = [];
}

abbrev replaced : OpState
replaced = record begun {
  op_info = record { op_id = 2; op_name = "restore"; op_status = some running };
  op = some 2;
  next_op_id = 3;
}

start_begun : (start_op url_of 1 "backup" (allocate_op_id initial).1).1 ≡ begun
unfolding start_op allocate_op_id
start_begun = refl

run-done : (run 1 "BackupOp" (pure tt) async begun).1.op_info.op_status ≡ some done
unfolding wrapper set_status set_status_fail
run-done = refl

run_ends_with_example : run 1 "BackupOp" (raise value_error) sync begun ≡ (
  raised value_error,
  record begun {
    op_info = record { op_id = 1; op_name = "backup"; op_status = some fail };
    failures = "BackupOp" ∷ [];
  },
)
run_ends_with_example =
    run_ends_with 1 "BackupOp" sync (raise value_error) begun (raised value_error)
      (record begun {
        op_info = record { op_id = 1; op_name = "backup"; op_status = some running };
      })
      refl (omega arith) refl refl

run_when_replaced_example :
    run 1 "BackupOp" (λ s. (returned tt, replaced)) async begun ≡ (returned tt, replaced)
run_when_replaced_example =
    run_when_replaced 1 "BackupOp" async (λ s. (returned tt, replaced)) begun (returned tt) replaced
      refl (omega arith) refl (omega arith)

-- the state in which the first operation holds its id and the second id is taken
abbrev allocated : OpState
allocated = record begun { next_op_id = 3 }

second_allocated : allocate_op_id begun ≡ (returned 2, allocated)
unfolding allocate_op_id
second_allocated = refl

start_op-Supersedes_example : IsStarted url_of 1 "restore" 2 allocated
start_op-Supersedes_example =
    start_op-Supersedes url_of 1 "restore" begun 2 allocated (omega arith) (omega arith)
      second_allocated
