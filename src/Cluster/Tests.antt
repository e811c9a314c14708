-- ===== src/Cluster/Tests.antt =====
-- A cluster of two nodes, one of which another coordinator holds.
use astacus.Prelude.{All, ◌++◌, Option, List, Bool, true, length, nat_eq}
use astacus.Progress.{Progress, finished_failed, finished_successfully}
use astacus.Cluster.Waiting.{wait_successful_results, poll_all, poll_round, poll_node}
use astacus.Cluster.Polling.{IsSuccess, wait_successful_results-IsSuccess}
use astacus.Cluster.Progressing.{NoFailure, IsDone, wait_successful_results_returns}
use astacus.Prelude.{
  ◌≡◌, ◌≢◌, refl, arith, none, some, String, [], ◌∷◌, ◌==◌, string_eq, eq_iff, false,
}
use astacus.Exceptions.{returned, raised, http_error}
use astacus.NodeLock
use astacus.NodeLock.{is_locked}
use astacus.Cluster.{Node, delivered, acquire_cluster_lock}
use astacus.Cluster.Locking.{acquire_cluster_lock-IsAllOrNothing, IsAllOrNothing}

abbrev free_node : Node
free_node = record {
  state = none;
  lock_at = 5;
  unlock_at = 6;
  lock_delivery = delivered;
  unlock_delivery = delivered;
}

abbrev taken_node : Node
taken_node = record free_node { state = some (record { locker = "other"; locked_until = 9 }) }

given_back :
    acquire_cluster_lock 1 "me" 10 (free_node ∷ taken_node ∷ [])
    ≡ (raised (http_error 409), free_node ∷ taken_node ∷ [])
unfolding acquire_cluster_lock NodeLock.lock NodeLock.unlock is_locked
given_back = refl

differ : (a b : String) → (a == b) ≡ false → a ≢ b
differ a b h e = ground (arith, eq_iff a b)

acquire_cluster_lock-IsAllOrNothing_example : IsAllOrNothing 1 "me" 10 (free_node ∷ taken_node ∷ [])
acquire_cluster_lock-IsAllOrNothing_example =
    acquire_cluster_lock-IsAllOrNothing 1 "me" 10 (free_node ∷ taken_node ∷ [])
      (differ "me" "" refl) ((λ e. ground arith), ((λ e. ground arith), tt))

-- two nodes, of which the first does not answer at once
abbrev done_result : Progress
done_result = record { handled = 2; failed = 0; total = 2; final = true }

abbrev running_result : Progress
running_result = record { handled = 1; failed = 0; total = 2; final = false }

abbrev both_started : List Bool
both_started = true ∷ true ∷ []

abbrev first_turns : List (List (Option Progress))
first_turns = (none ∷ some running_result ∷ []) ∷ []

abbrev last_turn : List (Option Progress)
last_turn = some done_result ∷ some done_result ∷ []

both_return :
    wait_successful_results (λ p. p) 3 both_started (first_turns ++ last_turn ∷ [])
    ≡ returned (done_result ∷ done_result ∷ [])
unfolding wait_successful_results poll_all poll_round poll_node finished_failed
    finished_successfully
both_return = refl

wait_successful_results-IsSuccess_example :
    All (IsSuccess (λ p. p) 3) (done_result ∷ done_result ∷ []) × (length both_started ≡ 2)
wait_successful_results-IsSuccess_example =
    wait_successful_results-IsSuccess (λ p. p) 3 both_started (first_turns ++ last_turn ∷ [])
      (done_result ∷ done_result ∷ []) both_return

first_turns-NoFailure : All (λ replies. All (NoFailure (λ p. p) 3) replies) first_turns
unfolding finished_failed
first_turns-NoFailure = (((λ r e. ground (arith, e)), ((λ r e. ground (arith, e)), tt)), tt)

last_turn-IsDone : All (IsDone (λ p. p) 3) last_turn
unfolding finished_successfully
last_turn-IsDone = ((done_result, refl, refl), ((done_result, refl, refl), tt))

wait_successful_results_returns_example :
    (rs : List Progress) × (wait_successful_results
        (λ p. p)
        3
        both_started
        (first_turns ++ last_turn ∷ [])
      ≡ returned rs)
wait_successful_results_returns_example =
    wait_successful_results_returns (λ p. p) 3 both_started first_turns last_turn refl
      first_turns-NoFailure last_turn-IsDone (omega arith) refl
