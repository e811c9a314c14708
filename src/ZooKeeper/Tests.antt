-- ===== src/ZooKeeper/Tests.antt =====
-- A session on a new client.
use astacus.Prelude.{◌≡◌, refl, false, some, List, [], ◌∷◌, length, ◌⊎◌}
use astacus.ZooKeeper.{
  ZkError, Event, Storage, Parts, ok, failed, rolled_back, no_node, runtime_inconsistency,
  Operations, commit_locked, created, not_empty,
}
use astacus.ZooKeeper.Connection.{delete}
use astacus.ZooKeeper.Commit.{AllDone, commit_locked-IsAtomic}
use astacus.ZooKeeper.Tree.{IsTree}
use astacus.ZooKeeper.Reachable.{
  Action, do_enter, do_create, do_get, do_set, serve_all, fresh, serve_all-IsTree,
}

-- `/a`, and `/a/b` with its parent
abbrev a : Parts
a = "a" ∷ "" ∷ []

abbrev b : Parts
b = "b" ∷ a

abbrev session : List Action
session = do_enter 0 ∷ do_create 0 b "1" ∷ do_get 0 a (some 7) ∷ do_set 0 a "2" ∷ []

stored : (serve_all session fresh).storage ≡ ("" ∷ [], "") ∷ (b, "1") ∷ (a, "2") ∷ []
unfolding serve_all
stored = refl

not_recursive : (delete 0 a false (serve_all session fresh)).0 ≡ failed (not_empty a)
unfolding serve_all delete
not_recursive = refl

abbrev ops : Operations
ops = (a, "1") ∷ (b, "3") ∷ []

rolled_back_results :
    commit_locked ((a, "1") ∷ ("d" ∷ "c" ∷ a, "2") ∷ (b, "3") ∷ []) fresh.storage
    ≡ (failed (rolled_back a ∷ no_node ("c" ∷ a) ∷ runtime_inconsistency b ∷ []), fresh.storage)
unfolding commit_locked
rolled_back_results = refl

commit_locked-IsAtomic_run :
    commit_locked ((a, "1") ∷ (b, "3") ∷ []) fresh.storage
    ≡ (ok (("" ∷ [], created) ∷ (a, created) ∷ []), ("" ∷ [], "") ∷ (a, "1") ∷ (b, "3") ∷ [])
unfolding commit_locked
commit_locked-IsAtomic_run = refl

commit_locked-IsAtomic_example :
    ((es : List ZkError) × (commit_locked ops fresh.storage ≡ (failed es, fresh.storage))
      × (length es ≡ length ops))
    ⊎ ((out : List Event) × (t : Storage) × (commit_locked ops fresh.storage ≡ (ok out, t))
        × AllDone ops fresh.storage t)
commit_locked-IsAtomic_example = commit_locked-IsAtomic ops fresh.storage

serve_all-IsTree_example : IsTree (serve_all session fresh).storage
serve_all-IsTree_example = serve_all-IsTree session
