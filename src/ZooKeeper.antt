-- ===== src/ZooKeeper.antt =====
-- The in-memory ZooKeeper of astacus/coordinator/plugins/zookeeper.py: `FakeZooKeeperClient`, its
-- connections and its transactions. A path is what `parse_path` makes of it, held from its last
-- part to its first, so that `parts[:-1]` is the tail. Each operation takes the client's lock once;
-- a watch is the number of its callback.
pub mod Tree
pub mod Commit
pub mod Connection
pub mod Reachable
mod Tests
use astacus.Prelude.{
  ℕ, zero, suc, ◌↔◌, ◌≡◌, refl, Bool, true, false, not, ◌&&◌, ◌||◌, Option, none, some, List, [],
  ◌∷◌, ◌++◌, String, map, ltb, leb, Eq, ◌==◌, string_eq, nat_eq, contains, lookup, insert, remove,
  to_set, filter, length, sorted, reverse, if◌then◌else◌, arith, string_le, eq_iff,
}

abbrev pub Parts : Type 0
Parts = List String

abbrev pub parts_beq : Parts → Parts → Bool
parts_beq [] [] = true
parts_beq (x ∷ p) (y ∷ q) = x == y && parts_beq p q
parts_beq _ _ = false

pub parts_beq_iff : (p q : Parts) → (parts_beq p q ≡ true) ↔ (p ≡ q)
parts_beq_iff [] [] = ground arith
parts_beq_iff [] (y ∷ q) = ground arith
parts_beq_iff (x ∷ p) [] = ground arith
parts_beq_iff (x ∷ p) (y ∷ q) = (
  λ h. ground (arith, eq_iff x y, parts_beq_iff p q),
  λ h. ground (arith, eq_iff x y, parts_beq_iff p q),
)

instance abbrev pub parts_eq : Eq Parts
parts_eq = record { beq = parts_beq; beq_iff = parts_beq_iff }

pub data ZkError : Type 0 where
  no_node node_exists not_empty rolled_back runtime_inconsistency : Parts → ZkError
  assertion_error : ZkError

pub data Result (E A : Type 0) : Type 0 where
  ok : A → Result E A
  failed : E → Result E A

pub data EventType : Type 0 where
  created deleted changed child : EventType

abbrev pub Event : Type 0
Event = Parts × EventType

-- the bytes of a node are a text
abbrev pub Storage : Type 0
Storage = List (Parts × String)

unfoldable pub has_node : Storage → Parts → Bool
has_node storage p = elim (lookup storage p) [ none ↦ false | some v ↦ true ]

-- the loop of `create_locked` over the parents
unfoldable pub make_parents : Bool → Storage → Parts → Result ZkError Parts × Storage
unfolding has_node
make_parents makepath storage [] = (ok [], storage)
make_parents makepath storage (x ∷ p) =
    let rest = make_parents makepath (insert storage (x ∷ p) "") p in
    if has_node storage (x ∷ p)
    then (ok (x ∷ p), storage)
    else if makepath
    then rest
    else (failed (no_node (x ∷ p)), storage)

abbrev pub parent : Parts → Parts
parent [] = []
parent (x ∷ p) = p

unfoldable pub create_locked : Parts → String → Bool → Storage → Result ZkError Parts × Storage
unfolding make_parents has_node
create_locked parts value makepath storage =
    if has_node storage parts
    then (failed (node_exists parts), storage)
    else make_parents makepath (insert storage parts value) (parent parts)

-- `existing_parts[: len(parts)] == parts`
unfoldable pub under : Parts → Parts → Bool
under parts [] = [] == parts
under parts (x ∷ p) = (x ∷ p) == parts || under parts p

-- the order of tuples of texts, which reads a path from its first part on
unfoldable pub tuple_le : List String → List String → Bool
unfolding string_le
tuple_le [] q = true
tuple_le (x ∷ p) [] = false
tuple_le (x ∷ p) (y ∷ q) = let rest = tuple_le p q in if x == y then rest else string_le x y

unfoldable pub parts_le : Parts → Parts → Bool
unfolding tuple_le
parts_le p q = tuple_le (reverse p) (reverse q)

unfoldable pub delete_all : List Parts → Storage → Storage
delete_all [] storage = storage
delete_all (p ∷ ps) storage = delete_all ps (remove storage p)

event_rank : EventType → ℕ
event_rank child = 0
event_rank _ = 1

-- the order by `delete_sort_key`
delete_sort_le : Event → Event → Bool
unfolding event_rank
delete_sort_le (p, s) (q, t) =
    ltb (length q) (length p) || (length p == length q && leb (event_rank s) (event_rank t))

unfoldable pub nodes_under : Parts → Storage → List Parts
unfolding under
nodes_under parts storage = filter (under parts) (map (λ n. n.0) storage)

unfoldable pub delete_locked : Parts → Bool → Storage → Result ZkError (List Event) × Storage
unfolding nodes_under delete_all parts_le delete_sort_le sorted
delete_locked parts recursive storage =
    let deleted_items = sorted parts_le (nodes_under parts storage) in
    let parent_items = sorted parts_le (to_set (map parent deleted_items)) in
    let parts_and_events =
      map (λ p. (p, deleted)) deleted_items ++ map (λ p. (p, child)) parent_items in
    if length deleted_items == 0
    then (failed (no_node parts), storage)
    else if ltb 1 (length deleted_items) && not recursive
    then (failed (not_empty parts), storage)
    else (ok (sorted delete_sort_le parts_and_events), delete_all deleted_items storage)

-- A transaction's operations, each the creation of a node.
abbrev pub Operations : Type 0
Operations = List (Parts × String)

-- Where the loop of `commit` stops: after all operations, with the events, or at the one that
-- fails, of which the code keeps the number of results before it.
pub data Progress : Type 0 where
  completed : List Event → Storage → Progress
  stopped : ℕ → ZkError → Progress

unfoldable pub commit_loop : ℕ → List Event → Operations → Storage → Progress
unfolding create_locked
commit_loop n triggers [] storage = completed triggers storage
commit_loop n triggers ((parts, value) ∷ ops) storage =
    let (r, storage') = create_locked parts value false storage in
    let rest : Parts → Progress =
      λ p. commit_loop (suc n) (triggers ++ (p, created) ∷ []) ops storage' in
    elim r [ ok p ↦ rest p | failed e ↦ stopped n e ]

-- The results of a transaction whose operation with the index `n` failed: those before it are
-- rolled back, and those after it are inconsistent.
unfoldable pub failed_results : ℕ → ZkError → Operations → List ZkError
failed_results n e [] = []
failed_results zero e ((parts, value) ∷ ops) = e ∷ map (λ o. runtime_inconsistency o.0) ops
failed_results (suc n) e ((parts, value) ∷ ops) = rolled_back parts ∷ failed_results n e ops

-- `commit` on a copy of the storage, which takes the place of the storage at the end
unfoldable pub commit_locked : Operations → Storage → Result (List ZkError) (List Event) × Storage
unfolding commit_loop failed_results
commit_locked ops storage = elim (commit_loop 0 [] ops storage) [
  | completed triggers storage_copy ↦ (ok triggers, storage_copy)
  | stopped n e ↦ (failed (failed_results n e ops), storage)
]
