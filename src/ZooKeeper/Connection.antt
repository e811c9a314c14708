-- ===== src/ZooKeeper/Connection.antt =====
-- `FakeZooKeeperClient` and `FakeZooKeeperConnection` of astacus/coordinator/plugins/zookeeper.py:
-- the operations of a connection, which lock the storage once and then call the watches.
use astacus.Prelude.{
  ℕ, Bool, true, false, Option, none, some, String, List, [], ◌∷◌, ◌++◌, map, any, nat_eq, ◌==◌,
  lookup, insert, remove, sorted, string_le, if◌then◌else◌,
}
use astacus.ZooKeeper.{
  Parts, parts_eq, ZkError, no_node, assertion_error, Result, ok, failed, Event, changed, created,
  Storage, has_node, create_locked, delete_locked, commit_locked, Operations,
}

-- `except NodeExistsError`
is_node_exists : ZkError → Bool
is_node_exists (ZkError.node_exists p) = true
is_node_exists _ = false

pub record Connection : Type 0 where
  pub id : ℕ
  pub watches : List (Parts × List ℕ)

pub record Client : Type 0 where
  pub storage : Storage
  pub connections : List Connection

-- the watches that are called, in order, with their events
abbrev pub Calls : Type 0
Calls = List (ℕ × Event)

abbrev pub Request : Type 0 → Type 0
Request A = Client → Result ZkError A × (Calls × Client)

-- `connection.watches.pop(parts, [])` of every connection
unfoldable pub pop_watches : Parts → List Connection → List ℕ × List Connection
pop_watches parts [] = ([], [])
pop_watches parts (c ∷ cs) =
    let (popped, rest) = pop_watches parts cs in
    let here : List ℕ = elim (lookup c.watches parts) [ none ↦ [] | some ws ↦ ws ] in
    (here ++ popped, record c { watches = remove c.watches parts } ∷ rest)

-- one `trigger` for each event
unfoldable pub trigger_all : List Event → Client → Calls × Client
unfolding pop_watches
trigger_all [] client = ([], client)
trigger_all (event ∷ events) client =
    let (watches, connections) = pop_watches event.0 client.connections in
    let (calls, client') = trigger_all events (record client { connections = connections }) in
    (map (λ w. (w, event)) watches ++ calls, client')

-- `self.watches.setdefault(parts, []).append(watch)`
add_watch : ℕ → Parts → Option ℕ → List Connection → List Connection
add_watch id parts none connections = connections
add_watch id parts (some w) [] = []
add_watch id parts (some w) (c ∷ cs) =
    let rest = add_watch id parts (some w) cs in
    let before : List ℕ = elim (lookup c.watches parts) [ none ↦ [] | some ws ↦ ws ] in
    if c.id == id
    then record c { watches = insert c.watches parts (before ++ w ∷ []) } ∷ cs
    else c ∷ rest

unfoldable pub is_connected : ℕ → Client → Bool
is_connected id client = any (λ c. c.id == id) client.connections

unfoldable pub enter : ℕ → Client → Client
enter id client = record client {
  connections = client.connections ++ record { id = id; watches = [] } ∷ [];
}

drop_connection : ℕ → List Connection → List Connection
drop_connection id [] = []
drop_connection id (c ∷ cs) =
    let rest = drop_connection id cs in if c.id == id then cs else c ∷ rest

unfoldable pub exit : ℕ → Client → Client
unfolding drop_connection
exit id client = record client { connections = drop_connection id client.connections }

module _ (id : ℕ) where
  unfoldable pub reading : {A : Type 0} → Parts → Option ℕ → (String → Client → A) → Request A
  unfolding is_connected add_watch
  reading parts watch answer client =
      if is_connected id client
      then (elim (lookup client.storage parts) [
        | none ↦ (failed (no_node parts), ([], client))
        | some value ↦ (
          ok (answer value client),
          ([], record client { connections = add_watch id parts watch client.connections }),
        )
      ])
      else (failed assertion_error, ([], client))

  unfoldable pub get : Parts → Option ℕ → Request String
  unfolding reading
  get parts watch = reading parts watch (λ value client. value)

  -- the last parts of the nodes whose other parts are those of the node
  children_of : Parts → Storage → List String
  children_of parts [] = []
  children_of parts (([], value) ∷ storage) = children_of parts storage
  children_of parts ((x ∷ p, value) ∷ storage) =
      let rest = children_of parts storage in if p == parts then x ∷ rest else rest

  unfoldable pub get_children : Parts → Option ℕ → Request (List String)
  unfolding reading children_of sorted string_le
  get_children parts watch =
      reading parts watch (λ value client. sorted string_le (children_of parts client.storage))

  unfoldable pub create : Parts → String → Request (Unit {0})
  unfolding is_connected create_locked trigger_all
  create parts value client =
      let (r, storage) = create_locked parts value true client.storage in
      if is_connected id client
      then (elim r [
        | failed e ↦ (failed e, ([], record client { storage = storage }))
        | ok p ↦ (ok tt, trigger_all ((p, created) ∷ []) (record client { storage = storage }))
      ])
      else (failed assertion_error, ([], client))

  -- `try_create`: whether the node was created
  unfoldable pub try_create : Parts → String → Request Bool
  unfolding create is_node_exists
  try_create parts value client =
      let (r, after) = create parts value client in
      elim r [
        | ok _ ↦ (ok true, after)
        | failed e ↦ if is_node_exists e then (ok false, after) else (failed e, after)
      ]

  unfoldable pub set : Parts → String → Request (Unit {0})
  unfolding is_connected has_node trigger_all
  set parts value client =
      if is_connected id client
      then (if has_node client.storage parts
          then (
            ok tt,
            trigger_all ((parts, changed) ∷ [])
                (record client { storage = insert client.storage parts value }),
          )
          else (failed (no_node parts), ([], client)))
      else (failed assertion_error, ([], client))

  unfoldable pub delete : Parts → Bool → Request (Unit {0})
  unfolding is_connected delete_locked trigger_all
  delete parts recursive client =
      let (r, storage) = delete_locked parts recursive client.storage in
      if is_connected id client
      then (elim r [
        | failed e ↦ (failed e, ([], record client { storage = storage }))
        | ok events ↦ (ok tt, trigger_all events (record client { storage = storage }))
      ])
      else (failed assertion_error, ([], client))

unfoldable pub exists : Parts → Client → Bool
unfolding has_node
exists parts client = has_node client.storage parts

-- `commit` of a transaction that is not committed yet
unfoldable pub commit : Operations → Client → Result (List ZkError) (Unit {0}) × (Calls × Client)
unfolding commit_locked trigger_all
commit ops client =
    let (r, storage) = commit_locked ops client.storage in
    elim r [
      | failed es ↦ (failed es, ([], record client { storage = storage }))
      | ok events ↦ (ok tt, trigger_all events (record client { storage = storage }))
    ]
