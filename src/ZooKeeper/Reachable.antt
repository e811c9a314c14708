-- ===== src/ZooKeeper/Reachable.antt =====
-- What holds of the storage after any sequence of the connections' operations.
use astacus.Prelude.{
  ℕ, ◌≡◌, refl, subst, Bool, true, Option, String, List, [], ◌∷◌, arith, ◌⊎◌, inl, inr, insert,
}
use astacus.ZooKeeper.{
  Parts, parts_eq, Storage, has_node, create_locked, delete_locked, commit_locked, Operations,
  Event, parts_beq_iff, created, changed,
}
use astacus.ZooKeeper.Connection
use astacus.ZooKeeper.Connection.{
  Client, Connection as Session, trigger_all, create, set, delete, commit, enter, exit, get,
  is_connected,
}
use astacus.ZooKeeper.Tree.{
  IsTree, Result-cases, create_locked_refused, commit_locked_cases, create_locked-IsTree,
  delete_locked-IsTree, commit_locked-IsTree, has_node-insert,
}

-- an operation of a connection, or a commit, that reaches the client
pub data Action : Type 0 where
  do_enter do_exit : (id : ℕ) → Action
  do_get : (id : ℕ) (parts : Parts) (watch : Option ℕ) → Action
  do_create do_set : (id : ℕ) (parts : Parts) (value : String) → Action
  do_delete : (id : ℕ) (parts : Parts) (recursive : Bool) → Action
  do_commit : (ops : Operations) → Action

unfoldable pub serve : Action → Client → Client
unfolding create set delete commit enter exit get
serve (do_enter id) client = enter id client
serve (do_exit id) client = exit id client
serve (do_get id parts watch) client = (get id parts watch client).1.1
serve (do_create id parts value) client = (create id parts value client).1.1
serve (do_set id parts value) client = (set id parts value client).1.1
serve (do_delete id parts recursive) client = (delete id parts recursive client).1.1
serve (do_commit ops) client = (commit ops client).1.1

unfoldable pub serve_all : List Action → Client → Client
unfolding serve
serve_all [] client = client
serve_all (a ∷ actions) client = serve_all actions (serve a client)

-- the client as it is made: the root and no connection
abbrev pub fresh : Client
fresh = record { storage = ("" ∷ [], "") ∷ []; connections = [] }

trigger_all_keeps :
    (events : List Event) (client : Client) → (trigger_all events client).1.storage ≡ client.storage
unfolding trigger_all
trigger_all_keeps [] client = refl
trigger_all_keeps (e ∷ events) client =
    trigger_all_keeps events
      (record client { connections = (Connection.pop_watches e.0 client.connections).1 })

create_stores :
    (id : ℕ) (parts : Parts) (value : String) (client : Client)
    → ((create id parts value client).1.1.storage ≡ client.storage)
      ⊎ ((create id parts value client).1.1.storage
          ≡ (create_locked parts value true client.storage).1)
unfolding create
create_stores id parts value client =
    elim (Result-cases (create_locked parts value true client.storage)) [
      | inl (q, s', e) ↦
          ground (arith, e, trigger_all_keeps ((q, created) ∷ []) (record client { storage = s' }))
      | inr (x, s', e) ↦ ground (arith, e)
    ]

set_stores :
    (id : ℕ) (parts : Parts) (value : String) (client : Client)
    → ((set id parts value client).1.1.storage ≡ client.storage)
      ⊎ ((has_node client.storage parts ≡ true)
          × ((set id parts value client).1.1.storage ≡ insert client.storage parts value))
unfolding set
set_stores id parts value client = ground (
  arith,
  trigger_all_keeps ((parts, changed) ∷ [])
      (record client { storage = insert client.storage parts value }),
)

delete_stores :
    (id : ℕ) (parts : Parts) (recursive : Bool) (client : Client)
    → ((delete id parts recursive client).1.1.storage ≡ client.storage)
      ⊎ ((delete id parts recursive client).1.1.storage
          ≡ (delete_locked parts recursive client.storage).1)
unfolding delete
delete_stores id parts recursive client =
    elim (Result-cases (delete_locked parts recursive client.storage)) [
      | inl (q, s', e) ↦ ground (arith, e, trigger_all_keeps (q) (record client { storage = s' }))
      | inr (x, s', e) ↦ ground (arith, e)
    ]

commit_stores :
    (ops : Operations) (client : Client)
    → (commit ops client).1.1.storage ≡ (commit_locked ops client.storage).1
unfolding commit
commit_stores ops client = elim (commit_locked_cases ops client.storage) [
  | inl (n, x, e) ↦ ground (arith, e)
  | inr (out, t, loop, e) ↦ ground (arith, e, trigger_all_keeps out (record client { storage = t }))
]

get_stores :
    (id : ℕ) (parts : Parts) (watch : Option ℕ) (client : Client)
    → (get id parts watch client).1.1.storage ≡ client.storage
unfolding get Connection.reading
get_stores id parts watch client = ground arith

created-IsTree :
    (parts : Parts) (value : String) (s : Storage)
    → IsTree s
    → IsTree (create_locked parts value true s).1
created-IsTree parts value s h = elim (Result-cases (create_locked parts value true s)) [
  | inl (q, t, e) ↦ rw e (create_locked-IsTree parts value true s t q h e)
  | inr (x, t, e) ↦ rw e (subst IsTree (create_locked_refused parts value s t x e) h)
]

overwritten-IsTree :
    (parts : Parts) (value : String) (s : Storage)
    → has_node s parts ≡ true
    → IsTree s
    → IsTree (insert s parts value)
overwritten-IsTree parts value s found h x q k = ground (
  arith,
  h x q,
  has_node-insert s parts value (x ∷ q),
  has_node-insert s parts value q,
  parts_beq_iff parts (x ∷ q),
)

serve-IsTree :
    (a : Action) (client : Client) → IsTree client.storage → IsTree (serve a client).storage
unfolding serve enter exit
serve-IsTree (do_enter id) client h = h
serve-IsTree (do_exit id) client h = h
serve-IsTree (do_get id parts watch) client h = rw (get_stores id parts watch client) h
serve-IsTree (do_create id parts value) client h = elim (create_stores id parts value client) [
  | inl e ↦ rw e h
  | inr e ↦ rw e (created-IsTree parts value client.storage h)
]
serve-IsTree (do_set id parts value) client h = elim (set_stores id parts value client) [
  | inl e ↦ rw e h
  | inr (found, e) ↦ rw e (overwritten-IsTree parts value client.storage found h)
]
serve-IsTree (do_delete id parts recursive) client h =
    elim (delete_stores id parts recursive client) [
      | inl e ↦ rw e h
      | inr e ↦ rw e (delete_locked-IsTree parts recursive client.storage h)
    ]
serve-IsTree (do_commit ops) client h =
    rw (commit_stores ops client) (commit_locked-IsTree ops client.storage h)

serve_all-keeps :
    (actions : List Action) (client : Client)
    → IsTree client.storage
    → IsTree (serve_all actions client).storage
unfolding serve_all
serve_all-keeps [] client h = h
serve_all-keeps (a ∷ actions) client h =
    serve_all-keeps actions (serve a client) (serve-IsTree a client h)

-- After any sequence of connections, creations, writes, deletions and commits on a new client, every
-- node below a first part has its parent in the storage.
pub serve_all-IsTree : (actions : List Action) → IsTree (serve_all actions fresh).storage
unfolding has_node
serve_all-IsTree actions = serve_all-keeps actions fresh (λ x q h. ground arith)
