-- ===== src/Storage/Caching/Coherent.antt =====
-- The invariant of the caching storage (astacus/common/cachingjsonstorage.py), and its set of names.
use astacus.Prelude.{
  ◌≡◌, ◌⊎◌, refl, sym, ◌∙◌, Option, none, some, List, String, arith, string_eq, contains,
  Option-cases, inl, inr, some,
}
use astacus.Exceptions.{returned}
use astacus.Storage.Interface.{is_some, JsonStorage, JsonContract}
use astacus.Storage.Caching.{Cached, backend_json_set}

module _ {B C D : Type 0} {backend_storage : JsonStorage B D} {cache_storage : JsonStorage C D}
    {BackendIsValid : B → Type 0} {CacheIsValid : C → Type 0} {backend_view : B → String → Option D}
    {cache_view : C → String → Option D}
    (backend_contract : JsonContract backend_storage BackendIsValid backend_view)
    (cache_contract : JsonContract cache_storage CacheIsValid cache_view) where
  -- The names in memory are the backend's, and what is in the cache is what the backend has.
  pub record IsCoherent (s : Cached B C) : Type 0 where
    pub backend_valid : BackendIsValid s.backend
    pub cache_valid : CacheIsValid s.cache
    pub set_names :
        (names : List String)
        → s.set_cache ≡ some names
        → (k : String) → contains names k ≡ is_some (backend_view s.backend k)
    pub list_names :
        (names : List String)
        → s.sorted_list ≡ some names
        → (k : String) → contains names k ≡ is_some (backend_view s.backend k)
    pub same_documents :
        (k : String) (d d' : D)
        → backend_view s.backend k ≡ some d
        → cache_view s.cache k ≡ some d'
        → d' ≡ d

  abbrev pub view : Cached B C → String → Option D
  view s = backend_view s.backend

  -- the state after the set of names was looked up
  pub record Looked (s : Cached B C) : Type 0 where
    pub names : List String
    pub state : Cached B C
    pub call : backend_json_set backend_storage cache_storage s ≡ (returned names, state)
    pub coherent : IsCoherent state
    pub knows : (k : String) → contains names k ≡ is_some (backend_view s.backend k)
    pub shows : (k : String) → backend_view state.backend k ≡ backend_view s.backend k
    pub cached : state.set_cache ≡ some names

  pub backend_json_set_again :
      (s : Cached B C) (names : List String)
      → s.set_cache ≡ some names
      → backend_json_set backend_storage cache_storage s ≡ (returned names, s)
  unfolding backend_json_set
  backend_json_set_again s names e = ground (arith, e)

  pub look : (s : Cached B C) → IsCoherent s → Looked s
  unfolding backend_json_set
  look s c = elim (Option-cases s.set_cache) [
    | inr (names, e) ↦ record {
      names = names;
      state = s;
      call = ground (arith, e);
      coherent = c;
      knows = c.set_names names e;
      shows = λ k. refl;
      cached = e;
    }
    | inl e ↦
        let (names, left, all) = backend_contract.list_all s.backend c.backend_valid in
        record {
          names = names;
          state = record s {
            backend = (backend_storage.list_jsons s.backend).1;
            set_cache = some names;
          };
          call = ground (arith, e, left.ends);
          coherent = record {
            backend_valid = left.valid;
            cache_valid = c.cache_valid;
            set_names = λ names' e' k. cc (e', all k, left.shows k);
            list_names = λ names' e' k. cc (c.list_names names' e' k, left.shows k);
            same_documents = λ k d d' p q. c.same_documents k d d' (sym (left.shows k) ∙ p) q;
          };
          knows = all;
          shows = left.shows;
          cached = refl;
        }
  ]

  -- the state after a write that keeps the two storages together
  pub settled :
      (b : B) (c : C) (names : List String)
      → BackendIsValid b
      → CacheIsValid c
      → ((k : String) → contains names k ≡ is_some (backend_view b k))
      → ((k : String) (d d' : D) → backend_view b k ≡ some d → cache_view c k ≡ some d' → d' ≡ d)
      → IsCoherent (record { backend = b; cache = c; set_cache = some names; sorted_list = none })
  settled b c names bv cv n same = record {
    backend_valid = bv;
    cache_valid = cv;
    set_names = λ names' e k. cc (e, n k);
    list_names = λ names' e k. cc;
    same_documents = same;
  }

  -- A state in which the backend shows the same, and the cache shows what it did or the backend's.
  pub moved :
      (t : Cached B C) (b : B) (c : C)
      → IsCoherent t
      → BackendIsValid b
      → CacheIsValid c
      → ((k : String) → backend_view b k ≡ backend_view t.backend k)
      → ((k : String) (d : D)
          → cache_view c k ≡ some d
          → (cache_view t.cache k ≡ some d) ⊎ (backend_view t.backend k ≡ some d))
      → IsCoherent (record t { backend = b; cache = c })
  moved t b c h bv cv shows_b shows_c = record {
    backend_valid = bv;
    cache_valid = cv;
    set_names = λ names e k. cc (h.set_names names e k, shows_b k);
    list_names = λ names e k. cc (h.list_names names e k, shows_b k);
    same_documents = λ k d d' p q. elim (shows_c k d' q) [
      | inl old ↦ h.same_documents k d d' (sym (shows_b k) ∙ p) old
      | inr new ↦ cc (shows_b k)
    ];
  }
