-- ===== src/Storage/Caching/Reading.antt =====
-- `open_json_bytes` and `list_jsons` of astacus/common/cachingjsonstorage.py.
use astacus.Prelude.{
  ◌≡◌, refl, sym, ap, ==_refl, ◌∙◌, Option, none, some, List, String, arith, eq_iff, string_eq,
  contains, Option-cases, inl, inr, string_le, sorted, contains-sorted,
}
use astacus.Exceptions.{not_found, Outcome, returned, raised}
use astacus.Storage.Interface.{is_some, Left, JsonStorage, JsonContract}
use astacus.Storage.Caching.{Cached, open_json_bytes, list_jsons}
use astacus.Storage.Caching.Coherent.{IsCoherent, view, Looked, look, moved}

module _ {B C D : Type 0} {backend_storage : JsonStorage B D} {cache_storage : JsonStorage C D}
    {BackendIsValid : B → Type 0} {CacheIsValid : C → Type 0} {backend_view : B → String → Option D}
    {cache_view : C → String → Option D}
    (backend_contract : JsonContract backend_storage BackendIsValid backend_view)
    (cache_contract : JsonContract cache_storage CacheIsValid cache_view) where
  module _ (s : Cached B C) (coherent : IsCoherent backend_contract cache_contract s) where
    abbrev looked : Looked backend_contract cache_contract s
    looked = look backend_contract cache_contract s coherent

    abbrev Leaves : {A : Type 0} → Outcome A × Cached B C → Outcome A → (String → Option D) → Type 0
    Leaves =
        Left (IsCoherent backend_contract cache_contract) (view backend_contract cache_contract)

    open_json_bytes_call-missing :
        (name : String)
        → backend_view s.backend name ≡ none
        → open_json_bytes backend_storage cache_storage name s ≡ (raised not_found, looked.state)
    unfolding open_json_bytes
    open_json_bytes_call-missing name h = ground (arith, looked.call, looked.knows name)

    pub open_json_bytes_missing :
        (name : String)
        → backend_view s.backend name ≡ none
        → Leaves
            (open_json_bytes backend_storage cache_storage name s)
            (raised not_found)
            (backend_view s.backend)
    open_json_bytes_missing name h =
        rw (open_json_bytes_call-missing name h)
          (record { ends = refl; valid = looked.coherent; shows = looked.shows })

    -- the cache has the document
    open_cached :
        (name : String) (d : D)
        → backend_view s.backend name ≡ some d
        → cache_view looked.state.cache name ≡ some d
        → Leaves
            (open_json_bytes backend_storage cache_storage name s)
            (returned d)
            (backend_view s.backend)
    unfolding open_json_bytes
    open_cached name d h e =
        let t = looked.state in
        let left = cache_contract.open_present name t.cache d looked.coherent.cache_valid e in
        let call : open_json_bytes backend_storage cache_storage name s
            ≡ (returned d, record t { cache = (cache_storage.open_json_bytes name t.cache).1 }) =
          ground (arith, looked.call, looked.knows name, left.ends) in
        rw call (record {
          ends = refl;
          valid =
              moved backend_contract cache_contract t t.backend _ looked.coherent
                looked.coherent.backend_valid left.valid (λ k. refl)
                (λ k d' q. inl (sym (left.shows k) ∙ q));
          shows = looked.shows;
        })

    -- The cache lacks it: it is read from the backend, stored in the cache and read there.
    open_uncached :
        (name : String) (d : D)
        → backend_view s.backend name ≡ some d
        → cache_view looked.state.cache name ≡ none
        → Leaves
            (open_json_bytes backend_storage cache_storage name s)
            (returned d)
            (backend_view s.backend)
    unfolding open_json_bytes
    open_uncached name d h e =
        let t = looked.state in
        let c₀ : C = (cache_storage.open_json_bytes name t.cache).1 in
        let c₁ : C = (cache_storage.upload_json_bytes name d c₀).1 in
        let c₂ : C = (cache_storage.open_json_bytes name c₁).1 in
        let b : B = (backend_storage.open_json_bytes name t.backend).1 in
        let missed = cache_contract.open_missing name t.cache looked.coherent.cache_valid e in
        let read =
          backend_contract.open_present name t.backend d looked.coherent.backend_valid
            (looked.shows name ∙ h) in
        let stored = cache_contract.upload_any name d c₀ missed.valid in
        let reread =
          cache_contract.open_present name c₁ d stored.valid
            (stored.shows name ∙ ground (arith, ==_refl name)) in
        let call : open_json_bytes backend_storage cache_storage name s
            ≡ (returned d, record t { backend = b; cache = c₂ }) =
          ground (
            arith,
            looked.call,
            looked.knows name,
            missed.ends,
            read.ends,
            stored.ends,
            reread.ends,
          ) in
        rw call (record {
          ends = refl;
          valid =
              moved backend_contract cache_contract t b c₂ looked.coherent read.valid reread.valid
                read.shows
                (λ k d' q. ground (
                  arith,
                  reread.shows k,
                  stored.shows k,
                  missed.shows k,
                  looked.shows k,
                  eq_iff name k,
                ));
          shows = λ k. read.shows k ∙ looked.shows k;
        })

    pub open_json_bytes_present :
        (name : String) (d : D)
        → backend_view s.backend name ≡ some d
        → Leaves
            (open_json_bytes backend_storage cache_storage name s)
            (returned d)
            (backend_view s.backend)
    open_json_bytes_present name d h = elim (Option-cases (cache_view looked.state.cache name)) [
      | inl e ↦ open_uncached name d h e
      | inr (d', e) ↦
          open_cached name d h
            (e ∙ ap some (looked.coherent.same_documents name d d' (looked.shows name ∙ h) e))
    ]

    pub list_jsons_lem :
        (names : List String) × Leaves
          (list_jsons backend_storage cache_storage s)
          (returned names)
          (backend_view s.backend)
        × ((k : String) → contains names k ≡ is_some (backend_view s.backend k))
    unfolding list_jsons
    list_jsons_lem = elim (Option-cases s.sorted_list) [
      | inr (names, e) ↦
          let call : list_jsons backend_storage cache_storage s ≡ (returned names, s) =
            ground (arith, e) in
          (
            names,
            rw call (record { ends = refl; valid = coherent; shows = λ k. refl }),
            coherent.list_names names e,
          )
      | inl e ↦
          let t = looked.state in
          let names = sorted string_le looked.names in
          let call : list_jsons backend_storage cache_storage s
              ≡ (returned names, record t { sorted_list = some names }) =
            ground (arith, e, looked.call) in
          (
            names,
            rw call (record {
              ends = refl;
              valid = record {
                backend_valid = looked.coherent.backend_valid;
                cache_valid = looked.coherent.cache_valid;
                set_names = looked.coherent.set_names;
                list_names = λ names' e' k.
                    cc (
                      e',
                      contains-sorted string_le looked.names k,
                      looked.knows k,
                      looked.shows k,
                    );
                same_documents = looked.coherent.same_documents;
              };
              shows = looked.shows;
            }),
            λ k. contains-sorted string_le looked.names k ∙ looked.knows k,
          )
    ]
