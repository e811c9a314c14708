-- ===== src/Storage/Caching/Deletion.antt =====
-- `delete_json` of astacus/common/cachingjsonstorage.py.
use astacus.Prelude.{
  ◌≡◌, ◌⊎◌, refl, ◌∙◌, false, Option, none, some, String, arith, ◌==◌, string_eq, discard,
  contains-discard, if◌then◌else◌, Option-cases, inl, inr,
}
use astacus.Exceptions.{not_found, Outcome, returned, raised}
use astacus.Storage.Interface.{Left, JsonStorage, JsonContract}
use astacus.Storage.Caching.{Cached, delete_json}
use astacus.Storage.Caching.Coherent.{
  IsCoherent, view, Looked, look, settled, backend_json_set_again,
}

module _ {B C D : Type 0} {backend_storage : JsonStorage B D} {cache_storage : JsonStorage C D}
    {BackendIsValid : B → Type 0} {CacheIsValid : C → Type 0} {backend_view : B → String → Option D}
    {cache_view : C → String → Option D}
    (backend_contract : JsonContract backend_storage BackendIsValid backend_view)
    (cache_contract : JsonContract cache_storage CacheIsValid cache_view) where
  module _ (name : String) (s : Cached B C)
      (coherent : IsCoherent backend_contract cache_contract s) where
    abbrev looked : Looked backend_contract cache_contract s
    looked = look backend_contract cache_contract s coherent

    delete_json_call-missing :
        backend_view s.backend name ≡ none
        → delete_json backend_storage cache_storage name s ≡ (raised not_found, looked.state)
    unfolding delete_json
    delete_json_call-missing h = ground (arith, looked.call, looked.knows name)

    -- the state after a deletion
    abbrev deleted : Cached B C
    deleted = record {
      backend = (backend_storage.delete_json name looked.state.backend).1;
      cache = (cache_storage.delete_json name looked.state.cache).1;
      set_cache = some (discard looked.names name);
      sorted_list = none;
    }

    -- Whether the cache has the document or not, its deletion there is passed over.
    cache_deleted :
        (((cache_storage.delete_json name looked.state.cache).0 ≡ returned tt)
          ⊎ ((cache_storage.delete_json name looked.state.cache).0 ≡ raised not_found))
        × CacheIsValid (cache_storage.delete_json name looked.state.cache).1
        × ((k : String) (d : D)
            → cache_view (cache_storage.delete_json name looked.state.cache).1 k ≡ some d
            → (name == k ≡ false)
            → cache_view looked.state.cache k ≡ some d)
    cache_deleted = elim (Option-cases (cache_view looked.state.cache name)) [
      | inl e ↦
          let left = cache_contract.delete_missing name _ looked.coherent.cache_valid e in
          (inr left.ends, left.valid, λ k d p n. cc (left.shows k))
      | inr (d', e) ↦
          let left = cache_contract.delete_present name _ d' looked.coherent.cache_valid e in
          (inl left.ends, left.valid, λ k d p n. ground (arith, left.shows k))
    ]

    delete_json_call-present :
        (d : D)
        → backend_view s.backend name ≡ some d
        → delete_json backend_storage cache_storage name s ≡ (returned tt, deleted)
    unfolding delete_json
    delete_json_call-present d h =
        let left =
          backend_contract.delete_present name looked.state.backend d looked.coherent.backend_valid
            (looked.shows name ∙ h) in
        ground (
          arith,
          looked.call,
          looked.knows name,
          cache_deleted.0,
          left.ends,
          backend_json_set_again backend_contract cache_contract
              (record looked.state {
                backend = (backend_storage.delete_json name looked.state.backend).1;
                cache = (cache_storage.delete_json name looked.state.cache).1;
              })
              looked.names looked.cached,
        )

    deleted-IsCoherent :
        (d : D)
        → backend_view s.backend name ≡ some d
        → IsCoherent backend_contract cache_contract deleted
    deleted-IsCoherent d h =
        let left =
          backend_contract.delete_present name looked.state.backend d looked.coherent.backend_valid
            (looked.shows name ∙ h) in
        settled backend_contract cache_contract deleted.backend deleted.cache
          (discard looked.names name) left.valid cache_deleted.1
          (λ k. ground (
            arith,
            left.shows k,
            contains-discard looked.names name k,
            looked.knows k,
            looked.shows k,
          ))
          (λ k d₁ d₂ p q.
            looked.coherent.same_documents k d₁ d₂ (ground (arith, left.shows k))
              (cache_deleted.2 k d₂ q (ground (arith, left.shows k))))

    abbrev Leaves : Outcome (Unit {0}) → (String → Option D) → Type 0
    Leaves =
        Left (IsCoherent backend_contract cache_contract) (view backend_contract cache_contract)
          (delete_json backend_storage cache_storage name s)

    pub delete_json_missing :
        backend_view s.backend name ≡ none → Leaves (raised not_found) (backend_view s.backend)
    delete_json_missing h =
        rw (delete_json_call-missing h)
          (record { ends = refl; valid = looked.coherent; shows = looked.shows })

    pub delete_json_present :
        (d : D)
        → backend_view s.backend name ≡ some d
        → Leaves (returned tt) (λ k. if name == k then none else backend_view s.backend k)
    delete_json_present d h =
        let left =
          backend_contract.delete_present name looked.state.backend d looked.coherent.backend_valid
            (looked.shows name ∙ h) in
        rw (delete_json_call-present d h) (record {
          ends = refl;
          valid = deleted-IsCoherent d h;
          shows = λ k. ground (arith, left.shows k, looked.shows k);
        })
