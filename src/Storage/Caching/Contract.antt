-- ===== src/Storage/Caching/Contract.antt =====
-- The caching storage keeps the contract of the storage behind it
-- (astacus/common/cachingjsonstorage.py).
use astacus.Prelude.{
  ◌≡◌, refl, ◌∙◌, true, Option, none, some, List, ◌∷◌, String, arith, eq_iff, ◌==◌, string_eq,
  contains, if◌then◌else◌, Option-cases, inl, inr,
}
use astacus.Exceptions.{returned}
use astacus.Storage.Interface.{is_some, Left, JsonStorage, JsonContract}
use astacus.Storage.Caching.{Cached, backend_json_set, upload_json_bytes, caching}
use astacus.Storage.Caching.Coherent.{IsCoherent, view, settled}
use astacus.Storage.Caching.Deletion.{delete_json_missing, delete_json_present}
use astacus.Storage.Caching.Reading.{
  open_json_bytes_missing, open_json_bytes_present, list_jsons_lem,
}

module _ {B C D : Type 0} {backend_storage : JsonStorage B D} {cache_storage : JsonStorage C D}
    {BackendIsValid : B → Type 0} {CacheIsValid : C → Type 0} {backend_view : B → String → Option D}
    {cache_view : C → String → Option D}
    (backend_contract : JsonContract backend_storage BackendIsValid backend_view)
    (cache_contract : JsonContract cache_storage CacheIsValid cache_view) where
  module _ (name : String) (d : D) (s : Cached B C)
      (coherent : IsCoherent backend_contract cache_contract s) where
    abbrev c₁ : C
    c₁ = (cache_storage.upload_json_bytes name d s.cache).1

    abbrev b₁ : B
    b₁ = (backend_storage.upload_json_bytes name d s.backend).1

    -- the set of names is looked up after both uploads
    added-IsCoherent :
        (names : List String) (b : B)
        → BackendIsValid b
        → ((k : String) → backend_view b k ≡ backend_view b₁ k)
        → ((k : String)
            → contains names k ≡ is_some (if name == k then some d else backend_view s.backend k))
        → IsCoherent backend_contract cache_contract
            (record { backend = b; cache = c₁; set_cache = some names; sorted_list = none })
    added-IsCoherent names b bv shows knows =
        let stored = cache_contract.upload_any name d s.cache coherent.cache_valid in
        let sent = backend_contract.upload_any name d s.backend coherent.backend_valid in
        settled backend_contract cache_contract b c₁ names bv stored.valid
          (λ k. cc (knows k, shows k, sent.shows k))
          (λ k d₁ d₂ p q.
            ground (arith, shows k, sent.shows k, stored.shows k, coherent.same_documents k d₁ d₂))

    abbrev set_after : List String → List String
    set_after names = if contains names name then names else name ∷ names

    contains-set_after :
        (names : List String) (k : String)
        → contains (set_after names) k ≡ (if name == k then true else contains names k)
    contains-set_after names k = ground (arith, eq_iff name k)

    upload_json_bytes_lem :
        Left
          (IsCoherent backend_contract cache_contract)
          (view backend_contract cache_contract)
          (upload_json_bytes backend_storage cache_storage name d s)
          (returned true)
          (λ k. if name == k then some d else backend_view s.backend k)
    unfolding upload_json_bytes backend_json_set
    upload_json_bytes_lem =
        let stored = cache_contract.upload_any name d s.cache coherent.cache_valid in
        let sent = backend_contract.upload_any name d s.backend coherent.backend_valid in
        elim (Option-cases s.set_cache) [
          | inr (names, e) ↦
              let call : upload_json_bytes backend_storage cache_storage name d s ≡ (
                returned true,
                record {
                  backend = b₁;
                  cache = c₁;
                  set_cache = some (set_after names);
                  sorted_list = none;
                },
              ) =
                ground (arith, e, stored.ends, sent.ends) in
              rw call (record {
                ends = refl;
                valid =
                    added-IsCoherent (set_after names) b₁ sent.valid (λ k. refl)
                      (λ k.
                        ground (arith, contains-set_after names k, coherent.set_names names e k));
                shows = sent.shows;
              })
          | inl e ↦
              let (names, left, knows) = backend_contract.list_all b₁ sent.valid in
              let call : upload_json_bytes backend_storage cache_storage name d s ≡ (
                returned true,
                record {
                  backend = (backend_storage.list_jsons b₁).1;
                  cache = c₁;
                  set_cache = some (set_after names);
                  sorted_list = none;
                },
              ) =
                ground (arith, e, stored.ends, sent.ends, left.ends) in
              rw call (record {
                ends = refl;
                valid =
                    added-IsCoherent (set_after names) (backend_storage.list_jsons b₁).1 left.valid
                      left.shows
                      (λ k. ground (arith, contains-set_after names k, knows k, sent.shows k));
                shows = λ k. left.shows k ∙ sent.shows k;
              })
        ]

  -- If a backend and a cache keep the contract of JSON storages, so does the caching storage made of
  -- them: with the view of the backend, from every state whose names in memory are the backend's
  -- and whose cached documents are the backend's.
  pub caching-JsonContract :
      JsonContract
        (caching backend_storage cache_storage)
        (IsCoherent backend_contract cache_contract)
        (view backend_contract cache_contract)
  caching-JsonContract = record {
    delete_present =
        λ name s d c h. delete_json_present backend_contract cache_contract name s c d h;
    delete_missing = λ name s c h. delete_json_missing backend_contract cache_contract name s c h;
    open_present =
        λ name s d c h. open_json_bytes_present backend_contract cache_contract s c name d h;
    open_missing = λ name s c h. open_json_bytes_missing backend_contract cache_contract s c name h;
    list_all = λ s c. list_jsons_lem backend_contract cache_contract s c;
    upload_any = λ name d s c. upload_json_bytes_lem name d s c;
  }
