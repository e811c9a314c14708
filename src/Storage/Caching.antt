-- ===== src/Storage/Caching.antt =====
-- astacus/common/cachingjsonstorage.py: a JSON storage in front of a backend, with a second JSON
-- storage as a cache of documents and the set of the backend's names in memory.
pub mod Coherent
mod Deletion
mod Reading
pub mod Contract
use astacus.Prelude.{
  Bool, true, Option, none, some, List, ◌∷◌, String, string_eq, contains, discard, sorted,
  string_le, if◌then◌else◌,
}
use astacus.Exceptions.{
  not_found, key_error, returned, raised, Method, pure, require, ◌>>=◌, ◌>>◌, modify,
}
use astacus.Storage.Interface.{JsonStorage}

-- the object's attributes, with the states of the two storages
pub record Cached (B C : Type 0) : Type 0 where
  pub backend : B
  pub cache : C
  pub set_cache : Option (List String)
  pub sorted_list : Option (List String)

module _ {B C : Type 0} where
  in_backend : {A : Type 0} → Method B A → Method (Cached B C) A
  in_backend m s = let (r, b) = m s.backend in (r, record s { backend = b })

  in_cache : {A : Type 0} → Method C A → Method (Cached B C) A
  in_cache m s = let (r, c) = m s.cache in (r, record s { cache = c })

  -- `try: … except NotFoundException: …`
  unless_found :
      {A : Type 0} → Method (Cached B C) A → Method (Cached B C) A → Method (Cached B C) A
  unless_found m handler s =
      let (r, s') = m s in elim r [ raised not_found ↦ handler s' | other ↦ (other, s') ]

module _ {B C D : Type 0} (backend_storage : JsonStorage B D)
    (cache_storage : JsonStorage C D) where
  -- the property `_backend_json_set`
  unfoldable pub backend_json_set : Method (Cached B C) (List String)
  unfolding in_backend
  backend_json_set s = elim s.set_cache [
    | some names ↦ (returned names, s)
    | none ↦
        (do
          names ← in_backend backend_storage.list_jsons
          modify (λ s. record s { set_cache = some names })
          pure names)
          s
  ]

  unfoldable pub set_add : String → Method (Cached B C) (Unit {0})
  set_add x = do
    names ← backend_json_set
    modify (λ s. record s {
      set_cache = some (if contains names x then names else x ∷ names);
      sorted_list = none;
    })

  -- `set.remove` raises KeyError if the name is not there.
  unfoldable pub set_remove : String → Method (Cached B C) (Unit {0})
  set_remove x = do
    names ← backend_json_set
    require (contains names x) key_error
    modify (λ s. record s { set_cache = some (discard names x); sorted_list = none })

  unfoldable pub delete_json : String → Method (Cached B C) (Unit {0})
  unfolding in_backend in_cache unless_found set_remove
  delete_json name = do
    names ← backend_json_set
    require (contains names name) not_found
    unless_found (in_cache (cache_storage.delete_json name)) (pure tt)
    in_backend (backend_storage.delete_json name)
    set_remove name

  -- The document that the context manager hands out; nothing of its caller's block is caught here.
  unfoldable pub open_json_bytes : String → Method (Cached B C) D
  unfolding in_backend in_cache unless_found
  open_json_bytes name = do
    names ← backend_json_set
    require (contains names name) not_found
    unless_found (in_cache (cache_storage.open_json_bytes name)) (do
      json_bytes ← in_backend (backend_storage.open_json_bytes name)
      in_cache (cache_storage.upload_json_bytes name json_bytes)
      in_cache (cache_storage.open_json_bytes name))

  unfoldable pub list_jsons : Method (Cached B C) (List String)
  unfolding sorted
  list_jsons s = elim s.sorted_list [
    | some names ↦ (returned names, s)
    | none ↦
        (do
          names ← backend_json_set
          modify (λ s. record s { sorted_list = some (sorted string_le names) })
          pure (sorted string_le names))
          s
  ]

  unfoldable pub upload_json_bytes : String → D → Method (Cached B C) Bool
  unfolding in_backend in_cache set_add
  upload_json_bytes name document = do
    in_cache (cache_storage.upload_json_bytes name document)
    in_backend (backend_storage.upload_json_bytes name document)
    set_add name
    pure true

  abbrev pub caching : JsonStorage (Cached B C) D
  caching = record {
    delete_json = delete_json;
    open_json_bytes = open_json_bytes;
    list_jsons = list_jsons;
    upload_json_bytes = upload_json_bytes;
  }
