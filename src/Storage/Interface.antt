-- ===== src/Storage/Interface.antt =====
-- The abstract classes JsonStorage and HexDigestStorage of astacus/common/storage.py, with what
-- their callers rely on. A storage may keep caches: operations that only read may change the state,
-- and leave its view as it was.
use astacus.Prelude.{
  ◌≡◌, Bool, true, false, Option, none, some, List, String, contains, ◌==◌, string_eq,
  if◌then◌else◌, ℕ,
}
use astacus.Exceptions.{not_found, Outcome, returned, raised, Method}

abbrev pub is_some {ℓ} : {A : Type ℓ} → Option A → Bool
is_some none = false
is_some (some a) = true

-- A call returned `a`, or raised, and left a valid state with the view `after`.
pub record Left {S D A : Type 0} (IsValid : S → Type 0) (view : S → String → Option D)
    (call : Outcome A × S) (outcome : Outcome A) (after : String → Option D) : Type 0 where
  pub ends : call.0 ≡ outcome
  pub valid : IsValid call.1
  pub shows : (k : String) → view call.1 k ≡ after k

-- `JsonStorage`
pub record JsonStorage (S D : Type 0) : Type 0 where
  pub delete_json : String → Method S (Unit {0})
  pub open_json_bytes : String → Method S D
  pub list_jsons : Method S (List String)
  pub upload_json_bytes : String → D → Method S Bool

-- What its callers rely on: the operations act on the view as on a dictionary of documents.
pub record JsonContract {S D : Type 0} (storage : JsonStorage S D) (IsValid : S → Type 0)
    (view : S → String → Option D) : Type 0 where
  pub delete_present :
      (name : String) (s : S) (d : D)
      → IsValid s
      → view s name ≡ some d
      → Left IsValid view
          (storage.delete_json name s)
          (returned tt)
          (λ k. if name == k then none else view s k)
  pub delete_missing :
      (name : String) (s : S)
      → IsValid s
      → view s name ≡ none
      → Left IsValid view (storage.delete_json name s) (raised not_found) (view s)
  pub open_present :
      (name : String) (s : S) (d : D)
      → IsValid s
      → view s name ≡ some d
      → Left IsValid view (storage.open_json_bytes name s) (returned d) (view s)
  pub open_missing :
      (name : String) (s : S)
      → IsValid s
      → view s name ≡ none
      → Left IsValid view (storage.open_json_bytes name s) (raised not_found) (view s)
  pub list_all :
      (s : S)
      → IsValid s
      → (names : List String) × Left IsValid view (storage.list_jsons s) (returned names) (view s)
        × ((k : String) → contains names k ≡ is_some (view s k))
  pub upload_any :
      (name : String) (d : D) (s : S)
      → IsValid s
      → Left IsValid view
          (storage.upload_json_bytes name d s)
          (returned true)
          (λ k. if name == k then some d else view s k)

pub record StorageUploadResult : Type 0 where
  pub size : ℕ
  pub stored_size : ℕ

-- `HexDigestStorage`
pub record HexDigestStorage (S D : Type 0) : Type 0 where
  pub delete_hexdigest : String → Method S (Unit {0})
  pub download_hexdigest : String → Method S D
  pub list_hexdigests : Method S (List String)
  pub upload_hexdigest : String → D → Method S StorageUploadResult

pub record HexDigestContract {S D : Type 0} (storage : HexDigestStorage S D) (IsValid : S → Type 0)
    (view : S → String → Option D) : Type 0 where
  pub delete_present :
      (hexdigest : String) (s : S) (d : D)
      → IsValid s
      → view s hexdigest ≡ some d
      → Left IsValid view
          (storage.delete_hexdigest hexdigest s)
          (returned tt)
          (λ k. if hexdigest == k then none else view s k)
  pub delete_missing :
      (hexdigest : String) (s : S)
      → IsValid s
      → view s hexdigest ≡ none
      → Left IsValid view (storage.delete_hexdigest hexdigest s) (raised not_found) (view s)
  pub download_present :
      (hexdigest : String) (s : S) (d : D)
      → IsValid s
      → view s hexdigest ≡ some d
      → Left IsValid view (storage.download_hexdigest hexdigest s) (returned d) (view s)
  pub list_all :
      (s : S)
      → IsValid s
      → (names : List String) × Left IsValid view
          (storage.list_hexdigests s)
          (returned names)
          (view s)
        × ((k : String) → contains names k ≡ is_some (view s k))
  pub upload_any :
      (hexdigest : String) (d : D) (s : S)
      → IsValid s
      → (r : StorageUploadResult) × Left IsValid view
          (storage.upload_hexdigest hexdigest d s)
          (returned r)
          (λ k. if hexdigest == k then some d else view s k)
