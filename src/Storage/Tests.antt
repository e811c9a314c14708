-- ===== src/Storage/Tests.antt =====
-- Storages in memory, one as a cache in front of the other, and the contract at them.
use astacus.Prelude.{ℕ, ◌≡◌, refl, none, [], ◌∷◌, sorted, string_le}
use astacus.Exceptions.{not_found, returned, raised}
use astacus.Storage.{JsonStorage, JsonContract}
use astacus.Storage.Memory.{
  Items, json, dat, memory_json, memory_json-JsonContract, list_jsons, list_hexdigests, delete_json,
  item_beq,
}
use astacus.Storage.Caching
use astacus.Storage.Caching.{Cached, caching}
use astacus.Storage.Caching.Contract.{caching-JsonContract}
use astacus.Storage.Caching.Coherent.{IsCoherent, view}

abbrev files : Items ℕ
files =
    (record { name = "backup-1"; kind = json }, 10)
    ∷ (record { name = "0abc"; kind = dat }, 11)
    ∷ (record { name = "backup-0"; kind = json }, 12)
    ∷ []

names_of_files : (list_jsons files).0 ≡ returned ("backup-1" ∷ "backup-0" ∷ [])
unfolding list_jsons
names_of_files = refl

hexdigests_of_files : (list_hexdigests files).0 ≡ returned ("0abc" ∷ [])
unfolding list_hexdigests
hexdigests_of_files = refl

abbrev cold : Cached (Items ℕ) (Items ℕ)
cold = record { backend = files; cache = []; set_cache = none; sorted_list = none }

abbrev cached_files : JsonStorage (Cached (Items ℕ) (Items ℕ)) ℕ
cached_files = caching (memory_json ℕ) (memory_json ℕ)

cached_listing : (cached_files.list_jsons cold).0 ≡ returned ("backup-0" ∷ "backup-1" ∷ [])
unfolding Caching.list_jsons Caching.backend_json_set list_jsons sorted string_le
cached_listing = refl

deleted_twice :
    (cached_files.delete_json "backup-1" (cached_files.delete_json "backup-1" cold).1).0
    ≡ raised not_found
unfolding Caching.delete_json Caching.backend_json_set delete_json list_jsons item_beq
deleted_twice = refl

caching-JsonContract_example :
    JsonContract cached_files
      (IsCoherent (memory_json-JsonContract ℕ) (memory_json-JsonContract ℕ))
      (view (memory_json-JsonContract ℕ) (memory_json-JsonContract ℕ))
caching-JsonContract_example =
    caching-JsonContract (memory_json-JsonContract ℕ) (memory_json-JsonContract ℕ)
