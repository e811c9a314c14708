-- ===== src/Listing/Cached.antt =====
-- A listing that takes entries from a cache says what one that reads every manifest says.
use text.Mathlib.Text.{starts_with}
use Prim.Native.String.{len, slice}
use astacus.Prelude.{
  ◌≡◌, refl, sym, ◌∙◌, true, All, All-contains, Bool-cases, contains, contains-sorted, none, some,
  String, List, [], ◌∷◌, lookup, string_eq, arith, inl, inr, Option-cases, sorted, string_le,
}
use astacus.Exceptions.{returned}
use astacus.Listing.{
  JsonReads, CachedEntries, ListSingleBackup, read_entry, entry, iter_names, iter_backups,
  iter_storages, list_backups,
}

-- Each entry of the cache for a document of the storage with the prefix is what a reading of that
-- document gives.
abbrev pub IsFresh : JsonReads → String → CachedEntries → Type 0
IsFresh storage prefix cache =
    (name : String) (b : ListSingleBackup)
    → contains storage.list_jsons name ≡ true
    → starts_with name prefix ≡ true
    → lookup cache (slice name (len prefix) (len name)) ≡ some b
    → read_entry storage prefix name (slice name (len prefix) (len name)) ≡ returned b

abbrev Agrees : JsonReads → String → CachedEntries → String → Type 0
Agrees storage prefix cache name =
    starts_with name prefix ≡ true
    → entry storage prefix cache name (slice name (len prefix) (len name))
      ≡ entry storage prefix [] name (slice name (len prefix) (len name))

entry-eq :
    (storage : JsonReads) (prefix : String) (cache : CachedEntries) (name : String)
    → IsFresh storage prefix cache
    → contains storage.list_jsons name ≡ true
    → Agrees storage prefix cache name
unfolding entry
entry-eq storage prefix cache name h c p =
    elim (Option-cases (lookup cache (slice name (len prefix) (len name)))) [
      | inl e ↦ ground (arith, e)
      | inr (b, e) ↦ ground (arith, e, h name b c p e)
    ]

iter_names-eq :
    (storage : JsonReads) (prefix : String) (cache : CachedEntries) (names : List String)
    → All (Agrees storage prefix cache) names
    → iter_names storage prefix cache names ≡ iter_names storage prefix [] names
unfolding iter_names
iter_names-eq storage prefix cache [] h = refl
iter_names-eq storage prefix cache (name ∷ names) h = elim (Bool-cases (starts_with name prefix)) [
  | inl p ↦ ground (arith, p, h.0 p, iter_names-eq storage prefix cache names h.1)
  | inr p ↦ ground (arith, p, iter_names-eq storage prefix cache names h.1)
]

sorted-Agrees :
    (storage : JsonReads) (prefix : String) (cache : CachedEntries)
    → IsFresh storage prefix cache
    → All (Agrees storage prefix cache) (sorted string_le storage.list_jsons)
sorted-Agrees storage prefix cache h =
    All-contains (Agrees storage prefix cache) (sorted string_le storage.list_jsons) (λ name c.
      entry-eq storage prefix cache name h
        (sym (contains-sorted string_le storage.list_jsons name) ∙ c))

abbrev pub cache_of : List (String × CachedEntries) → String → CachedEntries
cache_of cache storage_name = elim (lookup cache storage_name) [ none ↦ [] | some c ↦ c ]

iter_storages-eq :
    (requested : String) (get_storage : String → JsonReads) (cache : List (String × CachedEntries))
    (prefix : String) (names : List String)
    → ((name : String) → IsFresh (get_storage name) prefix (cache_of cache name))
    → iter_storages requested get_storage cache prefix names
      ≡ iter_storages requested get_storage [] prefix names
unfolding iter_storages iter_backups
iter_storages-eq requested get_storage cache prefix [] h = refl
iter_storages-eq requested get_storage cache prefix (name ∷ names) h = ground (
  arith,
  iter_names-eq (get_storage name) prefix (cache_of cache name)
      (sorted string_le (get_storage name).list_jsons)
      (sorted-Agrees (get_storage name) prefix (cache_of cache name) (h name)),
  iter_storages-eq requested get_storage cache prefix names h,
)

-- Where each cached entry of a document that its storage lists, and whose name has the prefix, is
-- what the document gives, a listing is the one without a cache, also where it raises.
pub list_backups-eq :
    (requested : String) (list_storages : List String) (get_storage : String → JsonReads)
    (cache : List (String × CachedEntries))
    → ((name : String) → IsFresh (get_storage name) "backup-" (cache_of cache name))
    → list_backups requested list_storages get_storage cache
      ≡ list_backups requested list_storages get_storage []
unfolding list_backups
list_backups-eq requested list_storages get_storage cache h =
    iter_storages-eq requested get_storage cache "backup-" (sorted string_le list_storages) h
