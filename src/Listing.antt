-- ===== src/Listing.antt =====
-- astacus/coordinator/list.py: what a listing says of each backup, from the cache of the previous
-- listing or from the manifest. A storage is read through two functions: the names of its
-- documents, and the manifest under a name or the exception of its download.
pub mod Cached
pub mod Endpoint
pub mod Exclusive
mod Tests
use text.Mathlib.Text.{starts_with}
use Prim.Native.String.{len, slice}
use astacus.Prelude.{
  ℕ, ◌+◌, ◌*◌, max, Bool, true, false, not, Option, none, some, String, List, [], ◌∷◌, map, lookup,
  insert, string_eq, ◌==◌, ◌||◌, length, sum, sorted, string_le, if◌then◌else◌,
}
use astacus.Exceptions.{assertion, key_error, Outcome, returned, raised}
use astacus.Ipc.{SnapshotFile, SnapshotResult, BackupManifest}
use astacus.NodeMap.{counter}

abbrev pub Counts : Type 0
Counts = List (String × ℕ)

-- the size of the first file with each hexdigest
unfoldable pub add_sizes : Counts → List SnapshotFile → Counts
add_sizes sizes [] = sizes
add_sizes sizes (f ∷ files) =
    add_sizes
      (elim (lookup sizes f.hexdigest) [
        | none ↦ insert sizes f.hexdigest f.file_size
        | some n ↦ sizes
      ])
      files

-- the greatest count so far of each hexdigest of a node
unfoldable pub add_counts : Counts → Counts → Counts
add_counts max_counts [] = max_counts
add_counts max_counts ((hexdigest, count) ∷ counts) =
    let max_count : ℕ = elim (lookup max_counts hexdigest) [ none ↦ 0 | some n ↦ n ] in
    add_counts (insert max_counts hexdigest (max max_count count)) counts

unfoldable pub gather : Counts → Counts → List SnapshotResult → Outcome (Counts × Counts)
unfolding add_sizes add_counts counter
gather max_counts sizes [] = returned (max_counts, sizes)
gather max_counts sizes (r ∷ results) = elim r.state [
  | none ↦ raised assertion
  | some state ↦
      gather (add_counts max_counts (counter (map (λ f. f.hexdigest) state.files)))
        (add_sizes sizes state.files) results
]

unfoldable pub total_of : Counts → Counts → Outcome ℕ
total_of sizes [] = returned 0
total_of sizes ((hexdigest, count) ∷ counts) =
    let rest = total_of sizes counts in
    elim (lookup sizes hexdigest) [
      | none ↦ raised key_error
      | some size ↦ elim rest [ raised e ↦ raised e | returned n ↦ returned (count * size + n) ]
    ]

unfoldable pub compute_deduplicated_snapshot_file_stats : BackupManifest → Outcome (ℕ × ℕ)
unfolding gather total_of
compute_deduplicated_snapshot_file_stats manifest = elim (gather [] [] manifest.snapshot_results) [
  | raised e ↦ raised e
  | returned (max_counts, sizes) ↦ elim (total_of sizes max_counts) [
    | raised e ↦ raised e
    | returned total_size ↦ returned (sum (map (λ c. c.1) max_counts), total_size)
  ]
]

-- `ListSingleBackup`, less the plugin's name, which is passed on
pub record ListSingleBackup : Type 0 where
  pub name : String
  pub start : ℕ
  pub end : ℕ
  pub attempt : ℕ
  pub nodes : ℕ
  pub files : ℕ
  pub cluster_files : ℕ
  pub total_size : ℕ
  pub cluster_data_size : ℕ
  pub upload_size : ℕ
  pub upload_stored_size : ℕ

unfoldable pub describe : String → BackupManifest → Outcome ListSingleBackup
unfolding compute_deduplicated_snapshot_file_stats
describe backup_name manifest = elim (compute_deduplicated_snapshot_file_stats manifest) [
  | raised e ↦ raised e
  | returned (cluster_files, cluster_data_size) ↦ returned (record {
    name = backup_name;
    start = manifest.start;
    end = manifest.end;
    attempt = manifest.attempt;
    nodes = length manifest.snapshot_results;
    files = sum (map (λ x. x.files) manifest.snapshot_results);
    cluster_files = cluster_files;
    total_size = sum (map (λ x. x.total_size) manifest.snapshot_results);
    cluster_data_size = cluster_data_size;
    upload_size = sum (map (λ x. x.total_size) manifest.upload_results);
    upload_stored_size = sum (map (λ x. x.total_stored_size) manifest.upload_results);
  })
]

pub record JsonReads : Type 0 where
  pub list_jsons : List String
  pub download_json : String → Outcome BackupManifest

abbrev pub CachedEntries : Type 0
CachedEntries = List (String × ListSingleBackup)

module _ (storage : JsonReads) (backup_prefix : String) where
  unfoldable pub read_entry : String → String → Outcome ListSingleBackup
  unfolding describe
  read_entry name backup_name = elim (storage.download_json name) [
    | raised e ↦ raised e
    | returned manifest ↦ describe backup_name manifest
  ]

  unfoldable pub entry : CachedEntries → String → String → Outcome ListSingleBackup
  unfolding read_entry
  entry cache name backup_name = elim (lookup cache backup_name) [
    | some cached_entry ↦ returned cached_entry
    | none ↦ read_entry name backup_name
  ]

  unfoldable pub iter_names : CachedEntries → List String → Outcome (List ListSingleBackup)
  unfolding entry
  iter_names cache [] = returned []
  iter_names cache (name ∷ names) =
      let rest = iter_names cache names in
      -- `name[len(backup_prefix):]`, of a name that starts with the prefix
      let backup_name = slice name (len backup_prefix) (len name) in
      if not (starts_with name backup_prefix) then rest else (elim (entry cache name backup_name) [
        | raised e ↦ raised e
        | returned b ↦ elim rest [ raised e ↦ raised e | returned bs ↦ returned (b ∷ bs) ]
      ])

  unfoldable pub iter_backups : CachedEntries → Outcome (List ListSingleBackup)
  unfolding iter_names sorted string_le
  iter_backups cache = iter_names cache (sorted string_le storage.list_jsons)

-- `ListForStorage`
abbrev pub ListForStorage : Type 0
ListForStorage = String × List ListSingleBackup

-- A request's storage is optional: the empty text asks for all of them.
unfoldable pub iter_storages :
    String
    → (String → JsonReads)
    → List (String × CachedEntries)
    → String
    → List String
    → Outcome (List ListForStorage)
unfolding iter_backups
iter_storages requested get_storage cache backup_prefix [] = returned []
iter_storages requested get_storage cache backup_prefix (storage_name ∷ names) =
    let rest = iter_storages requested get_storage cache backup_prefix names in
    let storage_cache : CachedEntries = elim (lookup cache storage_name) [
      | none ↦ []
      | some c ↦ c
    ] in
    if requested == "" || requested == storage_name
    then (elim (iter_backups (get_storage storage_name) backup_prefix storage_cache) [
      | raised e ↦ raised e
      | returned backups ↦ elim rest [
        | raised e ↦ raised e
        | returned rs ↦ returned ((storage_name, backups) ∷ rs)
      ]
    ])
    else rest

module _ (requested : String) (list_storages : List String) (get_storage : String → JsonReads) where
  unfoldable pub list_backups : List (String × CachedEntries) → Outcome (List ListForStorage)
  unfolding iter_storages sorted string_le
  list_backups cache =
      iter_storages requested get_storage cache "backup-" (sorted string_le list_storages)

  unfoldable pub list_delta_backups : Outcome (List ListForStorage)
  unfolding iter_storages sorted string_le
  list_delta_backups =
      iter_storages requested get_storage [] "delta-" (sorted string_le list_storages)

-- `get_cache_entries_from_list_response` of astacus/coordinator/api.py: the entries of a response by
-- their storages and names
entries_of : List ListSingleBackup → CachedEntries → CachedEntries
entries_of [] d = d
entries_of (b ∷ bs) d = entries_of bs (insert d b.name b)

cache_from : List ListForStorage → List (String × CachedEntries) → List (String × CachedEntries)
unfolding entries_of
cache_from [] d = d
cache_from ((storage_name, backups) ∷ response) d =
    cache_from response (insert d storage_name (entries_of backups []))

unfoldable pub get_cache_entries_from_list_response :
    List ListForStorage → List (String × CachedEntries)
unfolding cache_from
get_cache_entries_from_list_response response = cache_from response []
