-- ===== src/Listing/Tests.antt =====
-- One storage with a backup and a delta, of two nodes that hold the same file twice and once.
use text.Mathlib.Text.{starts_with}
use Prim.Native.String.{len, slice}
use astacus.Prelude.{
  ℕ, false, true, ◌≡◌, refl, sym, ap, ◌∙◌, ◌⊎◌, inl, inr, arith, none, some, String, List, [], ◌∷◌,
  string_eq, ◌==◌, eq_iff, contains, lookup, Bool-cases,
}
use astacus.Exceptions.{returned, raised, key_error}
use astacus.Ipc.{SnapshotFile, SnapshotResult, BackupManifest}
use astacus.Listing.{
  CachedEntries, read_entry, ListSingleBackup, JsonReads, compute_deduplicated_snapshot_file_stats,
  list_backups,
}
use astacus.Listing.Cached.{list_backups-eq, IsFresh, cache_of}
use astacus.Listing.Endpoint.{
  ListState, ListRequest, Event, request, finish, clear, step, serve_all, idle_server, start_list,
  finish_list, answer, clearing,
}
use astacus.Listing.Exclusive.{IsExclusive, serve_all-IsExclusive}
use astacus.NodeMap.{counter}

-- a coordinator that lists nothing at the time
abbrev idle : ListState
idle = record { cached_list_response = none; cached_list_running = false }

abbrev file : String → ℕ → SnapshotFile
file hexdigest size = record {
  relative_path = "f";
  file_size = size;
  mtime_ns = 0;
  hexdigest = hexdigest;
  content_b64 = none;
}

abbrev node : List SnapshotFile → SnapshotResult
node files = record {
  hostname = "h";
  az = "";
  state = some (record { root_globs = []; files = files });
  files = 2;
  total_size = 14;
  hashes = none;
}

abbrev manifest : BackupManifest
manifest = record {
  start = 1;
  end = 2;
  attempt = 1;
  snapshot_results =
      node (file "aa" 5 ∷ file "aa" 5 ∷ file "bb" 4 ∷ [])
      ∷ node (file "aa" 5 ∷ file "cc" 3 ∷ [])
      ∷ [];
  upload_results = [];
  filename = "";
}

counted_once_across_nodes : compute_deduplicated_snapshot_file_stats manifest ≡ returned (4, 17)
unfolding compute_deduplicated_snapshot_file_stats counter
counted_once_across_nodes = refl

abbrev storage : JsonReads
storage = record {
  list_jsons = "backup-1" ∷ "delta-1" ∷ [];
  download_json = λ name. returned manifest;
}

-- the entry of the backup, as an earlier listing has left it
abbrev earlier : ListSingleBackup
earlier = record {
  name = "1";
  start = 1;
  end = 2;
  attempt = 1;
  nodes = 2;
  files = 4;
  cluster_files = 4;
  total_size = 28;
  cluster_data_size = 17;
  upload_size = 0;
  upload_stored_size = 0;
}

earlier_is_read : read_entry storage "backup-" "backup-1" "1" ≡ returned earlier
unfolding read_entry compute_deduplicated_snapshot_file_stats counter
earlier_is_read = refl

listed :
    (name : String)
    → contains storage.list_jsons name ≡ true
    → (name ≡ "backup-1") ⊎ (name ≡ "delta-1")
listed name c = elim (Bool-cases ("backup-1" == name)) [
  | inl is ↦ inl (sym ((eq_iff "backup-1" name).0 is))
  | inr other ↦ inr (sym ((eq_iff "delta-1" name).0 (ground (arith, c, other))))
]

earlier-IsFresh : IsFresh storage "backup-" (("1", earlier) ∷ [])
earlier-IsFresh name b c p e = elim (listed name c) [
  | inl is ↦ rw is (
      earlier_is_read
      ∙ ground (arith, ap (λ n. lookup (("1", earlier) ∷ []) (slice n 7 (len n))) is, e))
  | inr is ↦ absurd (ground (arith, ap (λ n. starts_with n "backup-") is, p))
]

abbrev cached : List (String × CachedEntries)
cached = ("default", ("1", earlier) ∷ []) ∷ []

cached-IsFresh : (name : String) → IsFresh storage "backup-" (cache_of cached name)
cached-IsFresh name = elim (Bool-cases ("default" == name)) [
  | inl is ↦ rw (is, cache_of) earlier-IsFresh
  | inr other ↦ rw (other, cache_of) (λ name b c p e. ground (arith, e))
]

list_backups-eq_example :
    list_backups "" ("default" ∷ []) (λ name. storage) cached
    ≡ list_backups "" ("default" ∷ []) (λ name. storage) []
list_backups-eq_example =
    list_backups-eq "" ("default" ∷ []) (λ name. storage) cached cached-IsFresh

abbrev everything : ListRequest
everything = record { storage = "" }

abbrev one_storage : ListRequest
one_storage = record { storage = "default" }

-- The request is not compared: the response for all storages answers one that names a storage.
answered_for_another :
    (start_list 60 0 140 one_storage (finish_list 0 100 everything (returned []) idle).1).0
    ≡ returned (answer [])
unfolding start_list finish_list
answered_for_another = refl

abbrev events : List Event
events =
    request 100 everything
    ∷ request 101 one_storage
    ∷ clear
    ∷ finish 102 (raised key_error)
    ∷ request 103 one_storage
    ∷ []

second_listing_runs : (serve_all 60 0 events idle_server).running ≡ one_storage ∷ []
unfolding serve_all step start_list finish_list clearing
second_listing_runs = refl

serve_all-IsExclusive_example : IsExclusive (serve_all 60 0 events idle_server)
serve_all-IsExclusive_example = serve_all-IsExclusive 60 0 events

cleared : (clearing {A = ℕ} (λ n. (returned n, n)) (1, idle)).1.1.cached_list_response ≡ none
unfolding clearing
cleared = refl
