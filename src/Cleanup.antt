-- ===== src/Cleanup.antt =====
-- The cleanup operation: `get_cleanup_steps` of astacus/coordinator/plugins/base.py with its four
-- steps, and the manifest downloads of astacus/coordinator/manifest.py, over a JSON storage and a
-- hexdigest storage that keep their contracts. The decoding of documents is the msgspec library's.
mod Downloads
mod Deletions
mod Dangling
pub mod Safety
mod Tests
use text.Mathlib.Text.{starts_with}
use astacus.Prelude.{
  ℕ, Bool, true, false, not, ◌&&◌, ◌||◌, Option, none, some, List, [], ◌∷◌, ◌++◌, String, ◌==◌,
  string_eq, map, contains, difference, discard, filter, to_set, if◌then◌else◌, ltb,
}
use astacus.Exceptions.{
  Exn, assertion, Outcome, returned, raised, Method, pure, raise, lift, ◌>>=◌, ◌>>◌, assert,
}
use astacus.Storage.{JsonStorage, HexDigestStorage}
use astacus.Ipc.{Retention, SnapshotHash, SnapshotResult, BackupManifest, ManifestMin}
use astacus.Retention.{prune_manifests}

-- magic.JSON_BACKUP_PREFIX and magic.JSON_DELTA_PREFIX
abbrev pub backup_prefix : String
backup_prefix = "backup-"

abbrev pub delta_prefix : String
delta_prefix = "delta-"

-- the two storages of an OperationContext
pub record Stores (J H : Type 0) : Type 0 where
  pub json : J
  pub hex : H

module _ {J H : Type 0} where
  abbrev pub on_json : {A : Type 0} → Method J A → Method (Stores J H) A
  on_json m s = let (r, j) = m s.json in (r, record s { json = j })

  abbrev pub on_hex : {A : Type 0} → Method H A → Method (Stores J H) A
  on_hex m s = let (r, h) = m s.hex in (r, record s { hex = h })

-- One result of the step is the set of the names; the assertion on a manifest's own file name.
abbrev pub own_name : String → String → Bool
own_name filename backup_name = filename == "" || filename == backup_name

abbrev pub discard_hashes : List String → List SnapshotHash → List String
discard_hashes extra [] = extra
discard_hashes extra (h ∷ hs) = discard_hashes (discard extra h.hexdigest) hs

-- `assert result.hashes is not None` for each result in turn
pub discard_results : List String → List SnapshotResult → Outcome (List String)
discard_results extra [] = returned extra
discard_results extra (r ∷ rs) = elim r.hashes [
  | none ↦ raised assertion
  | some hs ↦ discard_results (discard_hashes extra hs) rs
]

module _ {J H D E : Type 0} (json_storage : JsonStorage J D)
    (hexdigest_storage : HexDigestStorage H E) (decode : D → Outcome BackupManifest)
    (decode_min : D → Outcome ManifestMin) where
  unfoldable pub download_backup_manifest : String → Method (Stores J H) BackupManifest
  download_backup_manifest backup_name = do
    document ← on_json (json_storage.open_json_bytes backup_name)
    manifest ← lift (decode document)
    assert (own_name manifest.filename backup_name)
    pure (record manifest { filename = backup_name })

  pub download_backup_min_manifest : String → Method (Stores J H) ManifestMin
  download_backup_min_manifest backup_name = do
    document ← on_json (json_storage.open_json_bytes backup_name)
    manifest ← lift (decode_min document)
    assert (own_name manifest.filename backup_name)
    pure (record manifest { filename = backup_name })

  -- `ListBackupsStep` and `ListDeltaBackupsStep`, by their prefix
  pub list_backups : String → Method (Stores J H) (List String)
  list_backups prefix = do
    names ← on_json json_storage.list_jsons
    pure (to_set (filter (λ b. starts_with b prefix) names))

  pub download_all : List String → Method (Stores J H) (List ManifestMin)
  unfolding download_backup_min_manifest
  download_all [] = pure []
  download_all (name ∷ names) = do
    manifest ← download_backup_min_manifest name
    rest ← download_all names
    pure (manifest ∷ rest)

  -- `ComputeKeptBackupsStep`
  pub compute_kept_basebackups :
      Retention → (ℕ → ℕ) → List String → List String → Method (Stores J H) (List ManifestMin)
  unfolding download_all prune_manifests
  compute_kept_basebackups retention now explicit_delete all_backup_names = do
    manifests ← download_all (difference all_backup_names (to_set explicit_delete))
    pure (prune_manifests retention now manifests)

  -- `min(kept_backups, key=lambda b: b.start)`: the first of the least
  oldest_of : ManifestMin → List ManifestMin → ManifestMin
  oldest_of m [] = m
  oldest_of m (b ∷ bs) = oldest_of (if ltb b.start m.start then b else m) bs

  kept_deltas_from : ManifestMin → List String → Method (Stores J H) (List ManifestMin)
  unfolding download_backup_min_manifest
  kept_deltas_from oldest [] = pure []
  kept_deltas_from oldest (name ∷ names) = do
    delta_manifest ← download_backup_min_manifest name
    rest ← kept_deltas_from oldest names
    pure (if ltb delta_manifest.end oldest.end then rest else delta_manifest ∷ rest)

  pub compute_kept_deltas : List ManifestMin → List String → Method (Stores J H) (List ManifestMin)
  unfolding kept_deltas_from oldest_of
  compute_kept_deltas [] all_delta_names = pure []
  compute_kept_deltas (m ∷ ms) all_delta_names = kept_deltas_from (oldest_of m ms) all_delta_names

  -- `run_step`; the names of the deltas are none where deltas are not retained.
  pub compute_kept :
      Retention
      → (ℕ → ℕ)
      → List String
      → List String
      → Option (List String)
      → Method (Stores J H) (List ManifestMin)
  unfolding compute_kept_basebackups compute_kept_deltas
  compute_kept retention now explicit_delete all_backup_names none =
      compute_kept_basebackups retention now explicit_delete all_backup_names
  compute_kept retention now explicit_delete all_backup_names (some all_delta_names) = do
    kept ← compute_kept_basebackups retention now explicit_delete all_backup_names
    deltas ← compute_kept_deltas kept all_delta_names
    pure (kept ++ deltas)

  pub delete_names : List String → Method (Stores J H) (Unit {0})
  delete_names [] = pure tt
  delete_names (name ∷ names) = do on_json (json_storage.delete_json name); delete_names names

  -- `DeleteBackupManifestsStep`
  pub delete_backup_manifests : List String → List ManifestMin → Method (Stores J H) (List String)
  unfolding delete_names
  delete_backup_manifests all_backups kept = do
    let deleted_backups = difference all_backups (to_set (map (λ b. b.filename) kept))
    delete_names deleted_backups
    pure deleted_backups

  pub discard_kept : List String → List ManifestMin → Method (Stores J H) (List String)
  unfolding download_backup_manifest discard_results
  discard_kept extra [] = pure extra
  discard_kept extra (m ∷ ms) = do
    manifest ← download_backup_manifest m.filename
    extra' ← lift (discard_results extra manifest.snapshot_results)
    discard_kept extra' ms

  pub delete_hexdigests : List String → Method (Stores J H) (Unit {0})
  delete_hexdigests [] = pure tt
  delete_hexdigests (h ∷ hs) = do
    on_hex (hexdigest_storage.delete_hexdigest h)
    delete_hexdigests hs

  -- `DeleteDanglingHexdigestsStep`, less its gauges
  pub delete_dangling_hexdigests : List ManifestMin → Method (Stores J H) (Unit {0})
  unfolding discard_kept delete_hexdigests
  delete_dangling_hexdigests kept = do
    names ← on_hex hexdigest_storage.list_hexdigests
    extra ← discard_kept (to_set names) kept
    delete_hexdigests extra

  -- `get_cleanup_steps`, each step with the results of those before it
  pub cleanup : Retention → (ℕ → ℕ) → List String → Method (Stores J H) (Unit {0})
  unfolding list_backups compute_kept delete_backup_manifests delete_dangling_hexdigests
  cleanup retention now explicit_delete = do
    all_backups ← list_backups backup_prefix
    kept ← compute_kept retention now explicit_delete all_backups none
    delete_backup_manifests all_backups kept
    delete_dangling_hexdigests kept
