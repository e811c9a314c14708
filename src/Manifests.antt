-- ===== src/Manifests.antt =====
-- `UploadManifestStep`, `BackupNameStep` and `BackupManifestStep` of
-- astacus/coordinator/plugins/base.py. The plugin and its data are no part of the manifest here.
pub mod Stored
mod Tests
use Prim.Native.String.{◌++◌ as append}
use text.Mathlib.Text.{starts_with}
use astacus.Prelude.{
  ℕ, Bool, true, false, not, String, List, [], ◌∷◌, ◌==◌, string_eq, sorted, string_le,
  if◌then◌else◌,
}
use astacus.Exceptions.{
  index_error, Outcome, returned, raised, Method, pure, lift, ◌>>=◌, ◌>>◌, assert,
}
use astacus.Ipc.{BackupManifest, ManifestMin, SnapshotResult, SnapshotUploadResult}
use astacus.Storage.Interface.{JsonStorage, HexDigestStorage}
use astacus.Cleanup.{Stores, on_json, download_backup_manifest, backup_prefix}

-- `_make_backup_name`, from the text of the start of the attempt
unfoldable pub make_backup_name : String → String → String
make_backup_name prefix iso = append prefix iso

-- `xs[-1]`
unfoldable pub last : List String → Outcome String
last [] = raised index_error
last (x ∷ []) = returned x
last (x ∷ y ∷ xs) = last (y ∷ xs)

-- the manifest of an attempt; `end` is the reading of the clock
abbrev pub manifest_of :
    ℕ → ℕ → ℕ → List SnapshotResult → List SnapshotUploadResult → BackupManifest
manifest_of attempt start end snapshot_results upload_results = record {
  start = start;
  end = end;
  attempt = attempt;
  snapshot_results = snapshot_results;
  upload_results = upload_results;
  filename = "";
}

module _ {J H D E : Type 0} (json_storage : JsonStorage J D)
    (hexdigest_storage : HexDigestStorage H E) (decode : D → Outcome BackupManifest)
    (decode_min : D → Outcome ManifestMin) (encode : BackupManifest → D) where
  unfoldable pub upload_manifest_step :
      String → String → BackupManifest → Method (Stores J H) (Unit {0})
  unfolding make_backup_name
  upload_manifest_step prefix iso manifest = do
    on_json (json_storage.upload_json_bytes (make_backup_name prefix iso) (encode manifest))
    pure tt

  unfoldable pub backup_name_step : String → Method (Stores J H) String
  unfolding last
  backup_name_step requested_name =
      if requested_name == ""
      then (do names ← on_json json_storage.list_jsons; lift (last (sorted string_le names)))
      else if starts_with requested_name backup_prefix
      then pure requested_name
      else pure (append backup_prefix requested_name)

  unfoldable pub backup_manifest_step : String → Method (Stores J H) BackupManifest
  backup_manifest_step backup_name = do
    assert (not (backup_name == ""))
    download_backup_manifest json_storage hexdigest_storage decode decode_min backup_name

  -- the two steps of a restore that find its manifest
  unfoldable pub find_manifest : String → Method (Stores J H) BackupManifest
  unfolding backup_name_step backup_manifest_step
  find_manifest requested_name = do
    backup_name ← backup_name_step requested_name
    backup_manifest_step backup_name
