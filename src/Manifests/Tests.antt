-- ===== src/Manifests/Tests.antt =====
-- A manifest in a storage in memory, beside other documents.
use Prim.Native.String.{◌++◌ as append}
use astacus.Prelude.{ℕ, ◌≡◌, refl, [], ◌∷◌, arith, string_eq, eq_iff, sorted, place, string_le}
use astacus.Exceptions.{index_error, returned, raised}
use astacus.Ipc.{BackupManifest, from_manifest}
use astacus.Storage.Memory.{
  Items, NoCondition, view_of, json, memory_json, memory_hexdigest, memory_json-JsonContract,
  list_jsons, list_names,
}
use astacus.Cleanup.{Stores, backup_prefix}
use astacus.Manifests.{manifest_of, upload_manifest_step, backup_name_step, find_manifest, last}
use astacus.Manifests.Stored.{find_manifest-upload_manifest_step}

abbrev manifest : BackupManifest
manifest = manifest_of 1 100 200 [] []

abbrev stores : Stores (Items BackupManifest) (Items ℕ)
stores = record {
  json =
      (record { name = "delta-2024-01-02"; kind = json }, manifest)
      ∷ (record { name = "backup-2024-01-01"; kind = json }, manifest)
      ∷ [];
  hex = [];
}

-- With no name, and a delta beside the backup, the delta's name is taken.
delta_taken :
    (backup_name_step
      (memory_json BackupManifest)
      (memory_hexdigest ℕ (λ n. n))
      (λ d. returned d)
      (λ d. returned (from_manifest d))
      (λ m. m)
      ""
      stores).0
    ≡ returned "delta-2024-01-02"
unfolding backup_name_step list_jsons list_names last sorted place string_le
delta_taken = refl

no_backup :
    (backup_name_step
      (memory_json BackupManifest)
      (memory_hexdigest ℕ (λ n. n))
      (λ d. returned d)
      (λ d. returned (from_manifest d))
      (λ m. m)
      ""
      (record { json = []; hex = [] })).0
    ≡ raised index_error
unfolding backup_name_step list_jsons list_names last sorted
no_backup = refl

find_manifest-upload_manifest_step_example :
    (end : Stores (Items BackupManifest) (Items ℕ)) × (upload_manifest_step
        (memory_json BackupManifest)
        (memory_hexdigest ℕ (λ n. n))
        (λ d. returned d)
        (λ d. returned (from_manifest d))
        (λ m. m)
        backup_prefix
        "2024-01-03"
        manifest
        stores
      ≡ (returned tt, end))
    × ((find_manifest
          (memory_json BackupManifest)
          (memory_hexdigest ℕ (λ n. n))
          (λ d. returned d)
          (λ d. returned (from_manifest d))
          (λ m. m)
          "2024-01-03"
          end).0
        ≡ returned (record manifest { filename = append backup_prefix "2024-01-03" }))
    × ((find_manifest
          (memory_json BackupManifest)
          (memory_hexdigest ℕ (λ n. n))
          (λ d. returned d)
          (λ d. returned (from_manifest d))
          (λ m. m)
          (append backup_prefix "2024-01-03")
          end).0
        ≡ returned (record manifest { filename = append backup_prefix "2024-01-03" }))
find_manifest-upload_manifest_step_example =
    find_manifest-upload_manifest_step (memory_json BackupManifest) (memory_hexdigest ℕ (λ n. n))
      (λ d. returned d) (λ d. returned (from_manifest d)) (λ m. m) (λ m. refl) NoCondition
      (view_of json) (memory_json-JsonContract BackupManifest) "2024-01-03" manifest stores tt refl
      (λ e. ground (arith, (eq_iff "2024-01-03" "").1 e)) refl
