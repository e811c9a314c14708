-- ===== src/Cleanup/Tests.antt =====
-- A cleanup of two backups of which the older is deleted explicitly.
use astacus.Prelude.{ℕ, ◌≡◌, refl, none, some, List, [], ◌∷◌, String}
use astacus.Exceptions.{Outcome, returned}
use astacus.Storage.Memory.{
  Items, dat, json, memory_json, memory_hexdigest, memory_json-JsonContract,
  memory_hexdigest-HexDigestContract, list_jsons, list_hexdigests, delete_json, delete_hexdigest,
  open_json_bytes, item_beq,
}
use astacus.Ipc.{Retention, SnapshotHash, SnapshotResult, BackupManifest, ManifestMin}
use astacus.Cleanup.{Stores, cleanup}
use astacus.Cleanup.Safety.{IsSafe, cleanup-IsSafe}

abbrev node_with : List SnapshotHash → SnapshotResult
node_with hs = record {
  hostname = "node";
  az = "az1";
  state = none;
  files = 1;
  total_size = 3;
  hashes = some hs;
}

abbrev hash : String → SnapshotHash
hash k = record { hexdigest = k; size = 3 }

abbrev manifest : ℕ → List SnapshotHash → BackupManifest
manifest n hs = record {
  start = n;
  end = n;
  attempt = 1;
  snapshot_results = node_with hs ∷ [];
  upload_results = [];
  filename = "";
}

abbrev documents : Items BackupManifest
documents =
    (record { name = "backup-1"; kind = json }, manifest 1 (hash "aa" ∷ hash "bb" ∷ []))
    ∷ (record { name = "backup-2"; kind = json }, manifest 2 (hash "bb" ∷ []))
    ∷ []

abbrev blocks : Items ℕ
blocks = (record { name = "aa"; kind = dat }, 3) ∷ (record { name = "bb"; kind = dat }, 3) ∷ []

abbrev before : Stores (Items BackupManifest) (Items ℕ)
before = record { json = documents; hex = blocks }

abbrev after_it : Stores (Items BackupManifest) (Items ℕ)
after_it = record {
  json = (record { name = "backup-2"; kind = json }, manifest 2 (hash "bb" ∷ [])) ∷ [];
  hex = (record { name = "bb"; kind = dat }, 3) ∷ [];
}

abbrev keep_all : Retention
keep_all = record { minimum_backups = none; maximum_backups = none; keep_days = none }

abbrev decoded_min : BackupManifest → Outcome ManifestMin
decoded_min m = returned (record { start = m.start; end = m.end; filename = m.filename })

cleanup-before :
    cleanup
      (memory_json BackupManifest)
      (memory_hexdigest ℕ (λ n. n))
      (λ m. returned m)
      decoded_min
      keep_all
      (λ _. 0)
      ("backup-1" ∷ [])
      before
    ≡ (returned tt, after_it)
unfolding cleanup list_jsons list_hexdigests delete_json delete_hexdigest open_json_bytes item_beq
cleanup-before = refl

cleanup-IsSafe_example :
    IsSafe
      (memory_json-JsonContract BackupManifest)
      (memory_hexdigest-HexDigestContract ℕ (λ n. n))
      (λ m. returned m)
      decoded_min
      before
      after_it
cleanup-IsSafe_example =
    cleanup-IsSafe (memory_json-JsonContract BackupManifest)
      (memory_hexdigest-HexDigestContract ℕ (λ n. n)) (λ m. returned m) decoded_min keep_all
      (λ _. 0) ("backup-1" ∷ []) before after_it tt tt cleanup-before
