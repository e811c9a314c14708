-- ===== src/Ipc.antt =====
-- astacus/common/ipc.py: the messages that the modelled code reads. Points in time are microseconds
-- since an epoch, sizes and counts are natural numbers.
use astacus.Prelude.{
  ℕ, ◌↔◌, ◌≡◌, Bool, true, false, ◌&&◌, Option, none, some, List, String, Eq, ◌==◌, string_eq,
  nat_eq, eq_iff, arith,
}

pub record Retention : Type 0 where
  pub minimum_backups : Option ℕ
  pub maximum_backups : Option ℕ
  pub keep_days : Option ℕ

pub record SnapshotFile : Type 0 where
  pub relative_path : String
  pub file_size : ℕ
  pub mtime_ns : ℕ
  pub hexdigest : String
  pub content_b64 : Option String

unfoldable pub option_beq : Option String → Option String → Bool
option_beq none none = true
option_beq (some a) (some b) = a == b
option_beq _ _ = false

unfoldable pub equals_excluding_mtime : SnapshotFile → SnapshotFile → Bool
unfolding option_beq
equals_excluding_mtime a b =
    a.relative_path == b.relative_path
    && (a.file_size == b.file_size
        && (a.hexdigest == b.hexdigest && option_beq a.content_b64 b.content_b64))

unfoldable pub underlying_file_is_the_same : SnapshotFile → SnapshotFile → Bool
underlying_file_is_the_same a b =
    a.mtime_ns == b.mtime_ns && (a.relative_path == b.relative_path && a.file_size == b.file_size)

pub record SnapshotState : Type 0 where
  pub root_globs : List String
  pub files : List SnapshotFile

pub record SnapshotHash : Type 0 where
  pub hexdigest : String
  pub size : ℕ

abbrev pub hash_beq : SnapshotHash → SnapshotHash → Bool
hash_beq a b = a.hexdigest == b.hexdigest && a.size == b.size

pub hash_beq_iff : (a b : SnapshotHash) → (hash_beq a b ≡ true) ↔ (a ≡ b)
hash_beq_iff a b = (
  λ h. ground (arith, eq_iff a.hexdigest b.hexdigest),
  λ h. ground (arith, eq_iff a.hexdigest b.hexdigest),
)

instance abbrev pub hash_eq : Eq SnapshotHash
hash_eq = record { beq = hash_beq; beq_iff = hash_beq_iff }

pub record SnapshotResult : Type 0 where
  pub hostname : String
  pub az : String
  pub state : Option SnapshotState
  pub files : ℕ
  pub total_size : ℕ
  pub hashes : Option (List SnapshotHash)

pub record SnapshotUploadResult : Type 0 where
  pub total_size : ℕ
  pub total_stored_size : ℕ

pub record PartialRestoreRequestNode : Type 0 where
  pub backup_index : Option ℕ
  pub backup_hostname : Option String
  pub node_index : Option ℕ
  pub node_url : Option String

pub record BackupManifest : Type 0 where
  pub start : ℕ
  pub end : ℕ
  pub attempt : ℕ
  pub snapshot_results : List SnapshotResult
  pub upload_results : List SnapshotUploadResult
  pub filename : String

pub record ManifestMin : Type 0 where
  pub start : ℕ
  pub end : ℕ
  pub filename : String

unfoldable pub from_manifest : BackupManifest → ManifestMin
from_manifest m = record { start = m.start; end = m.end; filename = m.filename }
