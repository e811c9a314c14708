-- ===== src/Downloader/Tests.antt =====
-- A concrete restore from a storage in memory.
use astacus.Prelude.{
  ℕ, ◌≡◌, refl, true, Option, none, some, String, List, [], ◌∷◌, All, arith, string_eq, eq_iff,
  length,
}
use astacus.Exceptions.{returned}
use astacus.Ipc.{SnapshotFile}
use astacus.Progress.{fresh}
use astacus.Storage.Memory.{
  Items, NoCondition, view_of, dat, item_beq, memory_hexdigest, memory_hexdigest-HexDigestContract,
}
use astacus.Downloader.{Restore, already_exists, download_files}
use astacus.Snapshotter.Queries.{get_file}
use astacus.Downloader.Files.{Existing}
use astacus.Downloader.Groups.{IsAvailable, IsWanted}
use astacus.Downloader.ByDigest.{IsSized}
use astacus.Downloader.Complete.{IsComplete, download_files-IsComplete}

abbrev row : String → ℕ → String → Option String → SnapshotFile
row path size hexdigest content_b64 = record {
  relative_path = path;
  file_size = size;
  mtime_ns = 5;
  hexdigest = hexdigest;
  content_b64 = content_b64;
}

-- two files of one digest and an embedded one
abbrev files : List SnapshotFile
files = row "a" 1 "d1" none ∷ row "b" 1 "d1" none ∷ row "c" 2 "" (some "CAk=") ∷ []

abbrev digest : List ℕ → String
digest [] = "x"
digest (b ∷ bytes) = "d1"

abbrev unb64 : String → List ℕ
unb64 text = 8 ∷ 9 ∷ []

abbrev directory : Items (List ℕ)
directory = (record { name = "d1"; kind = dat }, 1 ∷ []) ∷ []

abbrev begun : Restore (Items (List ℕ))
begun = record {
  root = record {
    storage = directory;
    rows = [];
    files = ("z", record { content = []; mtime_ns = 1 }) ∷ [];
  };
  progress = fresh;
  calls = 0;
}

nothing_exists :
    Existing digest unb64
      (memory_hexdigest (List ℕ) length)
      NoCondition
      (view_of dat)
      files
      begun.root
unfolding already_exists get_file
nothing_exists q f w e = absurd (ground (arith, e))

files_are_ready :
    All
      (λ f.
        IsWanted digest unb64
          (memory_hexdigest (List ℕ) length)
          NoCondition
          (view_of dat)
          (memory_hexdigest-HexDigestContract (List ℕ) length)
          files
          f
        × IsAvailable digest unb64
            (memory_hexdigest (List ℕ) length)
            NoCondition
            (view_of dat)
            (memory_hexdigest-HexDigestContract (List ℕ) length)
            files
            begun.root
            f)
      files
unfolding item_beq
files_are_ready = (
  (refl, (λ z. absurd (ground (arith, (eq_iff "d1" "").1 z)), λ n. (1 ∷ [], refl, refl))),
  (
    (refl, (λ z. absurd (ground (arith, (eq_iff "d1" "").1 z)), λ n. (1 ∷ [], refl, refl))),
    ((refl, (λ z. ("CAk=", refl), λ n. absurd (n refl))), tt),
  ),
)

files_are-IsSized : All (IsSized (λ h. 1)) files
files_are-IsSized = (λ n. refl, (λ n. refl, (λ n. absurd (n refl), tt)))

download_files-IsComplete_example :
    (end : Restore (Items (List ℕ))) × (download_files
        (memory_hexdigest (List ℕ) length)
        unb64
        (λ _. true)
        files
        begun
      ≡ (returned tt, end))
    × IsComplete digest unb64
        (memory_hexdigest (List ℕ) length)
        NoCondition
        (view_of dat)
        (memory_hexdigest-HexDigestContract (List ℕ) length)
        files
        begun
        end
download_files-IsComplete_example =
    download_files-IsComplete digest unb64 (memory_hexdigest (List ℕ) length) NoCondition
      (view_of dat) (memory_hexdigest-HexDigestContract (List ℕ) length) files (λ h. 1) begun tt
      refl nothing_exists files_are_ready files_are-IsSized
