-- ===== src/Uploader/Tests.antt =====
-- A concrete upload to a storage in memory.
use astacus.Prelude.{
  ℕ, ◌≡◌, refl, true, Option, none, String, List, [], ◌∷◌, map, All, arith, ◌==◌, string_eq, nat_eq,
  eq_iff, to_set, length, lookup, if◌then◌else◌, sorted, place, string_le,
}
use astacus.Exceptions.{returned}
use astacus.Ipc.{SnapshotFile, SnapshotHash}
use astacus.Progress.{fresh}
use astacus.Storage.Memory.{
  Items, NoCondition, view_of, dat, memory_hexdigest, memory_hexdigest-HexDigestContract,
}
use astacus.Snapshotter.{Rows}
use astacus.Snapshotter.Queries.{get_files_for_digest, with_digest, by_path}
use astacus.Uploader.{Run, write_hashes_to_storage}
use astacus.Uploader.Write.{IsRequested, IsWritten, write_hashes_to_storage-IsWritten}

abbrev row : String → String → SnapshotFile
row path hexdigest = record {
  relative_path = path;
  file_size = 1;
  mtime_ns = 5;
  hexdigest = hexdigest;
  content_b64 = none;
}

-- two files with one digest, of which the first has been changed, and one that has gone
abbrev rows : Rows
rows = ("a", row "a" "d1") ∷ ("b", row "b" "d1") ∷ ("c", row "c" "d2") ∷ []

abbrev held : String → Option (List ℕ)
held path = lookup (("a", 9 ∷ []) ∷ ("b", 1 ∷ []) ∷ []) path

abbrev digest : List ℕ → String
digest [] = "x"
digest (b ∷ bytes) = if b == 1 then "d1" else "x"

abbrev hashes : List SnapshotHash
hashes = record { hexdigest = "d1"; size = 1 } ∷ record { hexdigest = "d2"; size = 1 } ∷ []

abbrev digests : List String
digests = to_set (map (λ h. h.hexdigest) hashes)

abbrev directory : Items (List ℕ)
directory = []

abbrev begun : Run (Items (List ℕ))
begun = record { storage = directory; progress = fresh; total = 0; stored = 0; calls = 0 }

digests-IsRequested : All (IsRequested (memory_hexdigest (List ℕ) length) digest held rows) digests
unfolding get_files_for_digest with_digest by_path sorted place string_le
digests-IsRequested = (
  (λ e. ground (arith, (eq_iff "d1" "").1 e), refl),
  ((λ e. ground (arith, (eq_iff "d2" "").1 e), refl), tt),
)

write_hashes_to_storage-IsWritten_example :
    (sizes : ℕ × ℕ) × (end : Run (Items (List ℕ))) × (write_hashes_to_storage
        (memory_hexdigest (List ℕ) length)
        digest
        (λ _. held)
        true
        (λ _. true)
        rows
        hashes
        begun
      ≡ (returned sizes, end))
    × IsWritten
        (memory_hexdigest (List ℕ) length)
        digest
        held
        rows
        NoCondition
        (view_of dat)
        digests
        begun
        end
write_hashes_to_storage-IsWritten_example =
    write_hashes_to_storage-IsWritten (memory_hexdigest (List ℕ) length) digest held rows
      NoCondition (view_of dat) (memory_hexdigest-HexDigestContract (List ℕ) length) hashes begun tt
      refl digests-IsRequested
