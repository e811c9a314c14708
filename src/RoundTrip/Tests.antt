-- ===== src/RoundTrip/Tests.antt =====
-- A backup and its restore with the storage in memory.
use Prim.Native.Char.{code}
use astacus.Prelude.{
  ℕ, zero, suc, ◌+◌, ◌≡◌, ◌≢◌, refl, sym, ap, ◌∙◌, Bool, true, false, none, some, String, List, [],
  ◌∷◌, arith, ◌==◌, string_eq, nat_eq, eq_iff, lookup, length, if◌then◌else◌, inl, inr, ◌⊎◌,
}
use astacus.Exceptions.{returned}
use astacus.Storage.Memory.{
  Items, NoCondition, view_of, dat, memory_hexdigest, memory_hexdigest-HexDigestContract,
}
use astacus.Snapshotter.Groups.{
  SnapshotGroup, any_match, matches, get_matching, embedded_file_size_max_for_file,
  groups_from_snapshot_req, root_globs,
}
use astacus.Snapshotter.{File, Dir, Disk, perform_snapshot}
use astacus.Snapshotter.Perform.{Agree}
use astacus.Snapshotter.Queries.{get_snapshot_state}
use astacus.Uploader.{Run, write_hashes_to_storage}
use astacus.Downloader.{Restore, download_from_storage}
use astacus.RoundTrip.Source.{first_disk}
use astacus.RoundTrip.Upload.{held, reported}
use astacus.RoundTrip.{content_of, begun, other_node, backup_then_restore}

-- a text for bytes: each is written as so many "a", and a "b"
abbrev digits : ℕ → String → String
digits zero rest = String.◌∷◌ "b" rest
digits (suc n) rest = String.◌∷◌ "a" (digits n rest)

abbrev to_text : List ℕ → String
to_text [] = ""
to_text (n ∷ bytes) = digits n (to_text bytes)

abbrev from_text_at : ℕ → String → List ℕ
from_text_at k String.[] = []
from_text_at k (String.◌∷◌ c s) =
    if code c == b'a' then from_text_at (suc k) s else k ∷ from_text_at 0 s

from_text-digits : (n k : ℕ) (s : String) → from_text_at k (digits n s) ≡ (k + n) ∷ from_text_at 0 s
from_text-digits zero k s = ground arith
from_text-digits (suc n) k s = from_text-digits n (suc k) s ∙ ground arith

from_text-to_text : (bytes : List ℕ) → from_text_at 0 (to_text bytes) ≡ bytes
from_text-to_text [] = refl
from_text-to_text (n ∷ bytes) =
    from_text-digits n 0 (to_text bytes) ∙ ground (arith, from_text-to_text bytes)

abbrev digest : List ℕ → String
digest [] = "e"
digest (zero ∷ []) = "d0"
digest (suc b ∷ []) = "x"
digest (b ∷ c ∷ bytes) = "x"

abbrev bytes_of : String → List ℕ
bytes_of h = if h == "d0" then 0 ∷ [] else []

digest_not_empty : (bytes : List ℕ) → digest bytes ≢ ""
digest_not_empty [] e = ground (arith, (eq_iff "e" "").1 e)
digest_not_empty (zero ∷ []) e = ground (arith, (eq_iff "d0" "").1 e)
digest_not_empty (suc b ∷ []) e = ground (arith, (eq_iff "x" "").1 e)
digest_not_empty (b ∷ c ∷ bytes) e = ground (arith, (eq_iff "x" "").1 e)

abbrev everything : String → String → Bool
everything g path = true

abbrev groups : List SnapshotGroup
groups =
    record { root_glob = "**/*"; excluded_names = "c" ∷ []; embedded_file_size_max = some 0 } ∷ []

groups-Agree : Agree everything digest to_text groups
unfolding embedded_file_size_max_for_file get_matching matches any_match
groups-Agree path t = (some 0, ground (arith, t))

abbrev restored : List SnapshotGroup
restored = groups_from_snapshot_req (root_globs groups)

abbrev src : Dir
src =
    ("a", record { content = 0 ∷ []; mtime_ns = 5 })
    ∷ ("b", record { content = []; mtime_ns = 6 })
    ∷ []

digest-bytes_of : (bytes : List ℕ) → digest bytes ≢ "x" → bytes_of (digest bytes) ≡ bytes
digest-bytes_of [] n = refl
digest-bytes_of (zero ∷ []) n = refl
digest-bytes_of (suc b ∷ []) n = absurd (n refl)
digest-bytes_of (b ∷ c ∷ bytes) n = absurd (n refl)

src_content :
    (q : String) (g : File) → lookup src q ≡ some g → (g.content ≡ 0 ∷ []) ⊎ (g.content ≡ [])
src_content q g found = ground (arith, found)

src_digest : (q : String) (g : File) → lookup src q ≡ some g → digest g.content ≢ "x"
src_digest q g found e = elim (src_content q g found) [
  | inl p ↦ ground (arith, (eq_iff "d0" "x").1 (ap digest (sym p) ∙ e))
  | inr p ↦ ground (arith, (eq_iff "e" "x").1 (ap digest (sym p) ∙ e))
]

src_has_no_collision :
    (q : String) (g : File) (bytes : List ℕ)
    → lookup src q ≡ some g
    → digest bytes ≡ digest g.content
    → bytes_of (digest bytes) ≡ bytes
src_has_no_collision q g bytes found e =
    digest-bytes_of bytes (λ x. src_digest q g found (sym e ∙ x))

abbrev first_src : Disk
first_src = first_disk src []

abbrev directory : Items (List ℕ)
directory = []

abbrev other : Dir
other = ("c", record { content = 1 ∷ []; mtime_ns = 1 }) ∷ []

backup_then_restore_example :
    (disk : Disk) × (perform_snapshot everything digest to_text groups first_src
      ≡ (returned tt, disk))
    × (sizes : ℕ × ℕ) × (up : Run (Items (List ℕ))) × (write_hashes_to_storage
          (memory_hexdigest (List ℕ) length)
          digest
          (λ _. held disk)
          true
          (λ _. true)
          disk.rows
          (reported disk.rows)
          (begun directory)
        ≡ (returned sizes, up))
    × (end : Restore (Items (List ℕ))) × (download_from_storage
          (memory_hexdigest (List ℕ) length)
          (from_text_at 0)
          (λ _. true)
          everything
          digest
          to_text
          restored
          (some [])
          (get_snapshot_state groups disk.rows)
          (other_node up.storage other)
        ≡ (returned tt, end))
    × ((q : String)
        → any_match everything groups q ≡ true
        → content_of end.root.files q ≡ content_of src q)
    × ((q : String)
        → any_match everything groups q ≡ false
        → any_match everything restored q ≡ true
        → lookup end.root.files q ≡ none)
    × ((q : String)
        → any_match everything restored q ≡ false
        → lookup end.root.files q ≡ lookup other q)
backup_then_restore_example =
    backup_then_restore everything digest to_text (from_text_at 0) bytes_of groups groups-Agree
      digest_not_empty from_text-to_text src src_has_no_collision (memory_hexdigest (List ℕ) length)
      NoCondition (view_of dat) (memory_hexdigest-HexDigestContract (List ℕ) length) [] other []
      directory tt
