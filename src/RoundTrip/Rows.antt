-- ===== src/RoundTrip/Rows.antt =====
-- The files of a snapshot's state against its rows.
use astacus.Prelude.{
  ◌≡◌, refl, ap, ◌∙◌, Bool, none, some, String, List, [], ◌∷◌, map, All, All-map, All-sorted, arith,
  ◌==◌, string_eq, ==_refl, eq_iff, if◌then◌else◌, lookup, string_le, sorted, place,
}
use astacus.Ipc.{SnapshotFile}
use astacus.Snapshotter.{Rows}
use astacus.Snapshotter.Queries.{by_path, get_all_files}
use astacus.Snapshotter.Refresh.{Unique}
use astacus.Downloader.Files.{file_of}

-- The rows stand under their own paths.
abbrev pub IsKeyed : Rows → Type 0
IsKeyed rows = All (λ p. p.1.relative_path ≡ p.0) rows

pub rows-All : (rows : Rows) → Unique rows → All (λ p. lookup rows p.0 ≡ some p.1) rows
rows-All [] u = tt
rows-All ((path, f) ∷ rows) u = (
  rw (==_refl path) refl,
  All-map (λ p at. ground (arith, at, u.0, eq_iff path p.0)) rows (rows-All rows u.1),
)

abbrev files_in : Rows → List SnapshotFile
files_in rows = map (λ r. r.1) rows

file_of-files_in :
    (rows : Rows) (q : String) → IsKeyed rows → file_of (files_in rows) q ≡ lookup rows q
file_of-files_in [] q k = refl
file_of-files_in ((path, f) ∷ rows) q k = ground (arith, k.0, file_of-files_in rows q k.1)

lookup-place :
    (le : String × SnapshotFile → String × SnapshotFile → Bool) (path : String) (f : SnapshotFile)
    (rows : Rows) (q : String)
    → lookup rows path ≡ none
    → lookup (place le (path, f) rows) q ≡ (if path == q then some f else lookup rows q)
unfolding place
lookup-place le path f [] q n = refl
lookup-place le path f ((p, g) ∷ rows) q n =
    ground (arith, n, lookup-place le path f rows q, eq_iff path q, eq_iff p q, eq_iff p path)

lookup-sorted :
    (le : String × SnapshotFile → String × SnapshotFile → Bool) (rows : Rows) (q : String)
    → Unique rows
    → lookup (sorted le rows) q ≡ lookup rows q
unfolding sorted
lookup-sorted le [] q u = refl
lookup-sorted le ((path, f) ∷ rows) q u =
    lookup-place le path f (sorted le rows) q (lookup-sorted le rows path u.1 ∙ u.0)
    ∙ ap (λ o. if path == q then some f else o) (lookup-sorted le rows q u.1)

-- The state has the file of a row under its path.
pub file_of-get_all_files :
    (rows : Rows) (q : String)
    → Unique rows
    → IsKeyed rows
    → file_of (get_all_files rows) q ≡ lookup rows q
unfolding get_all_files by_path
file_of-get_all_files rows q u k =
    let le : String × SnapshotFile → String × SnapshotFile → Bool = λ a b. string_le a.0 b.0 in
    file_of-files_in (sorted le rows) q (All-sorted (λ p. p.1.relative_path ≡ p.0) le rows k)
    ∙ lookup-sorted le rows q u

All-files_in :
    (P : SnapshotFile → Type 0) (rows : Rows) → All (λ p. P p.1) rows → All P (files_in rows)
All-files_in P [] h = tt
All-files_in P (r ∷ rows) h = (h.0, All-files_in P rows h.1)

-- What holds of every row holds of every file of the state.
pub All-get_all_files :
    (P : SnapshotFile → Type 0) (rows : Rows)
    → Unique rows
    → ((q : String) (f : SnapshotFile) → lookup rows q ≡ some f → P f)
    → All P (get_all_files rows)
unfolding get_all_files by_path
All-get_all_files P rows u h = All-files_in P (sorted (λ a b. string_le a.0 b.0) rows) (
    All-sorted (λ p. P p.1) (λ a b. string_le a.0 b.0) rows
      (All-map (λ p at. h p.0 p.1 at) rows (rows-All rows u)))

pub keyed :
    (rows : Rows)
    → Unique rows
    → ((q : String) (f : SnapshotFile) → lookup rows q ≡ some f → f.relative_path ≡ q)
    → IsKeyed rows
keyed rows u h = All-map (λ p at. h p.0 p.1 at) rows (rows-All rows u)
