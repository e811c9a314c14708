-- ===== src/RoundTrip/Digests.antt =====
-- The digests that a snapshot reports against its rows.
use astacus.Prelude.{
  ◌≡◌, refl, ap, ◌∙◌, Bool, true, not, ◌&&◌, ◌||◌, some, String, List, [], ◌∷◌, map, any,
  any-sorted, All, arith, ◌==◌, string_eq, eq_iff, contains, lookup, string_le, sorted,
}
use astacus.Ipc.{SnapshotFile}
use astacus.Snapshotter.{Rows}
use astacus.Snapshotter.Queries.{
  by_path, get_all_files, get_files_for_digest, with_digest, hashes_in,
}
use astacus.Uploader.{has_files}

any-files :
    (p : SnapshotFile → Bool) (rows : Rows) → any p (map (λ r. r.1) rows) ≡ any (λ r. p r.1) rows
any-files p [] = refl
any-files p (r ∷ rows) = ap (λ b. p r.1 || b) (any-files p rows)

any-by_path :
    (p : SnapshotFile → Bool) (rows : Rows)
    → any p (map (λ r. r.1) (by_path rows)) ≡ any (λ r. p r.1) rows
unfolding by_path
any-by_path p rows =
    any-files p (sorted (λ a b. string_le a.0 b.0) rows)
    ∙ any-sorted (λ a b. string_le a.0 b.0) (λ r. p r.1) rows

any-with_digest :
    (p : SnapshotFile → Bool) (h : String) (rows : Rows)
    → any (λ r. p r.1) (with_digest h rows) ≡ any (λ r. r.1.hexdigest == h && p r.1) rows
unfolding with_digest
any-with_digest p h [] = refl
any-with_digest p h ((path, f) ∷ rows) = ground (arith, any-with_digest p h rows)

pub any-get_files_for_digest :
    (p : SnapshotFile → Bool) (h : String) (rows : Rows)
    → any p (get_files_for_digest rows h) ≡ any (λ r. r.1.hexdigest == h && p r.1) rows
unfolding get_files_for_digest
any-get_files_for_digest p h rows = any-by_path p (with_digest h rows) ∙ any-with_digest p h rows

pub has_files-any :
    (h : String) (files : List SnapshotFile) → has_files (h, files) ≡ any (λ _. true) files
has_files-any h [] = refl
has_files-any h (f ∷ files) = refl

contains-hashes_in :
    (files : List SnapshotFile) (h : String)
    → contains (map (λ x. x.hexdigest) (hashes_in files)) h
      ≡ (not (h == "") && any (λ f. f.hexdigest == h) files)
unfolding hashes_in
contains-hashes_in [] h = ground arith
contains-hashes_in (f ∷ files) h =
    ground
      (arith, contains-hashes_in files h, eq_iff f.hexdigest h, eq_iff f.hexdigest "", eq_iff h "")

-- A digest is reported if a row has it, and it is not empty.
pub contains-reported :
    (rows : Rows) (h : String)
    → contains (map (λ x. x.hexdigest) (hashes_in (get_all_files rows))) h
      ≡ (not (h == "") && any (λ r. r.1.hexdigest == h) rows)
unfolding get_all_files
contains-reported rows h =
    contains-hashes_in (map (λ r. r.1) (by_path rows)) h
    ∙ ap (λ b. not (h == "") && b) (any-by_path (λ f. f.hexdigest == h) rows)

pub any-lookup :
    (p : SnapshotFile → Bool) (rows : Rows) (q : String) (f : SnapshotFile)
    → lookup rows q ≡ some f
    → p f ≡ true
    → any (λ r. p r.1) rows ≡ true
any-lookup p [] q f e t = absurd (ground (arith, e))
any-lookup p ((path, g) ∷ rows) q f e t = ground (arith, e, t, any-lookup p rows q f)

pub any-and :
    (p r : SnapshotFile → Bool) (rows : Rows)
    → All (λ x. p x.1 ≡ true → r x.1 ≡ true) rows
    → any (λ x. p x.1) rows ≡ true
    → any (λ x. p x.1 && r x.1) rows ≡ true
any-and p r [] k e = e
any-and p r (x ∷ rows) k e = ground (arith, e, k.0, any-and p r rows k.1)
