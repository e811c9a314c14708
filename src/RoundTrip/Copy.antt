-- ===== src/RoundTrip/Copy.antt =====
-- The restore of a first snapshot's files to another node.
use astacus.Prelude.{
  Bool-cases, ℕ, ◌≡◌, ◌≢◌, refl, sym, ap, subst, ◌∙◌, Bool, true, false, Option, none, some, String,
  List, [], All, arith, string_eq, eq_iff, Option-cases, inl, inr, contains, lookup, length,
}
use astacus.Exceptions.{returned}
use astacus.Ipc.{SnapshotFile, equals_excluding_mtime, option_beq}
use astacus.Progress.{fresh}
use astacus.Storage.Interface.{HexDigestStorage, HexDigestContract}
use astacus.Snapshotter.Groups.{SnapshotGroup, any_match}
use astacus.Snapshotter.{File, Dir, Disk, perform_snapshot}
use astacus.Snapshotter.Refresh.{row_of}
use astacus.Snapshotter.Perform.{Agree, has_row, perform_snapshot_describes_source}
use astacus.Snapshotter.Queries.{get_all_files, get_all_paths, get_file}
use astacus.Downloader.{Root, Restore, already_exists, download_files, download_from_storage}
use astacus.Downloader.Files.{file_of, Matches, Existing}
use astacus.Downloader.Groups.{IsAvailable, IsWanted}
use astacus.Downloader.ByDigest.{IsSized}
use astacus.Downloader.Complete.{IsComplete, download_files-IsComplete}
use astacus.RoundTrip.Rows.{file_of-get_all_files, All-get_all_files}
use astacus.Snapshotter.Removal.{contains-get_all_paths}
use astacus.RoundTrip.Source.{
  IsRowOf, row_of-IsRowOf, IsFirst, IsFirst-snapshot, first_disk, row_source, first-IsKeyed,
}

module _ (glob_match : String → String → Bool) (hash b64 : List ℕ → String)
    (unb64 : String → List ℕ) (groups : List SnapshotGroup)
    (agree : Agree glob_match hash b64 groups) (not_empty : (bytes : List ℕ) → hash bytes ≢ "")
    (decodes : (bytes : List ℕ) → unb64 (b64 bytes) ≡ bytes) where
  -- A file with a row that the restored one is equal to has the bytes of the latter.
  same_row-Matches :
      (q : String) (g : File) (r f : SnapshotFile)
      → IsRowOf glob_match hash b64 groups agree q g r
      → equals_excluding_mtime r f ≡ true
      → Matches hash unb64 f g.content
  unfolding equals_excluding_mtime option_beq
  same_row-Matches q g r f row e = elim row.content [
    | inl (empty, content) ↦ (
      λ z c at. ground (arith, e, empty, content, at, decodes g.content, eq_iff (b64 g.content) c),
      λ n. absurd (n (ground (arith, e, empty, eq_iff r.hexdigest f.hexdigest))),
    )
    | inr (digest, content) ↦ (
      λ z c at.
          absurd
            (not_empty g.content (ground (arith, e, digest, z, eq_iff r.hexdigest f.hexdigest))),
      λ n. ground (arith, e, digest, eq_iff r.hexdigest f.hexdigest),
    )
  ]

-- `groups` are those of the snapshot, and `groups'` those of the restore, which take no less.
module _ (glob_match : String → String → Bool) (hash b64 : List ℕ → String)
    (unb64 : String → List ℕ) (groups groups' : List SnapshotGroup)
    (agree : Agree glob_match hash b64 groups) (agree' : Agree glob_match hash b64 groups')
    (covers : (q : String)
      → any_match glob_match groups q ≡ true
      → any_match glob_match groups' q ≡ true)
    (not_empty : (bytes : List ℕ) → hash bytes ≢ "")
    (decodes : (bytes : List ℕ) → unb64 (b64 bytes) ≡ bytes) where
  module _ {S : Type 0} (storage : HexDigestStorage S (List ℕ)) (IsValid : S → Type 0)
      (view : S → String → Option (List ℕ)) (contract : HexDigestContract storage IsValid view)
      (src : Dir) (disk : Disk) (first : IsFirst glob_match hash b64 groups agree src disk) where
    abbrev files : List SnapshotFile
    files = get_all_files disk.rows

    abbrev HasDigests : S → Type 0
    HasDigests st =
        (q : String) (r : SnapshotFile)
        → lookup disk.rows q ≡ some r
        → r.hexdigest ≢ ""
        → (bytes : List ℕ) × (view st r.hexdigest ≡ some bytes) × (hash bytes ≡ r.hexdigest)

    pub file_of-rows : (q : String) → file_of files q ≡ lookup disk.rows q
    file_of-rows q =
        file_of-get_all_files disk.rows q first.unique
          (first-IsKeyed glob_match hash b64 groups agree src disk not_empty first)

    row :
        (q : String) (r : SnapshotFile)
        → lookup disk.rows q ≡ some r
        → (g : File) × (lookup src q ≡ some g) × IsRowOf glob_match hash b64 groups agree q g r
    row q r at =
        let (g, found, t, e) = row_source glob_match hash b64 groups agree src disk q r first at in
        (
          g,
          found,
          subst (IsRowOf glob_match hash b64 groups agree q g) (sym e)
              (row_of-IsRowOf glob_match hash b64 groups agree q g t (not_empty g.content)),
        )

    files_are_ready :
        (root : Root S)
        → HasDigests root.storage
        → All
            (λ f.
              IsWanted hash unb64 storage IsValid view contract files f
              × IsAvailable hash unb64 storage IsValid view contract files root f)
            files
    files_are_ready root has =
        All-get_all_files
          (λ f.
            IsWanted hash unb64 storage IsValid view contract files f
            × IsAvailable hash unb64 storage IsValid view contract files root f)
          disk.rows first.unique
          (λ q r at.
            let (g, found, is) = row q r at in
            (
              ap (λ p. file_of files p) is.path ∙ file_of-rows q ∙ at,
              (
                λ z. elim is.content [
                  | inl (_, content) ↦ (b64 g.content, content)
                  | inr (digest, _) ↦ absurd (not_empty g.content (sym digest ∙ z))
                ],
                λ n. has q r at n,
              ),
            ))

    -- `sizes` is the size of the source's file of a digest.
    files_are-IsSized :
        (sizes : String → ℕ)
        → ((q : String) (g : File)
            → lookup src q ≡ some g
            → sizes (hash g.content) ≡ length g.content)
        → All (IsSized sizes) files
    files_are-IsSized sizes h =
        All-get_all_files (IsSized sizes) disk.rows first.unique (λ q r at n.
          let (g, found, is) = row q r at in
          elim is.content [
            | inl (empty, _) ↦ absurd (n empty)
            | inr (digest, _) ↦ is.size ∙ sym (h q g found) ∙ ap sizes (sym digest)
          ])

    -- The files that the other node has already, by its own first snapshot.
    existing :
        (other : Dir) (there : Disk) (st : S)
        → IsFirst glob_match hash b64 groups' agree' other there
        → Existing hash unb64 storage IsValid view files
            (record { storage = st; rows = there.rows; files = other })
    unfolding already_exists get_file
    existing other there st first' q f w e =
        elim (Option-cases (lookup there.rows f.relative_path)) [
          | inl none_there ↦ absurd (ground (arith, e, none_there))
          | inr (r, at) ↦
              (let (g, found, t, same) =
                  row_source glob_match hash b64 groups' agree' other there f.relative_path r first'
                    at in
                let is =
                  subst (IsRowOf glob_match hash b64 groups' agree' f.relative_path g) (sym same) (
                    row_of-IsRowOf glob_match hash b64 groups' agree' f.relative_path g t
                      (not_empty g.content)) in
                (
                  g,
                  ap (λ p. lookup other p) (sym ((row q f (sym (file_of-rows q) ∙ w)).2.path))
                      ∙ found,
                  same_row-Matches glob_match hash b64 unb64 groups' agree' not_empty decodes
                      f.relative_path g r f is (ground (arith, e, at)),
                ))
        ]

    -- What the restore leaves of the files that the snapshot takes, of those that only the restore
    -- takes, and of the others.
    pub record IsCopied (other : Dir) (s' : Restore S) : Type 0 where
      pub copied :
          (q : String) (g : File)
          → any_match glob_match groups q ≡ true
          → lookup src q ≡ some g
          → (g' : File) × (lookup s'.root.files q ≡ some g')
            × Matches hash unb64 (row_of glob_match hash b64 groups q g) g'.content
      pub removed :
          (q : String)
          → any_match glob_match groups q ≡ true
          → lookup src q ≡ none
          → lookup s'.root.files q ≡ none
      pub excluded :
          (q : String)
          → any_match glob_match groups q ≡ false
          → any_match glob_match groups' q ≡ true
          → lookup s'.root.files q ≡ none
      pub others :
          (q : String)
          → any_match glob_match groups' q ≡ false
          → lookup s'.root.files q ≡ lookup other q

    not_taken :
        (q : String)
        → any_match glob_match groups' q ≡ false
        → any_match glob_match groups q ≡ false
    not_taken q t' = elim (Bool-cases (any_match glob_match groups q)) [
      | inl t ↦ absurd (ground (arith, covers q t, t'))
      | inr t ↦ t
    ]

    complete-IsCopied :
        (other : Dir) (there : Disk) (st : S) (s s' : Restore S)
        → IsFirst glob_match hash b64 groups' agree' other there
        → s.root ≡ record { storage = st; rows = there.rows; files = other }
        → IsComplete hash unb64 storage IsValid view contract files s s'
        → IsCopied other s'
    unfolding has_row
    complete-IsCopied other there st s s' first' e all =
        let paths : (q : String) → contains (get_all_paths s.root.rows) q ≡ has_row there.rows q =
          λ q.
            ap (λ r. contains (get_all_paths r.rows) q) e ∙ contains-get_all_paths there.rows q in
        let same : (q : String) → lookup s.root.files q ≡ lookup other q =
          λ q. ap (λ r. lookup r.files q) e in
        record {
          copied = λ q g t found.
              all.has q (row_of glob_match hash b64 groups q g)
                (file_of-rows q ∙ ground (arith, first.rows q, t, found));
          removed = λ q t found.
              all.others q (file_of-rows q ∙ ground (arith, first.rows q, t, found))
              ∙ ground (arith, paths q, same q, first'.rows q, covers q t);
          excluded = λ q t t'.
              all.others q (file_of-rows q ∙ ground (arith, first.rows q, t))
              ∙ ground (arith, paths q, same q, first'.rows q, t');
          others = λ q t'.
              all.others q (file_of-rows q ∙ ground (arith, first.rows q, not_taken q t'))
              ∙ ground (arith, paths q, same q, first'.rows q, t');
        }

    download_after_snapshot :
        (root_globs : List String) (other dst : Dir) (st : S) (calls : ℕ) (there : Disk)
        (s' : Restore S)
        → perform_snapshot glob_match hash b64 groups' (first_disk other dst) ≡ (returned tt, there)
        → download_files storage unb64
            (λ _. true)
            files
            (record {
              root = record { storage = st; rows = there.rows; files = other };
              progress = fresh;
              calls = calls;
            })
          ≡ (returned tt, s')
        → download_from_storage storage unb64
            (λ _. true)
            glob_match
            hash
            b64
            groups'
            (some dst)
            (record { root_globs = root_globs; files = files })
            (record {
              root = record { storage = st; rows = []; files = other };
              progress = fresh;
              calls = calls;
            })
          ≡ (returned tt, s')
    unfolding download_from_storage
    download_after_snapshot root_globs other dst st calls there s' taken run =
        ground (arith, taken, run)

    pub restore_copies :
        (sizes : String → ℕ)
        → ((q : String) (g : File)
            → lookup src q ≡ some g
            → sizes (hash g.content) ≡ length g.content)
        → (root_globs : List String) (other dst : Dir) (st : S) (calls : ℕ) → IsValid st
        → HasDigests st
        → (s' : Restore S) × (download_from_storage storage unb64
              (λ _. true)
              glob_match
              hash
              b64
              groups'
              (some dst)
              (record { root_globs = root_globs; files = files })
              (record {
                root = record { storage = st; rows = []; files = other };
                progress = fresh;
                calls = calls;
              })
            ≡ (returned tt, s'))
          × IsCopied other s'
    restore_copies sizes sized root_globs other dst st calls v has =
        let (there, taken, _, _, _) =
          perform_snapshot_describes_source glob_match hash b64 groups' agree'
            (first_disk other dst) in
        let first' = IsFirst-snapshot glob_match hash b64 groups' agree' other dst there taken in
        let root : Root S = record { storage = st; rows = there.rows; files = other } in
        let s : Restore S = record { root = root; progress = fresh; calls = calls } in
        let (s', run, all) =
          download_files-IsComplete hash unb64 storage IsValid view contract files sizes s v refl
            (existing other there st first') (files_are_ready root has)
            (files_are-IsSized sizes sized) in
        (
          s',
          download_after_snapshot root_globs other dst st calls there s' taken run,
          complete-IsCopied other there st s s' first' refl all,
        )
