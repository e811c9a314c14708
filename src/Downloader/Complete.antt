-- ===== src/Downloader/Complete.antt =====
-- The restore of all files of a snapshot, up to the end of the progress meter.
use astacus.Prelude.{
  ℕ, ◌+◌, ◌≤◌, ◌≡◌, refl, ap, subst, ◌∙◌, true, false, Option, none, some, String, List, [], ◌∷◌,
  ◌++◌, All, All-map, arith, string_eq, nat_eq, if◌then◌else◌, Bool-cases, inl, inr, contains,
  contains-to_set, contains-difference, to_set, difference, lookup, total,
}
use astacus.Exceptions.{returned}
use astacus.Ipc.{SnapshotFile}
use astacus.Progress.{Progress, fresh, start, add_total, done}
use astacus.Storage.Interface.{HexDigestStorage, HexDigestContract}
use astacus.Snapshotter.{Rows, unlink_all}
use astacus.Snapshotter.Queries.{get_all_paths}
use astacus.Snapshotter.Perform.{lookup-unlink_all}
use astacus.Downloader.{
  Root, Restore, already_exists, by_hexdigest, largest_first, download_embedded, download_groups,
  download_files,
}
use astacus.Downloader.Files.{file_of, Has, Existing, IsRestored, Existing-after}
use astacus.Downloader.Groups.{paths_of, IsAvailable, IsWanted, IsGroup}
use astacus.Downloader.Restored.{
  Group, group_paths, group_size, embedded_paths, embedded_size, IsAdvanced, Available-after,
  IsAdvanced-trans, download_embedded-IsAdvanced, download_groups-IsAdvanced,
}
use astacus.Downloader.ByDigest.{IsSized, largest_first-IsDigestGroup, contains-both, size-both}

start-fresh : (n : ℕ) → start n fresh ≡ (returned tt, record fresh { total = n })
unfolding start add_total
start-fresh n = ground arith

done-full :
    (p : Progress)
    → p.final ≡ false
    → p.handled ≡ p.total
    → done p ≡ (returned tt, record p { final = true })
unfolding done
done-full p f h = ground arith

module _ (hash : List ℕ → String) (unb64 : String → List ℕ) {S : Type 0}
    (storage : HexDigestStorage S (List ℕ)) (IsValid : S → Type 0)
    (view : S → String → Option (List ℕ)) (contract : HexDigestContract storage IsValid view)
    (files : List SnapshotFile) where
  abbrev Available : Root S → SnapshotFile → Type 0
  Available s f = IsAvailable hash unb64 storage IsValid view contract files s f

  abbrev groups : List Group
  groups = largest_first (by_hexdigest [] files)

  abbrev reached : List String
  reached = embedded_paths files ++ group_paths groups

  loops-IsAdvanced :
      (sizes : String → ℕ) (s : Restore S)
      → IsValid s.root.storage
      → s.progress.final ≡ false
      → s.progress.handled + total (λ f. 1 + f.file_size) files ≤ s.progress.total
      → Existing hash unb64 storage IsValid view files s.root
      → All
          (λ f. IsWanted hash unb64 storage IsValid view contract files f × Available s.root f)
          files
      → All (IsSized sizes) files
      → (mid s' : Restore S) × (download_embedded storage unb64 files s ≡ (returned tt, mid))
        × (download_groups storage unb64 (λ _. true) groups mid ≡ (returned true, s'))
        × IsAdvanced hash unb64 storage IsValid view contract files reached
            (total (λ f. 1 + f.file_size) files)
            s
            s'
  loops-IsAdvanced sizes s v f h old k z =
      let room = size-both sizes files z in
      let (mid, run, one) =
        download_embedded-IsAdvanced hash unb64 storage IsValid view contract files files s v f
          (ground (arith, h, room)) old k in
      let ready : All
          (λ g.
            IsGroup hash unb64 storage IsValid view contract files g × All (Available mid.root) g.1)
          groups =
        All-map
          (λ g a. (
            (a.0, a.1, All-map (λ y b. (b.0.0, b.1)) g.1 a.2),
            All-map
                (λ y b.
                  Available-after hash unb64 storage IsValid view contract files
                    (embedded_paths files) s.root mid.root y one.root b.0.1)
                g.1 a.2,
          ))
          groups
          (largest_first-IsDigestGroup
            (λ y. IsWanted hash unb64 storage IsValid view contract files y × Available s.root y)
            files k) in
      let (s', more, rest) =
        download_groups-IsAdvanced hash unb64 storage IsValid view contract files groups mid
          one.root.valid (one.same_final ∙ f) (ground (arith, h, room, one.handled, one.same_total))
          (Existing-after hash unb64 storage IsValid view files (embedded_paths files) s.root
            mid.root old one.root)
          ready in
      (
        mid,
        s',
        run,
        more,
        subst (λ n. IsAdvanced hash unb64 storage IsValid view contract files reached n s s') room
            (IsAdvanced-trans hash unb64 storage IsValid view contract files (embedded_paths files)
              (group_paths groups) (total embedded_size files) (total group_size groups) s mid s'
              one rest),
      )

  -- the paths that the rows have and that are not to be there
  abbrev pub extra : Rows → List String
  extra rows = difference (to_set (get_all_paths rows)) (paths_of files)

  download_files-loops :
      (s mid s' : Restore S)
      → s.progress ≡ fresh
      → download_embedded storage unb64 files
          (record s { progress = record fresh { total = total (λ f. 1 + f.file_size) files } })
        ≡ (returned tt, mid)
      → download_groups storage unb64 (λ _. true) groups mid ≡ (returned true, s')
      → s'.progress.final ≡ false
      → s'.progress.handled ≡ s'.progress.total
      → download_files storage unb64 (λ _. true) files s ≡ (
        returned tt,
        record s' {
          root = record s'.root { files = unlink_all (extra s'.root.rows) s'.root.files };
          progress = record s'.progress { final = true };
        },
      )
  unfolding download_files
  download_files-loops s mid s' p run more f h = ground (
    arith,
    p,
    ap (λ q. start (total (λ f. 1 + f.file_size) files) q) p,
    start-fresh (total (λ f. 1 + f.file_size) files),
    run,
    more,
    done-full s'.progress f h,
  )

  -- Every wanted file is in the root with its bytes, and of the others those that the rows know are
  -- gone; the progress meter is complete.
  pub record IsComplete (s s' : Restore S) : Type 0 where
    pub has :
        (q : String) (f : SnapshotFile)
        → file_of files q ≡ some f
        → Has hash unb64 storage IsValid view files s'.root q f
    pub others :
        (q : String)
        → file_of files q ≡ none
        → lookup s'.root.files q
          ≡ (if contains (get_all_paths s.root.rows) q then none else lookup s.root.files q)
    pub complete : s'.progress ≡ record {
      handled = total (λ f. 1 + f.file_size) files;
      failed = 0;
      total = total (λ f. 1 + f.file_size) files;
      final = true;
    }

  contains-file_of :
      (fs : List SnapshotFile) (q : String) (f : SnapshotFile)
      → file_of fs q ≡ some f
      → contains (paths_of fs) q ≡ true
  contains-file_of [] q f e = absurd (ground (arith, e))
  contains-file_of (g ∷ fs) q f e = ground (arith, e, contains-file_of fs q f)

  contains-no_file :
      (fs : List SnapshotFile) (q : String) → file_of fs q ≡ none → contains (paths_of fs) q ≡ false
  contains-no_file [] q e = refl
  contains-no_file (g ∷ fs) q e = ground (arith, e, contains-no_file fs q)

  contains-extra :
      (rows : Rows) (q : String)
      → contains (extra rows) q
        ≡ (if contains (paths_of files) q then false else contains (get_all_paths rows) q)
  contains-extra rows q = ground (
    arith,
    contains-difference (to_set (get_all_paths rows)) (paths_of files) q,
    contains-to_set (get_all_paths rows) q,
  )

  Has-all :
      (a b : Root S)
      → Existing hash unb64 storage IsValid view files a
      → IsRestored hash unb64 storage IsValid view files reached a b
      → (q : String) (f : SnapshotFile) → file_of files q ≡ some f
      → Has hash unb64 storage IsValid view files
          (record b { files = unlink_all (extra b.rows) b.files })
          q
          f
  Has-all a b old r q f w =
      let (g, at, m) : Has hash unb64 storage IsValid view files b q f =
        elim (Bool-cases (already_exists a.rows f)) [
          | inl e ↦ (let (g, at, m) = old q f w e in (g, r.kept_existing q f w e ∙ at, m))
          | inr e ↦ r.written q f (contains-both files q ∙ contains-file_of files q f w) w e
        ] in
      (
        g,
        ground (
          arith,
          at,
          lookup-unlink_all (extra b.rows) b.files q,
          contains-extra b.rows q,
          contains-file_of files q f w,
        ),
        m,
      )

  others_kept :
      (a b : Root S)
      → IsRestored hash unb64 storage IsValid view files reached a b
      → (q : String) → file_of files q ≡ none
      → lookup (unlink_all (extra b.rows) b.files) q
        ≡ (if contains (get_all_paths a.rows) q then none else lookup a.files q)
  others_kept a b r q n =
      let same : contains (get_all_paths b.rows) q ≡ contains (get_all_paths a.rows) q =
        ap (λ rows. contains (get_all_paths rows) q) r.same_rows in
      ground (
        arith,
        same,
        lookup-unlink_all (extra b.rows) b.files q,
        contains-extra b.rows q,
        r.kept q (contains-both files q ∙ contains-no_file files q n),
        contains-no_file files q n,
      )

  -- Where the files have different paths, those of a digest one size, and each has its content
  -- embedded or in the storage under its digest, where the root has the files that the rows have
  -- already, the progress meter is new, the operation is not stopped and the storage keeps its
  -- contract, the restore returns. Every file is then in the root with its bytes; of the other
  -- paths, those with a row are gone and the rest are as they were; the progress meter is complete.
  pub download_files-IsComplete :
      (sizes : String → ℕ) (s : Restore S)
      → IsValid s.root.storage
      → s.progress ≡ fresh
      → Existing hash unb64 storage IsValid view files s.root
      → All
          (λ f. IsWanted hash unb64 storage IsValid view contract files f × Available s.root f)
          files
      → All (IsSized sizes) files
      → (s' : Restore S) × (download_files storage unb64 (λ _. true) files s ≡ (returned tt, s'))
        × IsComplete s s'
  download_files-IsComplete sizes s v p old k z =
      let begun : Restore S = record s {
        progress = record fresh { total = total (λ f. 1 + f.file_size) files };
      } in
      let (mid, s', run, more, all) = loops-IsAdvanced sizes begun v refl (omega arith) old k z in
      let full : s'.progress.handled ≡ s'.progress.total =
        ground (arith, all.handled, all.same_total) in
      (
        record s' {
          root = record s'.root { files = unlink_all (extra s'.root.rows) s'.root.files };
          progress = record s'.progress { final = true };
        },
        download_files-loops s mid s' p run more all.same_final full,
        record {
          has = Has-all s.root s'.root old all.root;
          others = others_kept s.root s'.root all.root;
          complete = ground (arith, all.handled, all.failed, all.same_total);
        },
      )
