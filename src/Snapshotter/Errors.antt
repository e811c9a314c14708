-- ===== src/Snapshotter/Errors.antt =====
-- How `perform_snapshot` fails.
use astacus.Prelude.{
  ℕ, ◌≡◌, ◌≢◌, sym, ap, ◌∙◌, Bool, true, Option, some, String, List, [], ◌∷◌, All, All-contains,
  arith, lookup, string_eq, Option-cases, inl, inr,
}
use astacus.Exceptions.{Exn, value_error, raised}
use astacus.Ipc.{SnapshotFile}
use astacus.Snapshotter.Groups.{
  SnapshotGroup, get_matching, any_match, embedded_file_size_max_for_file,
}
use astacus.Snapshotter.{
  File, Dir, Disk, dst_dir, stat_of, file_in_src, maybe_link, list_files, compute_digest,
  refresh_file, refresh, drop_gone, perform_snapshot,
}
use astacus.Snapshotter.Refresh.{maybe_link-holds, paths_of}
use astacus.Snapshotter.Perform.{files_of, contains-files_of, drop_gone-keeps, holds-none}

module _ (glob_match : String → String → Bool) (hash b64 : List ℕ → String)
    (groups : List SnapshotGroup) where
  get_matching-any :
      (gs : List SnapshotGroup) (path : String)
      → any_match glob_match gs path ≡ true
      → get_matching glob_match gs path ≢ []
  unfolding get_matching any_match
  get_matching-any [] path h = ground arith
  get_matching-any (g ∷ gs) path h = ground (arith, h, get_matching-any gs path)

  embedded_fails :
      (path : String) (e : Exn)
      → any_match glob_match groups path ≡ true
      → embedded_file_size_max_for_file glob_match groups path ≡ raised e
      → e ≡ value_error
  unfolding embedded_file_size_max_for_file
  embedded_fails path e t h = ground (arith, h, get_matching-any groups path t)

  digest_fails :
      (path : String) (f : File) (dst : Dir) (e : Exn)
      → any_match glob_match groups path ≡ true
      → lookup dst path ≡ some f
      → compute_digest glob_match hash b64 groups dst (stat_of path f) ≡ raised e
      → e ≡ value_error
  unfolding compute_digest
  digest_fails path f dst e t h k = ground (arith, h, k, embedded_fails path e t)

  -- a listed file: a group takes it, and the source has it
  abbrev Present : Dir → String → Type 0
  Present src path =
      (f : File) × (lookup src path ≡ some f) × (any_match glob_match groups path ≡ true)

  refresh_file_fails :
      (path : String) (existing : Option SnapshotFile) (disk : Disk) (e : Exn)
      → Present disk.src path
      → (refresh_file glob_match hash b64 groups path existing disk).0 ≡ raised e
      → e ≡ value_error
  unfolding refresh_file file_in_src
  refresh_file_fails path existing disk e (f, h, t) k = ground (
    arith,
    h,
    k,
    maybe_link-holds path f disk h,
    digest_fails path f (dst_dir (maybe_link path disk)) e t (maybe_link-holds path f disk h),
  )

  refresh_file_keeps :
      (path : String) (existing : Option SnapshotFile) (disk : Disk)
      → (refresh_file glob_match hash b64 groups path existing disk).1.src ≡ disk.src
  unfolding refresh_file maybe_link
  refresh_file_keeps path existing disk = ground arith

  refresh_fails :
      (files : List (String × Option SnapshotFile)) (src : Dir) (disk : Disk) (e : Exn)
      → disk.src ≡ src
      → All (Present src) (paths_of files)
      → (refresh glob_match hash b64 groups files disk).0 ≡ raised e
      → e ≡ value_error
  unfolding refresh
  refresh_fails [] src disk e s h k = ground (arith, k)
  refresh_fails ((path, existing) ∷ files) src disk e s h k =
      let (f, found, t) = h.0 in
      let next = (refresh_file glob_match hash b64 groups path existing disk).1 in
      ground (
        arith,
        k,
        refresh_file_fails path existing disk e (f, ap (λ d. lookup d path) s ∙ found, t),
        refresh_fails files src next e (refresh_file_keeps path existing disk ∙ s) h.1,
      )

  All-Present :
      (disk : Disk) → All (Present disk.src) (paths_of (files_of glob_match hash b64 groups disk))
  All-Present disk =
      All-contains (Present disk.src) (paths_of (files_of glob_match hash b64 groups disk)) (λ q h.
        let both = sym (contains-files_of glob_match hash b64 groups disk q) ∙ h in
        elim (Option-cases (lookup disk.src q)) [
          | inl e ↦ absurd (ground (arith, both, holds-none disk.src q e))
          | inr (f, e) ↦ (f, e, ground (arith, both))
        ])

  -- A snapshot that raises raises `ValueError` (of groups with different limits), and leaves the rows
  -- as they were: no file that was listed is missing, and none is without a group.
  pub perform_snapshot_rolls_back :
      (disk disk' : Disk) (e : Exn)
      → perform_snapshot glob_match hash b64 groups disk ≡ (raised e, disk')
      → (e ≡ value_error) × (disk'.rows ≡ disk.rows)
  unfolding perform_snapshot
  perform_snapshot_rolls_back disk disk' e h =
      let files = files_of glob_match hash b64 groups disk in
      let dropped = drop_gone (list_files (any_match glob_match groups) disk.src) disk in
      let same_src =
        (drop_gone-keeps glob_match hash b64 groups
          (list_files (any_match glob_match groups) disk.src) disk).1 in
      (
        ground (arith, h, refresh_fails files disk.src dropped e same_src (All-Present disk)),
        ground (arith, h),
      )
