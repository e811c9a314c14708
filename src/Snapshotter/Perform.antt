-- ===== src/Snapshotter/Perform.antt =====
-- What `perform_snapshot` leaves behind, in the rows and in the destination.
use astacus.Prelude.{
  ℕ, ◌≡◌, ◌≢◌, refl, sym, ap, subst, ◌∙◌, Bool, true, false, not, ◌&&◌, ◌||◌, Option, none, some,
  String, List, [], ◌∷◌, ◌++◌, arith, string_eq, contains, lookup, remove, lookup-remove, All,
  All-append, All-contains, if◌then◌else◌, Bool-cases, Option-cases, inl, inr, eq_iff,
}
use astacus.Exceptions.{returned}
use astacus.Ipc.{SnapshotFile}
use astacus.Snapshotter.Groups.{SnapshotGroup, any_match, embedded_file_size_max_for_file}
use astacus.Snapshotter.{
  File, Dir, Rows, Disk, list_files, restrict, gone, unlink_all, existing_files, new_files, refresh,
  drop_gone, perform_snapshot,
}
use astacus.Snapshotter.Refresh.{
  changed_at, row_at, IsListed, dst_at, has_dst, paths_of, Kept, Unique, refresh-IsRefreshed,
}

unfoldable pub holds : Dir → String → Bool
holds dir q = elim (lookup dir q) [ none ↦ false | some f ↦ true ]

pub holds-none : (dir : Dir) (q : String) → lookup dir q ≡ none → holds dir q ≡ false
unfolding holds
holds-none dir q e = rw (e, holds) refl

holds-some : (dir : Dir) (q : String) → lookup dir q ≢ none → holds dir q ≡ true
unfolding holds
holds-some dir q n = ground (arith, n)

contains-list_files :
    (taken : String → Bool) (dir : Dir) (q : String)
    → contains (list_files taken dir) q ≡ (taken q && holds dir q)
unfolding list_files holds
contains-list_files taken [] q = ground arith
contains-list_files taken ((path, f) ∷ dir) q =
    ground (arith, contains-list_files taken dir q, eq_iff path q)

lookup-restrict :
    (files : List String) (rows : Rows) (q : String)
    → lookup (restrict files rows) q ≡ (if contains files q then lookup rows q else none)
unfolding restrict
lookup-restrict files [] q = ground arith
lookup-restrict files ((path, f) ∷ rows) q =
    ground (arith, lookup-restrict files rows q, eq_iff path q)

unfoldable pub has_row : Rows → String → Bool
has_row rows q = elim (lookup rows q) [ none ↦ false | some f ↦ true ]

contains-gone :
    (files : List String) (rows : Rows) (q : String)
    → contains (gone files rows) q ≡ (has_row rows q && not (contains files q))
unfolding gone has_row
contains-gone files [] q = ground arith
contains-gone files ((path, f) ∷ rows) q = ground (arith, contains-gone files rows q, eq_iff path q)

pub lookup-unlink_all :
    (paths : List String) (d : Dir) (q : String)
    → lookup (unlink_all paths d) q ≡ (if contains paths q then none else lookup d q)
unfolding unlink_all
lookup-unlink_all [] d q = refl
lookup-unlink_all (path ∷ paths) d q =
    ground (arith, lookup-unlink_all paths (remove d path) q, lookup-remove d path q)

contains-existing_files :
    (rows : Rows) (paths : List String) (q : String)
    → contains (paths_of (existing_files rows paths)) q ≡ (has_row rows q && contains paths q)
unfolding existing_files has_row
contains-existing_files rows [] q = ground arith
contains-existing_files rows (path ∷ paths) q =
    ground (arith, contains-existing_files rows paths q, eq_iff path q)

contains-new_files :
    (rows : Rows) (paths : List String) (q : String)
    → contains (paths_of (new_files rows paths)) q ≡ (not (has_row rows q) && contains paths q)
unfolding new_files has_row
contains-new_files rows [] q = ground arith
contains-new_files rows (path ∷ paths) q =
    ground (arith, contains-new_files rows paths q, eq_iff path q)

module _ (glob_match : String → String → Bool) (hash b64 : List ℕ → String)
    (groups : List SnapshotGroup) where
  -- the groups that take a path have one limit on embedded files
  abbrev pub Agree : Type 0
  Agree =
      (path : String)
      → any_match glob_match groups path ≡ true
      → (limit : Option ℕ) × (embedded_file_size_max_for_file glob_match groups path
          ≡ returned limit)

  abbrev pub taken : String → Bool
  taken path = any_match glob_match groups path

  -- a path that a group takes and that the source has
  abbrev IsTaken : Dir → String → Type 0
  IsTaken src path = (f : File) × (lookup src path ≡ some f) × (taken path ≡ true)

  module _ (rows : Rows) (src : Dir) where
    abbrev Listed : String × Option SnapshotFile → Type 0
    Listed p = IsListed glob_match hash b64 groups rows src p

    Listed-of : Agree → (path : String) → IsTaken src path → Listed (path, lookup rows path)
    Listed-of agree path (f, found, t) =
        let (limit, l) = agree path t in (f, limit, found, l, refl, t)

    existing_files-IsListed :
        Agree
        → (paths : List String) → All (IsTaken src) paths
        → All Listed (existing_files rows paths)
    unfolding existing_files
    existing_files-IsListed agree [] h = tt
    existing_files-IsListed agree (path ∷ paths) h =
        let rest = existing_files-IsListed agree paths h.1 in
        elim (Option-cases (lookup rows path)) [
          | inl e ↦ rw (e, All) rest
          | inr (f, e) ↦
              rw (e, All) (subst (λ o. Listed (path, o)) e (Listed-of agree path h.0), rest)
        ]

    new_files-IsListed :
        Agree → (paths : List String) → All (IsTaken src) paths → All Listed (new_files rows paths)
    unfolding new_files
    new_files-IsListed agree [] h = tt
    new_files-IsListed agree (path ∷ paths) h =
        let rest = new_files-IsListed agree paths h.1 in
        elim (Option-cases (lookup rows path)) [
          | inl e ↦ rw (e, All) (subst (λ o. Listed (path, o)) e (Listed-of agree path h.0), rest)
          | inr (f, e) ↦ rw (e, All) rest
        ]

  list_files-IsTaken : (src : Dir) → All (IsTaken src) (list_files taken src)
  list_files-IsTaken src = All-contains (IsTaken src) (list_files taken src) (λ q h.
      let both = sym (contains-list_files taken src q) ∙ h in
      elim (Option-cases (lookup src q)) [
        | inl e ↦ absurd (ground (arith, both, holds-none src q e))
        | inr (f, e) ↦ (f, e, ground (arith, both))
      ])

  abbrev pub files_of : Disk → List (String × Option SnapshotFile)
  files_of disk =
      let files = list_files taken disk.src in
      existing_files disk.rows files ++ new_files disk.rows files

  paths_of-append :
      (xs ys : List (String × Option SnapshotFile)) (q : String)
      → contains (paths_of (xs ++ ys)) q ≡ (contains (paths_of xs) q || contains (paths_of ys) q)
  paths_of-append [] ys q = refl
  paths_of-append (x ∷ xs) ys q = ground (arith, paths_of-append xs ys q)

  pub contains-files_of :
      (disk : Disk) (q : String)
      → contains (paths_of (files_of disk)) q ≡ (taken q && holds disk.src q)
  contains-files_of disk q =
      let files = list_files taken disk.src in
      ground (
        arith,
        paths_of-append (existing_files disk.rows files) (new_files disk.rows files) q,
        contains-existing_files disk.rows files q,
        contains-new_files disk.rows files q,
        contains-list_files taken disk.src q,
      )

  pub drop_gone-keeps :
      (files : List String) (disk : Disk)
      → ((drop_gone files disk).rows ≡ restrict files disk.rows)
        × ((drop_gone files disk).src ≡ disk.src)
        × (has_dst (drop_gone files disk) ≡ has_dst disk)
  unfolding drop_gone
  drop_gone-keeps files disk = (refl, refl, ground arith)

  dst_at-drop_gone :
      (files : List String) (disk : Disk) (q : String)
      → dst_at (drop_gone files disk) q
        ≡ (if has_row disk.rows q && not (contains files q) then none else dst_at disk q)
  unfolding drop_gone
  dst_at-drop_gone files disk q = elim (Option-cases disk.dst) [
    | inl e ↦ ground (arith, e)
    | inr (d, e) ↦
        ground
          (arith, e, lookup-unlink_all (gone files disk.rows) d q, contains-gone files disk.rows q)
  ]

  drop_gone-Kept :
      (disk : Disk)
      → Kept glob_match hash b64 groups disk.rows disk.src
          (drop_gone (list_files taken disk.src) disk)
  unfolding drop_gone
  drop_gone-Kept disk q t u n = ground (
    arith,
    t,
    n,
    lookup-restrict (list_files taken disk.src) disk.rows q,
    contains-list_files taken disk.src q,
    holds-some disk.src q,
  )

  All-IsListed :
      Agree
      → (disk : Disk) → All (IsListed glob_match hash b64 groups disk.rows disk.src) (files_of disk)
  All-IsListed agree disk =
      let files = list_files taken disk.src in
      let all = list_files-IsTaken disk.src in
      All-append (IsListed glob_match hash b64 groups disk.rows disk.src)
        (existing_files disk.rows files) (new_files disk.rows files)
        (existing_files-IsListed disk.rows disk.src agree files all)
        (new_files-IsListed disk.rows disk.src agree files all)

  perform_snapshot-refresh :
      (disk disk' : Disk)
      → refresh glob_match hash b64 groups
          (files_of disk)
          (drop_gone (list_files taken disk.src) disk)
        ≡ (returned tt, disk')
      → perform_snapshot glob_match hash b64 groups disk ≡ (returned tt, disk')
  unfolding perform_snapshot
  perform_snapshot-refresh disk disk' run = ground (arith, run)

  Unique-restrict : (files : List String) (rows : Rows) → Unique rows → Unique (restrict files rows)
  unfolding restrict
  Unique-restrict files [] u = tt
  Unique-restrict files ((path, f) ∷ rows) u = elim (Bool-cases (contains files path)) [
    | inl e ↦
        rw (e, Unique)
          (ground (arith, lookup-restrict files rows path, u.0), Unique-restrict files rows u.1)
    | inr e ↦ rw (e, Unique) (Unique-restrict files rows u.1)
  ]

  -- The primary key stays one where the snapshot returns.
  pub perform_snapshot-Unique :
      Agree
      → (disk disk' : Disk)
      → perform_snapshot glob_match hash b64 groups disk ≡ (returned tt, disk')
      → Unique disk.rows
      → Unique disk'.rows
  perform_snapshot-Unique agree disk disk' run u =
      let files = list_files taken disk.src in
      let (same_rows, same_src, same_mode) = drop_gone-keeps files disk in
      let (end, ran, done) =
        refresh-IsRefreshed glob_match hash b64 groups disk.rows disk.src (files_of disk)
          (drop_gone files disk) (All-IsListed agree disk) same_src (drop_gone-Kept disk) in
      let same : end ≡ disk' = ap (λ p. p.1) (sym (perform_snapshot-refresh disk end ran) ∙ run) in
      subst (λ d. Unique d.rows) same
        (done.unique (subst Unique (sym same_rows) (Unique-restrict files disk.rows u)))

  -- Where the groups that take a path agree on its limit, a snapshot returns. The source is as it
  -- was. The rows are those of the taken files of the source and no others: the row that there was
  -- where it has the file's size and time of change, and else one with the digest or the content of
  -- the file. In a destination of its own, a file with a new row is the source's, a file whose row
  -- is dropped is gone, and the others are as they were.
  pub perform_snapshot_describes_source :
      Agree
      → (disk : Disk)
      → (disk' : Disk) × (perform_snapshot glob_match hash b64 groups disk ≡ (returned tt, disk'))
        × (disk'.src ≡ disk.src)
        × ((q : String)
            → lookup disk'.rows q ≡ (
                if any_match glob_match groups q
                then row_at glob_match hash b64 groups disk.rows disk.src q (lookup disk.src q)
                else none))
        × ((q : String)
            → dst_at disk' q ≡ (
                if any_match glob_match groups q
                  && (changed_at disk.rows q (lookup disk.src q) && has_dst disk)
                then lookup disk.src q
                else if has_row disk.rows q
                    && not (any_match glob_match groups q && holds disk.src q)
                then none
                else dst_at disk q))
  perform_snapshot_describes_source agree disk =
      let files = list_files taken disk.src in
      let dropped = drop_gone files disk in
      let (same_rows, same_src, same_mode) = drop_gone-keeps files disk in
      let (disk', run, done) =
        refresh-IsRefreshed glob_match hash b64 groups disk.rows disk.src (files_of disk) dropped
          (All-IsListed agree disk) same_src (drop_gone-Kept disk) in
      (
        disk',
        perform_snapshot-refresh disk disk' run,
        done.same_src ∙ same_src,
        λ q. ground (
          arith,
          done.rows_at q,
          contains-files_of disk q,
          same_rows,
          lookup-restrict files disk.rows q,
          contains-list_files taken disk.src q,
          holds-none disk.src q,
          holds-some disk.src q,
        ),
        λ q. ground (
          arith,
          done.links_at q,
          contains-files_of disk q,
          same_mode,
          dst_at-drop_gone files disk q,
          contains-list_files taken disk.src q,
          holds-none disk.src q,
          holds-some disk.src q,
        ),
      )
