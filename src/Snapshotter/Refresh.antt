-- ===== src/Snapshotter/Refresh.antt =====
-- What the rows and the destination hold after a snapshot.
use astacus.Prelude.{
  ℕ, ◌≡◌, ◌≢◌, refl, sym, ap, subst, ◌∙◌, Bool, true, false, ◌&&◌, Option, none, some, String, List,
  [], ◌∷◌, ◌++◌, map, arith, ◌==◌, string_eq, contains, contains-append, lookup, insert,
  lookup-insert, length, All, if◌then◌else◌, Bool-cases, Option-cases, inl, inr, eq_iff, ==_refl,
}
use astacus.Exceptions.{returned, raised}
use astacus.Ipc.{SnapshotFile}
use astacus.Snapshotter.Groups.{SnapshotGroup, any_match, embedded_file_size_max_for_file}
use astacus.Snapshotter.{
  File, Dir, Rows, Disk, read_limited, dst_dir, stat_of, file_in_src, maybe_link, has_changed,
  digest_bytes, compute_digest, refresh_file, refresh,
}

pub read_limited-all : (bytes : List ℕ) → read_limited (length bytes) bytes ≡ bytes
unfolding read_limited
read_limited-all [] = refl
read_limited-all (b ∷ bytes) = ap (λ r. b ∷ r) (read_limited-all bytes)

-- No two rows have one path.
abbrev pub Unique : Rows → Type 0
Unique [] = Unit
Unique ((path, f) ∷ rows) = (lookup rows path ≡ none) × Unique rows

Unique-insert :
    (rows : Rows) (path : String) (f : SnapshotFile) → Unique rows → Unique (insert rows path f)
Unique-insert [] path f u = (refl, tt)
Unique-insert ((q, g) ∷ rows) path f u = elim (Bool-cases (q == path)) [
  | inl e ↦ rw (e, Unique) u
  | inr e ↦
      rw (e, Unique)
        (
          ground (arith, lookup-insert rows path f q, e, eq_iff q path, eq_iff path q, u.0),
          Unique-insert rows path f u.1,
        )
]

abbrev pub dst_at : Disk → String → Option File
dst_at disk path = elim disk.dst [ none ↦ none | some d ↦ lookup d path ]

abbrev pub has_dst : Disk → Bool
has_dst disk = elim disk.dst [ none ↦ false | some d ↦ true ]

abbrev pub paths_of : List (String × Option SnapshotFile) → List String
paths_of files = map (λ p. p.0) files

-- whether the source's file of a path is not the one that the rows describe
abbrev pub changed_at : Rows → String → Option File → Bool
changed_at rows path none = false
changed_at rows path (some f) = has_changed (lookup rows path) (stat_of path f)

pub maybe_link-holds :
    (path : String) (f : File) (disk : Disk)
    → lookup disk.src path ≡ some f
    → lookup (dst_dir (maybe_link path disk)) path ≡ some f
unfolding maybe_link
maybe_link-holds path f disk h =
    ground (arith, h, lookup-insert (dst_dir disk) path f path, ==_refl path)

module _ (glob_match : String → String → Bool) (hash b64 : List ℕ → String)
    (groups : List SnapshotGroup) where
  -- the row of a file that is new, by the size limit of its groups
  abbrev pub row_of : String → File → SnapshotFile
  row_of path f = elim (embedded_file_size_max_for_file glob_match groups path) [
    | raised e ↦ stat_of path f
    | returned limit ↦ digest_bytes hash b64 limit (stat_of path f) f.content
  ]

  row_of-path : (path : String) (f : File) → (row_of path f).relative_path ≡ path
  unfolding digest_bytes
  row_of-path path f = ground arith

  module _ (rows : Rows) (src : Dir) where
    -- the row of a path after the snapshot, if a group takes the path
    abbrev pub row_at : String → Option File → Option SnapshotFile
    row_at path none = none
    row_at path (some f) =
        if changed_at rows path (some f) then some (row_of path f) else lookup rows path

    -- the groups that take the path agree on the limit, and the row is the one that there was
    abbrev pub IsListed : String × Option SnapshotFile → Type 0
    IsListed (path, existing) =
        (f : File) × (limit : Option ℕ) × (lookup src path ≡ some f)
        × (embedded_file_size_max_for_file glob_match groups path ≡ returned limit)
        × (existing ≡ lookup rows path)
        × (any_match glob_match groups path ≡ true)

    abbrev touch : String → File → Disk → Disk
    touch path f disk =
        if changed_at rows path (some f)
        then (let linked = maybe_link path disk in
            record linked { rows = insert linked.rows path (row_of path f) })
        else disk

    compute_digest-eq :
        (path : String) (f : File) (limit : Option ℕ) (dst : Dir)
        → lookup dst path ≡ some f
        → embedded_file_size_max_for_file glob_match groups path ≡ returned limit
        → compute_digest glob_match hash b64 groups dst (stat_of path f) ≡ returned (row_of path f)
    unfolding compute_digest
    compute_digest-eq path f limit dst h k = ground (arith, h, k, read_limited-all f.content)

    refresh_file-eq :
        (path : String) (existing : Option SnapshotFile) (disk : Disk) (f : File) (limit : Option ℕ)
        → disk.src ≡ src
        → lookup src path ≡ some f
        → embedded_file_size_max_for_file glob_match groups path ≡ returned limit
        → existing ≡ lookup rows path
        → refresh_file glob_match hash b64 groups path existing disk
          ≡ (returned tt, touch path f disk)
    unfolding refresh_file file_in_src
    refresh_file-eq path existing disk f limit s h k e =
        let here : lookup disk.src path ≡ some f = ap (λ d. lookup d path) s ∙ h in
        ground (
          arith,
          here,
          e,
          compute_digest-eq path f limit (dst_dir (maybe_link path disk))
              (maybe_link-holds path f disk here) k,
          row_of-path path f,
        )

    -- The files of the list are up to date, and nothing else has changed.
    pub record IsRefreshed (files : List String) (disk disk' : Disk) : Type 0 where
      pub same_src : disk'.src ≡ disk.src
      pub unique : Unique disk.rows → Unique disk'.rows
      pub same_mode : has_dst disk' ≡ has_dst disk
      pub rows_at :
          (q : String)
          → lookup disk'.rows q
            ≡ (if contains files q then row_at q (lookup src q) else lookup disk.rows q)
      pub links_at :
          (q : String)
          → dst_at disk' q ≡ (
              if contains files q && (changed_at rows q (lookup src q) && has_dst disk)
              then lookup src q
              else dst_at disk q)

    -- A row that is up to date is the one that there was.
    abbrev pub Kept : Disk → Type 0
    Kept disk =
        (q : String)
        → any_match glob_match groups q ≡ true
        → changed_at rows q (lookup src q) ≡ false
        → lookup src q ≢ none
        → lookup disk.rows q ≡ lookup rows q

    maybe_link_keeps :
        (path : String) (disk : Disk)
        → ((maybe_link path disk).rows ≡ disk.rows)
          × ((maybe_link path disk).src ≡ disk.src)
          × (has_dst (maybe_link path disk) ≡ has_dst disk)
    unfolding maybe_link
    maybe_link_keeps path disk = (ground arith, ground arith, ground arith)

    dst_at-maybe_link :
        (path : String) (f : File) (disk : Disk) (q : String)
        → lookup disk.src path ≡ some f
        → dst_at (maybe_link path disk) q
          ≡ (if path == q && has_dst disk then some f else dst_at disk q)
    unfolding maybe_link
    dst_at-maybe_link path f disk q h = elim (Option-cases disk.dst) [
      | inl e ↦ ground (arith, h, e)
      | inr (d, e) ↦ ground (arith, h, e, lookup-insert d path f q)
    ]

    touch-lem :
        (path : String) (f : File) (disk : Disk)
        → lookup src path ≡ some f
        → any_match glob_match groups path ≡ true
        → disk.src ≡ src
        → Kept disk
        → Kept (touch path f disk) × IsRefreshed (path ∷ []) disk (touch path f disk)
    touch-lem path f disk h t s k =
        let here : lookup disk.src path ≡ some f = ap (λ d. lookup d path) s ∙ h in
        elim (Bool-cases (changed_at rows path (some f))) [
          | inl e ↦ rw e (
              let (same_rows, same_src, same_mode) = maybe_link_keeps path disk in
              let inserted : (q : String)
                  → lookup (insert (maybe_link path disk).rows path (row_of path f)) q
                    ≡ (if path == q then some (row_of path f) else lookup disk.rows q) =
                λ q.
                  lookup-insert (maybe_link path disk).rows path (row_of path f) q
                  ∙ ap (λ r. if path == q then some (row_of path f) else lookup r q) same_rows in
              (
                λ q t' u n. ground (arith, inserted q, k q, eq_iff path q, h, e),
                record {
                  same_src = same_src;
                  unique = λ u.
                      Unique-insert (maybe_link path disk).rows path (row_of path f)
                        (subst Unique (sym same_rows) u);
                  same_mode = same_mode;
                  rows_at = λ q. ground (arith, inserted q, eq_iff path q, h, e);
                  links_at = λ q.
                      ground (arith, dst_at-maybe_link path f disk q here, eq_iff path q, h, e);
                },
              ))
          | inr e ↦ rw e (
            k,
            record {
              same_src = refl;
              unique = λ u. u;
              same_mode = refl;
              rows_at = λ q. ground (arith, eq_iff path q, h, e, t, k path);
              links_at = λ q. ground (arith, eq_iff path q, h, e);
            },
          )
        ]

    IsRefreshed-trans :
        (xs ys : List String) (a b c : Disk)
        → IsRefreshed xs a b
        → IsRefreshed ys b c
        → IsRefreshed (xs ++ ys) a c
    IsRefreshed-trans xs ys a b c f g = record {
      same_src = g.same_src ∙ f.same_src;
      unique = λ u. g.unique (f.unique u);
      same_mode = g.same_mode ∙ f.same_mode;
      rows_at = λ q. ground (arith, f.rows_at q, g.rows_at q, contains-append xs ys q);
      links_at =
          λ q. ground (arith, f.links_at q, g.links_at q, contains-append xs ys q, f.same_mode);
    }

    pub refresh-IsRefreshed :
        (files : List (String × Option SnapshotFile)) (disk : Disk)
        → All IsListed files
        → disk.src ≡ src
        → Kept disk
        → (disk' : Disk) × (refresh glob_match hash b64 groups files disk ≡ (returned tt, disk'))
          × IsRefreshed (paths_of files) disk disk'
    unfolding refresh
    refresh-IsRefreshed [] disk l s k = (
      disk,
      refl,
      record {
        same_src = refl;
        unique = λ u. u;
        same_mode = refl;
        rows_at = λ q. refl;
        links_at = λ q. ground arith;
      },
    )
    refresh-IsRefreshed ((path, existing) ∷ files) disk l s k =
        let (f, limit, found, agree, old, t) = l.0 in
        let (k', one) = touch-lem path f disk found t s k in
        let (disk', more, rest) =
          refresh-IsRefreshed files (touch path f disk) l.1 (one.same_src ∙ s) k' in
        (
          disk',
          ground (arith, refresh_file-eq path existing disk f limit s found agree old, more),
          IsRefreshed-trans (path ∷ []) (paths_of files) disk (touch path f disk) disk' one rest,
        )
