-- ===== src/RoundTrip/Source.antt =====
-- The first snapshot of a node, and the upload of all digests that it reports.
use astacus.Prelude.{
  ℕ, ◌≡◌, ◌≢◌, ◌⊎◌, sym, ap, subst, ◌∙◌, Bool, true, none, some, String, List, [], arith, string_eq,
  if◌then◌else◌, Option-cases, inl, inr, lookup, length,
}
use astacus.Exceptions.{returned}
use astacus.Ipc.{SnapshotFile}
use astacus.Snapshotter.Groups.{SnapshotGroup, any_match}
use astacus.Snapshotter.{File, Dir, Disk, digest_bytes, has_changed, perform_snapshot}
use astacus.Snapshotter.Refresh.{row_of, dst_at, Unique}
use astacus.Snapshotter.Perform.{Agree, perform_snapshot_describes_source, perform_snapshot-Unique}
use astacus.RoundTrip.Rows.{IsKeyed, keyed}

-- a node without rows, with a destination of its own
abbrev pub first_disk : Dir → Dir → Disk
first_disk src dst = record { rows = []; src = src; dst = some dst }

module _ (glob_match : String → String → Bool) (hash b64 : List ℕ → String)
    (groups : List SnapshotGroup) (agree : Agree glob_match hash b64 groups) where
  -- the row of a file: its content, or its digest
  pub record IsRowOf (q : String) (g : File) (r : SnapshotFile) : Type 0 where
    pub path : r.relative_path ≡ q
    pub size : r.file_size ≡ length g.content
    pub content :
        ((r.hexdigest ≡ "") × (r.content_b64 ≡ some (b64 g.content)))
        ⊎ ((r.hexdigest ≡ hash g.content) × (r.content_b64 ≡ none))

  pub row_of-IsRowOf :
      (q : String) (g : File)
      → any_match glob_match groups q ≡ true
      → hash g.content ≢ ""
      → IsRowOf q g (row_of glob_match hash b64 groups q g)
  unfolding digest_bytes
  row_of-IsRowOf q g t n =
      let (limit, l) = agree q t in
      record { path = ground (arith, l); size = ground (arith, l); content = ground (arith, l) }

  -- what the first snapshot leaves
  pub record IsFirst (src : Dir) (disk : Disk) : Type 0 where
    pub unique : Unique disk.rows
    pub rows :
        (q : String)
        → lookup disk.rows q ≡ (
            if any_match glob_match groups q
            then (elim (lookup src q) [
              | none ↦ none
              | some g ↦ some (row_of glob_match hash b64 groups q g)
            ])
            else none)
    pub links :
        (q : String) (g : File)
        → any_match glob_match groups q ≡ true
        → lookup src q ≡ some g
        → dst_at disk q ≡ some g

  pub IsFirst-snapshot :
      (src dst : Dir) (disk : Disk)
      → perform_snapshot glob_match hash b64 groups (first_disk src dst) ≡ (returned tt, disk)
      → IsFirst src disk
  unfolding has_changed
  IsFirst-snapshot src dst disk run =
      let (end, ran, same_src, rows, links) =
        perform_snapshot_describes_source glob_match hash b64 groups agree (first_disk src dst) in
      let same : end ≡ disk = ap (λ p. p.1) (sym ran ∙ run) in
      subst (IsFirst src) same (record {
        unique =
            perform_snapshot-Unique glob_match hash b64 groups agree (first_disk src dst) end ran
              tt;
        rows = λ q. ground (arith, rows q);
        links = λ q g t at. ground (arith, links q, t, at);
      })

  -- the file of a row
  pub row_source :
      (src : Dir) (disk : Disk) (q : String) (r : SnapshotFile)
      → IsFirst src disk
      → lookup disk.rows q ≡ some r
      → (g : File) × (lookup src q ≡ some g)
        × (any_match glob_match groups q ≡ true)
        × (r ≡ row_of glob_match hash b64 groups q g)
  row_source src disk q r first at = elim (Option-cases (lookup src q)) [
    | inl e ↦ absurd (ground (arith, first.rows q, at, e))
    | inr (g, e) ↦ (g, e, ground (arith, first.rows q, at, e), ground (arith, first.rows q, at, e))
  ]

  pub first-IsKeyed :
      (src : Dir) (disk : Disk)
      → ((bytes : List ℕ) → hash bytes ≢ "")
      → IsFirst src disk
      → IsKeyed disk.rows
  first-IsKeyed src disk n first = keyed disk.rows first.unique (λ q r at.
      let (g, _, t, e) = row_source src disk q r first at in
      ap (λ x. x.relative_path) e ∙ (row_of-IsRowOf q g t (n g.content)).path)
