-- ===== src/RoundTrip/Upload.antt =====
-- After the upload of the digests that a first snapshot reports, the storage has all of them.
use astacus.Prelude.{
  ℕ, ◌≡◌, ◌≢◌, refl, sym, ap, subst, ◌∙◌, Bool, true, not, ◌&&◌, Option, none, some, String, List,
  map, any, All, All-map, All-contains, arith, ◌==◌, string_eq, ==_refl, eq_iff, inl, inr, contains,
  contains-to_set, to_set, lookup,
}
use astacus.Exceptions.{returned}
use astacus.Ipc.{SnapshotFile, SnapshotHash}
use astacus.Progress.{fresh}
use astacus.Storage.Interface.{HexDigestStorage, HexDigestContract}
use astacus.Snapshotter.Groups.{SnapshotGroup}
use astacus.Snapshotter.{Dir, Rows, Disk, read_limited}
use astacus.Snapshotter.Refresh.{dst_at, read_limited-all}
use astacus.Snapshotter.Perform.{Agree}
use astacus.Snapshotter.Queries.{get_all_files, get_files_for_digest, hashes_in}
use astacus.Uploader.{Run, write_hashes_to_storage, same_hash}
use astacus.Uploader.Digest.{is_good}
use astacus.Uploader.Write.{is_held, IsRequested, write_hashes_to_storage-IsWritten}
use astacus.RoundTrip.Rows.{rows-All}
use astacus.RoundTrip.Digests.{
  any-get_files_for_digest, has_files-any, contains-reported, any-lookup, any-and,
}
use astacus.RoundTrip.Source.{IsRowOf, row_of-IsRowOf, IsFirst, row_source}

-- what the upload reads of the destination
abbrev pub held : Disk → String → Option (List ℕ)
held disk q = elim (dst_at disk q) [ none ↦ none | some g ↦ some g.content ]

-- the digests of a snapshot's result
abbrev pub reported : Rows → List SnapshotHash
reported rows = hashes_in (get_all_files rows)

module _ (glob_match : String → String → Bool) (hash b64 : List ℕ → String)
    (groups : List SnapshotGroup) (agree : Agree glob_match hash b64 groups)
    (not_empty : (bytes : List ℕ) → hash bytes ≢ "") {S : Type 0}
    (storage : HexDigestStorage S (List ℕ)) (src : Dir) (disk : Disk)
    (first : IsFirst glob_match hash b64 groups agree src disk) where
  abbrev digests : List String
  digests = to_set (map (λ h. h.hexdigest) (reported disk.rows))

  row_is_good :
      (q : String) (r : SnapshotFile)
      → lookup disk.rows q ≡ some r
      → r.hexdigest ≢ ""
      → is_good storage hash (held disk) r ≡ true
  unfolding same_hash
  row_is_good q r at n =
      let (g, found, t, e) = row_source glob_match hash b64 groups agree src disk q r first at in
      let row : IsRowOf glob_match hash b64 groups agree q g r =
        subst (IsRowOf glob_match hash b64 groups agree q g) (sym e)
          (row_of-IsRowOf glob_match hash b64 groups agree q g t (not_empty g.content)) in
      let linked : held disk r.relative_path ≡ some g.content =
        ground (arith, ap (λ p. held disk p) row.path, first.links q g t found) in
      elim row.content [
        | inl (empty, _) ↦ absurd (n empty)
        | inr (digest, _) ↦ ground (
          arith,
          linked,
          digest,
          ap (λ n. read_limited n g.content) row.size,
          read_limited-all g.content,
          eq_iff (hash (read_limited r.file_size g.content)) r.hexdigest,
        )
      ]

  reported_row :
      (h : String)
      → contains digests h ≡ true
      → (h ≢ "") × (any (λ x. x.1.hexdigest == h) disk.rows ≡ true)
  reported_row h c =
      let both : (not (h == "") && any (λ x. x.1.hexdigest == h) disk.rows) ≡ true =
        sym (contains-reported disk.rows h)
        ∙ sym (contains-to_set (map (λ x. x.hexdigest) (reported disk.rows)) h)
        ∙ c in
      (λ e. ground (arith, both, (eq_iff h "").1 e), ground (arith, both))

  reported_is_held :
      (h : String) → contains digests h ≡ true → is_held storage hash (held disk) disk.rows h ≡ true
  reported_is_held h c =
      let (n, some_row) = reported_row h c in
      any-get_files_for_digest (λ f. is_good storage hash (held disk) f) h disk.rows
      ∙ any-and (λ f. f.hexdigest == h) (λ f. is_good storage hash (held disk) f) disk.rows
          (All-map
            (λ x at same.
              row_is_good x.0 x.1 at (λ z. n (sym ((eq_iff x.1.hexdigest h).0 same) ∙ z)))
            disk.rows (rows-All disk.rows first.unique))
          some_row

  reported-IsRequested : All (IsRequested storage hash (held disk) disk.rows) digests
  reported-IsRequested =
      All-contains (IsRequested storage hash (held disk) disk.rows) digests (λ h c.
        let (n, some_row) = reported_row h c in
        (
          n,
          has_files-any h (get_files_for_digest disk.rows h)
              ∙ any-get_files_for_digest (λ _. true) h disk.rows
              ∙ any-and (λ f. f.hexdigest == h) (λ _. true) disk.rows
                  (All-map (λ x at same. refl) disk.rows (rows-All disk.rows first.unique))
                  some_row,
        ))

  -- The upload returns, and the digest of every row is then in the storage.
  pub upload_has_digests :
      (IsValid : S → Type 0) (view : S → String → Option (List ℕ))
      → HexDigestContract storage IsValid view
      → (s : Run S) → IsValid s.storage
      → s.progress ≡ fresh
      → (sizes : ℕ × ℕ) × (s' : Run S) × (write_hashes_to_storage storage hash
            (λ _. held disk)
            true
            (λ _. true)
            disk.rows
            (reported disk.rows)
            s
          ≡ (returned sizes, s'))
        × IsValid s'.storage
        × ((q : String) (r : SnapshotFile)
            → lookup disk.rows q ≡ some r
            → r.hexdigest ≢ ""
            → (bytes : List ℕ) × (view s'.storage r.hexdigest ≡ some bytes)
              × (hash bytes ≡ r.hexdigest))
  upload_has_digests IsValid view contract s v p =
      let (sizes, s', run, written) =
        write_hashes_to_storage-IsWritten storage hash (held disk) disk.rows IsValid view contract
          (reported disk.rows) s v p reported-IsRequested in
      (
        sizes,
        s',
        run,
        written.valid,
        λ q r at n.
            let listed : contains digests r.hexdigest ≡ true =
              contains-to_set (map (λ x. x.hexdigest) (reported disk.rows)) r.hexdigest
              ∙ contains-reported disk.rows r.hexdigest
              ∙ ground (
                arith,
                any-lookup (λ f. f.hexdigest == r.hexdigest) disk.rows q r at (==_refl r.hexdigest),
                n,
                eq_iff r.hexdigest "",
              ) in
            written.has r.hexdigest (ground (arith, listed, reported_is_held r.hexdigest listed)),
      )
