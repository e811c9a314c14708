-- ===== src/Downloader/Groups.antt =====
-- The restore of one file, of the files of one digest, and of all digests.
use astacus.Prelude.{
  ℕ, ◌≡◌, ◌≢◌, refl, sym, subst, ◌∙◌, Option, some, String, List, [], ◌∷◌, map, All, arith, ◌==◌,
  string_eq, ==_refl, eq_iff, Bool-cases, inl, inr, lookup, lookup-insert,
}
use astacus.Exceptions.{returned}
use astacus.Ipc.{SnapshotFile}
use astacus.Storage.Interface.{HexDigestStorage, HexDigestContract}
use astacus.Snapshotter.{File}
use astacus.Downloader.{
  Root, already_exists, write_file, download_snapshotfile, copy_snapshotfile, copy_all,
  download_snapshotfiles,
}
use astacus.Downloader.Files.{
  file_of, Existing, IsRestored, IsRestored-none, IsRestored-trans, IsRestored-write,
  IsRestored-existing, Existing-after,
}

abbrev pub paths_of : List SnapshotFile → List String
paths_of files = map (λ f. f.relative_path) files

module _ (hash : List ℕ → String) (unb64 : String → List ℕ) {S : Type 0}
    (storage : HexDigestStorage S (List ℕ)) (IsValid : S → Type 0)
    (view : S → String → Option (List ℕ)) (contract : HexDigestContract storage IsValid view)
    (wanted : List SnapshotFile) where
  -- the content of a file is embedded, or in the storage under its digest
  abbrev pub IsAvailable : Root S → SnapshotFile → Type 0
  IsAvailable s f =
      (f.hexdigest ≡ "" → (c : String) × (f.content_b64 ≡ some c))
      × (f.hexdigest ≢ ""
          → (bytes : List ℕ) × (view s.storage f.hexdigest ≡ some bytes)
            × (hash bytes ≡ f.hexdigest))

  abbrev pub IsWanted : SnapshotFile → Type 0
  IsWanted f = file_of wanted f.relative_path ≡ some f

  abbrev Restored : List String → Root S → Root S → Type 0
  Restored ps s s' = IsRestored hash unb64 storage IsValid view wanted ps s s'

  pub download_snapshotfile_restores :
      (f : SnapshotFile) (s : Root S)
      → IsValid s.storage
      → IsWanted f
      → IsAvailable s f
      → (s' : Root S) × (download_snapshotfile storage unb64 f s ≡ (returned tt, s'))
        × IsRestored hash unb64 storage IsValid view wanted (f.relative_path ∷ []) s s'
  unfolding download_snapshotfile
  download_snapshotfile_restores f s v w a = elim (Bool-cases (already_exists s.rows f)) [
    | inl e ↦
        (s, ground (arith, e), IsRestored-existing hash unb64 storage IsValid view wanted f s w e v)
    | inr e ↦ elim (Bool-cases (f.hexdigest == "")) [
      | inl empty ↦
          (let none_digest = (eq_iff f.hexdigest "").0 empty in
            let (c, there) = a.0 none_digest in
            (
              record s { files = write_file f (unb64 c) s.files },
              ground (arith, e, empty, there),
              IsRestored-write hash unb64 storage IsValid view wanted f (unb64 c) s s.storage w e
                  (λ _ c' h. ground (arith, h, there), λ n. absurd (n none_digest)) v (λ k. refl),
            ))
      | inr full ↦
          (let has_digest : f.hexdigest ≢ "" =
              λ p. ground (arith, full, (eq_iff f.hexdigest "").1 p) in
            let (bytes, there, digest) = a.1 has_digest in
            let left = contract.download_present f.hexdigest s.storage bytes v there in
            (
              record s {
                storage = (storage.download_hexdigest f.hexdigest s.storage).1;
                files = write_file f bytes s.files;
              },
              ground (arith, e, full, left.ends),
              IsRestored-write hash unb64 storage IsValid view wanted f bytes s
                  (storage.download_hexdigest f.hexdigest s.storage).1 w e
                  (λ p. absurd (has_digest p), λ _. digest) left.valid left.shows,
            ))
    ]
  ]

  -- the root has a file with bytes of the digest at the path
  abbrev HasDigest : Root S → String → String → Type 0
  HasDigest s q h = (g : File) × (lookup s.files q ≡ some g) × (hash g.content ≡ h)

  written_digest :
      (first f : SnapshotFile) (h : String) (g : File) (s : Root S)
      → lookup s.files first.relative_path ≡ some g
      → hash g.content ≡ h
      → HasDigest (record s { files = write_file f g.content s.files }) first.relative_path h
  written_digest first f h g s at digest =
      let new : File = record { content = g.content; mtime_ns = f.mtime_ns } in
      let shown = lookup-insert s.files f.relative_path new first.relative_path in
      elim (Bool-cases (f.relative_path == first.relative_path)) [
        | inl e ↦ (new, ground (arith, shown, e), digest)
        | inr e ↦ (g, ground (arith, shown, e, at), digest)
      ]

  copy_snapshotfile_restores :
      (first f : SnapshotFile) (h : String) (s : Root S)
      → IsValid s.storage
      → IsWanted f
      → f.hexdigest ≡ h
      → h ≢ ""
      → Existing hash unb64 storage IsValid view wanted s
      → HasDigest s first.relative_path h
      → (s' : Root S) × (copy_snapshotfile storage unb64 first f s ≡ (returned tt, s'))
        × IsRestored hash unb64 storage IsValid view wanted (f.relative_path ∷ []) s s'
        × HasDigest s' first.relative_path h
  unfolding copy_snapshotfile
  copy_snapshotfile_restores first f h s v w d n old (g, at, digest) =
      elim (Bool-cases (already_exists s.rows f)) [
        | inl e ↦ (
          s,
          ground (arith, e),
          IsRestored-existing hash unb64 storage IsValid view wanted f s w e v,
          (g, at, digest),
        )
        | inr e ↦ (
          record s { files = write_file f g.content s.files },
          ground (arith, e, at),
          IsRestored-write hash unb64 storage IsValid view wanted f g.content s s.storage w e
              (λ p. absurd (n (sym d ∙ p)), λ _. digest ∙ sym d) v (λ k. refl),
          written_digest first f h g s at digest,
        )
      ]

  copy_all_restores :
      (first : SnapshotFile) (files : List SnapshotFile) (h : String) (s : Root S)
      → IsValid s.storage
      → All (λ f. IsWanted f × (f.hexdigest ≡ h)) files
      → h ≢ ""
      → Existing hash unb64 storage IsValid view wanted s
      → HasDigest s first.relative_path h
      → (s' : Root S) × (copy_all storage unb64 first files s ≡ (returned tt, s'))
        × IsRestored hash unb64 storage IsValid view wanted (paths_of files) s s'
  unfolding copy_all
  copy_all_restores first [] h s v w n old has =
      (s, refl, IsRestored-none hash unb64 storage IsValid view wanted s v)
  copy_all_restores first (f ∷ files) h s v w n old has =
      let (mid, run, one, has') = copy_snapshotfile_restores first f h s v w.0.0 w.0.1 n old has in
      let old' =
        Existing-after hash unb64 storage IsValid view wanted (f.relative_path ∷ []) s mid old
          one in
      let (s', more, rest) = copy_all_restores first files h mid one.valid w.1 n old' has' in
      (
        s',
        ground (arith, run, more),
        IsRestored-trans hash unb64 storage IsValid view wanted (f.relative_path ∷ [])
            (paths_of files) s mid s' one rest,
      )

  -- the files of one digest, of which there is at least one
  abbrev pub IsGroup : String × List SnapshotFile → Type 0
  IsGroup (h, files) = (h ≢ "") × (files ≢ []) × All (λ f. IsWanted f × (f.hexdigest ≡ h)) files

  restored-HasDigest :
      (f : SnapshotFile) (s s' : Root S)
      → IsWanted f
      → f.hexdigest ≢ ""
      → Existing hash unb64 storage IsValid view wanted s
      → IsRestored hash unb64 storage IsValid view wanted (f.relative_path ∷ []) s s'
      → HasDigest s' f.relative_path f.hexdigest
  restored-HasDigest f s s' w n old one = elim (Bool-cases (already_exists s.rows f)) [
    | inl e ↦
        (let (g, at, m) = old f.relative_path f w e in
          (g, one.kept_existing f.relative_path f w e ∙ at, m.1 n))
    | inr e ↦
        (let (g, at, m) =
            one.written f.relative_path f (ground (arith, ==_refl f.relative_path)) w e in
          (g, at, m.1 n))
  ]

  pub download_snapshotfiles_restores :
      (h : String) (files : List SnapshotFile) (s : Root S)
      → IsValid s.storage
      → IsGroup (h, files)
      → Existing hash unb64 storage IsValid view wanted s
      → All (IsAvailable s) files
      → (s' : Root S) × (download_snapshotfiles storage unb64 files s ≡ (returned tt, s'))
        × IsRestored hash unb64 storage IsValid view wanted (paths_of files) s s'
  unfolding download_snapshotfiles
  download_snapshotfiles_restores h [] s v k old a = absurd (k.1 refl)
  download_snapshotfiles_restores h (f ∷ files) s v (n, _, ((w, d), ws)) old a =
      let (mid, run, one) = download_snapshotfile_restores f s v w a.0 in
      let old' =
        Existing-after hash unb64 storage IsValid view wanted (f.relative_path ∷ []) s mid old
          one in
      let has = restored-HasDigest f s mid w (λ p. n (sym d ∙ p)) old one in
      let (s', more, rest) =
        copy_all_restores f files h mid one.valid ws n old'
          (subst (λ x. HasDigest mid f.relative_path x) d has) in
      (
        s',
        ground (arith, run, more),
        IsRestored-trans hash unb64 storage IsValid view wanted (f.relative_path ∷ [])
            (paths_of files) s mid s' one rest,
      )
