-- ===== src/Uploader/Digest.antt =====
-- The upload of one digest, where the files do not change during it and the storage keeps its
-- contract.
use astacus.Prelude.{
  ℕ, ◌≡◌, refl, ◌∙◌, Bool, true, false, Option, none, some, String, List, [], ◌∷◌, any, All, arith,
  ◌==◌, string_eq, eq_iff, if◌then◌else◌, Bool-cases, Option-cases, inl, inr,
}
use astacus.Exceptions.{returned}
use astacus.Ipc.{SnapshotFile}
use astacus.Storage.Interface.{HexDigestStorage, HexDigestContract, StorageUploadResult}
use astacus.Snapshotter.{read_limited}
use astacus.Uploader.{success, missing, no_upload, same_hash, upload_files}

module _ {S : Type 0} (storage : HexDigestStorage S (List ℕ)) (hash : List ℕ → String)
    (held : String → Option (List ℕ)) where
  -- The file is there, and has the digest of its row.
  abbrev pub is_good : SnapshotFile → Bool
  is_good f = elim (held f.relative_path) [
    | none ↦ false
    | some bytes ↦ same_hash storage hash (λ _. held) true f bytes
  ]

  pub upload_files_missing :
      (hexdigest : String) (files : List SnapshotFile) (s : S)
      → any is_good files ≡ false
      → upload_files storage hash (λ _. held) true hexdigest files s
        ≡ (returned (missing, no_upload), s)
  unfolding upload_files
  upload_files_missing hexdigest [] s h = refl
  upload_files_missing hexdigest (f ∷ files) s h =
      ground (arith, h, upload_files_missing hexdigest files s)

  is_good-held :
      (f : SnapshotFile) → is_good f ≡ true → (bytes : List ℕ) × (held f.relative_path ≡ some bytes)
  is_good-held f e = elim (Option-cases (held f.relative_path)) [
    | inl n ↦ absurd (ground (arith, e, n))
    | inr found ↦ found
  ]

  good-digest :
      (f : SnapshotFile) (bytes : List ℕ)
      → same_hash storage hash (λ _. held) true f bytes ≡ true
      → hash (read_limited f.file_size bytes) ≡ f.hexdigest
  unfolding same_hash
  good-digest f bytes e = (eq_iff (hash (read_limited f.file_size bytes)) f.hexdigest).0 e

  upload_files_skip :
      (hexdigest : String) (f : SnapshotFile) (files : List SnapshotFile) (s : S)
      → is_good f ≡ false
      → upload_files storage hash (λ _. held) true hexdigest (f ∷ files) s
        ≡ upload_files storage hash (λ _. held) true hexdigest files s
  unfolding upload_files
  upload_files_skip hexdigest f files s e = elim (Option-cases (held f.relative_path)) [
    | inl n ↦ ground (arith, e, n)
    | inr (bytes, b) ↦ ground (arith, e, b)
  ]

  upload_files_good :
      (hexdigest : String) (f : SnapshotFile) (files : List SnapshotFile) (s : S) (bytes : List ℕ)
      (u : StorageUploadResult)
      → held f.relative_path ≡ some bytes
      → same_hash storage hash (λ _. held) true f bytes ≡ true
      → (storage.upload_hexdigest hexdigest (read_limited f.file_size bytes) s).0 ≡ returned u
      → upload_files storage hash (λ _. held) true hexdigest (f ∷ files) s ≡ (
        returned (success, u),
        (storage.upload_hexdigest hexdigest (read_limited f.file_size bytes) s).1,
      )
  unfolding upload_files
  upload_files_good hexdigest f files s bytes u e g r = ground (arith, e, g, r)

  module _ (IsValid : S → Type 0) (view : S → String → Option (List ℕ)) where
    -- bytes with the digest are stored, and nothing else has changed
    pub record IsStored (hexdigest : String) (s s' : S) : Type 0 where
      pub bytes : List ℕ
      pub digest : hash bytes ≡ hexdigest
      pub valid : IsValid s'
      pub shows : (k : String) → view s' k ≡ (if hexdigest == k then some bytes else view s k)

    pub upload_files_success :
        HexDigestContract storage IsValid view
        → (hexdigest : String) (files : List SnapshotFile) (s : S) → IsValid s
        → All (λ f. f.hexdigest ≡ hexdigest) files
        → any is_good files ≡ true
        → (u : StorageUploadResult) × (s' : S) × (upload_files storage hash
              (λ _. held)
              true
              hexdigest
              files
              s
            ≡ (returned (success, u), s'))
          × IsStored hexdigest s s'
    upload_files_success contract hexdigest [] s v d h = absurd (ground (arith, h))
    upload_files_success contract hexdigest (f ∷ files) s v d h = elim (Bool-cases (is_good f)) [
      | inl e ↦
          (let (bytes, b) = is_good-held f e in
            let (u, left) = contract.upload_any hexdigest (read_limited f.file_size bytes) s v in
            (
              u,
              (storage.upload_hexdigest hexdigest (read_limited f.file_size bytes) s).1,
              upload_files_good hexdigest f files s bytes u b (ground (arith, e, b)) left.ends,
              record {
                bytes = read_limited f.file_size bytes;
                digest = good-digest f bytes (ground (arith, e, b)) ∙ d.0;
                valid = left.valid;
                shows = left.shows;
              },
            ))
      | inr e ↦
          (let (u, s', run, stored) =
              upload_files_success contract hexdigest files s v d.1 (ground (arith, h, e)) in
            (u, s', upload_files_skip hexdigest f files s e ∙ run, stored))
    ]
