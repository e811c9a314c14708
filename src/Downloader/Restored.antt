-- ===== src/Downloader/Restored.antt =====
-- The loops over the files and over the digests, with the progress meter.
use astacus.Prelude.{
  ℕ, suc, ◌+◌, ◌*◌, ◌≤◌, ◌≡◌, ◌≢◌, refl, subst, ◌∙◌, true, false, Option, String, List, [], ◌∷◌,
  ◌++◌, All, All-map, arith, ◌==◌, string_eq, nat_eq, if◌then◌else◌, Bool-cases, inl, inr, ltb,
  length, total,
}
use astacus.Exceptions.{returned, Method}
use astacus.Ipc.{SnapshotFile}
use astacus.Progress.{Progress, add_success, download_success}
use astacus.Storage.Interface.{HexDigestStorage, HexDigestContract}
use astacus.Downloader.{
  Root, Restore, first_size, with_progress, download_snapshotfile, download_snapshotfiles,
  download_embedded, download_groups,
}
use astacus.Downloader.Files.{
  Existing, IsRestored, IsRestored-none, IsRestored-trans, Existing-after,
}
use astacus.Downloader.Groups.{
  paths_of, IsAvailable, IsWanted, IsGroup, download_snapshotfile_restores,
  download_snapshotfiles_restores,
}

download_success-eq :
    (n : ℕ) (p : Progress)
    → p.final ≡ false
    → ltb 0 n ≡ true
    → p.handled + n ≤ p.total
    → download_success n p ≡ (returned tt, record p { handled = p.handled + n })
unfolding download_success add_success
download_success-eq n p f z h = ground arith

-- the paths of the files without a digest, and what they count for
abbrev pub embedded_paths : List SnapshotFile → List String
embedded_paths [] = []
embedded_paths (f ∷ files) =
    let rest = embedded_paths files in if f.hexdigest == "" then f.relative_path ∷ rest else rest

abbrev pub embedded_size : SnapshotFile → ℕ
embedded_size f = if f.hexdigest == "" then f.file_size + 1 else 0

abbrev pub Group : Type 0
Group = String × List SnapshotFile

abbrev pub group_paths : List Group → List String
group_paths [] = []
group_paths ((h, files) ∷ groups) = paths_of files ++ group_paths groups

abbrev pub group_size : Group → ℕ
group_size g = (first_size g + 1) * length g.1

group_size-positive :
    (h : String) (files : List SnapshotFile) → files ≢ [] → ltb 0 (group_size (h, files)) ≡ true
group_size-positive h [] n = absurd (n refl)
group_size-positive h (f ∷ files) n = ground arith

module _ (hash : List ℕ → String) (unb64 : String → List ℕ) {S : Type 0}
    (storage : HexDigestStorage S (List ℕ)) (IsValid : S → Type 0)
    (view : S → String → Option (List ℕ)) (contract : HexDigestContract storage IsValid view)
    (wanted : List SnapshotFile) where
  abbrev pub Available : Root S → SnapshotFile → Type 0
  Available s f = IsAvailable hash unb64 storage IsValid view contract wanted s f

  abbrev pub Wanted : SnapshotFile → Type 0
  Wanted f = IsWanted hash unb64 storage IsValid view contract wanted f

  abbrev pub Grouped : Group → Type 0
  Grouped g = IsGroup hash unb64 storage IsValid view contract wanted g

  pub Available-after :
      (ps : List String) (s s' : Root S) (f : SnapshotFile)
      → IsRestored hash unb64 storage IsValid view wanted ps s s'
      → Available s f
      → Available s' f
  Available-after ps s s' f r a = (
    a.0,
    λ n. let (bytes, there, digest) = a.1 n in (bytes, r.same_view f.hexdigest ∙ there, digest),
  )

  -- The files of the paths are restored, and the progress meter has gone on by `n`.
  pub record IsAdvanced (ps : List String) (n : ℕ) (s s' : Restore S) : Type 0 where
    pub root : IsRestored hash unb64 storage IsValid view wanted ps s.root s'.root
    pub handled : s'.progress.handled ≡ s.progress.handled + n
    pub failed : s'.progress.failed ≡ s.progress.failed
    pub same_total : s'.progress.total ≡ s.progress.total
    pub same_final : s'.progress.final ≡ s.progress.final

  pub IsAdvanced-trans :
      (ps qs : List String) (n m : ℕ) (a b c : Restore S)
      → IsAdvanced ps n a b
      → IsAdvanced qs m b c
      → IsAdvanced (ps ++ qs) (n + m) a c
  IsAdvanced-trans ps qs n m a b c x y = record {
    root =
        IsRestored-trans hash unb64 storage IsValid view wanted ps qs a.root b.root c.root x.root
          y.root;
    handled = ground (arith, x.handled, y.handled);
    failed = y.failed ∙ x.failed;
    same_total = y.same_total ∙ x.same_total;
    same_final = y.same_final ∙ x.same_final;
  }

  IsAdvanced-none : (s : Restore S) → IsValid s.root.storage → IsAdvanced [] 0 s s
  IsAdvanced-none s v = record {
    root = IsRestored-none hash unb64 storage IsValid view wanted s.root v;
    handled = omega arith;
    failed = refl;
    same_total = refl;
    same_final = refl;
  }

  IsAdvanced-as :
      (ps qs : List String) (n m : ℕ) (a b : Restore S)
      → ps ≡ qs
      → n ≡ m
      → IsAdvanced ps n a b
      → IsAdvanced qs m a b
  IsAdvanced-as ps qs n m a b p e x =
      subst (λ qs. IsAdvanced qs m a b) p (subst (λ k. IsAdvanced ps k a b) e x)

  IsAdvanced-called :
      (ps : List String) (n k : ℕ) (a b : Restore S)
      → IsAdvanced ps n a b
      → IsAdvanced ps n a (record b { calls = k })
  IsAdvanced-called ps n k a b x = record {
    root = x.root;
    handled = x.handled;
    failed = x.failed;
    same_total = x.same_total;
    same_final = x.same_final;
  }

  with_progress-IsAdvanced :
      (work : Method (Root S) (Unit {0})) (n : ℕ) (ps : List String) (s : Restore S) (r : Root S)
      → s.progress.final ≡ false
      → ltb 0 n ≡ true
      → s.progress.handled + n ≤ s.progress.total
      → work s.root ≡ (returned tt, r)
      → IsRestored hash unb64 storage IsValid view wanted ps s.root r
      → (s' : Restore S) × (with_progress storage unb64 work n s ≡ (returned tt, s'))
        × IsAdvanced ps n s s'
  unfolding with_progress
  with_progress-IsAdvanced work n ps s r f z h run restored = (
    record s { root = r; progress = record s.progress { handled = s.progress.handled + n } },
    ground (arith, run, download_success-eq n s.progress f z h),
    record { root = restored; handled = refl; failed = refl; same_total = refl; same_final = refl },
  )

  pub download_embedded-IsAdvanced :
      (files : List SnapshotFile) (s : Restore S)
      → IsValid s.root.storage
      → s.progress.final ≡ false
      → s.progress.handled + total embedded_size files ≤ s.progress.total
      → Existing hash unb64 storage IsValid view wanted s.root
      → All (λ f. Wanted f × Available s.root f) files
      → (s' : Restore S) × (download_embedded storage unb64 files s ≡ (returned tt, s'))
        × IsAdvanced (embedded_paths files) (total embedded_size files) s s'
  unfolding download_embedded
  download_embedded-IsAdvanced [] s v f h old k = (s, refl, IsAdvanced-none s v)
  download_embedded-IsAdvanced (x ∷ files) s v f h old k = elim (Bool-cases (x.hexdigest == "")) [
    | inl e ↦
        (let (r, work, restored) =
            download_snapshotfile_restores hash unb64 storage IsValid view contract wanted x s.root
              v k.0.0 k.0.1 in
          let (mid, run, one) =
            with_progress-IsAdvanced (download_snapshotfile storage unb64 x) (x.file_size + 1)
              (x.relative_path ∷ []) s r f (ground arith) (ground (arith, h, e)) work restored in
          let (s', more, rest) =
            download_embedded-IsAdvanced files mid one.root.valid (one.same_final ∙ f)
              (ground (arith, h, e, one.handled, one.same_total))
              (Existing-after hash unb64 storage IsValid view wanted (x.relative_path ∷ []) s.root
                mid.root old one.root)
              (All-map
                (λ g a.
                  (a.0, Available-after (x.relative_path ∷ []) s.root mid.root g one.root a.1))
                files k.1) in
          (
            s',
            ground (arith, e, run, more),
            IsAdvanced-as (x.relative_path ∷ embedded_paths files) (embedded_paths (x ∷ files))
                (x.file_size + 1 + total embedded_size files) (total embedded_size (x ∷ files)) s s'
                (ground (arith, e)) (ground (arith, e))
                (IsAdvanced-trans (x.relative_path ∷ []) (embedded_paths files) (x.file_size + 1)
                  (total embedded_size files) s mid s' one rest),
          ))
    | inr e ↦
        (let (s', run, rest) =
            download_embedded-IsAdvanced files s v f (ground (arith, h, e)) old k.1 in
          (
            s',
            ground (arith, e, run),
            IsAdvanced-as (embedded_paths files) (embedded_paths (x ∷ files))
                (total embedded_size files) (total embedded_size (x ∷ files)) s s'
                (ground (arith, e)) (ground (arith, e)) rest,
          ))
  ]

  pub download_groups-IsAdvanced :
      (groups : List Group) (s : Restore S)
      → IsValid s.root.storage
      → s.progress.final ≡ false
      → s.progress.handled + total group_size groups ≤ s.progress.total
      → Existing hash unb64 storage IsValid view wanted s.root
      → All (λ g. Grouped g × All (Available s.root) g.1) groups
      → (s' : Restore S) × (download_groups storage unb64 (λ _. true) groups s
          ≡ (returned true, s'))
        × IsAdvanced (group_paths groups) (total group_size groups) s s'
  unfolding download_groups
  download_groups-IsAdvanced [] s v f h old k = (s, refl, IsAdvanced-none s v)
  download_groups-IsAdvanced ((d, files) ∷ groups) s v f h old k =
      let (r, work, restored) =
        download_snapshotfiles_restores hash unb64 storage IsValid view contract wanted d files
          s.root v k.0.0 old k.0.1 in
      let (mid, run, one) =
        with_progress-IsAdvanced (download_snapshotfiles storage unb64 files)
          (group_size (d, files)) (paths_of files) s r f (group_size-positive d files k.0.0.1)
          (ground (arith, h)) work restored in
      let next : Restore S = record mid { calls = suc mid.calls } in
      let (s', more, rest) =
        download_groups-IsAdvanced groups next one.root.valid (one.same_final ∙ f)
          (ground (arith, h, one.handled, one.same_total))
          (Existing-after hash unb64 storage IsValid view wanted (paths_of files) s.root mid.root
            old one.root)
          (All-map
            (λ g a. (
              a.0,
              All-map (λ y b. Available-after (paths_of files) s.root mid.root y one.root b) g.1
                  a.1,
            ))
            groups k.1) in
      (
        s',
        ground (arith, run, more),
        IsAdvanced-trans (paths_of files) (group_paths groups) (group_size (d, files))
            (total group_size groups) s next s'
            (IsAdvanced-called (paths_of files) (group_size (d, files)) (suc mid.calls) s mid one)
            rest,
      )
