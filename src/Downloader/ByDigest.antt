-- ===== src/Downloader/ByDigest.antt =====
-- The dictionary of the files by digest: every file with a digest is in one group.
use astacus.Prelude.{
  ℕ, suc, ◌+◌, ◌*◌, ◌≡◌, ◌≢◌, refl, sym, ap, ◌∙◌, Bool, ◌||◌, String, List, [], ◌∷◌, ◌++◌, any,
  any-sorted, All, All-append, All-sorted, arith, ◌==◌, string_eq, nat_eq, eq_iff, Bool-cases, inl,
  inr, contains, contains-append, leb, length, total, total-sorted,
}
use native.Mathlib.Nat.{mul-suc}
use astacus.Ipc.{SnapshotFile}
use astacus.Downloader.{first_size, add_file, by_hexdigest, largest_first}
use astacus.Downloader.Groups.{paths_of}
use astacus.Downloader.Restored.{Group, group_paths, group_size, embedded_paths, embedded_size}

holds_path : String → Group → Bool
holds_path q g = contains (paths_of g.1) q

contains-group_paths :
    (groups : List Group) (q : String) → contains (group_paths groups) q ≡ any (holds_path q) groups
unfolding holds_path
contains-group_paths [] q = refl
contains-group_paths ((h, files) ∷ groups) q =
    contains-append (paths_of files) (group_paths groups) q
    ∙ ap (λ b. contains (paths_of files) q || b) (contains-group_paths groups q)

paths_of-append : (xs ys : List SnapshotFile) → paths_of (xs ++ ys) ≡ paths_of xs ++ paths_of ys
paths_of-append [] ys = refl
paths_of-append (x ∷ xs) ys = ap (λ r. x.relative_path ∷ r) (paths_of-append xs ys)

any-add_file :
    (groups : List Group) (f : SnapshotFile) (q : String)
    → any (holds_path q) (add_file groups f) ≡ (any (holds_path q) groups || f.relative_path == q)
unfolding add_file holds_path
any-add_file [] f q = ground arith
any-add_file ((h, files) ∷ groups) f q = ground (
  arith,
  any-add_file groups f q,
  paths_of-append files (f ∷ []),
  contains-append (paths_of files) (f.relative_path ∷ []) q,
  ap (λ ps. contains ps q) (paths_of-append files (f ∷ [])),
)

length-snoc :
    (files : List SnapshotFile) (f : SnapshotFile) → length (files ++ f ∷ []) ≡ suc (length files)
length-snoc [] f = refl
length-snoc (g ∷ files) f = ap suc (length-snoc files f)

append_nonempty : (files : List SnapshotFile) (f : SnapshotFile) → files ++ f ∷ [] ≢ []
append_nonempty [] f e = ground (arith, e)
append_nonempty (g ∷ files) f e = ground (arith, e)

module _ (P : SnapshotFile → Type 0) where
  -- the files of one digest, of which there is at least one
  abbrev pub IsDigestGroup : Group → Type 0
  IsDigestGroup (h, files) = (h ≢ "") × (files ≢ []) × All (λ f. P f × (f.hexdigest ≡ h)) files

  add_file-IsDigestGroup :
      (groups : List Group) (f : SnapshotFile)
      → f.hexdigest ≢ ""
      → P f
      → All IsDigestGroup groups
      → All IsDigestGroup (add_file groups f)
  unfolding add_file
  add_file-IsDigestGroup [] f n p k = ((n, λ e. ground (arith, e), ((p, refl), tt)), tt)
  add_file-IsDigestGroup ((h, files) ∷ groups) f n p k = elim (Bool-cases (h == f.hexdigest)) [
    | inl e ↦
        rw (e, All)
          (
            (
              k.0.0,
              append_nonempty files f,
              All-append (λ g. P g × (g.hexdigest ≡ h)) files (f ∷ []) k.0.2
                  ((p, sym ((eq_iff h f.hexdigest).0 e)), tt),
            ),
            k.1,
          )
    | inr e ↦ rw (e, All) (k.0, add_file-IsDigestGroup groups f n p k.1)
  ]

  by_hexdigest-IsDigestGroup :
      (groups : List Group) (files : List SnapshotFile)
      → All P files
      → All IsDigestGroup groups
      → All IsDigestGroup (by_hexdigest groups files)
  unfolding by_hexdigest
  by_hexdigest-IsDigestGroup groups [] p k = k
  by_hexdigest-IsDigestGroup groups (f ∷ files) p k = elim (Bool-cases (f.hexdigest == "")) [
    | inl e ↦ rw e (by_hexdigest-IsDigestGroup groups files p.1 k)
    | inr e ↦ rw e (
        by_hexdigest-IsDigestGroup (add_file groups f) files p.1 (
          add_file-IsDigestGroup groups f (λ z. ground (arith, e, (eq_iff f.hexdigest "").1 z)) p.0
            k))
  ]

  pub largest_first-IsDigestGroup :
      (files : List SnapshotFile)
      → All P files
      → All IsDigestGroup (largest_first (by_hexdigest [] files))
  unfolding largest_first
  largest_first-IsDigestGroup files p =
      All-sorted IsDigestGroup (λ a b. leb (first_size b) (first_size a)) (by_hexdigest [] files)
        (by_hexdigest-IsDigestGroup [] files p tt)

any-by_hexdigest :
    (groups : List Group) (files : List SnapshotFile) (q : String)
    → (contains (embedded_paths files) q || any (holds_path q) (by_hexdigest groups files))
      ≡ (any (holds_path q) groups || contains (paths_of files) q)
unfolding by_hexdigest
any-by_hexdigest groups [] q = ground arith
any-by_hexdigest groups (f ∷ files) q = ground (
  arith,
  any-by_hexdigest groups files q,
  any-by_hexdigest (add_file groups f) files q,
  any-add_file groups f q,
)

-- The two loops reach the files' paths, and no others.
pub contains-both :
    (files : List SnapshotFile) (q : String)
    → contains (embedded_paths files ++ group_paths (largest_first (by_hexdigest [] files))) q
      ≡ contains (paths_of files) q
unfolding largest_first
contains-both files q =
    let groups = by_hexdigest [] files in
    let le : Group → Group → Bool = λ a b. leb (first_size b) (first_size a) in
    ground (
      arith,
      contains-append (embedded_paths files) (group_paths (largest_first groups)) q,
      contains-group_paths (largest_first groups) q,
      any-sorted le (holds_path q) groups,
      any-by_hexdigest [] files q,
    )

module _ (sizes : String → ℕ) where
  -- The files of a digest have one size.
  abbrev pub IsSized : SnapshotFile → Type 0
  IsSized f = f.hexdigest ≢ "" → f.file_size ≡ sizes f.hexdigest

  group_size-append :
      (h : String) (files : List SnapshotFile) (f : SnapshotFile)
      → IsDigestGroup IsSized (h, files)
      → f.file_size ≡ sizes h
      → group_size (h, files ++ f ∷ []) ≡ group_size (h, files) + (f.file_size + 1)
  group_size-append h [] f k e = absurd (k.1 refl)
  group_size-append h (g ∷ files) f (n, _, ((sized, d), rest)) e =
      let same : g.file_size ≡ f.file_size = sized (λ z. n (sym d ∙ z)) ∙ ap sizes d ∙ sym e in
      ap (λ m. (g.file_size + 1) * m) (length-snoc (g ∷ files) f)
      ∙ mul-suc (g.file_size + 1) (length (g ∷ files))
      ∙ ground (arith, same)

  size-add_file :
      (groups : List Group) (f : SnapshotFile)
      → f.hexdigest ≢ ""
      → IsSized f
      → All (IsDigestGroup IsSized) groups
      → total group_size (add_file groups f) ≡ total group_size groups + (f.file_size + 1)
  unfolding add_file
  size-add_file [] f n z k = ground arith
  size-add_file ((h, files) ∷ groups) f n z k = elim (Bool-cases (h == f.hexdigest)) [
    | inl e ↦
        (let same : h ≡ f.hexdigest = (eq_iff h f.hexdigest).0 e in
          ground (arith, e, group_size-append h files f k.0 (z n ∙ ap sizes (sym same))))
    | inr e ↦ ground (arith, e, size-add_file groups f n z k.1)
  ]

  size-by_hexdigest :
      (groups : List Group) (files : List SnapshotFile)
      → All IsSized files
      → All (IsDigestGroup IsSized) groups
      → total embedded_size files + total group_size (by_hexdigest groups files)
        ≡ total group_size groups + total (λ f. 1 + f.file_size) files
  unfolding by_hexdigest
  size-by_hexdigest groups [] z k = omega arith
  size-by_hexdigest groups (f ∷ files) z k = elim (Bool-cases (f.hexdigest == "")) [
    | inl e ↦ ground (arith, e, size-by_hexdigest groups files z.1 k)
    | inr e ↦
        (let n : f.hexdigest ≢ "" = λ p. ground (arith, e, (eq_iff f.hexdigest "").1 p) in
          ground (
            arith,
            e,
            size-add_file groups f n z.0 k,
            size-by_hexdigest (add_file groups f) files z.1
                (add_file-IsDigestGroup IsSized groups f n z.0 k),
          ))
  ]

  -- The two loops count for all of the files.
  pub size-both :
      (files : List SnapshotFile)
      → All IsSized files
      → total embedded_size files + total group_size (largest_first (by_hexdigest [] files))
        ≡ total (λ f. 1 + f.file_size) files
  unfolding largest_first
  size-both files z = ground (
    arith,
    size-by_hexdigest [] files z tt,
    total-sorted (λ a b. leb (first_size b) (first_size a)) group_size (by_hexdigest [] files),
  )
