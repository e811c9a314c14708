-- ===== src/Downloader/Files.antt =====
-- What the restore of some of the files does to the root, where the storage keeps its contract.
use astacus.Prelude.{
  ℕ, ◌≡◌, ◌≢◌, refl, sym, ap, subst, ◌∙◌, true, false, Option, none, some, String, List, [], ◌∷◌,
  ◌++◌, arith, ◌==◌, string_eq, ==_refl, eq_iff, if◌then◌else◌, Bool-cases, inl, inr, contains,
  contains-append, lookup, lookup-insert,
}
use mathlib.Core.Option.{some-injective}
use astacus.Ipc.{SnapshotFile}
use astacus.Storage.Interface.{HexDigestStorage}
use astacus.Snapshotter.{File}
use astacus.Downloader.{Root, already_exists, write_file}

-- the file of a path among those to restore
abbrev pub file_of : List SnapshotFile → String → Option SnapshotFile
file_of [] q = none
file_of (f ∷ files) q = if f.relative_path == q then some f else file_of files q

module _ (hash : List ℕ → String) (unb64 : String → List ℕ) where
  -- The bytes are the embedded ones, or have the digest of the file.
  abbrev pub Matches : SnapshotFile → List ℕ → Type 0
  Matches f bytes =
      (f.hexdigest ≡ "" → (c : String) → f.content_b64 ≡ some c → bytes ≡ unb64 c)
      × (f.hexdigest ≢ "" → hash bytes ≡ f.hexdigest)

  module _ {S : Type 0} (storage : HexDigestStorage S (List ℕ)) (IsValid : S → Type 0)
      (view : S → String → Option (List ℕ)) (wanted : List SnapshotFile) where
    -- the root has a file with the bytes of a wanted one
    abbrev pub Has : Root S → String → SnapshotFile → Type 0
    Has s q f = (g : File) × (lookup s.files q ≡ some g) × Matches f g.content

    -- The wanted files that the rows have already are in the root.
    abbrev pub Existing : Root S → Type 0
    Existing s =
        (q : String) (f : SnapshotFile)
        → file_of wanted q ≡ some f
        → already_exists s.rows f ≡ true
        → Has s q f

    -- From `s` on, the wanted files of the paths `ps` have been restored, and no others written.
    pub record IsRestored (ps : List String) (s s' : Root S) : Type 0 where
      pub same_rows : s'.rows ≡ s.rows
      pub valid : IsValid s'.storage
      pub same_view : (k : String) → view s'.storage k ≡ view s.storage k
      pub written :
          (q : String) (f : SnapshotFile)
          → contains ps q ≡ true
          → file_of wanted q ≡ some f
          → already_exists s.rows f ≡ false
          → Has s' q f
      pub kept : (q : String) → contains ps q ≡ false → lookup s'.files q ≡ lookup s.files q
      pub kept_existing :
          (q : String) (f : SnapshotFile)
          → file_of wanted q ≡ some f
          → already_exists s.rows f ≡ true
          → lookup s'.files q ≡ lookup s.files q

    pub IsRestored-none : (s : Root S) → IsValid s.storage → IsRestored [] s s
    IsRestored-none s v = record {
      same_rows = refl;
      valid = v;
      same_view = λ k. refl;
      written = λ q f c. absurd (ground (arith, c));
      kept = λ q c. refl;
      kept_existing = λ q f w e. refl;
    }

    pub Existing-after :
        (ps : List String) (s s' : Root S) → Existing s → IsRestored ps s s' → Existing s'
    Existing-after ps s s' old r q f w e =
        let e' : already_exists s.rows f ≡ true =
          ap (λ rows. already_exists rows f) (sym r.same_rows) ∙ e in
        let (g, at, m) = old q f w e' in (g, r.kept_existing q f w e' ∙ at, m)

    pub IsRestored-trans :
        (ps qs : List String) (a b c : Root S)
        → IsRestored ps a b
        → IsRestored qs b c
        → IsRestored (ps ++ qs) a c
    IsRestored-trans ps qs a b c x y =
        let same : (f : SnapshotFile) → already_exists b.rows f ≡ already_exists a.rows f =
          λ f. ap (λ rows. already_exists rows f) x.same_rows in
        record {
          same_rows = y.same_rows ∙ x.same_rows;
          valid = y.valid;
          same_view = λ k. y.same_view k ∙ x.same_view k;
          written = λ q f t w e. elim (Bool-cases (contains qs q)) [
            | inl i ↦ y.written q f i w (same f ∙ e)
            | inr o ↦
                (let (g, at, m) =
                    x.written q f (ground (arith, t, o, contains-append ps qs q)) w e in
                  (g, y.kept q o ∙ at, m))
          ];
          kept = λ q t.
              y.kept q (ground (arith, t, contains-append ps qs q))
              ∙ x.kept q (ground (arith, t, contains-append ps qs q));
          kept_existing = λ q f w e. y.kept_existing q f w (same f ∙ e) ∙ x.kept_existing q f w e;
        }

    other_path :
        (f g : SnapshotFile) (q : String)
        → file_of wanted f.relative_path ≡ some f
        → file_of wanted q ≡ some g
        → f.relative_path ≡ q
        → f ≡ g
    other_path f g q w u p = some-injective f g (sym w ∙ ap (λ x. file_of wanted x) p ∙ u)

    one_path :
        (f g : SnapshotFile) (q : String)
        → file_of wanted f.relative_path ≡ some f
        → contains (f.relative_path ∷ []) q ≡ true
        → file_of wanted q ≡ some g
        → (f.relative_path ≡ q) × (f ≡ g)
    one_path f g q w t u =
        let p : f.relative_path ≡ q = (eq_iff f.relative_path q).0 (ground (arith, t)) in
        (p, other_path f g q w u p)

    -- the write of a file that the rows do not have
    pub IsRestored-write :
        (f : SnapshotFile) (bytes : List ℕ) (s : Root S) (st : S)
        → file_of wanted f.relative_path ≡ some f
        → already_exists s.rows f ≡ false
        → Matches f bytes
        → IsValid st
        → ((k : String) → view st k ≡ view s.storage k)
        → IsRestored
            (f.relative_path ∷ [])
            s
            (record s { storage = st; files = write_file f bytes s.files })
    IsRestored-write f bytes s st w e m v same = record {
      same_rows = refl;
      valid = v;
      same_view = same;
      written = λ q g t u n.
          let (p, here) = one_path f g q w t u in
          (
            record { content = bytes; mtime_ns = f.mtime_ns },
            lookup-insert s.files f.relative_path
                  (record { content = bytes; mtime_ns = f.mtime_ns }) q
                ∙ rw p (rw (==_refl q) refl),
            subst (λ h. Matches h bytes) here m,
          );
      kept = λ q t.
          lookup-insert s.files f.relative_path (record { content = bytes; mtime_ns = f.mtime_ns })
            q
          ∙ ground (arith, t);
      kept_existing = λ q g u n.
          lookup-insert s.files f.relative_path (record { content = bytes; mtime_ns = f.mtime_ns })
            q
          ∙ ground (arith, u, n, w, e, eq_iff f.relative_path q, other_path f g q w u);
    }

    pub IsRestored-existing :
        (f : SnapshotFile) (s : Root S)
        → file_of wanted f.relative_path ≡ some f
        → already_exists s.rows f ≡ true
        → IsValid s.storage
        → IsRestored (f.relative_path ∷ []) s s
    IsRestored-existing f s w e v = record {
      same_rows = refl;
      valid = v;
      same_view = λ k. refl;
      written = λ q g t u n. absurd (ground (arith, e, n, (one_path f g q w t u).1));
      kept = λ q t. refl;
      kept_existing = λ q g u n. refl;
    }
