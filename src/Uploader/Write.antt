-- ===== src/Uploader/Write.antt =====
-- `write_hashes_to_storage` against its purpose: each digest that a file of the snapshot still has is
-- in the storage afterwards.
use astacus.Prelude.{
  ℕ, suc, ◌+◌, ◌≡◌, ◌≢◌, refl, ap, ◌∙◌, Bool, true, false, not, ◌&&◌, Option, some, String, List,
  [], ◌∷◌, map, any, All, All-sorted, string_le, arith, ◌==◌, string_eq, nat_eq, eq_iff, Bool-cases,
  inl, inr, contains, to_set, length, length-sorted, total, total-sorted, any-sorted, one_if, leb,
}
use astacus.Exceptions.{returned}
use astacus.Ipc.{SnapshotHash}
use astacus.Progress.{fresh, start, add_total}
use astacus.Storage.Interface.{HexDigestStorage, HexDigestContract}
use astacus.Snapshotter.{Rows}
use astacus.Snapshotter.Queries.{get_files_for_digest, with_digest, by_path}
use astacus.Uploader.{
  Work, Run, works, first_size, has_files, largest_first, upload_all, write_hashes_to_storage,
}
use astacus.Uploader.All.{can_upload, IsWork, stored_in, upload_all-IsUploaded}

start-fresh : (n : ℕ) → start n fresh ≡ (returned tt, record fresh { total = n })
unfolding start add_total
start-fresh n = ground arith

with_digest-All : (rows : Rows) (h : String) → All (λ r. r.1.hexdigest ≡ h) (with_digest h rows)
unfolding with_digest
with_digest-All [] h = tt
with_digest-All ((path, f) ∷ rows) h = elim (Bool-cases (f.hexdigest == h)) [
  | inl e ↦ rw (e, All) ((eq_iff f.hexdigest h).0 e, with_digest-All rows h)
  | inr e ↦ rw (e, All) (with_digest-All rows h)
]

All-files :
    (h : String) (rows : Rows)
    → All (λ r. r.1.hexdigest ≡ h) rows
    → All (λ f. f.hexdigest ≡ h) (map (λ r. r.1) rows)
All-files h [] k = tt
All-files h (r ∷ rows) k = (k.0, All-files h rows k.1)

files_have_digest :
    (rows : Rows) (h : String) → All (λ f. f.hexdigest ≡ h) (get_files_for_digest rows h)
unfolding get_files_for_digest by_path
files_have_digest rows h = All-files h (by_path (with_digest h rows)) (
    All-sorted (λ r. r.1.hexdigest ≡ h) (λ a b. string_le a.0 b.0) (with_digest h rows)
      (with_digest-All rows h))

module _ {S : Type 0} (storage : HexDigestStorage S (List ℕ)) (hash : List ℕ → String)
    (held : String → Option (List ℕ)) (rows : Rows) where
  -- a file of the snapshot that is there has the digest
  abbrev pub is_held : String → Bool
  is_held h = can_upload storage hash held (h, get_files_for_digest rows h)

  -- The snapshot lists a file for the digest, which is not empty.
  abbrev pub IsRequested : String → Type 0
  IsRequested h = (h ≢ "") × (has_files (h, get_files_for_digest rows h) ≡ true)

  works-IsWork : (hs : List String) → All IsRequested hs → All IsWork (works rows hs)
  unfolding works
  works-IsWork [] k = tt
  works-IsWork (h ∷ hs) k = ((k.0.0, files_have_digest rows h), works-IsWork hs k.1)

  works_with_files :
      (hs : List String) → All IsRequested hs → any (λ w. not (has_files w)) (works rows hs) ≡ false
  unfolding works
  works_with_files [] k = refl
  works_with_files (h ∷ hs) k = ground (arith, k.0.1, works_with_files hs k.1)

  length-works : (hs : List String) → length (works rows hs) ≡ length hs
  unfolding works
  length-works [] = refl
  length-works (h ∷ hs) = ap suc (length-works hs)

  stored_in-works :
      (hs : List String) (k : String)
      → stored_in storage hash held (works rows hs) k ≡ (contains hs k && is_held k)
  unfolding works
  stored_in-works [] k = refl
  stored_in-works (h ∷ hs) k = ground (arith, stored_in-works hs k, eq_iff h k)

  total-works :
      (f : Bool → ℕ) (hs : List String)
      → total (λ w. f (can_upload storage hash held w)) (works rows hs)
        ≡ total (λ h. f (is_held h)) hs
  unfolding works
  total-works f [] = refl
  total-works f (h ∷ hs) = ap (λ n. f (is_held h) + n) (total-works f hs)

  abbrev largest : List String → List Work
  largest hs = largest_first (works rows hs)

  largest-IsWork : (hs : List String) → All IsRequested hs → All IsWork (largest hs)
  unfolding largest_first
  largest-IsWork hs k =
      All-sorted IsWork (λ a b. leb (first_size b) (first_size a)) (works rows hs)
        (works-IsWork hs k)

  length-largest : (hs : List String) → length (largest hs) ≡ length hs
  unfolding largest_first
  length-largest hs =
      length-sorted (λ a b. leb (first_size b) (first_size a)) (works rows hs) ∙ length-works hs

  stored_in-largest :
      (hs : List String) (k : String)
      → stored_in storage hash held (largest hs) k ≡ (contains hs k && is_held k)
  unfolding largest_first
  stored_in-largest hs k =
      any-sorted (λ a b. leb (first_size b) (first_size a))
        (λ w. w.0 == k && can_upload storage hash held w) (works rows hs)
      ∙ stored_in-works hs k

  total-largest :
      (f : Bool → ℕ) (hs : List String)
      → total (λ w. f (can_upload storage hash held w)) (largest hs) ≡ total (λ h. f (is_held h)) hs
  unfolding largest_first
  total-largest f hs =
      total-sorted (λ a b. leb (first_size b) (first_size a))
        (λ w. f (can_upload storage hash held w)) (works rows hs)
      ∙ total-works f hs

  -- the run of the workers from the start of the progress meter on
  write_hashes_to_storage-upload_all :
      (hashes : List SnapshotHash) (s s' : Run S)
      → s.progress ≡ fresh
      → All IsRequested (to_set (map (λ h. h.hexdigest) hashes))
      → upload_all storage hash
          (λ _. held)
          true
          (λ _. true)
          (largest (to_set (map (λ h. h.hexdigest) hashes)))
          (record s {
            progress = record fresh {
              total = length (works rows (to_set (map (λ h. h.hexdigest) hashes)));
            };
            total = 0;
            stored = 0;
          })
        ≡ (returned true, s')
      → write_hashes_to_storage storage hash (λ _. held) true (λ _. true) rows hashes s
        ≡ (returned (s'.total, s'.stored), s')
  unfolding write_hashes_to_storage
  write_hashes_to_storage-upload_all hashes s s' p k run =
      let hs = to_set (map (λ h. h.hexdigest) hashes) in
      ground (
        arith,
        works_with_files hs k,
        start-fresh (length (works rows hs)),
        run,
        p,
        ap (λ q. start (length (works rows hs)) q) p,
      )

  module _ (IsValid : S → Type 0) (view : S → String → Option (List ℕ)) where
    -- What an upload of the digests `hs` does to the storage and the progress meter.
    pub record IsWritten (hs : List String) (s s' : Run S) : Type 0 where
      pub valid : IsValid s'.storage
      pub handled : s'.progress.handled ≡ total (λ h. one_if (is_held h)) hs
      pub failed : s'.progress.failed ≡ total (λ h. one_if (not (is_held h))) hs
      pub same_total : s'.progress.total ≡ length hs
      pub has :
          (h : String)
          → contains hs h && is_held h ≡ true
          → (bytes : List ℕ) × (view s'.storage h ≡ some bytes) × (hash bytes ≡ h)
      pub keeps :
          (h : String) → contains hs h && is_held h ≡ false → view s'.storage h ≡ view s.storage h

    -- Where no digest is empty and the snapshot lists a file for each, the progress meter is new, the
    -- operation is not stopped, the snapshot's files do not change meanwhile and the storage keeps its
    -- contract, an upload that validates returns. Under each of the digests that a file of the snapshot
    -- still has, the storage then holds bytes of that digest, and under the others what it held. The
    -- progress meter counts the former as handled and the latter as failed.
    pub write_hashes_to_storage-IsWritten :
        HexDigestContract storage IsValid view
        → (hashes : List SnapshotHash) (s : Run S) → IsValid s.storage
        → s.progress ≡ fresh
        → All IsRequested (to_set (map (λ h. h.hexdigest) hashes))
        → (sizes : ℕ × ℕ) × (s' : Run S) × (write_hashes_to_storage storage hash
              (λ _. held)
              true
              (λ _. true)
              rows
              hashes
              s
            ≡ (returned sizes, s'))
          × IsWritten (to_set (map (λ h. h.hexdigest) hashes)) s s'
    write_hashes_to_storage-IsWritten contract hashes s v p k =
        let hs = to_set (map (λ h. h.hexdigest) hashes) in
        let todo = works rows hs in
        let begun : Run S = record s {
          progress = record fresh { total = length todo };
          total = 0;
          stored = 0;
        } in
        let (s', run, up) =
          upload_all-IsUploaded storage hash held IsValid view contract (largest_first todo) begun
            (largest-IsWork hs k) v refl (ground (arith, length-largest hs, length-works hs)) in
        (
          (s'.total, s'.stored),
          s',
          write_hashes_to_storage-upload_all hashes s s' p k run,
          record {
            valid = up.valid;
            handled = ground (arith, up.handled, total-largest one_if hs);
            failed = ground (arith, up.failed, total-largest (λ b. one_if (not b)) hs);
            same_total = up.same_total ∙ length-works hs;
            has = λ h t. up.has h (stored_in-largest hs h ∙ t);
            keeps = λ h t. up.keeps h (stored_in-largest hs h ∙ t);
          },
        )
