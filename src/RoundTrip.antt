-- ===== src/RoundTrip.antt =====
-- A backup of one node and its restore to another: astacus/node/snapshot_op.py, uploader.py and
-- download.py together.
pub mod Rows
pub mod Digests
pub mod Source
pub mod Upload
pub mod Copy
mod Tests
use astacus.Prelude.{
  ℕ, ◌≡◌, ◌≢◌, refl, sym, ap, subst, ◌∙◌, Bool, true, false, Option, none, some, String, List, [],
  ◌∷◌, arith, ◌==◌, string_eq, eq_iff, lookup, length, inl, inr, Option-cases,
}
use astacus.Exceptions.{Outcome, returned, raised}
use astacus.Progress.{fresh}
use astacus.Storage.Interface.{HexDigestStorage, HexDigestContract}
use astacus.Snapshotter.Groups.{
  SnapshotGroup, any_match, root_globs, default_embedded_file_size, groups_from_snapshot_req,
  any_match-groups_from_snapshot_req, groups_from_snapshot_req-agree,
}
use astacus.Snapshotter.{File, Dir, Disk, perform_snapshot}
use astacus.Snapshotter.Refresh.{row_of}
use astacus.Snapshotter.Perform.{Agree, perform_snapshot_describes_source}
use astacus.Snapshotter.Queries.{get_snapshot_state}
use astacus.Uploader.{Run, write_hashes_to_storage}
use astacus.Downloader.{Root, Restore, download_from_storage}
use astacus.Downloader.Files.{Matches}
use Source.{first_disk, IsFirst-snapshot, row_of-IsRowOf}
use Upload.{held, reported, upload_has_digests}
use Copy.{restore_copies, IsCopied}

-- the bytes of a file
abbrev pub content_of : Dir → String → Option (List ℕ)
content_of dir q = elim (lookup dir q) [ none ↦ none | some g ↦ some g.content ]

-- a node with nothing uploaded yet
abbrev pub begun : {S : Type 0} → S → Run S
begun st = record { storage = st; progress = fresh; total = 0; stored = 0; calls = 0 }

-- another node with files, and no rows yet
abbrev pub other_node : {S : Type 0} → S → Dir → Restore S
other_node st other = record {
  root = record { storage = st; rows = []; files = other };
  progress = fresh;
  calls = 0;
}

module _ (glob_match : String → String → Bool) (hash b64 : List ℕ → String)
    (unb64 original : String → List ℕ) (groups : List SnapshotGroup)
    (agree : Agree glob_match hash b64 groups) (not_empty : (bytes : List ℕ) → hash bytes ≢ "")
    (decodes : (bytes : List ℕ) → unb64 (b64 bytes) ≡ bytes) (src : Dir)
    (no_collision : (q : String) (g : File) (bytes : List ℕ)
      → lookup src q ≡ some g
      → hash bytes ≡ hash g.content
      → original (hash bytes) ≡ bytes) where
  -- the groups of the request that the restore sends with the snapshot's globs
  abbrev restored : List SnapshotGroup
  restored = groups_from_snapshot_req (root_globs groups)

  restored_agree : Agree glob_match hash b64 restored
  restored_agree q t =
      (some default_embedded_file_size, groups_from_snapshot_req-agree glob_match q _ t)

  restored_covers :
      (q : String) → any_match glob_match groups q ≡ true → any_match glob_match restored q ≡ true
  restored_covers q t = any_match-groups_from_snapshot_req glob_match q groups t

  Matches-same :
      (q : String) (g : File) (bytes : List ℕ)
      → any_match glob_match groups q ≡ true
      → lookup src q ≡ some g
      → Matches hash unb64 (row_of glob_match hash b64 groups q g) bytes
      → bytes ≡ g.content
  Matches-same q g bytes t found m =
      let is = row_of-IsRowOf glob_match hash b64 groups agree q g t (not_empty g.content) in
      elim is.content [
        | inl (empty, content) ↦ m.0 empty (b64 g.content) content ∙ decodes g.content
        | inr (digest, _) ↦
            (let same : hash bytes ≡ hash g.content =
                m.1 (λ z. not_empty g.content (sym digest ∙ z)) ∙ digest in
              sym (no_collision q g bytes found same)
              ∙ ap original same
              ∙ no_collision q g g.content found refl)
      ]

  module _ {S : Type 0} (storage : HexDigestStorage S (List ℕ)) (IsValid : S → Type 0)
      (view : S → String → Option (List ℕ))
      (contract : HexDigestContract storage IsValid view) where
    -- A node takes its first snapshot, uploads the digests that it reports, and another node that has
    -- no rows restores the snapshot from the storage, by the groups that a download makes of the
    -- snapshot's globs. Where the snapshot's groups agree on their limits, digests are not empty, base64
    -- texts decode to what was encoded, no other bytes have the digest of one of the source's files,
    -- the files do not change meanwhile, the storage keeps its contract, both progress meters are new
    -- and neither operation is stopped, each of the three returns. Of the files that the snapshot's
    -- groups take, the other node then has those of the first one, with their bytes, and no more. It
    -- has no file that only a glob takes, as one with an excluded name, and the files that no glob
    -- takes are as they were.
    backup_then_restore :
        (dst other dst' : Dir) (st : S)
        → IsValid st
        → (disk : Disk) × (perform_snapshot glob_match hash b64 groups (first_disk src dst)
            ≡ (returned tt, disk))
          × (sizes : ℕ × ℕ) × (up : Run S) × (write_hashes_to_storage storage hash
                (λ _. held disk)
                true
                (λ _. true)
                disk.rows
                (reported disk.rows)
                (begun st)
              ≡ (returned sizes, up))
          × (end : Restore S) × (download_from_storage storage unb64
                (λ _. true)
                glob_match
                hash
                b64
                restored
                (some dst')
                (get_snapshot_state groups disk.rows)
                (other_node up.storage other)
              ≡ (returned tt, end))
          × ((q : String)
              → any_match glob_match groups q ≡ true
              → content_of end.root.files q ≡ content_of src q)
          × ((q : String)
              → any_match glob_match groups q ≡ false
              → any_match glob_match restored q ≡ true
              → lookup end.root.files q ≡ none)
          × ((q : String)
              → any_match glob_match restored q ≡ false
              → lookup end.root.files q ≡ lookup other q)
    unfolding get_snapshot_state
    backup_then_restore dst other dst' st v =
        let (disk, taken, _, _, _) =
          perform_snapshot_describes_source glob_match hash b64 groups agree (first_disk src dst) in
        let first = IsFirst-snapshot glob_match hash b64 groups agree src dst disk taken in
        let (sizes, up, uploaded, valid, has) =
          upload_has_digests glob_match hash b64 groups agree not_empty storage src disk first
            IsValid view contract (begun st) v refl in
        let (end, restored, copy) =
          restore_copies glob_match hash b64 unb64 groups restored agree restored_agree
            restored_covers not_empty decodes storage IsValid view contract src disk first
            (λ h. length (original h))
            (λ q g found. ap length (no_collision q g g.content found refl)) (root_globs groups)
            other dst' up.storage 0 valid has in
        (
          disk,
          taken,
          sizes,
          up,
          uploaded,
          end,
          restored,
          λ q t. elim (Option-cases (lookup src q)) [
            | inl e ↦ ground (arith, e, copy.removed q t e)
            | inr (g, e) ↦
                (let (g', at, m) = copy.copied q g t e in
                  ground (arith, e, at, Matches-same q g g'.content t e m))
          ],
          copy.excluded,
          copy.others,
        )
