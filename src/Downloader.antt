-- ===== src/Downloader.antt =====
-- astacus/node/download.py: the restore of a node's files from the storage. The workers of the pool
-- write different paths, and are run one by one in the order in which their results are taken up.
-- The snapshotter's source is the root that is restored to, and its destination plays no part after the
-- snapshot; access rights and owners are left out.
pub mod Files
pub mod Groups
pub mod Restored
pub mod ByDigest
pub mod Complete
mod Tests
use astacus.Prelude.{
  ℕ, suc, ◌+◌, ◌*◌, Bool, true, false, not, ◌&&◌, ◌||◌, Option, none, some, String, List, [], ◌∷◌,
  ◌++◌, map, leb, ◌==◌, string_eq, contains, difference, to_set, lookup, insert, length, total,
  sorted, if◌then◌else◌,
}
use astacus.Exceptions.{file_not_found, index_error, assertion, Outcome, returned, raised, Method}
use astacus.Ipc.{SnapshotFile, SnapshotState, equals_excluding_mtime}
use astacus.Progress.{Progress, start, add_fail, done, download_success}
use astacus.Storage.Interface.{HexDigestStorage}
use astacus.Snapshotter.{File, Dir, Rows, Disk, unlink_all, perform_snapshot}
use astacus.Snapshotter.Groups.{SnapshotGroup}
use astacus.Snapshotter.Queries.{get_file, get_all_paths}

-- what a worker reads and writes, and the rows of the snapshot, which it only reads
pub record Root (S : Type 0) : Type 0 where
  pub storage : S
  pub rows : Rows
  pub files : Dir

-- `hexdigest_to_snapshotfiles.setdefault(snapshotfile.hexdigest, []).append(snapshotfile)`
unfoldable pub add_file :
    List (String × List SnapshotFile) → SnapshotFile → List (String × List SnapshotFile)
add_file [] f = (f.hexdigest, f ∷ []) ∷ []
add_file ((h, files) ∷ groups) f =
    let rest = add_file groups f in
    if h == f.hexdigest then (h, files ++ f ∷ []) ∷ groups else (h, files) ∷ rest

unfoldable pub by_hexdigest :
    List (String × List SnapshotFile) → List SnapshotFile → List (String × List SnapshotFile)
by_hexdigest groups [] = groups
by_hexdigest groups (f ∷ files) =
    if f.hexdigest == "" then by_hexdigest groups files else by_hexdigest (add_file groups f) files

abbrev pub first_size : String × List SnapshotFile → ℕ
first_size (h, []) = 0
first_size (h, f ∷ files) = f.file_size

unfoldable pub largest_first : List (String × List SnapshotFile) → List (String × List SnapshotFile)
largest_first groups = sorted (λ a b. leb (first_size b) (first_size a)) groups

unfoldable pub already_exists : Rows → SnapshotFile → Bool
unfolding get_file
already_exists rows f = elim (get_file rows f.relative_path) [
  | none ↦ false
  | some existing ↦ equals_excluding_mtime existing f
]

-- the local variables of `download_from_storage`, with the number of calls of
-- `still_running_callback` so far
pub record Restore (S : Type 0) : Type 0 where
  pub root : Root S
  pub progress : Progress
  pub calls : ℕ

abbrev pub write_file : SnapshotFile → List ℕ → Dir → Dir
write_file f bytes files =
    insert files f.relative_path (record { content = bytes; mtime_ns = f.mtime_ns })

-- `unb64` is `base64.b64decode`.
module _ {S : Type 0} (storage : HexDigestStorage S (List ℕ)) (unb64 : String → List ℕ) where
  -- `_download_snapshotfile`
  unfoldable pub download_snapshotfile : SnapshotFile → Method (Root S) (Unit {0})
  download_snapshotfile f s =
      if already_exists s.rows f
      then (returned tt, s)
      else if f.hexdigest == ""
      then (elim f.content_b64 [
        | none ↦ (raised assertion, s)
        | some c ↦ (returned tt, record s { files = write_file f (unb64 c) s.files })
      ])
      else (let (r, st) = storage.download_hexdigest f.hexdigest s.storage in
          elim r [
            | raised e ↦ (raised e, record s { storage = st })
            | returned bytes ↦
                (returned tt, record s { storage = st; files = write_file f bytes s.files })
          ])

  -- `_copy_snapshotfile`
  unfoldable pub copy_snapshotfile : SnapshotFile → SnapshotFile → Method (Root S) (Unit {0})
  copy_snapshotfile first f s =
      if already_exists s.rows f
      then (returned tt, s)
      else (elim (lookup s.files first.relative_path) [
        | none ↦ (raised file_not_found, s)
        | some g ↦ (returned tt, record s { files = write_file f g.content s.files })
      ])

  unfoldable pub copy_all : SnapshotFile → List SnapshotFile → Method (Root S) (Unit {0})
  copy_all first [] s = (returned tt, s)
  copy_all first (f ∷ files) s =
      let (r, s') = copy_snapshotfile first f s in
      let rest = copy_all first files s' in elim r [ raised e ↦ (raised e, s') | returned _ ↦ rest ]

  -- `_download_snapshotfiles_from_storage`
  unfoldable pub download_snapshotfiles : List SnapshotFile → Method (Root S) (Unit {0})
  download_snapshotfiles [] s = (raised index_error, s)
  download_snapshotfiles (f ∷ files) s =
      let (r, s') = download_snapshotfile f s in
      let rest = copy_all f files s' in elim r [ raised e ↦ (raised e, s') | returned _ ↦ rest ]

  -- a worker's method, and the progress on it in the main thread
  unfoldable pub with_progress : Method (Root S) (Unit {0}) → ℕ → Method (Restore S) (Unit {0})
  with_progress work size s =
      let (r, root) = work s.root in
      let (p, progress) = download_success size s.progress in
      elim r [
        | raised e ↦ (raised e, record s { root = root })
        | returned _ ↦ (p, record s { root = root; progress = progress })
      ]

  -- the loop over the files without a digest
  unfoldable pub download_embedded : List SnapshotFile → Method (Restore S) (Unit {0})
  download_embedded [] s = (returned tt, s)
  download_embedded (f ∷ files) s =
      let (r, s') = with_progress (download_snapshotfile f) (f.file_size + 1) s in
      let rest = download_embedded files s' in
      let skipped = download_embedded files s in
      if not (f.hexdigest == "")
      then skipped
      else (elim r [ raised e ↦ (raised e, s') | returned _ ↦ rest ])

  module _ (still : ℕ → Bool) where
    -- `parallel_map_to` with `_cb`
    unfoldable pub download_groups : List (String × List SnapshotFile) → Method (Restore S) Bool
    download_groups [] s = (returned true, s)
    download_groups ((h, files) ∷ groups) s =
        let (r, s') =
          with_progress (download_snapshotfiles files) ((first_size (h, files) + 1) * length files)
            s in
        let s'' = record s' { calls = suc s'.calls } in
        let rest = download_groups groups s'' in
        elim r [
          | raised e ↦ (raised e, s')
          | returned _ ↦ if still s'.calls then rest else (returned false, s'')
        ]

    -- the part after the snapshot of the root
    unfoldable pub download_files : List SnapshotFile → Method (Restore S) (Unit {0})
    download_files files s =
        let (p, progress) = start (total (λ f. 1 + f.file_size) files) s.progress in
        let (r, embedded) = download_embedded files (record s { progress = progress }) in
        let (q, s') = download_groups (largest_first (by_hexdigest [] files)) embedded in
        let extra =
          difference (to_set (get_all_paths s'.root.rows)) (map (λ f. f.relative_path) files) in
        let cleaned = (record s' {
          root = record s'.root { files = unlink_all extra s'.root.files };
        }) in
        elim p [
          | raised e ↦ (raised e, record s { progress = progress })
          | returned _ ↦ elim r [
            | raised e ↦ (raised e, embedded)
            | returned _ ↦ elim q [
              | raised e ↦ (raised e, s')
              | returned false ↦
                  (let (x, failed) = add_fail 1 s'.progress in
                    let (y, ended) = done failed in
                    elim x [
                      | raised e ↦ (raised e, record s' { progress = failed })
                      | returned _ ↦ (y, record s' { progress = ended })
                    ])
              | returned true ↦
                  (let (y, ended) = done cleaned.progress in
                    (y, record cleaned { progress = ended }))
            ]
          ]
        ]

    -- `download_from_storage`
    unfoldable pub download_from_storage :
        (String → String → Bool)
        → (hash b64 : List ℕ → String) → List SnapshotGroup
        → Option Dir
        → SnapshotState
        → Method (Restore S) (Unit {0})
    unfolding download_files
    download_from_storage glob_match hash b64 groups dst state s =
        let (r, disk) =
          perform_snapshot glob_match hash b64 groups
            (record { rows = s.root.rows; src = s.root.files; dst = dst }) in
        elim r [
          | raised e ↦ (raised e, s)
          | returned _ ↦
              download_files state.files (record s { root = record s.root { rows = disk.rows } })
        ]
