-- ===== src/Snapshotter/Queries.antt =====
-- The queries on the rows (astacus/node/sqlite_snapshot.py), the release of files, and the
-- operations of astacus/node/snapshot_op.py and astacus/node/clear.py on a snapshot. A text column's
-- order is that of its code points.
use astacus.Prelude.{
  ℕ, Bool, not, Option, none, some, String, List, [], ◌∷◌, map, ◌==◌, string_eq, contains, filter,
  remove, lookup, length, total, sorted, string_le, if◌then◌else◌,
}
use astacus.Exceptions.{returned, raised, Method}
use astacus.Ipc.{SnapshotFile, SnapshotHash, SnapshotState}
use astacus.Progress.{Progress, start, add_success, done}
use astacus.Snapshotter.Groups.{SnapshotGroup, root_globs}
use astacus.Snapshotter.{Rows, Disk, unlink_all, perform_snapshot}

unfoldable pub get_file : Rows → String → Option SnapshotFile
get_file rows relative_path = lookup rows relative_path

-- `order by relative_path`, which is the primary key
unfoldable pub by_path : Rows → Rows
by_path rows = sorted (λ a b. string_le a.0 b.0) rows

unfoldable pub get_all_files : Rows → List SnapshotFile
unfolding by_path
get_all_files rows = map (λ r. r.1) (by_path rows)

unfoldable pub get_all_paths : Rows → List String
unfolding by_path
get_all_paths rows = map (λ r. r.0) (by_path rows)

unfoldable pub with_digest : String → Rows → Rows
with_digest hexdigest [] = []
with_digest hexdigest ((path, f) ∷ rows) =
    let rest = with_digest hexdigest rows in
    if f.hexdigest == hexdigest then (path, f) ∷ rest else rest

unfoldable pub get_files_for_digest : Rows → String → List SnapshotFile
unfolding by_path with_digest
get_files_for_digest rows hexdigest = map (λ r. r.1) (by_path (with_digest hexdigest rows))

unfoldable pub hashes_in : List SnapshotFile → List SnapshotHash
hashes_in [] = []
hashes_in (f ∷ files) =
    let rest = hashes_in files in
    if f.hexdigest == ""
    then rest
    else record { hexdigest = f.hexdigest; size = f.file_size } ∷ rest

unfoldable pub get_all_digests : Rows → List SnapshotHash
unfolding hashes_in
get_all_digests rows =
    sorted (λ a b. string_le a.hexdigest b.hexdigest) (hashes_in (map (λ r. r.1) rows))

unfoldable pub get_total_size : Rows → ℕ
get_total_size rows = total (λ r. r.1.file_size) rows

unfoldable pub get_snapshot_state : List SnapshotGroup → Rows → SnapshotState
unfolding get_all_files
get_snapshot_state groups rows = record {
  root_globs = root_globs groups;
  files = get_all_files rows;
}

-- the paths of the rows whose digest is in the list
unfoldable pub released : List String → Rows → List String
released hexdigests [] = []
released hexdigests ((path, f) ∷ rows) =
    let rest = released hexdigests rows in
    if contains hexdigests f.hexdigest then path ∷ rest else rest

-- `release`: the files are unlinked in the destination, also where that is the source itself. The
-- rows stay.
unfoldable pub release : List String → Disk → Disk
unfolding released
release hexdigests disk =
    let paths = released (filter (λ h. not (h == "")) hexdigests) disk.rows in
    elim disk.dst [
      | none ↦ record disk { src = unlink_all paths disk.src }
      | some d ↦ record disk { dst = some (unlink_all paths d) }
    ]

-- the fields of `SnapshotResult` that `SnapshotOp.perform_snapshot` sets
pub record Taken : Type 0 where
  pub state : SnapshotState
  pub hashes : List SnapshotHash
  pub files : ℕ
  pub total_size : ℕ

module _ (glob_match : String → String → Bool) (hash b64 : List ℕ → String) where
  -- `SnapshotOp.perform_snapshot`, under the snapshotter's lock and with a valid id
  unfoldable pub snapshot_op : List SnapshotGroup → Method Disk Taken
  unfolding get_snapshot_state hashes_in
  snapshot_op groups disk =
      let (r, disk') = perform_snapshot glob_match hash b64 groups disk in
      elim r [
        | raised e ↦ (raised e, disk')
        | returned _ ↦ (
          returned record {
            state = get_snapshot_state groups disk'.rows;
            hashes = hashes_in (get_all_files disk'.rows);
            files = length (get_all_files disk'.rows);
            total_size = total (λ f. f.file_size) (get_all_files disk'.rows);
          },
          disk',
        )
      ]

-- the loop of `ClearOp.clear` over the paths
unfoldable pub clear_paths : List String → Method (Disk × Progress) (Unit {0})
clear_paths [] s = (returned tt, s)
clear_paths (relative_path ∷ paths) (disk, progress) =
    let (r, progress') = add_success 1 progress in
    let disk' : Disk = record disk { src = remove disk.src relative_path } in
    let rest = clear_paths paths (disk', progress') in
    elim r [ raised e ↦ (raised e, (disk', progress')) | returned _ ↦ rest ]

module _ (glob_match : String → String → Bool) (hash b64 : List ℕ → String) where
  -- `ClearOp.clear`, under the snapshotter's lock and with a valid id: the files of the rows are
  -- unlinked in the root, which is the source. The snapshot has a progress meter of its own.
  unfoldable pub clear_op : List SnapshotGroup → Bool → Method (Disk × Progress) (Unit {0})
  unfolding get_all_paths clear_paths
  clear_op groups is_snapshot_outdated (disk, progress) =
      let (r, disk') =
        (if is_snapshot_outdated
          then perform_snapshot glob_match hash b64 groups disk
          else (returned tt, disk)) in
      let (a, started) = start (length disk'.rows) progress in
      let (b, (cleared, counted)) = clear_paths (get_all_paths disk'.rows) (disk', started) in
      let (c, ended) = done counted in
      elim r [
        | raised e ↦ (raised e, (disk', progress))
        | returned _ ↦ elim a [
          | raised e ↦ (raised e, (disk', started))
          | returned _ ↦ elim b [
            | raised e ↦ (raised e, (cleared, counted))
            | returned _ ↦ (c, (cleared, ended))
          ]
        ]
      ]
