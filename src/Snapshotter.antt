-- ===== src/Snapshotter.antt =====
-- astacus/node/snapshotter.py and astacus/node/sqlite_snapshot.py: the snapshot of a node's files. The
-- rows of the database are a dictionary by path. The source holds the regular files outside of the
-- temporary directory; it does not change while a snapshot is taken. The destination
-- holds the content that a file has when it is linked; that a link shares later writes in place with
-- its source is not modelled.
pub mod Groups
pub mod Refresh
pub mod Perform
pub mod Queries
pub mod Removal
pub mod Errors
mod Tests
use astacus.Prelude.{
  ℕ, zero, suc, Bool, true, false, not, ◌&&◌, Option, none, some, String, List, [], ◌∷◌, ◌++◌, map,
  leb, ◌==◌, string_eq, contains, lookup, insert, remove, length, total, sorted, string_le,
  if◌then◌else◌,
}
use astacus.Exceptions.{file_not_found, Outcome, returned, raised, Method}
use astacus.Ipc.{SnapshotFile, SnapshotHash, SnapshotState, underlying_file_is_the_same}
use Groups.{SnapshotGroup, any_match, embedded_file_size_max_for_file, root_globs}

pub record File : Type 0 where
  pub content : List ℕ
  pub mtime_ns : ℕ

abbrev pub Dir : Type 0
Dir = List (String × File)

abbrev pub Rows : Type 0
Rows = List (String × SnapshotFile)

-- The destination is None where it is the source itself (`_same_root_mode`).
pub record Disk : Type 0 where
  pub rows : Rows
  pub src : Dir
  pub dst : Option Dir

-- `read` of `SizeLimitedFile`, from the beginning
unfoldable pub read_limited : ℕ → List ℕ → List ℕ
read_limited zero bytes = []
read_limited (suc n) [] = []
read_limited (suc n) (b ∷ bytes) = b ∷ read_limited n bytes

abbrev pub dst_dir : Disk → Dir
dst_dir disk = elim disk.dst [ none ↦ disk.src | some d ↦ d ]

abbrev pub stat_of : String → File → SnapshotFile
stat_of path f = record {
  relative_path = path;
  file_size = length f.content;
  mtime_ns = f.mtime_ns;
  hexdigest = "";
  content_b64 = none;
}

unfoldable pub file_in_src : Dir → String → Option SnapshotFile
file_in_src src path = elim (lookup src path) [ none ↦ none | some f ↦ some (stat_of path f) ]

-- `_maybe_link`. `os.link` makes both paths one file; the destination here holds what the file has
-- when it is linked, which is what both have as long as the file is not written to in place.
unfoldable pub maybe_link : String → Disk → Disk
maybe_link path disk = elim disk.dst [
  | none ↦ disk
  | some d ↦ elim (lookup disk.src path) [
    | none ↦ disk
    | some f ↦ record disk { dst = some (insert d path f) }
  ]
]

abbrev pub is_embedded : Option ℕ → ℕ → Bool
is_embedded none size = true
is_embedded (some m) size = leb size m

-- `existing is None or not existing.underlying_file_is_the_same(new)`
unfoldable pub has_changed : Option SnapshotFile → SnapshotFile → Bool
unfolding underlying_file_is_the_same
has_changed none new = true
has_changed (some existing) new = not (underlying_file_is_the_same existing new)

-- the files of the source that a group takes
unfoldable pub list_files : (String → Bool) → Dir → List String
list_files taken [] = []
list_files taken ((path, f) ∷ dir) =
    let rest = list_files taken dir in if taken path then path ∷ rest else rest

-- `delete from snapshot_files where relative_path not in …`: the rows that stay, and the paths of the
-- others
unfoldable pub restrict : List String → Rows → Rows
restrict files [] = []
restrict files ((path, f) ∷ rows) =
    let rest = restrict files rows in if contains files path then (path, f) ∷ rest else rest

unfoldable pub gone : List String → Rows → List String
gone files [] = []
gone files ((path, f) ∷ rows) =
    let rest = gone files rows in if contains files path then rest else path ∷ rest

unfoldable pub unlink_all : List String → Dir → Dir
unlink_all [] d = d
unlink_all (path ∷ paths) d = unlink_all paths (remove d path)

-- the paths that have a row, with it, and those that have none
unfoldable pub existing_files : Rows → List String → List (String × Option SnapshotFile)
existing_files rows [] = []
existing_files rows (path ∷ paths) =
    let rest = existing_files rows paths in
    elim (lookup rows path) [ none ↦ rest | some f ↦ (path, some f) ∷ rest ]

unfoldable pub new_files : Rows → List String → List (String × Option SnapshotFile)
new_files rows [] = []
new_files rows (path ∷ paths) =
    let rest = new_files rows paths in
    elim (lookup rows path) [ none ↦ (path, none) ∷ rest | some f ↦ rest ]

-- `_compare_current_snapshot`, up to the rows that it yields
unfoldable pub drop_gone : List String → Disk → Disk
drop_gone files disk = record disk {
  rows = restrict files disk.rows;
  dst = elim disk.dst [ none ↦ none | some d ↦ some (unlink_all (gone files disk.rows) d) ];
}

-- `hash` is blake2s over a file's bytes in hexadecimal, and `b64` the base64 text of them.
module _ (hash b64 : List ℕ → String) where
  -- the embedded content, or the digest, of a file of a size limit
  unfoldable pub digest_bytes : Option ℕ → SnapshotFile → List ℕ → SnapshotFile
  digest_bytes limit f bytes =
      if is_embedded limit f.file_size
      then (elim f.content_b64 [ none ↦ record f { content_b64 = some (b64 bytes) } | some c ↦ f ])
      else if f.hexdigest == ""
      then record f { hexdigest = hash bytes }
      else f

module _ (glob_match : String → String → Bool) (hash b64 : List ℕ → String) where
  -- `_cb` of `_compute_digests`
  unfoldable pub compute_digest : List SnapshotGroup → Dir → SnapshotFile → Outcome SnapshotFile
  compute_digest groups dst f = elim (lookup dst f.relative_path) [
    | none ↦ raised file_not_found
    | some file ↦ elim (embedded_file_size_max_for_file glob_match groups f.relative_path) [
      | raised e ↦ raised e
      | returned limit ↦
          returned (digest_bytes hash b64 limit f (read_limited f.file_size file.content))
    ]
  ]

  -- `_compare_with_src`, `_compute_digests` and `_upsert_files`, one file at a time
  unfoldable pub refresh_file :
      List SnapshotGroup → String → Option SnapshotFile → Method Disk (Unit {0})
  refresh_file groups path existing disk = elim (file_in_src disk.src path) [
    | none ↦ (returned tt, disk)
    | some new ↦
        if not (has_changed existing new)
        then (returned tt, disk)
        else (let linked = maybe_link path disk in
            elim (compute_digest groups (dst_dir linked) new) [
              | raised e ↦ (raised e, linked)
              | returned f ↦
                  (returned tt, record linked { rows = insert linked.rows f.relative_path f })
            ])
  ]

  unfoldable pub refresh :
      List SnapshotGroup → List (String × Option SnapshotFile) → Method Disk (Unit {0})
  refresh groups [] disk = (returned tt, disk)
  refresh groups ((path, existing) ∷ files) disk =
      let (r, disk') = refresh_file groups path existing disk in
      let rest = refresh groups files disk' in
      elim r [ raised e ↦ (raised e, disk') | returned _ ↦ rest ]

  -- The transaction restores the rows where the refresh raises.
  unfoldable pub perform_snapshot : List SnapshotGroup → Method Disk (Unit {0})
  perform_snapshot groups disk =
      let files = list_files (any_match glob_match groups) disk.src in
      let (r, disk') =
        refresh groups (existing_files disk.rows files ++ new_files disk.rows files)
          (drop_gone files disk) in
      elim r [
        | returned _ ↦ (returned tt, disk')
        | raised e ↦ (raised e, record disk' { rows = disk.rows })
      ]
