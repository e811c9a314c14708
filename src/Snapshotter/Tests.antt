-- ===== src/Snapshotter/Tests.antt =====
-- Concrete snapshots.
use astacus.Prelude.{
  ℕ, ◌≡◌, refl, Bool, true, not, ◌&&◌, Option, none, some, String, List, [], ◌∷◌, ◌==◌, string_eq,
  nat_eq, lookup, if◌then◌else◌,
}
use astacus.Exceptions.{value_error, returned, raised}
use astacus.Ipc.{SnapshotFile, underlying_file_is_the_same}
use astacus.Snapshotter.Groups.{
  SnapshotGroup, matches, get_matching, any_match, base_name, has_slash, same_max,
  embedded_file_size_max_for_file,
}
use astacus.Snapshotter.{
  File, Dir, Disk, read_limited, file_in_src, maybe_link, has_changed, list_files, restrict, gone,
  unlink_all, existing_files, new_files, drop_gone, digest_bytes, compute_digest, refresh_file,
  refresh, perform_snapshot,
}
use astacus.Snapshotter.Refresh.{row_at, changed_at, dst_at, has_dst}
use astacus.Snapshotter.Perform.{Agree, perform_snapshot_describes_source, has_row, holds}
use astacus.Snapshotter.Errors.{perform_snapshot_rolls_back}

abbrev everything : String → String → Bool
everything g path = true

abbrev hash : List ℕ → String
hash [] = "e0"
hash (b ∷ bytes) = if b == 7 then "d7" else "d1"

abbrev b64 : List ℕ → String
b64 bytes = "Bw=="

abbrev group : Option ℕ → SnapshotGroup
group max = record { root_glob = "**/*"; excluded_names = []; embedded_file_size_max = max }

abbrev file : List ℕ → ℕ → File
file content mtime_ns = record { content = content; mtime_ns = mtime_ns }

abbrev row : String → ℕ → ℕ → String → Option String → SnapshotFile
row path size mtime_ns hexdigest content_b64 = record {
  relative_path = path;
  file_size = size;
  mtime_ns = mtime_ns;
  hexdigest = hexdigest;
  content_b64 = content_b64;
}

abbrev src : Dir
src = ("a", file (7 ∷ []) 5) ∷ ("b", file (1 ∷ 2 ∷ 3 ∷ []) 6) ∷ []

abbrev empty : Disk
empty = record { rows = []; src = src; dst = some (("old", file [] 1) ∷ []) }

abbrev stale : Disk
stale = record {
  rows = ("gone", row "gone" 0 1 "" none) ∷ ("b", row "b" 3 6 "d1" none) ∷ [];
  src = src;
  dst = some (("gone", file [] 1) ∷ ("b", file (1 ∷ 2 ∷ 3 ∷ []) 6) ∷ []);
}

abbrev after : Disk
after = record {
  rows = ("b", row "b" 3 6 "d1" none) ∷ ("a", row "a" 1 5 "" (some "Bw==")) ∷ [];
  src = src;
  dst = some (("b", file (1 ∷ 2 ∷ 3 ∷ []) 6) ∷ ("a", file (7 ∷ []) 5) ∷ []);
}

one-Agree : Agree everything hash b64 (group (some 2) ∷ [])
unfolding embedded_file_size_max_for_file get_matching matches
one-Agree path t = (some 2, refl)

stale-after :
    perform_snapshot everything hash b64 (group (some 2) ∷ []) stale ≡ (returned tt, after)
unfolding perform_snapshot list_files any_match existing_files new_files drop_gone restrict gone
    unlink_all refresh refresh_file file_in_src has_changed underlying_file_is_the_same maybe_link
    compute_digest digest_bytes read_limited embedded_file_size_max_for_file get_matching matches
    base_name has_slash same_max
stale-after = refl

perform_snapshot_describes_source_example :
    (disk' : Disk) × (perform_snapshot everything hash b64 (group (some 2) ∷ []) stale
      ≡ (returned tt, disk'))
    × (disk'.src ≡ src)
    × ((q : String)
        → lookup disk'.rows q ≡ (
            if any_match everything (group (some 2) ∷ []) q
            then row_at everything hash b64 (group (some 2) ∷ []) stale.rows src q (lookup src q)
            else none))
    × ((q : String)
        → dst_at disk' q ≡ (
            if any_match everything (group (some 2) ∷ []) q
              && (changed_at stale.rows q (lookup src q) && has_dst stale)
            then lookup src q
            else if has_row stale.rows q
                && not (any_match everything (group (some 2) ∷ []) q && holds src q)
            then none
            else dst_at stale q))
perform_snapshot_describes_source_example =
    perform_snapshot_describes_source everything hash b64 (group (some 2) ∷ []) one-Agree stale

abbrev first : Disk
first = record { rows = []; src = src; dst = some [] }

-- two groups with different limits
abbrev at_odds : List SnapshotGroup
at_odds = group (some 2) ∷ group none ∷ []

abbrev failed : Disk
failed = record { rows = []; src = src; dst = some (("a", file (7 ∷ []) 5) ∷ []) }

first_fails : perform_snapshot everything hash b64 at_odds first ≡ (raised value_error, failed)
unfolding perform_snapshot list_files any_match existing_files new_files drop_gone restrict gone
    unlink_all refresh refresh_file file_in_src has_changed underlying_file_is_the_same maybe_link
    compute_digest digest_bytes read_limited embedded_file_size_max_for_file get_matching matches
    base_name has_slash same_max
first_fails = refl

perform_snapshot_rolls_back_example : (value_error ≡ value_error) × (failed.rows ≡ [])
perform_snapshot_rolls_back_example =
    perform_snapshot_rolls_back everything hash b64 at_odds first failed value_error first_fails
