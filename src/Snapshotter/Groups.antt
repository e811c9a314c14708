-- ===== src/Snapshotter/Groups.antt =====
-- astacus/node/snapshot_groups.py: the groups of files that a snapshot takes. `glob_match` is the
-- match of a path with a compiled glob of the wcmatch library.
use Prim.Native.Char.{code}
use astacus.Prelude.{
  ℕ, ◌≡◌, refl, arith, Bool, true, false, not, ◌&&◌, ◌||◌, Option, none, some, String, List, [],
  ◌∷◌, map, all, any, ◌==◌, string_eq, nat_eq, contains, if◌then◌else◌,
}
use astacus.Exceptions.{assertion, value_error, Outcome, returned, raised}

-- `SnapshotGroup` of astacus/common/snapshot.py
pub record SnapshotGroup : Type 0 where
  pub root_glob : String
  pub excluded_names : List String
  pub embedded_file_size_max : Option ℕ

unfoldable pub has_slash : String → Bool
has_slash String.[] = false
has_slash (String.◌∷◌ c s) = code c == b'/' || has_slash s

-- `path.rpartition("/")[2]`
unfoldable pub base_name : String → String
unfolding has_slash
base_name String.[] = ""
base_name (String.◌∷◌ c s) =
    let rest = base_name s in if has_slash (String.◌∷◌ c s) then rest else String.◌∷◌ c s

unfoldable pub same_max : Option ℕ → Option ℕ → Bool
same_max none none = true
same_max (some a) (some b) = a == b
same_max _ _ = false

module _ (glob_match : String → String → Bool) where
  unfoldable pub matches : SnapshotGroup → String → Bool
  unfolding base_name
  matches group path =
      glob_match group.root_glob path && not (contains group.excluded_names (base_name path))

  unfoldable pub get_matching : List SnapshotGroup → String → List SnapshotGroup
  unfolding matches
  get_matching [] path = []
  get_matching (group ∷ groups) path =
      let rest = get_matching groups path in if matches group path then group ∷ rest else rest

  unfoldable pub any_match : List SnapshotGroup → String → Bool
  unfolding matches
  any_match groups path = any (λ group. matches group path) groups

  -- `_embedded_file_size_max_for_file` of astacus/node/snapshotter.py
  unfoldable pub embedded_file_size_max_for_file : List SnapshotGroup → String → Outcome (Option ℕ)
  unfolding get_matching same_max
  embedded_file_size_max_for_file groups path = elim (get_matching groups path) [
    | [] ↦ raised assertion
    | head ∷ tail ↦
        if all (λ g. same_max g.embedded_file_size_max head.embedded_file_size_max) tail
        then returned head.embedded_file_size_max
        else raised value_error
  ]

abbrev pub root_globs : List SnapshotGroup → List String
root_globs groups = map (λ g. g.root_glob) groups

-- `DEFAULT_EMBEDDED_FILE_SIZE` of astacus/common/magic.py
abbrev pub default_embedded_file_size : ℕ
default_embedded_file_size = 200

-- `groups_from_snapshot_req` of astacus/node/api.py for a download, whose request has globs only
unfoldable pub groups_from_snapshot_req : List String → List SnapshotGroup
groups_from_snapshot_req globs =
    map
      (λ root_glob. record {
        root_glob = root_glob;
        excluded_names = [];
        embedded_file_size_max = some default_embedded_file_size;
      })
      globs

module _ (glob_match : String → String → Bool) (path : String) where
  -- A download takes what a snapshot takes whose groups have the same globs, and their exclusions too.
  pub any_match-groups_from_snapshot_req :
      (groups : List SnapshotGroup)
      → any_match glob_match groups path ≡ true
      → any_match glob_match (groups_from_snapshot_req (root_globs groups)) path ≡ true
  unfolding any_match matches groups_from_snapshot_req
  any_match-groups_from_snapshot_req [] h = h
  any_match-groups_from_snapshot_req (g ∷ groups) h =
      ground (arith, h, any_match-groups_from_snapshot_req groups)

  same_limits :
      (globs : List String)
      → all
          (λ g. same_max g.embedded_file_size_max (some default_embedded_file_size))
          (get_matching glob_match (groups_from_snapshot_req globs) path)
        ≡ true
  unfolding get_matching groups_from_snapshot_req same_max
  same_limits [] = refl
  same_limits (g ∷ globs) = ground (arith, same_limits globs)

  -- The groups of a download agree on the limit.
  pub groups_from_snapshot_req-agree :
      (globs : List String)
      → any_match glob_match (groups_from_snapshot_req globs) path ≡ true
      → embedded_file_size_max_for_file glob_match (groups_from_snapshot_req globs) path
        ≡ returned (some default_embedded_file_size)
  unfolding any_match get_matching embedded_file_size_max_for_file groups_from_snapshot_req
  groups_from_snapshot_req-agree [] h = ground arith
  groups_from_snapshot_req-agree (g ∷ globs) h =
      ground (arith, h, same_limits globs, groups_from_snapshot_req-agree globs)
