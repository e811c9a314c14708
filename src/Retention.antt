-- ===== src/Retention.antt =====
-- `_prune_manifests` of astacus/coordinator/plugins/base.py: which backups the retention rules keep.
-- The fields of a Retention are natural numbers.
pub mod Bounds
pub mod Age
mod Tests
use astacus.Prelude.{
  ℕ, ◌-◌, ◌*◌, ◌/◌, ◌≡◌, Bool, true, false, ◌&&◌, ◌||◌, Option, none, some, List, [], ◌∷◌, leb, ltb,
  length, if◌then◌else◌, sorted, string_le, ◌==◌, nat_eq,
}
use mathlib.Core.List.{reverse}
use astacus.Ipc.{Retention, ManifestMin}

-- `sorted(…, key=(start, end, filename), reverse=True)`: an item stands before those whose key is
-- not above its own.
unfoldable pub newer_first : ManifestMin → ManifestMin → Bool
newer_first a b =
    ltb b.start a.start
    || (b.start == a.start
        && (ltb b.end a.end || (b.end == a.end && string_le b.filename a.filename)))

-- microseconds of a day; `.days` of a difference
abbrev pub day : ℕ
day = 86_400_000_000

unfoldable pub exceeds : Option ℕ → ℕ → Bool
exceeds none n = false
exceeds (some maximum) n = ltb maximum n

unfoldable pub needs_all : Option ℕ → ℕ → Bool
needs_all none n = false
needs_all (some minimum) n = leb n minimum

-- A backup whose end lies ahead of the clock has a negative age, which no limit is below.
unfoldable pub too_old : Option ℕ → ℕ → ManifestMin → Bool
too_old none now m = false
too_old (some keep_days) now m = ltb keep_days ((now - m.end) / day)

-- `now n` is the clock's reading in the round in which `n` manifests are left.
module _ (retention : Retention) (now : ℕ → ℕ) where
  -- whether a round of the loop drops the oldest manifest
  unfoldable pub drops : ℕ → ManifestMin → Bool
  unfolding exceeds needs_all too_old
  drops n oldest =
      if exceeds retention.maximum_backups n
      then true
      else if needs_all retention.minimum_backups n
      then false
      else too_old retention.keep_days (now n) oldest

  -- The `while` loop, over the manifests with the oldest first.
  unfoldable pub prune_loop : List ManifestMin → List ManifestMin
  unfolding drops
  prune_loop [] = []
  prune_loop (oldest ∷ newer) =
      let rest = prune_loop newer in
      if drops (length (oldest ∷ newer)) oldest then rest else oldest ∷ newer

  unfoldable pub prune_manifests : List ManifestMin → List ManifestMin
  unfolding prune_loop needs_all newer_first sorted
  prune_manifests manifests =
      let ordered = sorted newer_first manifests in
      if needs_all retention.minimum_backups (length ordered)
      then ordered
      else reverse (prune_loop (reverse ordered))
