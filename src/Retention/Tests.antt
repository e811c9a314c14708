-- ===== src/Retention/Tests.antt =====
-- Pruning three backups, and the theorems about it at them.
use astacus.Prelude.{ℕ, ◌+◌, ◌*◌, ◌≡◌, refl, some, List, [], ◌∷◌, String, string_le}
use astacus.Ipc.{Retention, ManifestMin}
use astacus.Retention.{prune_manifests, day}
use astacus.Retention.Bounds.{IsBounded, prune_manifests-IsBounded}
use astacus.Retention.Age.{Pruned, prune_manifests-Pruned}

abbrev backup : ℕ → String → ManifestMin
backup d name = record { start = d * day; end = d * day + 10; filename = name }

abbrev backups : List ManifestMin
backups = backup 3 "backup-c" ∷ backup 1 "backup-a" ∷ backup 2 "backup-b" ∷ []

abbrev rules : Retention
rules = record { minimum_backups = some 1; maximum_backups = some 4; keep_days = some 7 }

abbrev at_day_ten : ℕ → ℕ
at_day_ten n = 10 * day

-- The oldest two ended more than seven days before; the first of them is nine days old.
prune-backups :
    prune_manifests rules at_day_ten backups ≡ backup 3 "backup-c" ∷ backup 2 "backup-b" ∷ []
unfolding prune_manifests string_le
prune-backups = refl

prune_manifests-IsBounded_example :
    IsBounded rules at_day_ten backups (prune_manifests rules at_day_ten backups)
prune_manifests-IsBounded_example = prune_manifests-IsBounded rules at_day_ten backups

prune_manifests-Pruned_example :
    Pruned rules at_day_ten backups (prune_manifests rules at_day_ten backups)
prune_manifests-Pruned_example = prune_manifests-Pruned rules at_day_ten backups
