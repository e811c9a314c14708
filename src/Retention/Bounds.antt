-- ===== src/Retention/Bounds.antt =====
-- How many backups the retention rules keep (astacus/coordinator/plugins/base.py).
use mathlib.Core.List.{reverse, reverse-append}
use astacus.Prelude.{
  ℕ, ◌≤◌, ◌≡◌, refl, ◌∙◌, ap, true, false, some, List, [], ◌∷◌, arith, length, length-append,
  length-sorted, sorted, if◌then◌else◌, min,
}
use astacus.Ipc.{Retention, ManifestMin}
use astacus.Retention.{newer_first, exceeds, needs_all, prune_loop, prune_manifests}

length-reverse : (xs : List ManifestMin) → length (reverse xs) ≡ length xs
length-reverse [] = refl
length-reverse (x ∷ xs) =
    ap length (reverse-append (x ∷ []) xs)
    ∙ omega (arith, length-append (reverse xs) (x ∷ []), length-reverse xs)

pub length-oldest_first :
    (ms : List ManifestMin) → length (reverse (sorted newer_first ms)) ≡ length ms
length-oldest_first ms = length-reverse (sorted newer_first ms) ∙ length-sorted newer_first ms

module _ (retention : Retention) (now : ℕ → ℕ) where
  length-prune_loop : (ms : List ManifestMin) → length (prune_loop retention now ms) ≤ length ms
  unfolding prune_loop
  length-prune_loop [] = omega arith
  length-prune_loop (m ∷ ms) = ground (arith, length-prune_loop ms)

  prune_loop_at_most :
      (maximum : ℕ) (ms : List ManifestMin)
      → retention.maximum_backups ≡ some maximum
      → length (prune_loop retention now ms) ≤ maximum
  unfolding prune_loop exceeds
  prune_loop_at_most maximum [] h = omega arith
  prune_loop_at_most maximum (m ∷ ms) h = ground (arith, prune_loop_at_most maximum ms h)

  prune_loop_at_least :
      (minimum : ℕ) (ms : List ManifestMin)
      → retention.minimum_backups ≡ some minimum
      → exceeds retention.maximum_backups minimum ≡ false
      → minimum ≤ length ms
      → minimum ≤ length (prune_loop retention now ms)
  unfolding prune_loop exceeds needs_all
  prune_loop_at_least minimum [] h k l = omega arith
  prune_loop_at_least minimum (m ∷ ms) h k l = ground (arith, prune_loop_at_least minimum ms h k)

  -- the result's length, through the reversed lists
  length-prune_manifests :
      (ms : List ManifestMin)
      → length (prune_manifests retention now ms) ≡ (
          if needs_all retention.minimum_backups (length ms)
          then length ms
          else length (prune_loop retention now (reverse (sorted newer_first ms))))
  unfolding prune_manifests
  length-prune_manifests ms = ground (
    arith,
    length-sorted newer_first ms,
    length-reverse (prune_loop retention now (reverse (sorted newer_first ms))),
  )

  pub record IsBounded (ms : List ManifestMin) (kept : List ManifestMin) : Type 0 where
    pub no_more : length kept ≤ length ms
    pub at_most :
        (maximum : ℕ)
        → retention.maximum_backups ≡ some maximum
        → needs_all retention.minimum_backups (length ms) ≡ false
        → length kept ≤ maximum
    pub at_least :
        (minimum : ℕ)
        → retention.minimum_backups ≡ some minimum
        → exceeds retention.maximum_backups minimum ≡ false
        → min minimum (length ms) ≤ length kept
    pub all_of_few :
        needs_all retention.minimum_backups (length ms) ≡ true → length kept ≡ length ms

  -- Pruning keeps at most the maximum, unless there are no more backups than the minimum: then it
  -- keeps them all. If the maximum is not below the minimum, it keeps at least the minimum, or all
  -- of fewer.
  pub prune_manifests-IsBounded :
      (ms : List ManifestMin) → IsBounded ms (prune_manifests retention now ms)
  prune_manifests-IsBounded ms = record {
    no_more = ground (
      arith,
      length-prune_manifests ms,
      length-oldest_first ms,
      length-prune_loop (reverse (sorted newer_first ms)),
    );
    at_most = λ maximum h k. ground (
      arith,
      length-prune_manifests ms,
      prune_loop_at_most maximum (reverse (sorted newer_first ms)) h,
    );
    at_least = λ minimum h k.
        unfold needs_all in
        ground (
          arith,
          length-prune_manifests ms,
          length-oldest_first ms,
          prune_loop_at_least minimum (reverse (sorted newer_first ms)) h k,
        );
    all_of_few = λ h. ground (arith, length-prune_manifests ms);
  }
