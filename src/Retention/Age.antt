-- ===== src/Retention/Age.antt =====
-- Which backups the retention rules drop (astacus/coordinator/plugins/base.py).
use mathlib.Core.List.{reverse, reverse-append, reverse-reverse, append-nil, Perm}
use native.Mathlib.Nat.{le_trans}
use astacus.Prelude.{
  ℕ, ◌-◌, ◌/◌, ◌≤◌, ◌<◌, ◌≡◌, inl, inr, refl, sym, ◌∙◌, ap, true, false, Option, none, some, List,
  [], ◌∷◌, ◌++◌, arith, length, sorted, sorted-perm, sorted-Ordered, Ordered, All, All-append_right,
  All-reverse, Bool-cases,
}
use astacus.Ipc.{Retention, ManifestMin}
use astacus.Retention.{
  newer_first, exceeds, needs_all, too_old, drops, prune_loop, prune_manifests, day,
}
use astacus.Retention.Bounds.{length-oldest_first}

abbrev NotOlder : ManifestMin → ManifestMin → Type 0
NotOlder a b = b.start ≤ a.start

All-of_Ordered :
    (xs ys : List ManifestMin) → Ordered NotOlder (xs ++ ys) → All (λ x. All (NotOlder x) ys) xs
All-of_Ordered [] ys h = tt
All-of_Ordered (x ∷ xs) ys h = (All-append_right (NotOlder x) xs ys h.0, All-of_Ordered xs ys h.1)

sorted-Ordered_newer : (ms : List ManifestMin) → Ordered NotOlder (sorted newer_first ms)
sorted-Ordered_newer =
    sorted-Ordered newer_first NotOlder (λ a b h. unfold newer_first in ground arith)
      (λ a b h. unfold newer_first in ground arith) (λ a b c h k. le_trans k h)

module _ (retention : Retention) (now : ℕ → ℕ) where
  -- At some reading of the clock the backup was older than the limit.
  pub record IsOld (m : ManifestMin) : Type 0 where
    pub keep_days : ℕ
    pub limit : retention.keep_days ≡ some keep_days
    pub reading : ℕ
    pub age : keep_days < (now reading - m.end) / day

  IsOld-of_drops :
      (n : ℕ) (m : ManifestMin)
      → exceeds retention.maximum_backups n ≡ false
      → drops retention now n m ≡ true
      → IsOld m
  unfolding drops
  IsOld-of_drops n m h k = of_too_old retention.keep_days refl (ground arith)
    where
      of_too_old : (d : Option ℕ) → retention.keep_days ≡ d → too_old d (now n) m ≡ true → IsOld m
      of_too_old none e t = absurd (ground arith)
      of_too_old (some keep_days) e t = record {
        keep_days = keep_days;
        limit = e;
        reading = n;
        age = ground arith;
      }

  loop_split :
      (ms : List ManifestMin)
      → (gone : List ManifestMin) × (ms ≡ gone ++ prune_loop retention now ms)
        × (exceeds retention.maximum_backups (length ms) ≡ false → All IsOld gone)
  unfolding prune_loop
  loop_split [] = ([], refl, λ h. tt)
  loop_split (m ∷ ms) = elim (Bool-cases (drops retention now (length (m ∷ ms)) m)) [
    | inl e ↦
        let (gone, split, old) = loop_split ms in
        rw e (
          m ∷ gone,
          ap (λ r. m ∷ r) split,
          λ h. (IsOld-of_drops (length (m ∷ ms)) m h e, old (unfold exceeds in ground arith)),
        )
    | inr e ↦ rw e ([], refl, λ h. tt)
  ]

  pub record Pruned (ms kept : List ManifestMin) : Type 0 where
    pub dropped : List ManifestMin
    pub accounted : Perm (kept ++ dropped) ms
    pub newest : All (λ m. All (λ d. d.start ≤ m.start) dropped) kept
    pub old : exceeds retention.maximum_backups (length ms) ≡ false → All IsOld dropped

  Pruned-of_split :
      (ms kept dropped : List ManifestMin)
      → sorted newer_first ms ≡ kept ++ dropped
      → (exceeds retention.maximum_backups (length ms) ≡ false → All IsOld dropped)
      → Pruned ms kept
  Pruned-of_split ms kept dropped e old = record {
    dropped = dropped;
    accounted = rw (← e) (sorted-perm newer_first ms);
    newest = All-of_Ordered kept dropped (rw e at (sorted-Ordered_newer ms));
    old = old;
  }

  -- Pruning divides the backups into the kept and the dropped ones. No dropped backup started after
  -- a kept one, and if the maximum allows for all backups, each dropped one was older than the
  -- limit in days when it was dropped.
  pub prune_manifests-Pruned :
      (ms : List ManifestMin) → Pruned ms (prune_manifests retention now ms)
  unfolding prune_manifests
  prune_manifests-Pruned ms =
      let ordered = sorted newer_first ms in
      let (gone, split, old) = loop_split (reverse ordered) in
      elim (Bool-cases (needs_all retention.minimum_backups (length ordered))) [
        | inl e ↦ rw e (Pruned-of_split ms ordered [] (sym (append-nil ordered)) (λ _. tt))
        | inr e ↦ rw e (
            Pruned-of_split ms (reverse (prune_loop retention now (reverse ordered))) (reverse gone)
              (sym (reverse-reverse ordered)
                ∙ (ap reverse split
                    ∙ reverse-append gone (prune_loop retention now (reverse ordered))))
              (λ h. All-reverse IsOld gone (old (rw (length-oldest_first ms) h))))
      ]
