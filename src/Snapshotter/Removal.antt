-- ===== src/Snapshotter/Removal.antt =====
-- Which files a release and a clearing remove (astacus/node/sqlite_snapshot.py, astacus/node/clear.py).
use astacus.Prelude.{
  ◌≡◌, refl, ap, ◌∙◌, Bool, true, false, not, ◌&&◌, ◌||◌, none, some, String, List, [], ◌∷◌, map,
  any, any-sorted, arith, ◌==◌, string_eq, contains, filter, lookup, string_le, sorted, ℕ,
}
use astacus.Progress.{Progress}
use astacus.Snapshotter.{Rows}
use astacus.Snapshotter.Perform.{has_row}
use astacus.Snapshotter.Queries.{by_path, get_all_paths}

contains-paths :
    (rows : Rows) (q : String) → contains (map (λ r. r.0) rows) q ≡ any (λ r. r.0 == q) rows
contains-paths [] q = refl
contains-paths (r ∷ rows) q = ap (λ b. r.0 == q || b) (contains-paths rows q)

any-has_row : (rows : Rows) (q : String) → any (λ r. r.0 == q) rows ≡ has_row rows q
unfolding has_row
any-has_row [] q = refl
any-has_row ((path, f) ∷ rows) q = ground (arith, any-has_row rows q)

pub contains-get_all_paths :
    (rows : Rows) (q : String) → contains (get_all_paths rows) q ≡ has_row rows q
unfolding get_all_paths by_path
contains-get_all_paths rows q =
    contains-paths (sorted (λ a b. string_le a.0 b.0) rows) q
    ∙ any-sorted (λ a b. string_le a.0 b.0) (λ r. r.0 == q) rows
    ∙ any-has_row rows q

-- The row of the path has a digest, and it is one of the list.
abbrev pub is_released : List String → Rows → String → Bool
is_released hexdigests rows q = elim (lookup rows q) [
  | none ↦ false
  | some f ↦ not (f.hexdigest == "") && contains hexdigests f.hexdigest
]

abbrev full : List String → List String
full hexdigests = filter (λ h. not (h == "")) hexdigests

-- a meter that counts to a number and is done
abbrev pub finished : ℕ → Progress
finished n = record { handled = n; failed = 0; total = n; final = true }
