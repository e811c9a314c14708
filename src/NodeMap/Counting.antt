-- ===== src/NodeMap/Counting.antt =====
-- `Counter`: each key once, with the number of its occurrences.
use astacus.Prelude.{
  ℕ, suc, ◌+◌, ◌≤◌, ◌≡◌, refl, subst, fun_ext, ◌&&◌, String, List, [], ◌∷◌, arith, ◌==◌, string_eq,
  nat_eq, one_if, ltb, leb, length, length-sorted, ◌∙◌, total, total-sorted, All, All-sorted,
  if◌then◌else◌, Bool-cases, inl, inr, eq_iff, ==_refl,
}
use astacus.NodeMap.{add_one, count_from, counter, most_common}

abbrev pub Counts : Type 0
Counts = List (String × ℕ)

-- how often a key stands in a counter, and how often it occurs among the counted
abbrev pub key_count : String → Counts → ℕ
key_count k = total (λ p. one_if (p.0 == k))

abbrev pub occurrences : String → List String → ℕ
occurrences k = total (λ x. one_if (x == k))

add_one-cons :
    (j : String) (v : ℕ) (d : Counts) (k : String)
    → add_one ((j, v) ∷ d) k ≡ (if j == k then (j, suc v) ∷ d else (j, v) ∷ add_one d k)
unfolding add_one
add_one-cons j v d k = elim (Bool-cases (j == k)) [
  | inl e ↦ ground (arith, e)
  | inr e ↦ ground (arith, e)
]

key_count-add_one :
    (d : Counts) (k h : String)
    → key_count h (add_one d k) ≡ key_count h d + one_if (k == h && (key_count k d == 0))
key_count-add_one [] k h = unfold add_one in ground arith
key_count-add_one ((j, v) ∷ d) k h =
    ground
      (arith, add_one-cons j v d k, key_count-add_one d k h, eq_iff j k, eq_iff j h, eq_iff k h)

-- the values of a counter
abbrev Tells : (String → ℕ) → Counts → Type 0
Tells f d = All (λ p. p.1 ≡ f p.0) d

Tells-others :
    (f : String → ℕ) (k : String) (d : Counts)
    → key_count k d ≡ 0
    → Tells f d
    → Tells (λ h. f h + one_if (k == h)) d
Tells-others f k [] h t = tt
Tells-others f k ((j, v) ∷ d) h t =
    (ground (arith, t.0, h, eq_iff j k, eq_iff k j), Tells-others f k d (ground (arith, h)) t.1)

Tells-add_one :
    (f : String → ℕ) (k : String) (d : Counts)
    → key_count k d ≤ 1
    → (key_count k d ≡ 0 → f k ≡ 0)
    → Tells f d
    → Tells (λ h. f h + one_if (k == h)) (add_one d k)
Tells-add_one f k [] h n t = unfold add_one in (ground (arith, n refl, ==_refl k), tt)
Tells-add_one f k ((j, v) ∷ d) h n t = elim (Bool-cases (j == k)) [
  | inl e ↦
      rw (add_one-cons j v d k, e)
        (
          ground (arith, t.0, e, eq_iff j k, eq_iff k j),
          Tells-others f k d (ground (arith, h, e)) t.1,
        )
  | inr e ↦
      rw (add_one-cons j v d k, e)
        (
          ground (arith, t.0, e, eq_iff j k, eq_iff k j),
          Tells-add_one f k d (ground (arith, h, e)) (λ z. n (ground (arith, z, e))) t.1,
        )
]

-- A counter of what `f` counts.
abbrev IsCounter : (String → ℕ) → Counts → Type 0
IsCounter f d = Tells f d × ((h : String) → key_count h d ≡ one_if (ltb 0 (f h)))

IsCounter-add_one :
    (f : String → ℕ) (k : String) (d : Counts)
    → IsCounter f d
    → IsCounter (λ h. f h + one_if (k == h)) (add_one d k)
IsCounter-add_one f k d (t, c) = (
  Tells-add_one f k d (ground (arith, c k)) (λ z. ground (arith, c k, z)) t,
  λ h. ground (arith, key_count-add_one d k h, c h, c k, eq_iff k h),
)

IsCounter-count_from :
    (f : String → ℕ) (d : Counts) (keys : List String)
    → IsCounter f d
    → IsCounter (λ h. f h + occurrences h keys) (count_from d keys)
unfolding count_from
IsCounter-count_from f d [] c = subst (λ g. IsCounter g d) (fun_ext (λ h. omega arith)) c
IsCounter-count_from f d (k ∷ keys) c =
    subst (λ g. IsCounter g (count_from (add_one d k) keys)) (fun_ext (λ h. omega arith))
      (IsCounter-count_from (λ h. f h + one_if (k == h)) (add_one d k) keys
        (IsCounter-add_one f k d c))

-- The pairs of `most_common` tell how often each key occurs, and name each key that occurs once.
pub most_common-IsCounter :
    (keys : List String)
    → All (λ p. p.1 ≡ occurrences p.0 keys) (most_common (counter keys))
      × ((h : String)
          → key_count h (most_common (counter keys)) ≡ one_if (ltb 0 (occurrences h keys)))
unfolding most_common counter
most_common-IsCounter keys =
    let (t, c) =
      subst (λ g. IsCounter g (count_from [] keys)) (fun_ext (λ h. omega arith))
        (IsCounter-count_from (λ h. 0) [] keys (tt, λ h. refl)) in
    (
      All-sorted (λ p. p.1 ≡ occurrences p.0 keys) (λ a b. leb b.1 a.1) (count_from [] keys) t,
      λ h. total-sorted (λ a b. leb b.1 a.1) (λ p. one_if (p.0 == h)) (count_from [] keys) ∙ c h,
    )

-- The number of pairs does not depend on their order.
pub length-most_common : (d : Counts) → length (most_common d) ≡ length d
unfolding most_common
length-most_common d = length-sorted (λ a b. leb b.1 a.1) d
