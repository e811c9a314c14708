-- ===== src/Prelude/Sorting.antt =====
-- Python's `sorted`: stable, by a test `le` on two items, as insertion sort.
use Prim.Native.Nat.{ℕ, ◌+◌, suc, Ordering}
use Prim.Native.String.{String, compare}
use mathlib.Core.Path.{◌≡◌, refl, ap, ◌∙◌}
use mathlib.Core.Bool.{Bool, true, false, ◌||◌}
use mathlib.Core.List.Perm
use mathlib.Core.Logic.{inl, inr}
use mathlib.Core.List.{List, [], ◌∷◌, Perm}
use native.Mathlib.Omega.{arith}
use astacus.Prelude.Tests.{if◌then◌else◌, Bool-cases}
use astacus.Prelude.Lists.{length, All, any, total}
use astacus.Prelude.Keys.{Eq, contains}

-- `a <= b` of two texts
unfoldable pub string_le : String → String → Bool
string_le a b = elim (compare a b) [ Ordering.gt ↦ false | _ ↦ true ]

module _ {ℓ} {A : Type ℓ} (le : A → A → Bool) where
  unfoldable pub place : A → List A → List A
  place x [] = x ∷ []
  place x (y ∷ ys) = let rest = place x ys in if le x y then x ∷ y ∷ ys else y ∷ rest

  -- Items are placed from the last to the first, each before those that it is not above.
  unfoldable pub sorted : List A → List A
  unfolding place
  sorted [] = []
  sorted (x ∷ xs) = place x (sorted xs)

  length-place : (x : A) (ys : List A) → length (place x ys) ≡ suc (length ys)
  unfolding place
  length-place x [] = refl
  length-place x (y ∷ ys) = ground (arith, length-place x ys)

  pub length-sorted : (xs : List A) → length (sorted xs) ≡ length xs
  unfolding sorted
  length-sorted [] = refl
  length-sorted (x ∷ xs) = length-place x (sorted xs) ∙ ap suc (length-sorted xs)

  any-place : (p : A → Bool) (x : A) (ys : List A) → any p (place x ys) ≡ (p x || any p ys)
  unfolding place
  any-place p x [] = refl
  any-place p x (y ∷ ys) = ground (arith, any-place p x ys)

  pub any-sorted : (p : A → Bool) (xs : List A) → any p (sorted xs) ≡ any p xs
  unfolding sorted
  any-sorted p [] = refl
  any-sorted p (x ∷ xs) = any-place p x (sorted xs) ∙ ap (λ b. p x || b) (any-sorted p xs)

  total-place : (f : A → ℕ) (x : A) (ys : List A) → total f (place x ys) ≡ f x + total f ys
  unfolding place
  total-place f x [] = refl
  total-place f x (y ∷ ys) = ground (arith, total-place f x ys)

  pub total-sorted : (f : A → ℕ) (xs : List A) → total f (sorted xs) ≡ total f xs
  unfolding sorted
  total-sorted f [] = refl
  total-sorted f (x ∷ xs) = omega (arith, total-place f x (sorted xs), total-sorted f xs)

  place-perm : (x : A) (ys : List A) → Perm (place x ys) (x ∷ ys)
  unfolding place
  place-perm x [] = Perm.rfl
  place-perm x (y ∷ ys) = elim (Bool-cases (le x y)) [
    | inl e ↦ rw e Perm.rfl
    | inr e ↦ rw e (Perm.trans (Perm.cons y (place-perm x ys)) (Perm.swap x y ys))
  ]

  pub sorted-perm : (xs : List A) → Perm (sorted xs) xs
  unfolding sorted
  sorted-perm [] = Perm.rfl
  sorted-perm (x ∷ xs) = Perm.trans (place-perm x (sorted xs)) (Perm.cons x (sorted-perm xs))

module _ {ℓ} {A : Type ℓ} ⦃e : Eq A⦄ (le : A → A → Bool) where
  contains-place : (x : A) (ys : List A) (k : A) → contains (place le x ys) k ≡ contains (x ∷ ys) k
  unfolding place
  contains-place x [] k = refl
  contains-place x (y ∷ ys) k = ground (arith, contains-place x ys k)

  pub contains-sorted : (xs : List A) (k : A) → contains (sorted le xs) k ≡ contains xs k
  unfolding sorted
  contains-sorted [] k = refl
  contains-sorted (x ∷ xs) k =
      ground (arith, contains-place x (sorted le xs) k, contains-sorted xs k)

module _ {ℓ κ} {A : Type ℓ} (P : A → Type κ) (le : A → A → Bool) where
  All-place : (x : A) (ys : List A) → P x → All P ys → All P (place le x ys)
  unfolding place
  All-place x [] h k = (h, k)
  All-place x (y ∷ ys) h k = elim (Bool-cases (le x y)) [
    | inl e ↦ rw e (h, k)
    | inr e ↦ rw e (k.0, All-place x ys h k.1)
  ]

  pub All-sorted : (xs : List A) → All P xs → All P (sorted le xs)
  unfolding sorted
  All-sorted [] h = h
  All-sorted (x ∷ xs) h = All-place x (sorted le xs) h.0 (All-sorted xs h.1)

-- Each item is related to all behind it.
abbrev pub Ordered {ℓ κ} : {A : Type ℓ} → (A → A → Type κ) → List A → Type κ
Ordered R [] = Unit
Ordered R (x ∷ xs) = All (R x) xs × Ordered R xs

module _ {ℓ κ} {A : Type ℓ} (le : A → A → Bool) (R : A → A → Type κ)
    (le→R : (a b : A) → le a b ≡ true → R a b) (not_le→R : (a b : A) → le a b ≡ false → R b a)
    (trans : (a b c : A) → R a b → R b c → R a c) where
  All-trans : (a b : A) (ys : List A) → R a b → All (R b) ys → All (R a) ys
  All-trans a b [] h k = tt
  All-trans a b (y ∷ ys) h k = (trans a b y h k.0, All-trans a b ys h k.1)

  place-Ordered : (x : A) (ys : List A) → Ordered R ys → Ordered R (place le x ys)
  unfolding place
  place-Ordered x [] h = (tt, tt)
  place-Ordered x (y ∷ ys) h = elim (Bool-cases (le x y)) [
    | inl e ↦ rw e ((le→R x y e, All-trans x y ys (le→R x y e) h.0), h)
    | inr e ↦ rw e (All-place (R y) le x ys (not_le→R x y e) h.0, place-Ordered x ys h.1)
  ]

  -- A relation that the test decides up to ties, and that is transitive, orders the result.
  pub sorted-Ordered : (xs : List A) → Ordered R (sorted le xs)
  unfolding sorted
  sorted-Ordered [] = tt
  sorted-Ordered (x ∷ xs) = place-Ordered x (sorted le xs) (sorted-Ordered xs)
