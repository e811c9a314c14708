-- ===== src/Prelude/Keys.antt =====
-- Types with Python's `==`, and membership in a list or in a set held as a list.
use Prim.Native.Nat.{ℕ}
use Prim.Native.String.{String}
use mathlib.Core.Path.{◌≡◌, refl}
use mathlib.Core.Logic.{◌↔◌}
use mathlib.Core.Bool.{Bool, true, false, ◌||◌, ◌&&◌}
use mathlib.Core.List.{List, [], ◌∷◌, ◌++◌}
use native.Mathlib.Omega.{arith}
use text.Mathlib.Text.{◌==◌ as str_eq}
use text.Mathlib.TextEquality.{eq_iff}
use astacus.Prelude.Lists.{All}
use astacus.Prelude.Tests.{nat_beq, nat_beq_iff, if◌then◌else◌}

pub record Eq {κ} (K : Type κ) : Type κ where
  -- `__eq__` of the type, which is equality
  pub beq : (x y : K) → Bool
  pub beq_iff : (x y : K) → (beq x y ≡ true) ↔ (x ≡ y)

-- the keys of the modelled dictionaries and sets are texts, or numbers
instance abbrev pub string_eq : Eq String
string_eq = record { beq_iff = eq_iff; beq = str_eq }

infix 50 ◌==◌
abbrev pub ◌==◌ {κ} : {K : Type κ} ⦃cls : Eq K⦄ (x y : K) → Bool
◌==◌ ⦃cls⦄ x y = cls.beq x y

instance abbrev pub nat_eq : Eq ℕ
nat_eq = record { beq_iff = nat_beq_iff; beq = nat_beq }

module _ {ℓ} {A : Type ℓ} ⦃e : Eq A⦄ where
  pub ==_refl : (a : A) → (a == a) ≡ true
  ==_refl a = (e.beq_iff a a).1 refl

  -- `a in xs`
  abbrev pub contains : List A → A → Bool
  contains [] a = false
  contains (x ∷ xs) a = x == a || contains xs a

  -- `xs.difference(ys)`
  abbrev pub difference : List A → List A → List A
  difference [] ys = []
  difference (x ∷ xs) ys = let rest = difference xs ys in if contains ys x then rest else x ∷ rest

  -- `s.discard(a)`
  abbrev pub discard : List A → A → List A
  discard [] a = []
  discard (x ∷ xs) a = let rest = discard xs a in if x == a then rest else x ∷ rest

  pub contains-append :
      (xs ys : List A) (a : A) → contains (xs ++ ys) a ≡ (contains xs a || contains ys a)
  contains-append [] ys a = refl
  contains-append (x ∷ xs) ys a = ground (arith, contains-append xs ys a)

  pub contains-discard :
      (xs : List A) (a b : A)
      → contains (discard xs a) b ≡ (if a == b then false else contains xs b)
  contains-discard [] a b = ground arith
  contains-discard (x ∷ xs) a b =
      ground (arith, contains-discard xs a b, e.beq_iff x a, e.beq_iff x b, e.beq_iff a b)

  pub contains-difference :
      (xs ys : List A) (a : A)
      → contains (difference xs ys) a ≡ (if contains ys a then false else contains xs a)
  contains-difference [] ys a = ground arith
  contains-difference (x ∷ xs) ys a = ground (arith, contains-difference xs ys a, e.beq_iff x a)

  -- `set(xs)`
  abbrev pub to_set : List A → List A
  to_set [] = []
  to_set (x ∷ xs) = let rest = to_set xs in if contains xs x then rest else x ∷ rest

  pub contains-to_set : (xs : List A) (a : A) → contains (to_set xs) a ≡ contains xs a
  contains-to_set [] a = refl
  contains-to_set (x ∷ xs) a = ground (arith, contains-to_set xs a, e.beq_iff x a)

  -- a comprehension with a condition
  abbrev pub filter : (A → Bool) → List A → List A
  filter p [] = []
  filter p (x ∷ xs) = let rest = filter p xs in if p x then x ∷ rest else rest

  pub contains-filter :
      (p : A → Bool) (xs : List A) (a : A) → contains (filter p xs) a ≡ (p a && contains xs a)
  contains-filter p [] a = ground arith
  contains-filter p (x ∷ xs) a = ground (arith, contains-filter p xs a, e.beq_iff x a)

module _ {ℓ κ} {A : Type ℓ} ⦃e : Eq A⦄ (P : A → Type κ) where
  pub All-contains : (xs : List A) → ((a : A) → contains xs a ≡ true → P a) → All P xs
  All-contains [] f = tt
  All-contains (x ∷ xs) f =
      (f x (ground (arith, ==_refl x)), All-contains xs (λ a h. f a (ground (arith, h))))
