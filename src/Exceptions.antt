-- ===== src/Exceptions.antt =====
-- astacus/common/exceptions.py, and the other exceptions that the modelled code raises. A method
-- that mutates its object returns the object's state beside its outcome, also when it raises.
use astacus.Prelude.{ℕ, ◌≡◌, refl, ap, ◌⊎◌, inl, inr, Bool, true, false, if◌then◌else◌}

pub data Exn : Type 0 where
  -- AstacusException: the permanent ones
  expired_operation insufficient_nodes insufficient_azs not_found missing_snapshot_results : Exn
  compression_or_encryption_required rohmu_exception step_failed : Exn
  -- AstacusException: the transient ones
  transient : Exn
  -- raised by Python itself, by asyncio, by fastapi and by the coordinator's cluster module
  file_not_found assertion key_error index_error value_error runtime_error cancelled wait_result :
      Exn
  http_error : (status_code : ℕ) → Exn

-- `isinstance(e, PermanentException)`
abbrev pub is_permanent : Exn → Bool
is_permanent expired_operation = true
is_permanent insufficient_nodes = true
is_permanent insufficient_azs = true
is_permanent not_found = true
is_permanent missing_snapshot_results = true
is_permanent compression_or_encryption_required = true
is_permanent rohmu_exception = true
is_permanent step_failed = true
is_permanent _ = false

-- `isinstance(e, TransientException)`
abbrev pub is_transient : Exn → Bool
is_transient transient = true
is_transient _ = false

pub data Outcome {ℓ} (A : Type ℓ) : Type ℓ where
  returned : A → Outcome A
  raised : Exn → Outcome A

pub Outcome-cases {ℓ} :
    {A : Type ℓ} (r : Outcome A) → ((a : A) × (r ≡ returned a)) ⊎ ((e : Exn) × (r ≡ raised e))
Outcome-cases (returned a) = inl (a, refl)
Outcome-cases (raised e) = inr (e, refl)

abbrev pub Method {ℓ κ} : Type ℓ → Type κ → Type (ℓ ⊔ κ)
Method S A = S → Outcome A × S

module _ {ℓ κ} {S : Type ℓ} {A : Type κ} where
  abbrev pub pure : A → Method S A
  pure a s = (returned a, s)

  abbrev pub raise : Exn → Method S A
  raise e s = (raised e, s)

  abbrev pub lift : Outcome A → Method S A
  lift r s = (r, s)

module _ {ℓ κ μ} {S : Type ℓ} {A : Type κ} {B : Type μ} where
  abbrev pub after : Outcome A → S → (A → Method S B) → Outcome B × S
  after (returned a) s f = f a s
  after (raised e) s f = (raised e, s)

  infixl 5 ◌>>=◌ ◌>>◌
  abbrev pub ◌>>=◌ : Method S A → (A → Method S B) → Method S B
  ◌>>=◌ m f s = let (r, s') = m s in after r s' f

  abbrev pub ◌>>◌ : Method S A → Method S B → Method S B
  m >> n = m >>= λ _. n

module _ {ℓ} {S : Type ℓ} where
  abbrev pub get : Method S S
  get s = (returned s, s)

  abbrev pub modify : (S → S) → Method S (Unit {0})
  modify f s = (returned tt, f s)

  -- `if not test: raise e`
  abbrev pub require : Bool → Exn → Method S (Unit {0})
  require test e s = if test then (returned tt, s) else (raised e, s)

  -- `assert test`
  abbrev pub assert : Bool → Method S (Unit {0})
  assert test s = if test then (returned tt, s) else (raised assertion, s)

module _ {ℓ κ μ} {S : Type ℓ} {A : Type κ} {B : Type μ} where
  after-eq-returned :
      (r : Outcome A) (s' : S) (f : A → Method S B) {b : B} {t : S}
      → after r s' f ≡ (returned b, t)
      → (a : A) × (r ≡ returned a) × (f a s' ≡ (returned b, t))
  after-eq-returned (returned a) s' f h = (a, refl, h)
  after-eq-returned (raised e) s' f h = cc

  -- Inversion of a chain that returned: its first part did.
  pub bind-eq-returned :
      (m : Method S A) (f : A → Method S B) (s : S) {b : B} {t : S}
      → (m >>= f) s ≡ (returned b, t)
      → (a : A) × (s' : S) × (m s ≡ (returned a, s')) × (f a s' ≡ (returned b, t))
  bind-eq-returned m f s h =
      let (a, e, k) = after-eq-returned (m s).0 (m s).1 f h in
      (a, (m s).1, ap (λ r. (r, (m s).1)) e, k)

-- Whenever the call returns, its result and the state it leaves satisfy `Q`.
abbrev pub Ensures {ℓ κ μ} :
    {S : Type ℓ} {A : Type κ} → Method S A → S → (A → S → Type μ) → Type (ℓ ⊔ κ ⊔ μ)
Ensures {S} {A} m s Q = (a : A) (t : S) → m s ≡ (returned a, t) → Q a t

module _ {ℓ κ μ ν ξ} {S : Type ℓ} {A : Type κ} {B : Type μ} where
  pub Ensures-bind :
      (m : Method S A) (f : A → Method S B) (s : S) (Q : A → S → Type ν) (R : B → S → Type ξ)
      → Ensures m s Q
      → ((a : A) (t : S) → Q a t → Ensures (f a) t R)
      → Ensures (m >>= f) s R
  Ensures-bind m f s Q R h k b t e =
      let (a, s', first, rest) = bind-eq-returned m f s e in k a s' (h a s' first) b t rest
