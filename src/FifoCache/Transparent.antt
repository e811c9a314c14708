-- ===== src/FifoCache/Transparent.antt =====
-- The decorated method answers as the method does, from a cache of bounded size.
use astacus.Prelude.{
  ℕ, suc, ◌≤◌, ◌≡◌, refl, sym, ap, subst, Bool, true, false, Option, none, some, List, [], ◌∷◌,
  ◌++◌, map, arith, Eq, length, lookup, insert, remove, contains, contains-append, length-append,
  Option-cases, Bool-cases, leb, ==_refl, inl, inr,
}
use astacus.Exceptions.{assertion, Outcome, returned, raised}
use astacus.FifoCache.{
  FifoCache, has_key, get_item, set_item, wrapper, overwrite, make_room, pop_oldest,
}

module _ {K : Type 0} ⦃e : Eq K⦄ where
  abbrev Distinct : List K → Type 0
  Distinct [] = Unit
  Distinct (k ∷ ks) = (contains ks k ≡ false) × Distinct ks

  Distinct-append :
      (ks : List K) (k : K) → Distinct ks → contains ks k ≡ false → Distinct (ks ++ k ∷ [])
  Distinct-append [] k h n = (refl, tt)
  Distinct-append (j ∷ ks) k h n = (
    ground (arith, contains-append ks (k ∷ []) j, e.beq_iff j k, e.beq_iff k j),
    Distinct-append ks k h.1 (ground arith),
  )

module _ {K V : Type 0} ⦃e : Eq K⦄ where
  abbrev keys : List (K × V) → List K
  keys d = map (λ p. p.0) d

  abbrev Holds : (K → V) → List (K × V) → Type 0
  Holds method [] = Unit
  Holds method ((k, v) ∷ d) = (v ≡ method k) × Holds method d

  -- The queue is the keys in the order of their insertion, each once; the cache is not over its
  -- size, and holds the method's values.
  pub record IsValid (method : K → V) (c : FifoCache K V) : Type 0 where
    pub has_room : 1 ≤ c.size
    pub is_bounded : length c.cache ≤ c.size
    pub queue_is_keys : c.key_queue ≡ keys c.cache
    pub is_distinct : Distinct (keys c.cache)
    pub holds : Holds method c.cache

  lookup-none : (d : List (K × V)) (k : K) → lookup d k ≡ none → contains (keys d) k ≡ false
  lookup-none [] k h = refl
  lookup-none ((j, w) ∷ d) k h = ground (arith, lookup-none d k)

  none-lookup : (d : List (K × V)) (k : K) → contains (keys d) k ≡ false → lookup d k ≡ none
  none-lookup [] k h = refl
  none-lookup ((j, w) ∷ d) k h = ground (arith, none-lookup d k)

  insert_absent :
      (d : List (K × V)) (k : K) (v : V) → lookup d k ≡ none → insert d k v ≡ d ++ (k, v) ∷ []
  insert_absent [] k v h = refl
  insert_absent ((j, w) ∷ d) k v h = ground (arith, insert_absent d k v)

  remove_absent : (d : List (K × V)) (k : K) → lookup d k ≡ none → remove d k ≡ d
  remove_absent [] k h = refl
  remove_absent ((j, w) ∷ d) k h = ground (arith, remove_absent d k)

  keys-append : (d d' : List (K × V)) → keys (d ++ d') ≡ keys d ++ keys d'
  keys-append [] d' = refl
  keys-append (p ∷ d) d' = ap (λ ks. p.0 ∷ ks) (keys-append d d')

  Holds-append :
      (method : K → V) (d : List (K × V)) (k : K) (v : V)
      → Holds method d
      → v ≡ method k
      → Holds method (d ++ (k, v) ∷ [])
  Holds-append method [] k v h n = (n, tt)
  Holds-append method ((j, w) ∷ d) k v h n = (h.0, Holds-append method d k v h.1 n)

  Holds-lookup :
      (method : K → V) (d : List (K × V)) (k : K) (v : V)
      → Holds method d
      → lookup d k ≡ some v
      → v ≡ method k
  Holds-lookup method [] k v h n = ground arith
  Holds-lookup method ((j, w) ∷ d) k v h n =
      ground (arith, Holds-lookup method d k v h.1, e.beq_iff j k, h.0)

  has_key-eq : (c : FifoCache K V) (k : K) → has_key c k ≡ contains (keys c.cache) k
  unfolding has_key
  has_key-eq c k = ground (arith, lookup-none c.cache k, none-lookup c.cache k)

  has_key_absent : (c : FifoCache K V) (k : K) → lookup c.cache k ≡ none → has_key c k ≡ false
  unfolding has_key
  has_key_absent c k h = ground (arith, h)

  has_key_found :
      (c : FifoCache K V) (k : K) (v : V) → lookup c.cache k ≡ some v → has_key c k ≡ true
  unfolding has_key
  has_key_found c k v h = ground (arith, h)

  append_item : FifoCache K V → K → V → FifoCache K V
  append_item c k v = record c { key_queue = c.key_queue ++ k ∷ []; cache = insert c.cache k v }

  make_room_full :
      (c : FifoCache K V) → leb c.size (length c.cache) ≡ true → make_room c ≡ pop_oldest c
  unfolding make_room
  make_room_full c h = ground (arith, h)

  make_room_fits :
      (c : FifoCache K V) → leb c.size (length c.cache) ≡ false → make_room c ≡ (returned tt, c)
  unfolding make_room
  make_room_fits c h = ground (arith, h)

  module _ (method : K → V) (size : ℕ) (k : K) where
    abbrev cache_of : List (K × V) → List K → FifoCache K V
    cache_of d q = record { size = size; cache = d; key_queue = q }

    abbrev Room : FifoCache K V → Type 0
    Room c = (suc (length c.cache) ≤ c.size) × (lookup c.cache k ≡ none)

    without_oldest :
        (j : K) (w : V) (d : List (K × V))
        → IsValid method (cache_of ((j, w) ∷ d) (keys ((j, w) ∷ d)))
        → lookup ((j, w) ∷ d) k ≡ none
        → (pop_oldest (cache_of ((j, w) ∷ d) (keys ((j, w) ∷ d)))
            ≡ (returned tt, cache_of d (keys d)))
          × IsValid method (cache_of d (keys d))
          × Room (cache_of d (keys d))
    unfolding pop_oldest
    without_oldest j w d valid absent = (
      ground (arith, ==_refl j, remove_absent d j (none-lookup d j valid.is_distinct.0)),
      record {
        has_room = valid.has_room;
        is_bounded = omega (arith, valid.is_bounded);
        queue_is_keys = refl;
        is_distinct = valid.is_distinct.1;
        holds = valid.holds.1;
      },
      (valid.is_bounded, ground arith),
    )

    pops :
        (d : List (K × V))
        → leb size (length d) ≡ true
        → IsValid method (cache_of d (keys d))
        → lookup d k ≡ none
        → (c' : FifoCache K V) × (pop_oldest (cache_of d (keys d)) ≡ (returned tt, c'))
          × IsValid method c'
          × Room c'
    pops [] full valid absent = ground (arith, valid.has_room)
    pops ((j, w) ∷ d) full valid absent =
        (let (a, b, c) = without_oldest j w d valid absent in (cache_of d (keys d), a, b, c))

    make_room_returns :
        (d : List (K × V)) (q : List K)
        → q ≡ keys d
        → IsValid method (cache_of d (keys d))
        → lookup d k ≡ none
        → (c' : FifoCache K V) × (make_room (cache_of d q) ≡ (returned tt, c'))
          × IsValid method c'
          × Room c'
    make_room_returns d q same valid absent = elim (Bool-cases (leb size (length d))) [
      | inl full ↦ rw (make_room_full (cache_of d q) full, same) (pops d full valid absent)
      | inr room ↦
          rw (make_room_fits (cache_of d q) room, same)
            (cache_of d (keys d), refl, valid, (ground arith, absent))
    ]

  overwrite_absent :
      (c : FifoCache K V) (k : K) (v : V) → lookup c.cache k ≡ none → overwrite k v c ≡ c
  unfolding overwrite has_key
  overwrite_absent c k v h = ground (arith, h)

  append_item-IsValid :
      (method : K → V) (c : FifoCache K V) (k : K)
      → IsValid method c
      → suc (length c.cache) ≤ c.size
      → lookup c.cache k ≡ none
      → IsValid method (append_item c k (method k))
  unfolding append_item
  append_item-IsValid method c k valid room absent =
      rw (insert_absent c.cache k (method k) absent) (record {
        has_room = valid.has_room;
        is_bounded = omega (arith, length-append c.cache ((k, method k) ∷ []), room);
        queue_is_keys =
            rw (keys-append c.cache ((k, method k) ∷ []))
              (ap (λ q. q ++ k ∷ []) valid.queue_is_keys);
        is_distinct =
            rw (keys-append c.cache ((k, method k) ∷ []))
              (Distinct-append (keys c.cache) k valid.is_distinct (lookup-none c.cache k absent));
        holds = Holds-append method c.cache k (method k) valid.holds refl;
      })

  set_item_absent :
      (method : K → V) (c : FifoCache K V) (k : K)
      → IsValid method c
      → lookup c.cache k ≡ none
      → (c' : FifoCache K V) × (set_item k (method k) c ≡ (returned tt, c')) × IsValid method c'
  unfolding set_item append_item
  set_item_absent method c k valid absent =
      let valid' =
        subst (λ q. IsValid method (record c { key_queue = q })) valid.queue_is_keys valid in
      let (c', e', v', (room, absent')) =
        make_room_returns method c.size k c.cache c.key_queue valid.queue_is_keys valid' absent in
      (
        append_item c' k (method k),
        rw (overwrite_absent c k (method k) absent) (rw e' refl),
        append_item-IsValid method c' k v' room absent',
      )

-- What the decorated method does, by whether its argument is cached: a value other than None is
-- returned either way; None is returned at first, and fails the assertion once it is cached.
abbrev pub answer {ℓ} : {W : Type ℓ} → Bool → Option W → Outcome (Option W)
answer true none = raised assertion
answer false none = returned none
answer cached (some value) = returned (some value)

answer-false {ℓ} : {W : Type ℓ} (value : Option W) → answer false value ≡ returned value
answer-false none = refl
answer-false (some v) = refl

module _ {K W : Type 0} ⦃e : Eq K⦄ where
  wrapper_miss :
      (method : K → Option W) (c c' : FifoCache K (Option W)) (key : K)
      → lookup c.cache key ≡ none
      → set_item key (method key) c ≡ (returned tt, c')
      → wrapper method key c ≡ (returned (method key), c')
  unfolding wrapper has_key
  wrapper_miss method c c' key absent e' = ground (arith, absent, e')

  wrapper_hit :
      (method : K → Option W) (c : FifoCache K (Option W)) (key : K) (value : Option W)
      → lookup c.cache key ≡ some value
      → wrapper method key c ≡ (answer true value, c)
  unfolding wrapper has_key get_item
  wrapper_hit method c key none found = ground (arith, found)
  wrapper_hit method c key (some v) found = ground (arith, found)

  -- From a valid cache the decorated method returns what the method returns, except where the method
  -- returns None for an argument that is cached already: it then raises AssertionError. Either
  -- way it leaves a valid cache, whose size is bounded.
  pub wrapper-IsTransparent :
      (method : K → Option W) (c : FifoCache K (Option W)) (key : K)
      → IsValid method c
      → ((wrapper method key c).0 ≡ answer (has_key c key) (method key))
        × IsValid method (wrapper method key c).1
  wrapper-IsTransparent method c key valid = elim (Option-cases (lookup c.cache key)) [
    | inl absent ↦
        (let (c', e', v') = set_item_absent method c key valid absent in
          rw (wrapper_miss method c c' key absent e', has_key_absent c key absent)
            (sym (answer-false (method key)), v'))
    | inr (v, found) ↦
        rw (wrapper_hit method c key v found, has_key_found c key v found)
          (ap (answer true) (Holds-lookup method c.cache key v valid.holds found), valid)
  ]
