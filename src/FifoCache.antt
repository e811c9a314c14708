-- ===== src/FifoCache.antt =====
-- `FifoCache` and the decorator `fifo_cache` of astacus/common/utils.py. The decorated method is a
-- function of its argument.
pub mod Transparent
mod Tests
use astacus.Prelude.{
  ℕ, Bool, true, false, not, Option, none, some, List, [], ◌∷◌, ◌++◌, leb, ltb, Eq, ◌==◌, length,
  lookup, insert, remove, if◌then◌else◌,
}
use astacus.Exceptions.{
  Exn, index_error, key_error, value_error, assertion, Outcome, returned, raised, Method, modify,
  ◌>>=◌, ◌>>◌,
}

pub record FifoCache (K V : Type 0) : Type 0 where
  pub size : ℕ
  pub cache : List (K × V)
  pub key_queue : List K

module _ {K V : Type 0} ⦃e : Eq K⦄ where
  -- `FifoCache(size)`
  unfoldable pub create : ℕ → Outcome (FifoCache K V)
  create size =
      if ltb size 1
      then raised value_error
      else returned (record { size = size; cache = []; key_queue = [] })

  unfoldable pub has_key : FifoCache K V → K → Bool
  has_key c key = elim (lookup c.cache key) [ none ↦ false | some v ↦ true ]

  -- `self.cache.pop(self.key_queue.popleft())`
  unfoldable pub pop_oldest : Method (FifoCache K V) (Unit {0})
  pop_oldest c = elim c.key_queue [
    | [] ↦ (raised index_error, c)
    | key ∷ keys ↦ elim (lookup c.cache key) [
      | none ↦ (raised key_error, record c { key_queue = keys })
      | some v ↦ (returned tt, record c { key_queue = keys; cache = remove c.cache key })
    ]
  ]

  make_room : Method (FifoCache K V) (Unit {0})
  unfolding pop_oldest
  make_room c = if leb c.size (length c.cache) then pop_oldest c else (returned tt, c)

  overwrite : K → V → FifoCache K V → FifoCache K V
  unfolding has_key
  overwrite key value c = if has_key c key then record c { cache = insert c.cache key value } else c

  unfoldable pub set_item : K → V → Method (FifoCache K V) (Unit {0})
  unfolding overwrite make_room
  set_item key value = do
    modify (overwrite key value)
    make_room
    modify (λ c. record c { key_queue = c.key_queue ++ key ∷ []; cache = insert c.cache key value })

-- The decorated method may return None, so its values are optional, and so are the cached ones.
module _ {K W : Type 0} ⦃e : Eq K⦄ where
  -- `self.cache.get(key)`: None for a missing key too
  unfoldable pub get_item : FifoCache K (Option W) → K → Option W
  get_item c key = elim (lookup c.cache key) [ none ↦ none | some value ↦ value ]

  -- the wrapper of `fifo_cache`, with the cache that it made
  unfoldable pub wrapper : (K → Option W) → K → Method (FifoCache K (Option W)) (Option W)
  unfolding has_key get_item set_item
  wrapper method key c =
      if has_key c key
      then (elim (get_item c key) [
        | none ↦ (raised assertion, c)
        | some value ↦ (returned (some value), c)
      ])
      else (let value = method key in
          let (r, c') = set_item key value c in
          elim r [ returned _ ↦ (returned value, c') | raised e ↦ (raised e, c') ])
