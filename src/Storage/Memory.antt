-- ===== src/Storage/Memory.antt =====
-- A storage in memory, with a dictionary of items by their kinds and names. It stands where a theorem
-- about any storage of astacus/common/storage.py that keeps its contract is applied to an example.
use astacus.Prelude.{
  ℕ, ◌≡◌, refl, ◌↔◌, Bool, true, false, ◌&&◌, Option, none, some, List, [], ◌∷◌, String, arith, Eq,
  ◌==◌, string_eq, contains, lookup, insert, remove, lookup-insert, lookup-remove, if◌then◌else◌,
  eq_iff,
}
use astacus.Exceptions.{not_found, Outcome, returned, raised, Method}
use astacus.Storage.Interface.{
  is_some, Left, JsonStorage, JsonContract, HexDigestStorage, HexDigestContract,
  StorageUploadResult,
}

pub data Kind : Type 0 where
  dat json : Kind

pub record ItemName : Type 0 where
  pub name : String
  pub kind : Kind

unfoldable pub kind_beq : Kind → Kind → Bool
kind_beq dat dat = true
kind_beq json json = true
kind_beq _ _ = false

unfoldable pub item_beq : ItemName → ItemName → Bool
unfolding kind_beq
item_beq a b = a.name == b.name && kind_beq a.kind b.kind

pub item_beq_iff : (a b : ItemName) → (item_beq a b ≡ true) ↔ (a ≡ b)
unfolding item_beq
item_beq_iff a b =
    (λ h. ground (arith, eq_iff a.name b.name), λ h. ground (arith, eq_iff a.name b.name))

instance abbrev pub item_eq : Eq ItemName
item_eq = record { beq = item_beq; beq_iff = item_beq_iff }

-- the items with their contents
abbrev pub Items : Type 0 → Type 0
Items D = List (ItemName × D)

abbrev json_item : String → ItemName
json_item name = record { name = name; kind = json }

abbrev hexdigest_item : String → ItemName
hexdigest_item hexdigest = record { name = hexdigest; kind = dat }

module _ {D : Type 0} where
  unfoldable pub discard_item : ItemName → Method (Items D) (Unit {0})
  discard_item item items = elim (lookup items item) [
    | none ↦ (raised not_found, items)
    | some d ↦ (returned tt, remove items item)
  ]

  read_item : ItemName → Method (Items D) D
  read_item item items = elim (lookup items item) [
    | none ↦ (raised not_found, items)
    | some d ↦ (returned d, items)
  ]

  unfoldable pub list_names : Kind → Items D → List String
  unfolding kind_beq
  list_names kind [] = []
  list_names kind ((p, d) ∷ items) =
      let rest = list_names kind items in if kind_beq p.kind kind then p.name ∷ rest else rest

  unfoldable pub delete_json : String → Method (Items D) (Unit {0})
  unfolding discard_item
  delete_json name = discard_item (json_item name)

  unfoldable pub open_json_bytes : String → Method (Items D) D
  unfolding read_item
  open_json_bytes name = read_item (json_item name)

  unfoldable pub list_jsons : Method (Items D) (List String)
  unfolding list_names
  list_jsons items = (returned (list_names json items), items)

  unfoldable pub upload_json_bytes : String → D → Method (Items D) Bool
  unfolding item_beq
  upload_json_bytes name data' items = (returned true, insert items (json_item name) data')

  unfoldable pub delete_hexdigest : String → Method (Items D) (Unit {0})
  unfolding discard_item
  delete_hexdigest hexdigest = discard_item (hexdigest_item hexdigest)

  unfoldable pub download_hexdigest : String → Method (Items D) D
  unfolding read_item
  download_hexdigest hexdigest = read_item (hexdigest_item hexdigest)

  unfoldable pub list_hexdigests : Method (Items D) (List String)
  unfolding list_names
  list_hexdigests items = (returned (list_names dat items), items)

  -- `len_of` is the number of bytes of the data.
  unfoldable pub upload_hexdigest : (D → ℕ) → String → D → Method (Items D) StorageUploadResult
  unfolding item_beq
  upload_hexdigest len_of hexdigest data' items = (
    returned (record { size = len_of data'; stored_size = len_of data' }),
    insert items (hexdigest_item hexdigest) data',
  )

kind_name_beq :
    (kind : Kind) (j k : String)
    → item_beq (record { name = j; kind = kind }) (record { name = k; kind = kind }) ≡ (j == k)
unfolding item_beq
kind_name_beq dat j k = ground arith
kind_name_beq json j k = ground arith

module _ {D : Type 0} where
  abbrev pub NoCondition : Items D → Type 0
  NoCondition items = Unit

  abbrev pub view_of : Kind → Items D → String → Option D
  view_of kind items name = lookup items (record { name = name; kind = kind })

  abbrev Leaves :
      {A : Type 0} → Kind → Outcome A × Items D → Outcome A → (String → Option D) → Type 0
  Leaves kind = Left NoCondition (view_of kind)

  contains-list_names :
      (kind : Kind) (items : Items D) (k : String)
      → contains (list_names kind items) k ≡ is_some (view_of kind items k)
  unfolding list_names item_beq
  contains-list_names kind [] k = refl
  contains-list_names kind ((p, d) ∷ items) k = ground (arith, contains-list_names kind items k)

  discard-some :
      (item : ItemName) (items : Items D) (d : D)
      → lookup items item ≡ some d
      → discard_item item items ≡ (returned tt, remove items item)
  unfolding discard_item
  discard-some item items d h = rw (h, discard_item)

  discard-none :
      (item : ItemName) (items : Items D)
      → lookup items item ≡ none
      → discard_item item items ≡ (raised not_found, items)
  unfolding discard_item
  discard-none item items h = rw (h, discard_item)

  read_item-eq :
      (item : ItemName) (items : Items D)
      → read_item item items
        ≡ (elim (lookup items item) [ none ↦ raised not_found | some d ↦ returned d ], items)
  unfolding read_item
  read_item-eq item items = ground arith

  module _ (kind : Kind) (name : String) (items : Items D) where
    abbrev item : ItemName
    item = record { name = name; kind = kind }

    discard_present :
        (d : D)
        → view_of kind items name ≡ some d
        → Leaves kind
            (discard_item item items)
            (returned tt)
            (λ k. if name == k then none else view_of kind items k)
    discard_present d h = rw (discard-some item items d h) (record {
      ends = refl;
      valid = tt;
      shows = λ k. rw (← kind_name_beq kind name k) (lookup-remove items item _);
    })

    discard_missing :
        view_of kind items name ≡ none
        → Leaves kind (discard_item item items) (raised not_found) (view_of kind items)
    discard_missing h =
        rw (discard-none item items h) (record { ends = refl; valid = tt; shows = λ k. refl })

    read_present :
        (d : D)
        → view_of kind items name ≡ some d
        → Leaves kind (read_item item items) (returned d) (view_of kind items)
    read_present d h =
        rw (read_item-eq item items, h) (record { ends = refl; valid = tt; shows = λ k. refl })

    read_missing :
        view_of kind items name ≡ none
        → Leaves kind (read_item item items) (raised not_found) (view_of kind items)
    read_missing h =
        rw (read_item-eq item items, h) (record { ends = refl; valid = tt; shows = λ k. refl })

    lookup-insert-item :
        (d : D) (k : String)
        → view_of kind (insert items item d) k
          ≡ (if name == k then some d else view_of kind items k)
    lookup-insert-item d k = rw (← kind_name_beq kind name k) (lookup-insert items item d _)

abbrev pub memory_json : (D : Type 0) → JsonStorage (Items D) D
memory_json D = record {
  delete_json = delete_json;
  open_json_bytes = open_json_bytes;
  list_jsons = list_jsons;
  upload_json_bytes = upload_json_bytes;
}

abbrev pub memory_hexdigest : (D : Type 0) → (D → ℕ) → HexDigestStorage (Items D) D
memory_hexdigest D len_of = record {
  delete_hexdigest = delete_hexdigest;
  download_hexdigest = download_hexdigest;
  list_hexdigests = list_hexdigests;
  upload_hexdigest = upload_hexdigest len_of;
}

pub memory_json-JsonContract :
    (D : Type 0) → JsonContract (memory_json D) NoCondition (view_of json)
unfolding delete_json open_json_bytes list_jsons upload_json_bytes
memory_json-JsonContract D = record {
  delete_present = λ name s d _ h. discard_present json name s d h;
  delete_missing = λ name s _ h. discard_missing json name s h;
  open_present = λ name s d _ h. read_present json name s d h;
  open_missing = λ name s _ h. read_missing json name s h;
  list_all = λ s _. (
    list_names json s,
    record { ends = refl; valid = tt; shows = λ k. refl },
    contains-list_names json s,
  );
  upload_any =
      λ name d s _. record { ends = refl; valid = tt; shows = lookup-insert-item json name s d };
}

pub memory_hexdigest-HexDigestContract :
    (D : Type 0) (len_of : D → ℕ)
    → HexDigestContract (memory_hexdigest D len_of) NoCondition (view_of dat)
unfolding delete_hexdigest download_hexdigest list_hexdigests upload_hexdigest
memory_hexdigest-HexDigestContract D len_of = record {
  delete_present = λ name s d _ h. discard_present dat name s d h;
  delete_missing = λ name s _ h. discard_missing dat name s h;
  download_present = λ name s d _ h. read_present dat name s d h;
  list_all = λ s _. (
    list_names dat s,
    record { ends = refl; valid = tt; shows = λ k. refl },
    contains-list_names dat s,
  );
  upload_any = λ name d s _. (
    record { size = len_of d; stored_size = len_of d },
    record { ends = refl; valid = tt; shows = lookup-insert-item dat name s d },
  );
}
