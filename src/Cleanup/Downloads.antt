-- ===== src/Cleanup/Downloads.antt =====
-- The steps of the cleanup that only read (astacus/coordinator/plugins/base.py,
-- astacus/coordinator/manifest.py).
use text.Mathlib.Text.{starts_with}
use astacus.Prelude.{
  ◌≡◌, refl, sym, ◌∙◌, Bool, true, false, ◌&&◌, Option, some, List, [], ◌∷◌, String, contains,
  contains-to_set, contains-filter, Option-cases, inl, inr, filter, string_eq, ap, subst,
}
use astacus.Exceptions.{Outcome, returned, Ensures, bind-eq-returned, lift, assert}
use astacus.Storage.{is_some, JsonStorage, JsonContract, HexDigestStorage, HexDigestContract}
use astacus.Ipc.{BackupManifest, ManifestMin}
use astacus.Cleanup.{
  Stores, on_json, own_name, download_backup_manifest, download_backup_min_manifest, list_backups,
  download_all,
}

pub returned-injective : {A : Type 0} {a b : A} → returned a ≡ returned b → a ≡ b
returned-injective e = cc

module _ {J H D E : Type 0} {json_storage : JsonStorage J D}
    {hexdigest_storage : HexDigestStorage H E} {JsonIsValid : J → Type 0} {HexIsValid : H → Type 0}
    {json_view : J → String → Option D} {hex_view : H → String → Option E}
    (json_contract : JsonContract json_storage JsonIsValid json_view)
    (hex_contract : HexDigestContract hexdigest_storage HexIsValid hex_view)
    (decode : D → Outcome BackupManifest) (decode_min : D → Outcome ManifestMin) where
  -- Both storages are valid, and show what they did in the first state.
  pub record Reads (s t : Stores J H) : Type 0 where
    pub json_valid : JsonIsValid t.json
    pub hex_valid : HexIsValid t.hex
    pub json_same : (k : String) → json_view t.json k ≡ json_view s.json k
    pub hex_same : (k : String) → hex_view t.hex k ≡ hex_view s.hex k

  pub Reads-trans : {s t u : Stores J H} → Reads s t → Reads t u → Reads s u
  Reads-trans h k = record {
    json_valid = k.json_valid;
    hex_valid = k.hex_valid;
    json_same = λ n. k.json_same n ∙ h.json_same n;
    hex_same = λ n. k.hex_same n ∙ h.hex_same n;
  }

  pub Reads-refl : {s t : Stores J H} → Reads s t → Reads t t
  Reads-refl h = record {
    json_valid = h.json_valid;
    hex_valid = h.hex_valid;
    json_same = λ n. refl;
    hex_same = λ n. refl;
  }

  -- the document that was read
  pub record Opened (s : Stores J H) (name : String) (d : D) (t : Stores J H) : Type 0 where
    pub reads : Reads s t
    pub found : json_view s.json name ≡ some d

  open_json_bytes-Opened :
      (name : String) (s : Stores J H)
      → Reads s s
      → Ensures (on_json (json_storage.open_json_bytes name)) s (Opened s name)
  open_json_bytes-Opened name s h d t e = elim (Option-cases (json_view s.json name)) [
    | inl none_there ↦
        let left = json_contract.open_missing name s.json h.json_valid none_there in cc (left.ends)
    | inr (d', there) ↦
        let left = json_contract.open_present name s.json d' h.json_valid there in
        subst (Opened s name d) (ap (λ p. p.1) e) (record {
          reads = record {
            json_valid = left.valid;
            hex_valid = h.hex_valid;
            json_same = left.shows;
            hex_same = λ k. refl;
          };
          found = there ∙ ap some (returned-injective (sym left.ends ∙ ap (λ p. p.0) e));
        })
  ]

  -- A lifted outcome, and an assertion, leave the state as it is.
  pub lift-lem :
      {A : Type 0} (r : Outcome A) (s : Stores J H)
      → Ensures (lift r) s (λ a t. (r ≡ returned a) × (t ≡ s))
  lift-lem r s a t e = (ap (λ p. p.0) e, sym (ap (λ p. p.1) e))

  assert-lem : (b : Bool) (s : Stores J H) → Ensures (assert b) s (λ _ t. t ≡ s)
  assert-lem true s a t e = sym (ap (λ p. p.1) e)
  assert-lem false s a t e = cc

  -- A downloaded manifest is the decoded document, under the name it was asked for.
  pub record Downloaded (s : Stores J H) (name : String) (m : BackupManifest) (t : Stores J H)
      : Type 0 where
    pub reads : Reads s t
    pub document : D
    pub manifest : BackupManifest
    pub found : json_view s.json name ≡ some document
    pub decoded : decode document ≡ returned manifest
    pub renamed : m ≡ record manifest { filename = name }

  pub download_backup_manifest-Downloaded :
      (name : String) (s : Stores J H)
      → Reads s s
      → Ensures
          (download_backup_manifest json_storage hexdigest_storage decode decode_min name)
          s
          (Downloaded s name)
  unfolding download_backup_manifest
  download_backup_manifest-Downloaded name s h m t e =
      let (d, s₁, opened, e₁) =
        bind-eq-returned (on_json (json_storage.open_json_bytes name)) _ s e in
      let (manifest, s₂, decoding, e₂) = bind-eq-returned (lift (decode d)) _ s₁ e₁ in
      let (_, s₃, asserting, e₃) =
        bind-eq-returned (assert (own_name manifest.filename name)) _ s₂ e₂ in
      let (decoded, same₂) = lift-lem (decode d) s₁ manifest s₂ decoding in
      let same₃ : s₃ ≡ s₂ = assert-lem (own_name manifest.filename name) s₂ _ s₃ asserting in
      let o = open_json_bytes-Opened name s h d s₁ opened in
      record {
        reads = subst (Reads s) (sym same₂ ∙ (sym same₃ ∙ ap (λ p. p.1) e₃)) o.reads;
        document = d;
        manifest = manifest;
        found = o.found;
        decoded = decoded;
        renamed = returned-injective (sym (ap (λ p. p.0) e₃));
      }

  -- a download of the three fields, of which the file name is set
  pub download_backup_min_manifest-named :
      (name : String) (s : Stores J H)
      → Reads s s
      → Ensures
          (download_backup_min_manifest json_storage hexdigest_storage decode decode_min name)
          s
          (λ m t. Reads s t × (m.filename ≡ name))
  unfolding download_backup_min_manifest
  download_backup_min_manifest-named name s h m t e =
      let (d, s₁, opened, e₁) =
        bind-eq-returned (on_json (json_storage.open_json_bytes name)) _ s e in
      let (manifest, s₂, decoding, e₂) = bind-eq-returned (lift (decode_min d)) _ s₁ e₁ in
      let (_, s₃, asserting, e₃) =
        bind-eq-returned (assert (own_name manifest.filename name)) _ s₂ e₂ in
      let (decoded, same₂) = lift-lem (decode_min d) s₁ manifest s₂ decoding in
      let same₃ : s₃ ≡ s₂ = assert-lem (own_name manifest.filename name) s₂ _ s₃ asserting in
      let o = open_json_bytes-Opened name s h d s₁ opened in
      (
        subst (Reads s) (sym same₂ ∙ (sym same₃ ∙ ap (λ p. p.1) e₃)) o.reads,
        ap (λ (m : ManifestMin). m.filename) (returned-injective (sym (ap (λ p. p.0) e₃))),
      )

  pub download_all-Reads :
      (names : List String) (s : Stores J H)
      → Reads s s
      → Ensures
          (download_all json_storage hexdigest_storage decode decode_min names)
          s
          (λ ms t. Reads s t)
  unfolding download_all
  download_all-Reads [] s h ms t e = subst (Reads s) (ap (λ p. p.1) e) h
  download_all-Reads (name ∷ names) s h ms t e =
      let (m, s₁, first, e₁) =
        bind-eq-returned
          (download_backup_min_manifest json_storage hexdigest_storage decode decode_min name) _ s
          e in
      let (rest, s₂, others, e₂) =
        bind-eq-returned (download_all json_storage hexdigest_storage decode decode_min names) _ s₁
          e₁ in
      let r₁ = (download_backup_min_manifest-named name s h m s₁ first).0 in
      let r₂ = download_all-Reads names s₁ (Reads-refl r₁) rest s₂ others in
      subst (Reads s) (ap (λ p. p.1) e₂) (Reads-trans r₁ r₂)

  pub list_backups-Reads :
      (prefix : String) (s : Stores J H)
      → Reads s s
      → Ensures (list_backups json_storage hexdigest_storage decode decode_min prefix) s (λ names t.
        Reads s t
        × ((k : String)
            → contains names k ≡ (starts_with k prefix && is_some (json_view s.json k))))
  unfolding list_backups
  list_backups-Reads prefix s h names t e =
      let (all_names, s₁, listing, e₁) = bind-eq-returned (on_json json_storage.list_jsons) _ s e in
      let (listed, left, knows) = json_contract.list_all s.json h.json_valid in
      let same : listed ≡ all_names = returned-injective (sym left.ends ∙ ap (λ p. p.0) listing) in
      (
        subst (Reads s) (ap (λ p. p.1) listing ∙ ap (λ p. p.1) e₁) (record {
          json_valid = left.valid;
          hex_valid = h.hex_valid;
          json_same = left.shows;
          hex_same = λ k. refl;
        }),
        λ k.
            ap (λ l. contains l k) (returned-injective (sym (ap (λ p. p.0) e₁)))
            ∙ (contains-to_set (filter (λ b. starts_with b prefix) all_names) k
                ∙ (contains-filter (λ b. starts_with b prefix) all_names k
                    ∙ ap (λ b. starts_with k prefix && b)
                        (ap (λ l. contains l k) (sym same) ∙ knows k))),
      )
