-- ===== src/Cleanup/Deletions.antt =====
-- The loops of the cleanup that delete (astacus/coordinator/plugins/base.py).
use astacus.Prelude.{
  ◌≡◌, refl, ◌∙◌, Option, none, List, [], ◌∷◌, String, arith, contains, Option-cases, inl, inr,
  string_eq, ap, subst, if◌then◌else◌,
}
use astacus.Exceptions.{Outcome, Ensures, bind-eq-returned}
use astacus.Storage.{JsonStorage, JsonContract, HexDigestStorage, HexDigestContract}
use astacus.Ipc.{BackupManifest, ManifestMin}
use astacus.Cleanup.{Stores, on_json, on_hex, delete_names, delete_hexdigests}

-- what is left of a view without some names
abbrev pub without : {V : Type 0} → (String → Option V) → List String → String → Option V
without v names k = if contains names k then none else v k

module _ {J H D E : Type 0} {json_storage : JsonStorage J D}
    {hexdigest_storage : HexDigestStorage H E} {JsonIsValid : J → Type 0} {HexIsValid : H → Type 0}
    {json_view : J → String → Option D} {hex_view : H → String → Option E}
    (json_contract : JsonContract json_storage JsonIsValid json_view)
    (hex_contract : HexDigestContract hexdigest_storage HexIsValid hex_view)
    (decode : D → Outcome BackupManifest) (decode_min : D → Outcome ManifestMin) where
  pub record Removed (jsons hexes : List String) (s t : Stores J H) : Type 0 where
    pub json_valid : JsonIsValid t.json
    pub hex_valid : HexIsValid t.hex
    pub json_left : (k : String) → json_view t.json k ≡ without (json_view s.json) jsons k
    pub hex_left : (k : String) → hex_view t.hex k ≡ without (hex_view s.hex) hexes k

  delete_json-Removed :
      (name : String) (s : Stores J H)
      → JsonIsValid s.json
      → HexIsValid s.hex
      → Ensures (on_json (json_storage.delete_json name)) s (λ _ t. Removed (name ∷ []) [] s t)
  delete_json-Removed name s jv hv a t e = elim (Option-cases (json_view s.json name)) [
    | inl absent ↦
        let left = json_contract.delete_missing name s.json jv absent in
        cc (left.ends, ap (λ p. p.0) e)
    | inr (d, there) ↦
        let left = json_contract.delete_present name s.json d jv there in
        subst (Removed (name ∷ []) [] s) (ap (λ p. p.1) e) (record {
          json_valid = left.valid;
          hex_valid = hv;
          json_left = λ k. left.shows k ∙ ground arith;
          hex_left = λ k. refl;
        })
  ]

  delete_hexdigest-Removed :
      (name : String) (s : Stores J H)
      → JsonIsValid s.json
      → HexIsValid s.hex
      → Ensures
          (on_hex (hexdigest_storage.delete_hexdigest name))
          s
          (λ _ t. Removed [] (name ∷ []) s t)
  delete_hexdigest-Removed name s jv hv a t e = elim (Option-cases (hex_view s.hex name)) [
    | inl absent ↦
        let left = hex_contract.delete_missing name s.hex hv absent in
        cc (left.ends, ap (λ p. p.0) e)
    | inr (d, there) ↦
        let left = hex_contract.delete_present name s.hex d hv there in
        subst (Removed [] (name ∷ []) s) (ap (λ p. p.1) e) (record {
          json_valid = jv;
          hex_valid = left.valid;
          json_left = λ k. refl;
          hex_left = λ k. left.shows k ∙ ground arith;
        })
  ]

  pub delete_names-Removed :
      (names : List String) (s : Stores J H)
      → JsonIsValid s.json
      → HexIsValid s.hex
      → Ensures
          (delete_names json_storage hexdigest_storage decode decode_min names)
          s
          (λ _ t. Removed names [] s t)
  unfolding delete_names
  delete_names-Removed [] s jv hv a t e =
      subst (Removed [] [] s) (ap (λ p. p.1) e)
        (record { json_valid = jv; hex_valid = hv; json_left = λ k. refl; hex_left = λ k. refl })
  delete_names-Removed (name ∷ names) s jv hv a t e =
      let (_, s₁, first, e₁) = bind-eq-returned (on_json (json_storage.delete_json name)) _ s e in
      let r₁ = delete_json-Removed name s jv hv _ s₁ first in
      let r₂ = delete_names-Removed names s₁ r₁.json_valid r₁.hex_valid a t e₁ in
      record {
        json_valid = r₂.json_valid;
        hex_valid = r₂.hex_valid;
        json_left = λ k. ground (arith, r₁.json_left k, r₂.json_left k);
        hex_left = λ k. r₂.hex_left k ∙ r₁.hex_left k;
      }

  pub delete_hexdigests-Removed :
      (names : List String) (s : Stores J H)
      → JsonIsValid s.json
      → HexIsValid s.hex
      → Ensures
          (delete_hexdigests json_storage hexdigest_storage decode decode_min names)
          s
          (λ _ t. Removed [] names s t)
  unfolding delete_hexdigests
  delete_hexdigests-Removed [] s jv hv a t e =
      subst (Removed [] [] s) (ap (λ p. p.1) e)
        (record { json_valid = jv; hex_valid = hv; json_left = λ k. refl; hex_left = λ k. refl })
  delete_hexdigests-Removed (name ∷ names) s jv hv a t e =
      let (_, s₁, first, e₁) =
        bind-eq-returned (on_hex (hexdigest_storage.delete_hexdigest name)) _ s e in
      let r₁ = delete_hexdigest-Removed name s jv hv _ s₁ first in
      let r₂ = delete_hexdigests-Removed names s₁ r₁.json_valid r₁.hex_valid a t e₁ in
      record {
        json_valid = r₂.json_valid;
        hex_valid = r₂.hex_valid;
        json_left = λ k. r₂.json_left k ∙ r₁.json_left k;
        hex_left = λ k. ground (arith, r₁.hex_left k, r₂.hex_left k);
      }
