-- ===== src/Cleanup/Safety.antt =====
-- What a whole cleanup leaves (astacus/coordinator/plugins/base.py).
use text.Mathlib.Text.{starts_with}
use astacus.Prelude.{
  ℕ, ◌≡◌, ◌⊎◌, refl, sym, ◌∙◌, true, false, ◌&&◌, Option, none, List, [], String, arith, contains,
  contains-to_set, contains-difference, to_set, difference, string_eq, ap, subst, if◌then◌else◌,
  Bool-cases, inl, inr,
}
use astacus.Exceptions.{Outcome, returned, Ensures, bind-eq-returned}
use astacus.Storage.{is_some, JsonStorage, JsonContract, HexDigestStorage, HexDigestContract}
use astacus.Ipc.{Retention, BackupManifest, ManifestMin}
use astacus.Cleanup.{
  Stores, on_hex, backup_prefix, list_backups, download_all, compute_kept, delete_names,
  delete_backup_manifests, discard_kept, delete_dangling_hexdigests, cleanup,
}
use astacus.Cleanup.Downloads.{
  Reads, Reads-refl, Reads-trans, download_all-Reads, list_backups-Reads,
}
use astacus.Cleanup.Deletions.{Removed, delete_names-Removed, delete_hexdigests-Removed}
use astacus.Cleanup.Dangling.{names_of, NeededBy, discard_kept-Discarded}

module _ {J H D E : Type 0} {json_storage : JsonStorage J D}
    {hexdigest_storage : HexDigestStorage H E} {JsonIsValid : J → Type 0} {HexIsValid : H → Type 0}
    {json_view : J → String → Option D} {hex_view : H → String → Option E}
    (json_contract : JsonContract json_storage JsonIsValid json_view)
    (hex_contract : HexDigestContract hexdigest_storage HexIsValid hex_view)
    (decode : D → Outcome BackupManifest) (decode_min : D → Outcome ManifestMin) where
  abbrev Seen : Stores J H → Stores J H → Type 0
  Seen = Reads json_contract hex_contract decode decode_min

  abbrev Needed : Stores J H → String → String → Type 0
  Needed = NeededBy json_contract hex_contract decode decode_min

  compute_kept-Reads :
      (retention : Retention) (now : ℕ → ℕ) (explicit_delete names : List String) (s : Stores J H)
      → Seen s s
      → Ensures
          (compute_kept json_storage hexdigest_storage decode decode_min retention now
            explicit_delete names none)
          s
          (λ _ t. Seen s t)
  unfolding compute_kept
  compute_kept-Reads retention now explicit_delete names s h kept t e =
      let wanted = difference names (to_set explicit_delete) in
      let (ms, s₁, download, e₁) =
        bind-eq-returned (download_all json_storage hexdigest_storage decode decode_min wanted) _ s
          e in
      subst (Seen s) (ap (λ p. p.1) e₁)
        (download_all-Reads json_contract hex_contract decode decode_min wanted s h ms s₁ download)

  abbrev deleted_names : List String → List ManifestMin → List String
  deleted_names all kept = difference all (to_set (names_of kept))

  delete_backup_manifests-Removed :
      (all : List String) (kept : List ManifestMin) (s t : Stores J H) (names : List String)
      → Seen s s
      → delete_backup_manifests json_storage hexdigest_storage decode decode_min all kept s
        ≡ (returned names, t)
      → Removed json_contract hex_contract decode decode_min (deleted_names all kept) [] s t
  unfolding delete_backup_manifests
  delete_backup_manifests-Removed all kept s t names h e =
      let (_, s₁, deletion, e₁) =
        bind-eq-returned
          (delete_names json_storage hexdigest_storage decode decode_min (deleted_names all kept)) _
          s e in
      subst (Removed json_contract hex_contract decode decode_min (deleted_names all kept) [] s)
        (ap (λ p. p.1) e₁)
        (delete_names-Removed json_contract hex_contract decode decode_min (deleted_names all kept)
          s h.json_valid h.hex_valid _ s₁ deletion)

  -- the last step: documents stay, and hexdigests that a kept manifest needs
  record Dangled (kept : List ManifestMin) (s t : Stores J H) : Type 0 where
    documents : (k : String) → json_view t.json k ≡ json_view s.json k
    needed :
        (k name : String)
        → contains (names_of kept) name ≡ true
        → Needed s k name
        → hex_view t.hex k ≡ hex_view s.hex k

  delete_dangling-Dangled :
      (kept : List ManifestMin) (s : Stores J H)
      → Seen s s
      → Ensures
          (delete_dangling_hexdigests json_storage hexdigest_storage decode decode_min kept)
          s
          (λ _ t. Dangled kept s t)
  unfolding delete_dangling_hexdigests
  delete_dangling-Dangled kept s h a t e =
      let (names, s₁, listing, e₁) =
        bind-eq-returned (on_hex hexdigest_storage.list_hexdigests) _ s e in
      let (extra, s₂, discarding, e₂) =
        bind-eq-returned
          (discard_kept json_storage hexdigest_storage decode decode_min (to_set names) kept) _ s₁
          e₁ in
      let (listed, left, knows) = hex_contract.list_all s.hex h.hex_valid in
      let r₁ : Seen s s₁ = subst (Seen s) (ap (λ p. p.1) listing) (record {
        json_valid = h.json_valid;
        hex_valid = left.valid;
        json_same = λ k. refl;
        hex_same = left.shows;
      }) in
      let d =
        discard_kept-Discarded json_contract hex_contract decode decode_min kept (to_set names) s₁
          (Reads-refl json_contract hex_contract decode decode_min r₁) extra s₂ discarding in
      let r =
        delete_hexdigests-Removed json_contract hex_contract decode decode_min extra s₂
          d.reads.json_valid d.reads.hex_valid a t e₂ in
      record {
        documents = λ k. r.json_left k ∙ (d.reads.json_same k ∙ r₁.json_same k);
        needed = λ k name c nb. elim (Bool-cases (contains extra k)) [
          | inl gone ↦ absurd (
              d.not_needed k name gone c (record {
                document = nb.document;
                manifest = nb.manifest;
                found = r₁.json_same name ∙ nb.found;
                decoded = nb.decoded;
                needs = nb.needs;
              }))
          | inr stays ↦ ground (arith, stays, r.hex_left k, d.reads.hex_same k, r₁.hex_same k)
        ];
      }

  pub record IsSafe (s t : Stores J H) : Type 0 where
    pub other_documents :
        (name : String)
        → starts_with name backup_prefix ≡ false
        → json_view t.json name ≡ json_view s.json name
    pub unchanged_or_deleted :
        (name : String)
        → (json_view t.json name ≡ json_view s.json name) ⊎ (json_view t.json name ≡ none)
    pub data_kept :
        (name k : String)
        → starts_with name backup_prefix ≡ true
        → Needed t k name
        → hex_view t.hex k ≡ hex_view s.hex k

  module _ (all : List String) (kept : List ManifestMin) (s s₂ s₃ t : Stores J H) (r₂ : Seen s s₂)
      (knows : (k : String)
        → contains all k ≡ (starts_with k backup_prefix && is_some (json_view s.json k)))
      (del : Removed json_contract hex_contract decode decode_min (deleted_names all kept) [] s₂ s₃)
      (dangled : Dangled kept s₃ t) where
    document_after :
        (name : String)
        → json_view t.json name
          ≡ (if contains (deleted_names all kept) name then none else json_view s.json name)
    document_after name =
        ground (arith, dangled.documents name, del.json_left name, r₂.json_same name)

    is_deleted :
        (name : String)
        → contains (deleted_names all kept) name ≡ (
            if contains (names_of kept) name
            then false
            else starts_with name backup_prefix && is_some (json_view s.json name))
    is_deleted name = ground (
      arith,
      contains-difference all (to_set (names_of kept)) name,
      contains-to_set (names_of kept) name,
      knows name,
    )

    IsSafe-of_steps : IsSafe s t
    IsSafe-of_steps = record {
      other_documents = λ name h. ground (arith, document_after name, is_deleted name);
      unchanged_or_deleted = λ name. ground (arith, document_after name);
      data_kept = λ name k h nb.
          let is_kept : contains (names_of kept) name ≡ true =
            ground (arith, nb.found, document_after name, is_deleted name) in
          dangled.needed k name is_kept (record {
            document = nb.document;
            manifest = nb.manifest;
            found = sym (dangled.documents name) ∙ nb.found;
            decoded = nb.decoded;
            needs = nb.needs;
          })
          ∙ (del.hex_left k ∙ r₂.hex_same k);
    }

  -- A cleanup that runs to its end changes no document but deletes backup manifests, and leaves in
  -- the storage, as it was, each file whose hash a remaining backup manifest lists.
  pub cleanup-IsSafe :
      (retention : Retention) (now : ℕ → ℕ) (explicit_delete : List String) (s t : Stores J H)
      → JsonIsValid s.json
      → HexIsValid s.hex
      → cleanup json_storage hexdigest_storage decode decode_min retention now explicit_delete s
        ≡ (returned tt, t)
      → IsSafe s t
  unfolding cleanup
  cleanup-IsSafe retention now explicit_delete s t jv hv e =
      let start : Seen s s = record {
        json_valid = jv;
        hex_valid = hv;
        json_same = λ k. refl;
        hex_same = λ k. refl;
      } in
      let (all, s₁, listing, e₁) =
        bind-eq-returned
          (list_backups json_storage hexdigest_storage decode decode_min backup_prefix) _ s e in
      let (kept, s₂, computing, e₂) =
        bind-eq-returned
          (compute_kept json_storage hexdigest_storage decode decode_min retention now
            explicit_delete all none)
          _ s₁ e₁ in
      let (names, s₃, deleting, e₃) =
        bind-eq-returned
          (delete_backup_manifests json_storage hexdigest_storage decode decode_min all kept) _ s₂
          e₂ in
      let (r₁, knows) =
        list_backups-Reads json_contract hex_contract decode decode_min backup_prefix s start all s₁
          listing in
      let r₂ = Reads-trans json_contract hex_contract decode decode_min r₁ (
        compute_kept-Reads retention now explicit_delete all s₁
          (Reads-refl json_contract hex_contract decode decode_min r₁) kept s₂ computing) in
      let del =
        delete_backup_manifests-Removed all kept s₂ s₃ names
          (Reads-refl json_contract hex_contract decode decode_min r₂) deleting in
      IsSafe-of_steps all kept s s₂ s₃ t r₂ knows del (
        delete_dangling-Dangled kept s₃
          (record {
            json_valid = del.json_valid;
            hex_valid = del.hex_valid;
            json_same = λ k. refl;
            hex_same = λ k. refl;
          })
          tt t e₃)
