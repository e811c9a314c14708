-- ===== src/Cleanup/Dangling.antt =====
-- Which hexdigests the last step of the cleanup takes out of the set that it deletes
-- (astacus/coordinator/plugins/base.py).
use astacus.Prelude.{
  ◌≡◌, sym, ◌∙◌, Bool, true, false, not, ◌&&◌, Option, none, some, List, [], ◌∷◌, String, arith,
  contains, contains-discard, any, map, string_eq, ap, subst, ◌==◌, eq_iff, discard, Option-cases,
  Bool-cases, inl, inr,
}
use astacus.Exceptions.{Outcome, returned, Ensures, bind-eq-returned, lift}
use astacus.Storage.{JsonStorage, JsonContract, HexDigestStorage, HexDigestContract}
use astacus.Ipc.{SnapshotHash, SnapshotResult, BackupManifest, ManifestMin}
use astacus.Cleanup.{
  Stores, discard_hashes, discard_results, discard_kept, download_backup_manifest,
}
use astacus.Cleanup.Downloads.{
  Reads, Reads-refl, Reads-trans, Downloaded, download_backup_manifest-Downloaded, lift-lem,
  returned-injective,
}

abbrev pub hexdigests_of : Option (List SnapshotHash) → List String
hexdigests_of none = []
hexdigests_of (some hs) = map (λ h. h.hexdigest) hs

-- The manifest needs the file of that hash.
abbrev pub references : BackupManifest → String → Bool
references m k = any (λ r. contains (hexdigests_of r.hashes) k) m.snapshot_results

abbrev pub names_of : List ManifestMin → List String
names_of ms = map (λ m. m.filename) ms

contains-discard_hashes :
    (extra : List String) (hs : List SnapshotHash) (k : String)
    → contains (discard_hashes extra hs) k
      ≡ (contains extra k && not (contains (map (λ h. h.hexdigest) hs) k))
contains-discard_hashes extra [] k = ground arith
contains-discard_hashes extra (h ∷ hs) k = ground (
  arith,
  contains-discard_hashes (discard extra h.hexdigest) hs k,
  contains-discard extra h.hexdigest k,
)

contains-discard_results :
    (extra : List String) (rs : List SnapshotResult) (extra' : List String) (k : String)
    → discard_results extra rs ≡ returned extra'
    → contains extra' k
      ≡ (contains extra k && not (any (λ r. contains (hexdigests_of r.hashes) k) rs))
unfolding discard_results
contains-discard_results extra [] extra' k e = ground arith
contains-discard_results extra (r ∷ rs) extra' k e = elim (Option-cases r.hashes) [
  | inl h ↦ ground (arith, h)
  | inr (hs, h) ↦ ground (
    arith,
    h,
    contains-discard_hashes extra hs k,
    contains-discard_results (discard_hashes extra hs) rs extra' k,
  )
]

module _ {J H D E : Type 0} {json_storage : JsonStorage J D}
    {hexdigest_storage : HexDigestStorage H E} {JsonIsValid : J → Type 0} {HexIsValid : H → Type 0}
    {json_view : J → String → Option D} {hex_view : H → String → Option E}
    (json_contract : JsonContract json_storage JsonIsValid json_view)
    (hex_contract : HexDigestContract hexdigest_storage HexIsValid hex_view)
    (decode : D → Outcome BackupManifest) (decode_min : D → Outcome ManifestMin) where
  -- The manifest stored under the name is decoded to one that needs the file of the hash.
  pub record NeededBy (s : Stores J H) (k : String) (name : String) : Type 0 where
    pub document : D
    pub manifest : BackupManifest
    pub found : json_view s.json name ≡ some document
    pub decoded : decode document ≡ returned manifest
    pub needs : references manifest k ≡ true

  abbrev pub Seen : Stores J H → Stores J H → Type 0
  Seen = Reads json_contract hex_contract decode decode_min

  pub record Discarded (s : Stores J H) (kept : List ManifestMin) (extra : List String)
      (extra' : List String) (t : Stores J H) : Type 0 where
    pub reads : Seen s t
    pub only_extra : (k : String) → contains extra' k ≡ true → contains extra k ≡ true
    pub not_needed :
        (k name : String)
        → contains extra' k ≡ true
        → contains (names_of kept) name ≡ true
        → ¬ NeededBy s k name

  not_needed_here :
      (s : Stores J H) (filename name k : String) (m : BackupManifest) (t : Stores J H)
      → Downloaded json_contract hex_contract decode decode_min s filename m t
      → NeededBy s k name
      → filename ≡ name
      → references m k ≡ false
      → ⊥
  not_needed_here s filename name k m t dl nb same unneeded =
      let one_document : some dl.document ≡ some nb.document =
        sym dl.found ∙ (ap (json_view s.json) same ∙ nb.found) in
      let documents : dl.document ≡ nb.document = cc one_document in
      let one_manifest : returned dl.manifest ≡ returned nb.manifest =
        sym dl.decoded ∙ (ap decode documents ∙ nb.decoded) in
      let results : m.snapshot_results ≡ nb.manifest.snapshot_results =
        ap (λ (x : BackupManifest). x.snapshot_results) dl.renamed
        ∙ ap (λ (x : BackupManifest). x.snapshot_results) (returned-injective one_manifest) in
      cc (
        unneeded,
        nb.needs,
        ap (λ rs. any (λ (r : SnapshotResult). contains (hexdigests_of r.hashes) k) rs) results,
      )

  pub discard_kept-Discarded :
      (kept : List ManifestMin) (extra : List String) (s : Stores J H)
      → Seen s s
      → Ensures
          (discard_kept json_storage hexdigest_storage decode decode_min extra kept)
          s
          (Discarded s kept extra)
  unfolding discard_kept
  discard_kept-Discarded [] extra s h extra' t e =
      let same : extra' ≡ extra = cc (ap (λ p. p.0) e) in
      record {
        reads = subst (Seen s) (ap (λ p. p.1) e) h;
        only_extra = λ k c. subst (λ x. contains x k ≡ true) same c;
        not_needed = λ k name c n _. cc;
      }
  discard_kept-Discarded (m ∷ ms) extra s h extra' t e =
      let (manifest, s₁, download, e₁) =
        bind-eq-returned
          (download_backup_manifest json_storage hexdigest_storage decode decode_min m.filename) _ s
          e in
      let (extra₁, s₂, discarding, e₂) =
        bind-eq-returned (lift (discard_results extra manifest.snapshot_results)) _ s₁ e₁ in
      let dl =
        download_backup_manifest-Downloaded json_contract hex_contract decode decode_min m.filename
          s h manifest s₁ download in
      let (result, same) =
        lift-lem json_contract hex_contract decode decode_min
          (discard_results extra manifest.snapshot_results) s₁ extra₁ s₂ discarding in
      let r₂ : Seen s s₂ = subst (Seen s) (sym same) dl.reads in
      let ih =
        discard_kept-Discarded ms extra₁ s₂
          (Reads-refl json_contract hex_contract decode decode_min r₂) extra' t e₂ in
      let left =
        λ (k : String). contains-discard_results extra manifest.snapshot_results extra₁ k result in
      record {
        reads = Reads-trans json_contract hex_contract decode decode_min r₂ ih.reads;
        only_extra = λ k c. ground (arith, left k, ih.only_extra k c);
        not_needed = λ k name c n nb. elim (Bool-cases (m.filename == name)) [
          | inl here ↦
              not_needed_here s m.filename name k manifest s₁ dl nb
                ((eq_iff m.filename name).0 here) (ground (arith, left k, ih.only_extra k c))
          | inr there ↦ ih.not_needed k name c (ground arith) (record {
            document = nb.document;
            manifest = nb.manifest;
            found = r₂.json_same name ∙ nb.found;
            decoded = nb.decoded;
            needs = nb.needs;
          })
        ];
      }
