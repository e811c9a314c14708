-- ===== src/Manifests/Stored.antt =====
-- A manifest that was stored is found again.
use Prim.Native.String.{◌++◌ as append, len}
use text.Mathlib.Text.{starts_with}
use text.Mathlib.TextEquality.{starts_with_iff}
use text.Mathlib.TextPositions.{len-append}
use astacus.Prelude.{
  ◌≡◌, ◌≢◌, refl, ap, ◌∙◌, false, Option, some, String, arith, ◌==◌, string_eq, eq_iff, ==_refl,
  if◌then◌else◌, Bool-cases, inl, inr,
}
use astacus.Exceptions.{Outcome, returned, after}
use astacus.Ipc.{BackupManifest, ManifestMin}
use astacus.Storage.Interface.{JsonStorage, JsonContract, HexDigestStorage}
use astacus.Cleanup.{Stores, download_backup_manifest, backup_prefix}
use astacus.Manifests.{
  make_backup_name, upload_manifest_step, backup_name_step, backup_manifest_step, find_manifest,
}

prefix_not_empty : (name : String) → append backup_prefix name ≢ ""
prefix_not_empty name e = ground (arith, len-append backup_prefix name, ap len e)

module _ {J H D E : Type 0} (json_storage : JsonStorage J D)
    (hexdigest_storage : HexDigestStorage H E) (decode : D → Outcome BackupManifest)
    (decode_min : D → Outcome ManifestMin) (encode : BackupManifest → D)
    (decodes : (m : BackupManifest) → decode (encode m) ≡ returned m) (IsValid : J → Type 0)
    (view : J → String → Option D) (contract : JsonContract json_storage IsValid view) where
  download_found :
      (name : String) (m : BackupManifest) (s : Stores J H)
      → IsValid s.json
      → view s.json name ≡ some (encode m)
      → m.filename ≡ ""
      → (download_backup_manifest json_storage hexdigest_storage decode decode_min name s).0
        ≡ returned (record m { filename = name })
  unfolding download_backup_manifest
  download_found name m s v there f =
      let left = contract.open_present name s.json (encode m) v there in
      ground (arith, left.ends, decodes m, (eq_iff m.filename "").1 f)

  manifest_found :
      (name : String) (m : BackupManifest) (s : Stores J H)
      → IsValid s.json
      → view s.json name ≡ some (encode m)
      → m.filename ≡ ""
      → name ≢ ""
      → (backup_manifest_step json_storage hexdigest_storage decode decode_min encode name s).0
        ≡ returned (record m { filename = name })
  unfolding backup_manifest_step
  manifest_found name m s v there f n = elim (Bool-cases (name == "")) [
    | inl e ↦ absurd (n ((eq_iff name "").0 e))
    | inr e ↦ rw e (download_found name m s v there f)
  ]

  name_of :
      (requested : String) (s : Stores J H)
      → requested ≢ ""
      → backup_name_step json_storage hexdigest_storage decode decode_min encode requested s ≡ (
        returned (
            if starts_with requested backup_prefix
            then requested
            else append backup_prefix requested),
        s,
      )
  unfolding backup_name_step
  name_of requested s n = elim (Bool-cases (requested == "")) [
    | inl e ↦ absurd (n ((eq_iff requested "").0 e))
    | inr e ↦ elim (Bool-cases (starts_with requested backup_prefix)) [
      | inl t ↦ ground (arith, e, t)
      | inr t ↦ ground (arith, e, t)
    ]
  ]

  find_by_name :
      (requested name : String) (s : Stores J H)
      → requested ≢ ""
      → (if starts_with requested backup_prefix then requested else append backup_prefix requested)
        ≡ name
      → (find_manifest json_storage hexdigest_storage decode decode_min encode requested s).0
        ≡ (backup_manifest_step json_storage hexdigest_storage decode decode_min encode name s).0
  unfolding find_manifest
  find_by_name requested name s n e =
      let step = backup_manifest_step json_storage hexdigest_storage decode decode_min encode in
      ap (λ r. (after r.0 r.1 step).0) (name_of requested s n) ∙ ap (λ x. (step x s).0) e

  -- A manifest that was uploaded under the start of its attempt, a text that is not empty and has not
  -- the prefix of backups itself, is found by that text and by its full name, and is the one that was
  -- made, with its name filled in: where the storage keeps its contract and documents decode to what
  -- was encoded.
  pub find_manifest-upload_manifest_step :
      (iso : String) (m : BackupManifest) (s : Stores J H)
      → IsValid s.json
      → m.filename ≡ ""
      → iso ≢ ""
      → starts_with iso backup_prefix ≡ false
      → (s' : Stores J H) × (upload_manifest_step json_storage hexdigest_storage decode decode_min
            encode backup_prefix iso m s
          ≡ (returned tt, s'))
        × ((find_manifest json_storage hexdigest_storage decode decode_min encode iso s').0
            ≡ returned (record m { filename = append backup_prefix iso }))
        × ((find_manifest json_storage hexdigest_storage decode decode_min encode
              (append backup_prefix iso)
              s').0
            ≡ returned (record m { filename = append backup_prefix iso }))
  unfolding upload_manifest_step find_manifest backup_name_step make_backup_name
  find_manifest-upload_manifest_step iso m s v f n p =
      let name = append backup_prefix iso in
      let left = contract.upload_any name (encode m) s.json v in
      let s' : Stores J H = record s {
        json = (json_storage.upload_json_bytes name (encode m) s.json).1;
      } in
      let there : view s'.json name ≡ some (encode m) = left.shows name ∙ rw (==_refl name) refl in
      let found = manifest_found name m s' left.valid there f (prefix_not_empty iso) in
      (
        s',
        ground (arith, left.ends),
        find_by_name iso name s' n (rw p refl) ∙ found,
        find_by_name name name s' (prefix_not_empty iso)
              (rw ((starts_with_iff name backup_prefix).1 (iso, refl)) refl)
            ∙ found,
      )
