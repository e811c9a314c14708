-- ===== src/Uploader/All.antt =====
-- The upload of all digests, where the operation is not stopped, the files do not change and the
-- storage keeps its contract.
use astacus.Prelude.{
  ℕ, suc, ◌+◌, ◌≤◌, ◌≡◌, ◌≢◌, refl, ap, ◌∙◌, Bool, true, false, not, ◌&&◌, Option, some, String,
  List, [], ◌∷◌, any, All, arith, ◌==◌, string_eq, nat_eq, eq_iff, Bool-cases, inl, inr, length,
  total, one_if,
}
use astacus.Exceptions.{returned}
use astacus.Progress.{Progress, add_success, add_fail, upload_success, upload_missing}
use astacus.Storage.Interface.{HexDigestStorage, HexDigestContract, StorageUploadResult}
use astacus.Uploader.{
  success, missing, Work, Run, report_to, upload_hexdigest, upload_files, take_result, upload_all,
}
use astacus.Uploader.Digest.{is_good, upload_files_missing, upload_files_success, IsStored}

report_success :
    (p : Progress)
    → p.final ≡ false
    → suc p.handled ≤ p.total
    → report_to success p ≡ (returned tt, record p { handled = p.handled + 1 })
unfolding report_to upload_success add_success
report_success p f h = ground arith

report_missing :
    (p : Progress)
    → p.final ≡ false
    → report_to missing p ≡ (returned tt, record p { failed = p.failed + 1 })
unfolding report_to upload_missing add_fail
report_missing p f = ground arith

-- The files have the digest, which is not empty.
abbrev pub IsWork : Work → Type 0
IsWork (h, files) = (h ≢ "") × All (λ f. f.hexdigest ≡ h) files

module _ {S : Type 0} (storage : HexDigestStorage S (List ℕ)) (hash : List ℕ → String)
    (held : String → Option (List ℕ)) where
  -- a file with the digest is there
  abbrev pub can_upload : Work → Bool
  can_upload (h, files) = any (λ f. is_good storage hash held f) files

  -- the digests of the list under which something is stored
  abbrev pub stored_in : List Work → String → Bool
  stored_in todo k = any (λ w. w.0 == k && can_upload w) todo

module _ {S : Type 0} (storage : HexDigestStorage S (List ℕ)) (hash : List ℕ → String)
    (held : String → Option (List ℕ)) (IsValid : S → Type 0) (view : S → String → Option (List ℕ))
    (contract : HexDigestContract storage IsValid view) where
  upload_hexdigest-files :
      (w : Work) (s : S)
      → w.0 ≢ ""
      → upload_hexdigest storage hash (λ _. held) true w s
        ≡ upload_files storage hash (λ _. held) true w.0 w.1 s
  unfolding upload_hexdigest
  upload_hexdigest-files (h, files) s n = ground (arith, n, eq_iff h "")

  take_result_missing :
      (w : Work) (s : Run S)
      → IsWork w
      → s.progress.final ≡ false
      → can_upload storage hash held w ≡ false
      → take_result storage hash (λ _. held) true (λ _. true) w s ≡ (
        returned true,
        record s {
          progress = record s.progress { failed = s.progress.failed + 1 };
          calls = suc s.calls;
        },
      )
  unfolding take_result
  take_result_missing w s k f e = ground (
    arith,
    upload_hexdigest-files w s.storage k.0,
    upload_files_missing storage hash held w.0 w.1 s.storage e,
    report_missing s.progress f,
  )

  take_result-good :
      (w : Work) (s : Run S) (u : StorageUploadResult) (st : S)
      → IsWork w
      → s.progress.final ≡ false
      → suc s.progress.handled ≤ s.progress.total
      → upload_files storage hash (λ _. held) true w.0 w.1 s.storage ≡ (returned (success, u), st)
      → take_result storage hash (λ _. held) true (λ _. true) w s ≡ (
        returned true,
        record {
          storage = st;
          progress = record s.progress { handled = s.progress.handled + 1 };
          total = s.total + u.size;
          stored = s.stored + u.stored_size;
          calls = suc s.calls;
        },
      )
  unfolding take_result
  take_result-good w s u st k f h run =
      ground (arith, upload_hexdigest-files w s.storage k.0, run, report_success s.progress f h)

  take_result_success :
      (w : Work) (s : Run S)
      → IsWork w
      → s.progress.final ≡ false
      → suc s.progress.handled ≤ s.progress.total
      → IsValid s.storage
      → can_upload storage hash held w ≡ true
      → (s' : Run S) × (take_result storage hash (λ _. held) true (λ _. true) w s
          ≡ (returned true, s'))
        × (s'.progress ≡ record s.progress { handled = s.progress.handled + 1 })
        × IsStored storage hash held IsValid view w.0 s.storage s'.storage
  take_result_success w s k f h v e =
      let (u, st, run, stored) =
        upload_files_success storage hash held IsValid view contract w.0 w.1 s.storage v k.1 e in
      (
        record {
          storage = st;
          progress = record s.progress { handled = s.progress.handled + 1 };
          total = s.total + u.size;
          stored = s.stored + u.stored_size;
          calls = suc s.calls;
        },
        take_result-good w s u st k f h run,
        refl,
        stored,
      )

  pub record IsUploaded (todo : List Work) (s s' : Run S) : Type 0 where
    pub valid : IsValid s'.storage
    pub same_total : s'.progress.total ≡ s.progress.total
    pub same_final : s'.progress.final ≡ s.progress.final
    pub handled :
        s'.progress.handled
        ≡ s.progress.handled + total (λ w. one_if (can_upload storage hash held w)) todo
    pub failed :
        s'.progress.failed
        ≡ s.progress.failed + total (λ w. one_if (not (can_upload storage hash held w))) todo
    pub has :
        (k : String)
        → stored_in storage hash held todo k ≡ true
        → (bytes : List ℕ) × (view s'.storage k ≡ some bytes) × (hash bytes ≡ k)
    pub keeps :
        (k : String)
        → stored_in storage hash held todo k ≡ false
        → view s'.storage k ≡ view s.storage k

  take_result-IsUploaded :
      (w : Work) (s : Run S)
      → IsWork w
      → IsValid s.storage
      → s.progress.final ≡ false
      → suc s.progress.handled ≤ s.progress.total
      → (s' : Run S) × (take_result storage hash (λ _. held) true (λ _. true) w s
          ≡ (returned true, s'))
        × IsUploaded (w ∷ []) s s'
  take_result-IsUploaded w s k v f h = elim (Bool-cases (can_upload storage hash held w)) [
    | inl e ↦
        (let (s', run, progress, stored) = take_result_success w s k f h v e in
          (
            s',
            run,
            record {
              valid = stored.valid;
              same_total = ap (λ p. p.total) progress;
              same_final = ap (λ p. p.final) progress;
              handled = ground (arith, ap (λ p. p.handled) progress, e);
              failed = ground (arith, ap (λ p. p.failed) progress, e);
              has = λ q t. (
                stored.bytes,
                ground (arith, stored.shows q, t, e),
                ground (arith, stored.digest, t, e, eq_iff w.0 q),
              );
              keeps = λ q t. ground (arith, stored.shows q, t, e);
            },
          ))
    | inr e ↦ (
      record s {
        progress = record s.progress { failed = s.progress.failed + 1 };
        calls = suc s.calls;
      },
      take_result_missing w s k f e,
      record {
        valid = v;
        same_total = refl;
        same_final = refl;
        handled = ground (arith, e);
        failed = ground (arith, e);
        has = λ q t. absurd (ground (arith, t, e));
        keeps = λ q t. refl;
      },
    )
  ]

  IsUploaded-then :
      (w : Work) (todo : List Work) (a b c : Run S)
      → IsUploaded (w ∷ []) a b
      → IsUploaded todo b c
      → IsUploaded (w ∷ todo) a c
  IsUploaded-then w todo a b c one rest = record {
    valid = rest.valid;
    same_total = rest.same_total ∙ one.same_total;
    same_final = rest.same_final ∙ one.same_final;
    handled = ground (arith, rest.handled, one.handled);
    failed = ground (arith, rest.failed, one.failed);
    has = λ q t. elim (Bool-cases (stored_in storage hash held todo q)) [
      | inl e ↦ rest.has q e
      | inr e ↦
          (let (bytes, shown, digest) = one.has q (ground (arith, t, e)) in
            (bytes, rest.keeps q e ∙ shown, digest))
    ];
    keeps = λ q t. rest.keeps q (ground (arith, t)) ∙ one.keeps q (ground (arith, t));
  }

  pub upload_all-IsUploaded :
      (todo : List Work) (s : Run S)
      → All IsWork todo
      → IsValid s.storage
      → s.progress.final ≡ false
      → s.progress.handled + length todo ≤ s.progress.total
      → (s' : Run S) × (upload_all storage hash (λ _. held) true (λ _. true) todo s
          ≡ (returned true, s'))
        × IsUploaded todo s s'
  unfolding upload_all
  upload_all-IsUploaded [] s k v f h = (
    s,
    refl,
    record {
      valid = v;
      same_total = refl;
      same_final = refl;
      handled = omega arith;
      failed = omega arith;
      has = λ q t. absurd (ground (arith, t));
      keeps = λ q t. refl;
    },
  )
  upload_all-IsUploaded (w ∷ todo) s k v f h =
      let (mid, run, one) = take_result-IsUploaded w s k.0 v f (omega arith) in
      let room : mid.progress.handled + length todo ≤ mid.progress.total =
        ground (arith, one.handled, one.same_total, h) in
      let (s', more, rest) =
        upload_all-IsUploaded todo mid k.1 one.valid (one.same_final ∙ f) room in
      (s', ground (arith, run, more), IsUploaded-then w todo s mid s' one rest)
