-- ===== src/Uploader.antt =====
-- astacus/node/uploader.py: the upload of a node's files by their digests. The pool works on the
-- digests one by one, in the order in which the results are taken up; `read` is what a file of the
-- snapshot's directory holds at each of the three times at which the code opens it.
pub mod Digest
pub mod All
pub mod Write
mod Tests
use astacus.Prelude.{
  ℕ, suc, ◌+◌, Bool, true, false, not, ◌&&◌, ◌||◌, Option, none, some, String, List, [], ◌∷◌, map,
  leb, ◌==◌, string_eq, length, to_set, sorted, any, if◌then◌else◌,
}
use astacus.Exceptions.{
  file_not_found, index_error, assertion, is_permanent, is_transient, Outcome, returned, raised,
  Method,
}
use astacus.Ipc.{SnapshotFile, SnapshotHash}
use astacus.Progress.{Progress, start, add_fail, upload_success, upload_missing, upload_failure}
use astacus.Storage.Interface.{HexDigestStorage, StorageUploadResult}
use astacus.Snapshotter.{Rows, read_limited}
use astacus.Snapshotter.Queries.{get_files_for_digest}

pub data Phase : Type 0 where
  before during after : Phase

-- the progress callback that a worker returns
pub data Report : Type 0 where
  success missing failure : Report

abbrev pub no_upload : StorageUploadResult
no_upload = record { size = 0; stored_size = 0 }

-- a digest of the list `todo` with the files that the snapshot lists for it
abbrev pub Work : Type 0
Work = String × List SnapshotFile

unfoldable pub report_to : Report → Method Progress (Unit {0})
unfolding upload_success upload_missing upload_failure
report_to success = upload_success
report_to missing = upload_missing
report_to failure = upload_failure

-- the local variables of the upload, with the number of calls of `still_running_callback` so far
pub record Run (S : Type 0) : Type 0 where
  pub storage : S
  pub progress : Progress
  pub total : ℕ
  pub stored : ℕ
  pub calls : ℕ

-- `[(hexdigest, list(…)) for hexdigest in set(…)]`
unfoldable pub works : Rows → List String → List Work
works rows [] = []
works rows (h ∷ hs) = (h, get_files_for_digest rows h) ∷ works rows hs

abbrev pub first_size : Work → ℕ
first_size (h, []) = 0
first_size (h, f ∷ files) = f.file_size

abbrev pub has_files : Work → Bool
has_files (h, []) = false
has_files (h, f ∷ files) = true

unfoldable pub largest_first : List Work → List Work
largest_first todo = sorted (λ a b. leb (first_size b) (first_size a)) todo

module _ {S : Type 0} (storage : HexDigestStorage S (List ℕ)) (hash : List ℕ → String)
    (read : Phase → String → Option (List ℕ)) (validate : Bool) where
  -- `hash_hexdigest_readable` of an open file against the digest of its row
  unfoldable pub same_hash : SnapshotFile → List ℕ → Bool
  same_hash f bytes = hash (read_limited f.file_size bytes) == f.hexdigest

  -- the loop over the files of `_upload_hexdigest_in_thread`
  unfoldable pub upload_files : String → List SnapshotFile → Method S (Report × StorageUploadResult)
  unfolding same_hash
  upload_files hexdigest [] s = (returned (missing, no_upload), s)
  upload_files hexdigest (f ∷ files) s =
      let rest = upload_files hexdigest files in
      elim (read before f.relative_path) [
        | none ↦ rest s
        | some found ↦
            if validate && not (same_hash f found)
            then rest s
            else elim (read during f.relative_path) [
              | none ↦ (raised file_not_found, s)
              | some sent ↦
                  let (r, s') =
                    storage.upload_hexdigest hexdigest (read_limited f.file_size sent) s in
                  elim r [
                    | raised e ↦
                        if is_transient e || is_permanent e
                        then (returned (failure, no_upload), s')
                        else (raised e, s')
                    | returned u ↦
                        if not validate
                        then (returned (success, u), s')
                        else elim (read after f.relative_path) [
                          | none ↦ (raised file_not_found, s')
                          | some left ↦
                              if same_hash f left
                              then (returned (success, u), s')
                              else (let (d, s'') = storage.delete_hexdigest hexdigest s' in
                                  elim d [ raised e ↦ (raised e, s'') | returned _ ↦ rest s'' ])
                        ]
                  ]
            ]
      ]

  -- `_upload_hexdigest_in_thread`
  unfoldable pub upload_hexdigest : Work → Method S (Report × StorageUploadResult)
  unfolding upload_files
  upload_hexdigest (hexdigest, files) s =
      if hexdigest == "" then (raised assertion, s) else upload_files hexdigest files s

  module _ (still : ℕ → Bool) where
    -- one result in `_result_cb`
    unfoldable pub take_result : Work → Method (Run S) Bool
    unfolding upload_hexdigest report_to
    take_result work s =
        let (r, st) = upload_hexdigest work s.storage in
        elim r [
          | raised e ↦ (raised e, record s { storage = st })
          | returned (report, u) ↦
              (let (p, progress) = report_to report s.progress in
                let s' = (record s {
                  storage = st;
                  progress = progress;
                  total = s.total + u.size;
                  stored = s.stored + u.stored_size;
                }) in
                elim p [
                  | raised e ↦ (raised e, s')
                  | returned _ ↦ (returned (still s.calls), record s' { calls = suc s.calls })
                ])
        ]

    -- `parallel_map_to`
    unfoldable pub upload_all : List Work → Method (Run S) Bool
    upload_all [] s = (returned true, s)
    upload_all (work ∷ todo) s =
        let (r, s') = take_result work s in
        let rest = upload_all todo s' in
        elim r [
          | raised e ↦ (raised e, s')
          | returned running ↦ if running then rest else (returned false, s')
        ]

    -- The key of the sort looks at the first file of each digest.
    unfoldable pub write_hashes_to_storage : Rows → List SnapshotHash → Method (Run S) (ℕ × ℕ)
    write_hashes_to_storage rows hashes s =
        let todo = works rows (to_set (map (λ h. h.hexdigest) hashes)) in
        if any (λ work. not (has_files work)) todo
        then (raised index_error, s)
        else (let (p, progress) = start (length todo) s.progress in
            let (r, s') =
              upload_all (largest_first todo)
                (record s { progress = progress; total = 0; stored = 0 }) in
            elim p [
              | raised e ↦ (raised e, record s { progress = progress })
              | returned _ ↦ elim r [
                | raised e ↦ (raised e, s')
                | returned true ↦ (returned (s'.total, s'.stored), s')
                | returned false ↦
                    (let (q, progress') = add_fail 1 s'.progress in
                      elim q [
                        | raised e ↦ (raised e, record s' { progress = progress' })
                        | returned _ ↦
                            (returned (s'.total, s'.stored), record s' { progress = progress' })
                      ])
              ]
            ])
