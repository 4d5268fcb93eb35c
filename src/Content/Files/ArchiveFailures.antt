-- ===== src/Content/Files/ArchiveFailures.antt =====
-- `PreviewZIP` and `CommitZIP` of `internal/content/files.go` leave nothing behind when they fail.
use Prim.Native.String.{◌++◌}
use cotests.Prelude.{
  ℕ, ◌+◌, ◌*◌, ◌<◌, String, not, Option, none, some, List, [], ◌∷◌, ◌==◌, str_eq, any, length, ltb,
}
use cotests.Prelude.Int.{ℤ, ◌+ℤ◌}
use cotests.Outcome.{Result, ok, conflict, validation, guard}
use cotests.Outcome.Action.{Action, pure, ask, lift, on_first}
use cotests.Outcome.Keeps.{
  Keeps, Keeps-lift, Keeps-ask, Keeps->>=, Keeps->>, Fails, Fails-lift, Fails->>=, Fails->>,
  Fails-then_pure,
}
use cotests.Source.{Bytes, Source, max_int64, read_beyond}
use cotests.Importer.{TestPair, Limits}
use cotests.Db.Models.{User, ImportPreview, Table, has_id, revision_draft}
use cotests.Db.Gorm.{Gorm, GormLaws}
use cotests.Db.Revisions.{of_revision}
use cotests.Content.Access.{require_user, revision}
use cotests.Artifact.Directory.{Disk, DiskLaws, CanRemove}
use cotests.Artifact.Keys.{FillsKey}
use cotests.Artifact.Harmless.{Harmless, Harmless-order}
use cotests.Artifact.{Store, open_artifact}
use cotests.Content.Files.{FileWorld, plain, file_transaction, locked, checked}
use cotests.Content.Files.Archives.{
  or_invalid, too_long, preview_of, committed, last_position, beyond_positions, imported_test,
  import_tests, commit_preview, commit_transaction, commit_zip, preview_transaction, preview_zip,
  shown, unless, new_preview,
}
use cotests.Content.Files.Rollback.{
  Counts, Counts-order, Counts-on_first, file_transaction-Harmless,
}
use cotests.Content.Files.Failures.{locked-Counts, saved-Counts}

module _ (d : Disk) (g : Gorm) (disk_laws : DiskLaws d) (laws : GormLaws g)
    (can : CanRemove d) where
  open g use {State, first, find, create, update}

  Keeps-unless :
      (o : Option ℕ) (m : Action (FileWorld d g) (Unit {0}))
      → Keeps (Counts d g) m
      → Keeps (Counts d g) (unless o m)
  Keeps-unless (some at) m h = Keeps-lift (Counts-order d g) (ok tt)
  Keeps-unless none m h = h

  module _ (digest : Bytes → String) (now : ℕ) (read_zip : Source → Result (List TestPair))
      (store : Store) where
    import_tests-Counts :
        (random : ℕ → Result Bytes) (user_id revision_id : ℕ) (max : ℤ) (i : ℕ)
        (pairs : List TestPair)
        → store.max_bytes < max_int64
        → ((k : ℕ) → FillsKey (random k))
        → Keeps
            (Counts d g)
            (import_tests d g digest now read_zip store random user_id revision_id max i pairs)
    unfolding import_tests
    import_tests-Counts random user_id revision_id max i [] bound fills =
        Keeps-lift (Counts-order d g) (ok tt)
    import_tests-Counts random user_id revision_id max i (pair ∷ pairs) bound fills =
        let rest = import_tests-Counts random user_id revision_id max (i + 1) pairs bound fills in
        saved-Counts d g disk_laws laws can digest now store (random (2 * i)) user_id
          (pair.name ++ ".in") "text/plain" (plain pair.input) _ bound (fills (2 * i))
          (λ input.
            saved-Counts d g disk_laws laws can digest now store (random (2 * i + 1)) user_id
              (pair.name ++ ".out") "text/plain" (plain pair.output) _ bound (fills (2 * i + 1))
              (λ output.
                Keeps->> (Counts-order d g)
                  (on_first (
                    create Table.test_cases
                      (imported_test revision_id (max +ℤ 1 +ℤ i) input.id output.id)))
                  _
                  (Counts-on_first d g (
                    create Table.test_cases
                      (imported_test revision_id (max +ℤ 1 +ℤ i) input.id output.id)))
                  rest))

    commit_preview-Counts :
        (random : ℕ → Result Bytes) (user_id revision_id : ℕ) (preview : ImportPreview)
        → store.max_bytes < max_int64
        → ((k : ℕ) → FillsKey (random k))
        → Keeps
            (Counts d g)
            (commit_preview d g digest now read_zip store random user_id revision_id preview)
    unfolding commit_preview
    commit_preview-Counts random user_id revision_id preview bound fills =
        let order = Counts-order d g in
        Keeps->> order (lift (guard (ltb now preview.expires_at) conflict)) _
          (Keeps-lift order (guard (ltb now preview.expires_at) conflict))
          (Keeps->>= order
            (ask (λ w. first Table.artifacts (has_id Table.artifacts preview.artifact_id) w.0)) _
            (Keeps-ask order
              (λ w. first Table.artifacts (has_id Table.artifacts preview.artifact_id) w.0))
            (λ item.
              Keeps->>= order (ask (λ w. open_artifact d item w.1.0)) _
                (Keeps-ask order (λ w. open_artifact d item w.1.0))
                (λ file.
                  Keeps->>= order (lift (or_invalid (read_zip file))) _
                    (Keeps-lift order (or_invalid (read_zip file)))
                    (λ pairs.
                      Keeps->>= order
                        (ask (λ w. find Table.test_cases (of_revision revision_id) w.0)) _
                        (Keeps-ask order (λ w. find Table.test_cases (of_revision revision_id) w.0))
                        (λ tests.
                          Keeps->> order
                            (lift (
                              guard (not (beyond_positions (last_position tests)))
                                (validation "test positions exceed limit")))
                            _
                            (Keeps-lift order (
                              guard (not (beyond_positions (last_position tests)))
                                (validation "test positions exceed limit")))
                            (Keeps->> order
                              (import_tests d g digest now read_zip store random user_id revision_id
                                (last_position tests) 0 pairs)
                              _
                              (import_tests-Counts random user_id revision_id (last_position tests)
                                0 pairs bound fills)
                              (Keeps->> order
                                (on_first (
                                  update Table.previews (has_id Table.previews preview.id)
                                    (committed now)))
                                (pure tt)
                                (Counts-on_first d g (
                                  update Table.previews (has_id Table.previews preview.id)
                                    (committed now)))
                                (Keeps-lift order (ok tt)))))))))

    commit_transaction-Counts :
        (random : ℕ → Result Bytes) (user_id revision_id preview_id : ℕ)
        → store.max_bytes < max_int64
        → ((k : ℕ) → FillsKey (random k))
        → Keeps
            (Counts d g)
            (commit_transaction d g digest now read_zip store random user_id revision_id preview_id)
    unfolding commit_transaction
    commit_transaction-Counts random user_id revision_id preview_id bound fills =
        Keeps->> (Counts-order d g) (locked d g revision_id) _
          (locked-Counts d g disk_laws laws can revision_id)
          (Keeps->>= (Counts-order d g)
            (ask (λ w. first Table.previews (preview_of preview_id user_id revision_id) w.0)) _
            (Keeps-ask (Counts-order d g)
              (λ w. first Table.previews (preview_of preview_id user_id revision_id) w.0))
            (λ preview.
              Keeps-unless preview.committed_at _
                (commit_preview-Counts random user_id revision_id preview bound fills)))

    -- Where files can be removed, the limit of a file is below the greatest int64 and the random
    -- source gives 32 bytes or fails: a `CommitZIP` that fails, at whatever step and test, leaves
    -- every row as it was and no file that was not there before.
    pub commit_zip-Harmless :
        (random : ℕ → Result Bytes) (actor : Option User) (revision_id preview_id : ℕ)
        → store.max_bytes < max_int64
        → ((k : ℕ) → FillsKey (random k))
        → Fails
            (Harmless d g)
            (commit_zip d g digest now read_zip store random actor revision_id preview_id)
    unfolding commit_zip
    commit_zip-Harmless random actor revision_id preview_id bound fills =
        Fails->> (Harmless-order d g) (checked d g actor revision_id) _
          (Keeps-ask (Harmless-order d g) (λ w. revision g actor revision_id w.0))
          (Fails-lift (Harmless-order d g) (require_user actor) _ (λ user _.
            file_transaction-Harmless d g disk_laws laws can
              (commit_transaction d g digest now read_zip store random user.id revision_id
                preview_id)
              (commit_transaction-Counts random user.id revision_id preview_id bound fills)))

  module _ (digest : Bytes → String) (now : ℕ) (read_zip : Source → Result (List TestPair)) where
    preview_transaction-Counts :
        (store : Store) (random : Result Bytes) (user_id revision_id : ℕ) (raw : Bytes)
        → store.max_bytes < max_int64
        → FillsKey random
        → Keeps
            (Counts d g)
            (preview_transaction d g digest now read_zip store random user_id revision_id raw)
    unfolding preview_transaction
    preview_transaction-Counts store random user_id revision_id raw bound fills =
        Keeps->> (Counts-order d g) (locked d g revision_id) _
          (locked-Counts d g disk_laws laws can revision_id)
          (saved-Counts d g disk_laws laws can digest now store random user_id "tests.zip"
            "application/zip" (plain raw) _ bound fills
            (λ item.
              Counts-on_first d g
                (create Table.previews (new_preview user_id revision_id item.id now))))

    -- A `PreviewZIP` that fails changes no row and leaves no file behind.
    preview_zip-Harmless :
        (limits : Limits) (store : Store) (random : Result Bytes) (actor : Option User)
        (revision_id : ℕ) (source : Source)
        → limits.max_bytes < max_int64
        → FillsKey random
        → Fails
            (Harmless d g)
            (preview_zip d g digest now read_zip limits store random actor revision_id source)
    unfolding preview_zip
    preview_zip-Harmless limits store random actor revision_id source bound fills =
        let order = Harmless-order d g in
        let zip_store : Store = record store { max_bytes = limits.max_bytes } in
        Fails->>= order (checked d g actor revision_id) _
          (Keeps-ask order (λ w. revision g actor revision_id w.0))
          (λ r. Fails-lift order (require_user actor) _ (λ user _.
            Fails-lift order (guard (str_eq r.state revision_draft) conflict) _ (λ _ _.
              Fails-lift order (read_beyond limits.max_bytes source) _ (λ raw _.
                Fails-lift order (or_invalid (read_zip (plain raw))) _ (λ pairs _.
                  Fails-lift order
                    (guard (not (length pairs == 0)) (validation "archive must contain tests")) _
                    (λ _ _.
                      Fails-lift order
                        (guard (not (any (too_long store) pairs))
                          (validation "test exceeds artifact size limit"))
                        _
                        (λ _ _.
                          Fails-then_pure order
                            (file_transaction d g (
                              preview_transaction d g digest now read_zip zip_store random user.id
                                revision_id raw))
                            (λ preview. shown preview pairs)
                            (file_transaction-Harmless d g disk_laws laws can
                              (preview_transaction d g digest now read_zip zip_store random user.id
                                revision_id raw)
                              (preview_transaction-Counts zip_store random user.id revision_id raw
                                bound fills)))))))))
