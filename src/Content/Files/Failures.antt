-- ===== src/Content/Files/Failures.antt =====
-- The writes of files in `internal/content/files.go` that fail leave nothing behind.
use cotests.Prelude.{ℕ, ◌<◌, String, Option, ◌==◌, inl, inr, Bool-cases}
use cotests.Outcome.{Result, ok, validation, guard}
use cotests.Outcome.Action.{Action, pure, ask, on_first, ◌>>=◌}
use cotests.Outcome.Keeps.{
  Keeps, Keeps-lift, Keeps-ask, Keeps->>=, Keeps->>, Fails, Fails-lift, Fails->>,
}
use cotests.Source.{Bytes, Source, max_int64}
use cotests.Db.Models
use cotests.Db.Models.{User, TestCase, ImportPreview, Table, has_id, revision_draft}
use cotests.Db.Gorm.{Gorm, GormLaws}
use cotests.Db.Revisions.{lock_draft}
use cotests.Content.Access.{require_user, revision}
use cotests.Content.Assignments.{conflict_draft}
use cotests.Artifact.Directory.{Disk, DiskLaws, CanRemove}
use cotests.Artifact.Keys.{FillsKey}
use cotests.Artifact.Harmless.{Harmless, Harmless-order}
use cotests.Artifact.{Store}
use cotests.Content.Files.{
  TestInput, FileWorld, plain, locked, checked, find_test, write_test, test_of, save_counted,
  save_test_transaction, save_test, is_pdf, upload_transaction, upload_pdf, with_pdf,
}
use cotests.Content.Files.Rollback.{
  Counts, Counts-order, Counts-on_first, Counts-with_error, save_counted-Counts,
  file_transaction-Harmless,
}

module _ (d : Disk) (g : Gorm) (disk_laws : DiskLaws d) (laws : GormLaws g)
    (can : CanRemove d) where
  open g use {State, first, find, create, update}

  pub locked-Counts : (revision_id : ℕ) → Keeps (Counts d g) (locked d g revision_id)
  unfolding locked
  locked-Counts revision_id =
      Counts-with_error d g conflict_draft (on_first (lock_draft g revision_id))
        (Counts-on_first d g (lock_draft g revision_id))

  find_test-Counts :
      (test_id revision_id : ℕ) → Keeps (Counts d g) (find_test d g test_id revision_id)
  unfolding find_test
  find_test-Counts test_id revision_id w start h = elim (Bool-cases (test_id == 0)) [
    | inl new ↦ rw new h
    | inr old ↦ rw old (
        Keeps->> (Counts-order d g)
          (ask (λ w. first Table.test_cases (test_of test_id revision_id) w.0)) (pure tt)
          (Keeps-ask (Counts-order d g)
            (λ w. first Table.test_cases (test_of test_id revision_id) w.0))
          (Keeps-lift (Counts-order d g) (ok tt)) w start h)
  ]

  module _ (digest : Bytes → String) (now : ℕ) (store : Store) where
    -- What follows a file that is stored.
    pub saved-Counts :
        {B : Type 0} (random : Result Bytes) (owner_id : ℕ) (filename content_type : String)
        (source : Source) (rest : Models.Artifact → Action (FileWorld d g) B)
        → store.max_bytes < max_int64
        → FillsKey random
        → ((item : Models.Artifact) → Keeps (Counts d g) (rest item))
        → Keeps (Counts d g) (
            save_counted d g digest now store random owner_id filename content_type source >>= rest)
    saved-Counts random owner_id filename content_type source rest bound fills h =
        Keeps->>= (Counts-order d g)
          (save_counted d g digest now store random owner_id filename content_type source) rest
          (save_counted-Counts d g disk_laws laws can digest now store random owner_id filename
            content_type source bound fills)
          h

    save_test_transaction-Counts :
        (random_in random_out : Result Bytes) (user_id revision_id test_id : ℕ) (given : TestInput)
        → store.max_bytes < max_int64
        → FillsKey random_in
        → FillsKey random_out
        → Keeps (Counts d g) (
            save_test_transaction d g digest now store random_in random_out user_id revision_id
              test_id given)
    unfolding save_test_transaction
    save_test_transaction-Counts random_in random_out user_id revision_id test_id given bound
          fills_in fills_out =
        let order = Counts-order d g in
        Keeps->> order (locked d g revision_id) _ (locked-Counts revision_id) (
          Keeps->> order (find_test d g test_id revision_id) _
            (find_test-Counts test_id revision_id)
            (saved-Counts random_in user_id "input.txt" "text/plain" (plain given.input) _ bound
              fills_in
              (λ input.
                saved-Counts random_out user_id "output.txt" "text/plain" (plain given.output) _
                  bound fills_out
                  (λ output.
                    Counts-on_first d g
                      (write_test d g given test_id revision_id input.id output.id)))))

    -- Where files can be removed, the limit of a file is below the greatest int64 and the random
    -- source gives 32 bytes or fails: a `SaveTest` that fails, after whichever of its two files,
    -- leaves every row as it was and no file that was not there before.
    pub save_test-Harmless :
        (random_in random_out : Result Bytes) (actor : Option User) (revision_id test_id : ℕ)
        (given : TestInput)
        → store.max_bytes < max_int64
        → FillsKey random_in
        → FillsKey random_out
        → Fails
            (Harmless d g)
            (save_test d g digest now store random_in random_out actor revision_id test_id given)
    unfolding save_test
    save_test-Harmless random_in random_out actor revision_id test_id given bound fills_in
          fills_out =
        Fails->> (Harmless-order d g) (checked d g actor revision_id) _
          (Keeps-ask (Harmless-order d g) (λ w. revision g actor revision_id w.0))
          (Fails-lift (Harmless-order d g) (require_user actor) _ (λ user _.
            Fails-lift (Harmless-order d g) (guard _ (validation "invalid test metadata")) _ (λ _ _.
              file_transaction-Harmless d g disk_laws laws can
                (save_test_transaction d g digest now store random_in random_out user.id revision_id
                  test_id given)
                (save_test_transaction-Counts random_in random_out user.id revision_id test_id given
                  bound fills_in fills_out))))

    upload_transaction-Counts :
        (random : Result Bytes) (user_id revision_id : ℕ) (source : Source)
        → store.max_bytes < max_int64
        → FillsKey random
        → Keeps
            (Counts d g)
            (upload_transaction d g digest now store random user_id revision_id source)
    unfolding upload_transaction
    upload_transaction-Counts random user_id revision_id source bound fills =
        let order = Counts-order d g in
        Keeps->> order (locked d g revision_id) _ (locked-Counts revision_id) (
          saved-Counts random user_id "statement.pdf" "application/pdf" source _ bound fills
            (λ item.
              Keeps->> order _ (pure item)
                (Counts-on_first d g
                  (update Table.revisions (has_id Table.revisions revision_id) (with_pdf item.id)))
                (Keeps-lift order (ok item))))

    -- An `UploadPDF` that fails changes no row and leaves no file behind.
    upload_pdf-Harmless :
        (random : Result Bytes) (actor : Option User) (revision_id : ℕ) (source : Source)
        → store.max_bytes < max_int64
        → FillsKey random
        → Fails (Harmless d g) (upload_pdf d g digest now store random actor revision_id source)
    unfolding upload_pdf
    upload_pdf-Harmless random actor revision_id source bound fills =
        Fails->> (Harmless-order d g) (checked d g actor revision_id) _
          (Keeps-ask (Harmless-order d g) (λ w. revision g actor revision_id w.0))
          (Fails-lift (Harmless-order d g) (require_user actor) _ (λ user _.
            Fails-lift (Harmless-order d g)
              (guard (is_pdf source.content) (validation "a PDF file is required")) _
              (λ _ _.
                file_transaction-Harmless d g disk_laws laws can
                  (upload_transaction d g digest now store random user.id revision_id source)
                  (upload_transaction-Counts random user.id revision_id source bound fills))))
