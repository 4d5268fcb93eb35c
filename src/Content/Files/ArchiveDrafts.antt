-- ===== src/Content/Files/ArchiveDrafts.antt =====
-- `PreviewZIP` and `CommitZIP` of `internal/content/files.go` change drafts only.
use Prim.Native.String.{◌++◌}
use cotests.Prelude.{ℕ, ◌+◌, ◌*◌, ◌≡◌, refl, String, not, Option, none, some, List, [], ◌∷◌, ltb}
use cotests.Prelude.Int.{ℤ, ◌+ℤ◌}
use cotests.Outcome.{Result, ok, conflict, guard, validation}
use cotests.Outcome.Action.{Action, pure, on_first}
use cotests.Outcome.Keeps.{Keeps, Keeps-lift, Keeps->>, Keeps-after_lift, Keeps-after_ask}
use cotests.Source.{Bytes, Source}
use cotests.Importer.{TestPair}
use cotests.Db.Models.{ImportPreview, Table, has_id}
use cotests.Db.Gorm.{Gorm, GormLaws}
use cotests.Db.Revisions.{of_revision}
use cotests.Artifact.Directory.{Disk}
use cotests.Artifact.{Store, open_artifact}
use cotests.Content.Files.{FileWorld, plain}
use cotests.Content.Files.Archives.{
  or_invalid, preview_of, committed, last_position, beyond_positions, imported_test, unless,
  new_preview, import_tests, commit_preview, commit_transaction, preview_transaction,
}
use cotests.Content.Files.Freezing.{Freezes, create-Apart, update-Apart}
use cotests.Content.Files.Drafts.{
  Drafting, Drafting-order, Drafting-of_Apart, after_lock-Freezes, create_test-Drafting,
  saved-Drafting,
}

module _ (d : Disk) (g : Gorm) (laws : GormLaws g) where
  open g use {rows, first, find, create, update}

  module _ (digest : Bytes → String) (now : ℕ) (read_zip : Source → Result (List TestPair))
      (store : Store) where
    import_tests-Drafting :
        (random : ℕ → Result Bytes) (user_id k : ℕ) (max : ℤ) (i : ℕ) (pairs : List TestPair)
        → Keeps
            (Drafting d g laws k)
            (import_tests d g digest now read_zip store random user_id k max i pairs)
    unfolding import_tests
    import_tests-Drafting random user_id k max i [] = Keeps-lift (Drafting-order d g laws k) (ok tt)
    import_tests-Drafting random user_id k max i (pair ∷ pairs) =
        let rest = import_tests-Drafting random user_id k max (i + 1) pairs in
        saved-Drafting d g laws k digest now store (random (2 * i)) user_id (pair.name ++ ".in")
          "text/plain" (plain pair.input) _
          (λ input.
            saved-Drafting d g laws k digest now store (random (2 * i + 1)) user_id
              (pair.name ++ ".out") "text/plain" (plain pair.output) _
              (λ output.
                let test = imported_test k (max +ℤ 1 +ℤ i) input.id output.id in
                Keeps->> (Drafting-order d g laws k) (on_first (create Table.test_cases test)) _
                  (create_test-Drafting d g laws k test refl) rest))

    update_preview-Drafting :
        (k : ℕ) (p : ImportPreview)
        → Keeps
            (Drafting d g laws k)
            (on_first (update Table.previews (has_id Table.previews p.id) (committed now)))
    update_preview-Drafting k p =
        Drafting-of_Apart d g laws k
          (on_first (update Table.previews (has_id Table.previews p.id) (committed now)))
          (λ w.
            update-Apart g laws Table.previews (has_id Table.previews p.id) (committed now)
              (λ e. cc) (λ e. cc) (λ r q. refl) w.0)

    commit_preview-Drafting :
        (random : ℕ → Result Bytes) (user_id k : ℕ) (preview : ImportPreview)
        → Keeps
            (Drafting d g laws k)
            (commit_preview d g digest now read_zip store random user_id k preview)
    unfolding commit_preview
    commit_preview-Drafting random user_id k preview =
        let order = Drafting-order d g laws k in
        Keeps-after_lift order (guard (ltb now preview.expires_at) conflict) _ (λ _.
          Keeps-after_ask order
            (λ w. first Table.artifacts (has_id Table.artifacts preview.artifact_id) w.0) _
            (λ item.
              Keeps-after_ask order (λ w. open_artifact d item w.1.0) _
                (λ file. Keeps-after_lift order (or_invalid (read_zip file)) _ (λ pairs.
                  Keeps-after_ask order (λ w. find Table.test_cases (of_revision k) w.0) _
                    (λ tests.
                      Keeps-after_lift order
                        (guard (not (beyond_positions (last_position tests)))
                          (validation "test positions exceed limit"))
                        _
                        (λ _.
                          Keeps->> order
                            (import_tests d g digest now read_zip store random user_id k
                              (last_position tests) 0 pairs)
                            _ (import_tests-Drafting random user_id k (last_position tests) 0 pairs)
                            (Keeps->> order
                              (on_first (
                                update Table.previews (has_id Table.previews preview.id)
                                  (committed now)))
                              (pure tt) (update_preview-Drafting k preview)
                              (Keeps-lift order (ok tt)))))))))

    Keeps-unless :
        (k : ℕ) (o : Option ℕ) (m : Action (FileWorld d g) (Unit {0}))
        → Keeps (Drafting d g laws k) m
        → Keeps (Drafting d g laws k) (unless o m)
    Keeps-unless k (some at) m h = Keeps-lift (Drafting-order d g laws k) (ok tt)
    Keeps-unless k none m h = h

    pub commit_transaction-Freezes :
        (random : ℕ → Result Bytes) (user_id k preview_id : ℕ) (a : Unit {0}) (w w' : FileWorld d g)
        → commit_transaction d g digest now read_zip store random user_id k preview_id w
          ≡ (ok a, w')
        → Freezes g w.0 w'.0
    unfolding commit_transaction
    commit_transaction-Freezes random user_id k preview_id a w w' h =
        after_lock-Freezes d g laws k _ a w w'
          (Keeps-after_ask (Drafting-order d g laws k)
            (λ w. first Table.previews (preview_of preview_id user_id k) w.0) _
            (λ preview.
              Keeps-unless k preview.committed_at _
                (commit_preview-Drafting random user_id k preview)))
          h

    pub preview_transaction-Freezes :
        (random : Result Bytes) (user_id k : ℕ) (raw : Bytes) (a : ImportPreview)
        (w w' : FileWorld d g)
        → preview_transaction d g digest now read_zip store random user_id k raw w ≡ (ok a, w')
        → Freezes g w.0 w'.0
    unfolding preview_transaction
    preview_transaction-Freezes random user_id k raw a w w' h =
        after_lock-Freezes d g laws k _ a w w'
          (saved-Drafting d g laws k digest now store random user_id "tests.zip" "application/zip"
            (plain raw) _
            (λ item.
              Drafting-of_Apart d g laws k
                (on_first (create Table.previews (new_preview user_id k item.id now)))
                (λ v.
                  create-Apart g laws Table.previews (new_preview user_id k item.id now) (λ e. cc)
                    (λ e. cc) v.0)))
          h
