-- ===== src/Content/Files/Calls.antt =====
-- The calls of `internal/content/files.go`, returning or failing, leave published revisions and their
-- tests alone.
use cotests.Prelude.{
  ℕ, ◌-◌, ◌≡◌, ◌≢◌, refl, inl, inr, String, Bool, false, not, ◌||◌, Option, List, [], ◌∷◌, length,
  ◌==◌, str_eq, any, Bool-cases,
}
use cotests.Prelude.Int.{is_negative, is_nonpositive, given_and}
use cotests.Outcome.{Error, Result, ok, err, guard, conflict, validation}
use cotests.Outcome.Action.{Action, pure, ◌>>=◌, on_first-eq}
use cotests.Outcome.Keeps.{
  Preorder, Keeps, Keeps-of, Keeps-at, Keeps-lift, Keeps->>=, Keeps->>, Keeps-after_lift,
  Keeps-after_ask,
}
use cotests.Source.{Bytes, Source, read_beyond}
use cotests.Importer.{TestPair, Limits}
use cotests.Db.Models.{User, Artifact, ProblemRevision, Table, Row, has_id, revision_draft}
use cotests.Db.Gorm.{Gorm, GormLaws, cascades}
use cotests.Content.Access.{require_user, revision}
use cotests.Content.Members.{admin}
use cotests.Artifact.Directory.{Disk}
use cotests.Artifact.{Store, World}
use cotests.Content.Files.{
  TestInput, FileWorld, plain, is_pdf, file_transaction, checked, db_transaction,
  delete_test_transaction, delete_test, save_test_transaction, save_test, upload_transaction,
  upload_pdf,
}
use cotests.Content.Files.Archives.{
  hour, or_invalid, too_long, shown, commit_transaction, commit_zip, preview_transaction,
  preview_zip,
}
use cotests.Content.Files.Collector.{
  expired_before, find_unused, delete_all, collect_transaction, collected, collect_before, collect,
}
use cotests.Content.Files.Freezing.{
  Freezes, Freezes-trans, Apart, Apart-of, Freezes-of_Apart, Apart-order,
}
use cotests.Content.Files.Drafts.{file_transaction-Freezes}
use cotests.Content.Files.ArchiveDrafts.{commit_transaction-Freezes, preview_transaction-Freezes}
use cotests.Content.Files.TestRows.{delete_test_transaction-Freezes}
use cotests.Content.Files.TestDrafts.{upload_transaction-Freezes, save_test_transaction-Freezes}

module _ (d : Disk) (g : Gorm) (laws : GormLaws g) (digest : Bytes → String) where
  open g use {State, delete, transaction}

  abbrev pub FreezesIn : World d g → World d g → Type 0
  FreezesIn w w' = Freezes g w.0 w'.0

  pub freezes_order : Preorder FreezesIn
  freezes_order = record {
    reflexive = λ w. Freezes-of_Apart g w.0 w.0 (refl, refl);
    transitive = λ w w₁ w'. Freezes-trans g w.0 w₁.0 w'.0;
  }

  transaction-Keeps :
      {A : Type 0} (fn : Action (FileWorld d g) A)
      → ((a : A) (v v' : FileWorld d g) → fn v ≡ (ok a, v') → Freezes g v.0 v'.0)
      → Keeps FreezesIn (file_transaction d g fn)
  transaction-Keeps fn inner =
      Keeps-of FreezesIn (file_transaction d g fn)
        (λ x w w' h. file_transaction-Freezes d g laws fn x w w' h inner)

  checked-Keeps :
      {A : Type 0} (actor : Option User) (revision_id : ℕ)
      (f : ProblemRevision → Action (World d g) A)
      → ((r : ProblemRevision) → Keeps FreezesIn (f r))
      → Keeps FreezesIn (checked d g actor revision_id >>= f)
  checked-Keeps actor revision_id f h =
      Keeps-after_ask freezes_order (λ w. revision g actor revision_id w.0) f h

  pub save_test-Keeps :
      (now : ℕ) (store : Store) (random_in random_out : Result Bytes) (actor : Option User)
      (revision_id test_id : ℕ) (given : TestInput)
      → Keeps FreezesIn
          (save_test d g digest now store random_in random_out actor revision_id test_id given)
  unfolding save_test
  save_test-Keeps now store random_in random_out actor revision_id test_id given =
      checked-Keeps actor revision_id _ (λ _.
        Keeps-after_lift freezes_order (require_user actor) _ (λ user.
          Keeps-after_lift freezes_order
            (guard
              (not (
                is_negative given.position
                || given_and is_negative given.points
                || given_and is_nonpositive given.time_limit_override_millis))
              (validation "invalid test metadata"))
            _
            (λ _.
              transaction-Keeps
                (save_test_transaction d g digest now store random_in random_out user.id revision_id
                  test_id given)
                (save_test_transaction-Freezes d g laws digest now store random_in random_out
                  user.id revision_id test_id given))))

  pub upload_pdf-Keeps :
      (now : ℕ) (store : Store) (random : Result Bytes) (actor : Option User) (revision_id : ℕ)
      (source : Source)
      → Keeps FreezesIn (upload_pdf d g digest now store random actor revision_id source)
  unfolding upload_pdf
  upload_pdf-Keeps now store random actor revision_id source =
      checked-Keeps actor revision_id _ (λ _.
        Keeps-after_lift freezes_order (require_user actor) _ (λ user.
          Keeps-after_lift freezes_order
            (guard (is_pdf source.content) (validation "a PDF file is required")) _
            (λ _.
              transaction-Keeps
                (upload_transaction d g digest now store random user.id revision_id source)
                (upload_transaction-Freezes d g laws digest now store random user.id revision_id
                  source))))

  pub commit_zip-Keeps :
      (now : ℕ) (read_zip : Source → Result (List TestPair)) (store : Store)
      (random : ℕ → Result Bytes) (actor : Option User) (revision_id preview_id : ℕ)
      → Keeps FreezesIn
          (commit_zip d g digest now read_zip store random actor revision_id preview_id)
  unfolding commit_zip
  commit_zip-Keeps now read_zip store random actor revision_id preview_id =
      checked-Keeps actor revision_id _ (λ _.
        Keeps-after_lift freezes_order (require_user actor) _ (λ user.
          transaction-Keeps
            (commit_transaction d g digest now read_zip store random user.id revision_id preview_id)
            (commit_transaction-Freezes d g laws digest now read_zip store random user.id
              revision_id preview_id)))

  pub preview_zip-Keeps :
      (now : ℕ) (read_zip : Source → Result (List TestPair)) (limits : Limits) (store : Store)
      (random : Result Bytes) (actor : Option User) (revision_id : ℕ) (source : Source)
      → Keeps FreezesIn
          (preview_zip d g digest now read_zip limits store random actor revision_id source)
  unfolding preview_zip
  preview_zip-Keeps now read_zip limits store random actor revision_id source =
      let zip_store : Store = record store { max_bytes = limits.max_bytes } in
      checked-Keeps actor revision_id _ (λ r.
        Keeps-after_lift freezes_order (require_user actor) _ (λ user.
          Keeps-after_lift freezes_order (guard (str_eq r.state revision_draft) conflict) _ (λ _.
            Keeps-after_lift freezes_order (read_beyond limits.max_bytes source) _ (λ raw.
              Keeps-after_lift freezes_order (or_invalid (read_zip (plain raw))) _ (λ pairs.
                Keeps-after_lift freezes_order
                  (guard (not (length pairs == 0)) (validation "archive must contain tests")) _
                  (λ _.
                    Keeps-after_lift freezes_order
                      (guard (not (any (too_long store) pairs))
                        (validation "test exceeds artifact size limit"))
                      _
                      (λ _.
                        Keeps->>= freezes_order
                          (file_transaction d g (
                            preview_transaction d g digest now read_zip zip_store random user.id
                              revision_id raw))
                          _
                          (transaction-Keeps
                            (preview_transaction d g digest now read_zip zip_store random user.id
                              revision_id raw)
                            (preview_transaction-Freezes d g laws digest now read_zip zip_store
                              random user.id revision_id raw))
                          (λ preview. Keeps-lift freezes_order (ok (shown preview pairs))))))))))

  pub delete_test-Keeps :
      (actor : Option User) (revision_id test_id : ℕ)
      → Keeps FreezesIn (delete_test d g actor revision_id test_id)
  unfolding delete_test
  delete_test-Keeps actor revision_id test_id = checked-Keeps actor revision_id _ (λ _.
      Keeps-of FreezesIn (db_transaction d g (delete_test_transaction d g revision_id test_id)) go)
    where
      go :
          (x : Result (Unit {0})) (w w' : World d g)
          → db_transaction d g (delete_test_transaction d g revision_id test_id) w ≡ (x, w')
          → FreezesIn w w'
      go (ok u) w w' h =
          let (ran, _) =
            on_first-eq (transaction (delete_test_transaction d g revision_id test_id)) (ok u) w w'
              h in
          delete_test_transaction-Freezes d g laws revision_id test_id u w.0 w'.0
            (laws.transaction_ok (delete_test_transaction d g revision_id test_id) u w.0 w'.0 ran)
      go (err e) w w' h =
          let (ran, _) =
            on_first-eq (transaction (delete_test_transaction d g revision_id test_id)) (err e) w w'
              h in
          Freezes-of_Apart g w.0 w'.0 (
            Apart-of g w.0 w'.0 (
              laws.transaction_err (delete_test_transaction d g revision_id test_id) e w.0 w'.0
                ran))

  delete-Apart :
      (t : Table) (p : Row t → Bool)
      → Table.revisions ≢ t
      → Table.test_cases ≢ t
      → cascades t Table.revisions ≡ false
      → cascades t Table.test_cases ≡ false
      → Keeps (Apart g) (delete t p)
  delete-Apart t p ne ne' c c' = Keeps-of (Apart g) (delete t p) go
    where
      go : (x : Result ℕ) (s s' : State) → delete t p s ≡ (x, s') → Apart g s s'
      go (ok n) s s' h =
          let (_, _, frame) = laws.delete_ok t p n s s' h in
          (frame Table.revisions ne c, frame Table.test_cases ne' c')
      go (err e) s s' h = Apart-of g s s' (laws.delete_err t p e s s' h)

  delete_all-Apart : (l : List Artifact) → Keeps (Apart g) (delete_all g l)
  unfolding delete_all
  delete_all-Apart [] = Keeps-lift (Apart-order g) (ok tt)
  delete_all-Apart (item ∷ l) =
      Keeps->> (Apart-order g) (delete Table.artifacts (has_id Table.artifacts item.id))
        (delete_all g l)
        (delete-Apart Table.artifacts (has_id Table.artifacts item.id) (λ e. cc) (λ e. cc) refl
          refl)
        (delete_all-Apart l)

  collect_transaction-Apart : (cutoff : ℕ) → Keeps (Apart g) (collect_transaction g cutoff)
  unfolding collect_transaction
  collect_transaction-Apart cutoff =
      Keeps->> (Apart-order g) (delete Table.previews (expired_before cutoff)) _
        (delete-Apart Table.previews (expired_before cutoff) (λ e. cc) (λ e. cc) refl refl)
        (Keeps-after_ask (Apart-order g) (find_unused g cutoff) _ (λ found.
          Keeps->> (Apart-order g) (delete_all g found) (pure found) (delete_all-Apart found)
            (Keeps-lift (Apart-order g) (ok found))))

  pub collect-Keeps :
      (now : ℕ) (cancelled : String → Option Error) (actor : Option User) (w : World d g)
      → FreezesIn w (collect d g now cancelled actor w).2
  unfolding collect collect_before
  collect-Keeps now cancelled actor (s, root) = elim (Bool-cases (admin actor)) [
    | inr other ↦ rw other (Freezes-of_Apart g s s (refl, refl))
    | inl admin_asks ↦ rw admin_asks (go (transaction (collect_transaction g (now - hour)) s) refl)
  ]
    where
      go :
          (x : Result (List Artifact) × State)
          → transaction (collect_transaction g (now - hour)) s ≡ x
          → Freezes g s (collected d g (now - hour) cancelled x root).2.0
      go (err e, s') h =
          Freezes-of_Apart g s s'
            (Apart-of g s s' (laws.transaction_err (collect_transaction g (now - hour)) e s s' h))
      go (ok found, s') h = Freezes-of_Apart g s s' (
          Keeps-at (Apart g) (collect_transaction g (now - hour)) (ok found) s s'
            (collect_transaction-Apart (now - hour))
            (laws.transaction_ok (collect_transaction g (now - hour)) found s s' h))
