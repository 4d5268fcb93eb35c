-- ===== src/Content/Files/TestDrafts.antt =====
-- `SaveTest` and `UploadPDF` of `internal/content/files.go` change drafts only.
use cotests.Prelude.{
  ℕ, ◌≡◌, refl, sym, ◌∙◌, subst, inl, inr, String, false, In, find?-some, arith, ◌==◌, Bool-cases,
}
use cotests.Outcome.{Result, ok}
use cotests.Outcome.Action.{pure, ask, on_first, >>=-eq-ok, >>-eq-ok, same_state, on_first-eq}
use cotests.Outcome.Keeps.{Keeps, Keeps-at, Keeps-lift, Keeps-after_ask}
use cotests.Source.{Bytes, Source}
use cotests.Db.Models
use cotests.Db.Models.{ProblemRevision, TestCase, ImportPreview, Table, has_id, revision_published}
use cotests.Db.Gorm.{Gorm, GormLaws}
use cotests.Db.Revisions.Rows.{by_id}
use cotests.Db.Revisions.Frozen.{HasDraft, create_test-Safe, update_draft-Safe}
use cotests.Db.Revisions.TestKeys.{KeepsTests, create_test-KeepsTests, update-KeepsTests}
use cotests.Artifact.Directory.{Disk}
use cotests.Artifact.{Store}
use cotests.Content.Files.{
  TestInput, FileWorld, plain, test_of, with_test, new_test, with_pdf, locked, find_test,
  write_test, save_counted, save_test_transaction, upload_transaction,
}
use cotests.Content.Files.Freezing.{
  Freezes, Freezes-of, Freezes-trans, Apart, Freezes-of_Apart, HasDraft-Apart, ApartIn,
  ApartIn-order, save_counted-Apart,
}
use cotests.Content.Files.Drafts.{FileState, locked_ok}
use cotests.Content.Files.TestRows.{update_test-Freezes}

module _ (d : Disk) (g : Gorm) (laws : GormLaws g) where
  open g use {State, rows, first, create, update, delete}

  module _ (digest : Bytes → String) (now : ℕ) (store : Store) where
    pub upload_transaction-Freezes :
        (random : Result Bytes) (user_id k : ℕ) (source : Source) (a : Models.Artifact)
        (w w' : FileWorld d g)
        → upload_transaction d g digest now store random user_id k source w ≡ (ok a, w')
        → Freezes g w.0 w'.0
    unfolding upload_transaction
    upload_transaction-Freezes random user_id k source a w w' h =
        let saving =
          save_counted d g digest now store random user_id "statement.pdf" "application/pdf"
            source in
        let (_, w₁, lock, h₁) = >>-eq-ok (locked d g k) _ w w' h in
        let (apart, draft) = locked_ok d g laws k w w₁ lock in
        let (item, w₂, saved, h₂) = >>=-eq-ok saving _ w₁ w' h₁ in
        let apart₂ =
          Keeps-at (ApartIn d g laws (FileState d g laws)) saving (ok item) w₁ w₂
            (save_counted-Apart d g laws digest now store random user_id "statement.pdf"
              "application/pdf" source)
            saved in
        let (n, w₃, written, done) =
          >>-eq-ok (on_first (update Table.revisions (by_id k) (with_pdf item.id))) (pure item) w₂
            w' h₂ in
        let (write, _) =
          on_first-eq (update Table.revisions (by_id k) (with_pdf item.id)) (ok n) w₂ w₃ written in
        let safe =
          update_draft-Safe g laws k n (with_pdf item.id) w₂.0 w₃.0 write (λ r. refl)
            (HasDraft-Apart g k w₁.0 w₂.0 apart₂ draft) in
        let keeps =
          Keeps-at (KeepsTests g) (update Table.revisions (by_id k) (with_pdf item.id)) (ok n) w₂.0
            w₃.0
            (update-KeepsTests g laws Table.revisions (by_id k) (with_pdf item.id) (λ e. cc)
              (λ r p. refl))
            write in
        subst (λ z. Freezes g w.0 z.0) (sym (same_state done).1)
          (Freezes-trans g w.0 w₁.0 w₃.0 (Freezes-of_Apart g w.0 w₁.0 apart) (
            Freezes-trans g w₁.0 w₂.0 w₃.0 (Freezes-of_Apart g w₁.0 w₂.0 apart₂)
              (Freezes-of g w₂.0 w₃.0 safe keeps)))

    -- The test that `SaveTest` changes is one of the revision.
    find_test_ok :
        (test_id k : ℕ) (w w' : FileWorld d g)
        → find_test d g test_id k w ≡ (ok tt, w')
        → (test_id == 0) ≡ false
        → (t : TestCase) × In t (rows Table.test_cases w.0)
          × (t.id ≡ test_id)
          × (t.problem_revision_id ≡ k)
    unfolding find_test
    find_test_ok test_id k w w' h old =
        let (t, w₁, found, done) =
          >>-eq-ok (ask (λ v. first Table.test_cases (test_of test_id k) v.0)) (pure tt) w w'
            (rw old at h) in
        let (answer, _) = same_state found in
        let there = laws.first_ok Table.test_cases (test_of test_id k) w.0 t answer in
        let (fits, i) = find?-some (test_of test_id k) (rows Table.test_cases w.0) there in
        (t, i, ground arith, ground arith)

    find_test-Apart :
        (test_id k : ℕ) → Keeps (ApartIn d g laws (FileState d g laws)) (find_test d g test_id k)
    unfolding find_test
    find_test-Apart test_id k w = elim (Bool-cases (test_id == 0)) [
      | inl new ↦ rw new (refl, refl)
      | inr old ↦ rw old (
          Keeps-after_ask (ApartIn-order d g laws (FileState d g laws))
            (λ v. first Table.test_cases (test_of test_id k) v.0) (λ _. pure tt)
            (λ _. Keeps-lift (ApartIn-order d g laws (FileState d g laws)) (ok tt)) w)
    ]

    write_test-Freezes :
        (given : TestInput) (test_id k input output : ℕ) (a : TestCase) (s s' : State)
        → HasDraft g k s
        → ((test_id == 0) ≡ false
            → (t : TestCase) × In t (rows Table.test_cases s)
              × (t.id ≡ test_id)
              × (t.problem_revision_id ≡ k))
        → write_test d g given test_id k input output s ≡ (ok a, s')
        → Freezes g s s'
    unfolding write_test
    write_test-Freezes given test_id k input output a s s' draft belongs h =
        elim (Bool-cases (test_id == 0)) [
          | inl new ↦
              let made : create Table.test_cases (new_test given 0 k input output) s ≡ (ok a, s') =
                rw new at h in
              let (safe, _) =
                create_test-Safe g laws (new_test given 0 k input output) a s s' made draft in
              Freezes-of g s s' safe (
                Keeps-at (KeepsTests g) (create Table.test_cases (new_test given 0 k input output))
                  (ok a) s s' (create_test-KeepsTests g laws (new_test given 0 k input output))
                  made)
          | inr old ↦
              let (t, i, is_id, at_k) = belongs old in
              let (n, s₁, written, done) =
                >>-eq-ok
                  (update Table.test_cases (has_id Table.test_cases test_id)
                    (with_test given input output))
                  _ s s' (rw old at h) in
              subst (Freezes g s) (sym (same_state done).1) (
                update_test-Freezes d g laws k n (with_test given input output) t s s₁ draft i at_k
                  (λ u. (refl, refl))
                  (subst
                    (λ z.
                      update Table.test_cases (has_id Table.test_cases z)
                        (with_test given input output) s
                      ≡ (ok n, s₁))
                    (sym is_id) written))
        ]

    -- the write of the test, after the files are stored
    finish :
        (given : TestInput) (test_id k input output : ℕ) (a : TestCase) (w w₁ w₄ w' : FileWorld d g)
        → Apart g w.0 w₁.0
        → HasDraft g k w₁.0
        → Apart g w₁.0 w₄.0
        → ((test_id == 0) ≡ false
            → (t : TestCase) × In t (rows Table.test_cases w₁.0)
              × (t.id ≡ test_id)
              × (t.problem_revision_id ≡ k))
        → write_test d g given test_id k input output w₄.0 ≡ (ok a, w'.0)
        → Freezes g w.0 w'.0
    finish given test_id k input output a w w₁ w₄ w' apart draft stored found written =
        Freezes-trans g w.0 w₁.0 w'.0 (Freezes-of_Apart g w.0 w₁.0 apart) (
          Freezes-trans g w₁.0 w₄.0 w'.0 (Freezes-of_Apart g w₁.0 w₄.0 stored) (
            write_test-Freezes given test_id k input output a w₄.0 w'.0
              (HasDraft-Apart g k w₁.0 w₄.0 stored draft)
              (λ old.
                let (t, i, is_id, at_k) = found old in
                (t, subst (In t) (sym stored.1) i, is_id, at_k))
              written))

    pub save_test_transaction-Freezes :
        (random_in random_out : Result Bytes) (user_id k test_id : ℕ) (given : TestInput)
        (a : TestCase) (w w' : FileWorld d g)
        → save_test_transaction d g digest now store random_in random_out user_id k test_id given w
          ≡ (ok a, w')
        → Freezes g w.0 w'.0
    unfolding save_test_transaction
    save_test_transaction-Freezes random_in random_out user_id k test_id given a w w' h =
        let saving_in =
          save_counted d g digest now store random_in user_id "input.txt" "text/plain"
            (plain given.input) in
        let saving_out =
          save_counted d g digest now store random_out user_id "output.txt" "text/plain"
            (plain given.output) in
        let (_, w₁, lock, h₁) = >>-eq-ok (locked d g k) _ w w' h in
        let (apart, draft) = locked_ok d g laws k w w₁ lock in
        let (_, w₂, found, h₂) = >>-eq-ok (find_test d g test_id k) _ w₁ w' h₁ in
        let (input, w₃, saved_in, h₃) = >>=-eq-ok saving_in _ w₂ w' h₂ in
        let (output, w₄, saved_out, h₄) = >>=-eq-ok saving_out _ w₃ w' h₃ in
        let (written, _) =
          on_first-eq (write_test d g given test_id k input.id output.id) (ok a) w₄ w' h₄ in
        let apart₃ =
          Keeps-at (ApartIn d g laws (FileState d g laws)) saving_in (ok input) w₂ w₃
            (save_counted-Apart d g laws digest now store random_in user_id "input.txt" "text/plain"
              (plain given.input))
            saved_in in
        let apart₄ =
          Keeps-at (ApartIn d g laws (FileState d g laws)) saving_out (ok output) w₃ w₄
            (save_counted-Apart d g laws digest now store random_out user_id "output.txt"
              "text/plain" (plain given.output))
            saved_out in
        let apart₂ =
          Keeps-at (ApartIn d g laws (FileState d g laws)) (find_test d g test_id k) (ok tt) w₁ w₂
            (find_test-Apart test_id k) found in
        finish given test_id k input.id output.id a w w₁ w₄ w' apart draft
          ((apart₄.0 ∙ apart₃.0 ∙ apart₂.0, apart₄.1 ∙ apart₃.1 ∙ apart₂.1))
          (find_test_ok test_id k w₁ w₂ found) written
