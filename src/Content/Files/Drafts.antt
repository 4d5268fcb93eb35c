-- ===== src/Content/Files/Drafts.antt =====
-- The writes of files in `internal/content/files.go` change drafts only: what each of them leaves of
-- the published revisions.
use cotests.Prelude.{ℕ, ◌≡◌, refl, sym, ap, subst, String, List, [], In}
use cotests.Outcome.{Result, ok, err}
use cotests.Outcome.Action.{Action, on_first, ◌>>=◌, ◌>>◌, >>-eq-ok, on_first-eq, with_error-eq-ok}
use cotests.Outcome.Keeps.{Preorder, Keeps, Keeps-at, Keeps->>=}
use cotests.Source.{Bytes, Source}
use cotests.Db.Models
use cotests.Db.Models.{ProblemRevision, TestCase, ImportPreview, Table, has_id, revision_published}
use cotests.Db.Gorm.{Gorm, GormLaws}
use cotests.Db.Revisions.{lock_draft}
use cotests.Db.Revisions.Frozen.{HasDraft, create_test-Safe, lock_draft_sound}
use cotests.Db.Revisions.TestKeys.{KeepsTests, create_test-KeepsTests}
use cotests.Artifact.Directory.{Disk}
use cotests.Artifact.{Store, World}
use cotests.Content.Assignments.{conflict_draft}
use cotests.Content.Files.{FileWorld, compensated, file_transaction, locked, save_counted}
use cotests.Content.Files.Freezing.{
  Freezes, Freezes-of, Freezes-trans, Apart, Apart-of, Freezes-of_Apart, HasDraft-Apart, ApartIn,
  save_counted-Apart,
}

module _ (d : Disk) (g : Gorm) (laws : GormLaws g) where
  open d use {Root}
  open g use {State, rows, first, find, create, update, delete, transaction_with}

  -- A failed `fileTransaction` changes no row, and one that returned did what its function does.
  pub file_transaction-Freezes :
      {A : Type 0} (fn : Action (FileWorld d g) A) (x : Result A) (w w' : World d g)
      → file_transaction d g fn w ≡ (x, w')
      → ((a : A) (v v' : FileWorld d g) → fn v ≡ (ok a, v') → Freezes g v.0 v'.0)
      → Freezes g w.0 w'.0
  unfolding file_transaction
  file_transaction-Freezes {A} fn x (s, root) w' h inner =
      go (transaction_with fn (s, (root, []))) refl h
    where
      go :
          (y : Result A × FileWorld d g)
          → transaction_with fn (s, (root, [])) ≡ y
          → compensated d g y ≡ (x, w')
          → Freezes g s w'.0
      go (ok a, v) k j =
          subst (Freezes g s) (ap (λ z. z.1.0) j)
            (inner a (s, (root, [])) v (laws.transaction_with_ok fn a (s, (root, [])) v k))
      go (err e, v) k j =
          let (kept, _) = laws.transaction_with_err fn e (s, (root, [])) v k in
          subst (Freezes g s) (ap (λ z. z.1.0) j) (Freezes-of_Apart g s v.0 (Apart-of g s v.0 kept))

  abbrev pub FileState : Type 0
  FileState = Root × List Models.Artifact

  -- Where a draft is stored, the step freezes the published revisions and leaves it a draft.
  abbrev pub Drafting : ℕ → FileWorld d g → FileWorld d g → Type 0
  Drafting k w w' = HasDraft g k w.0 → Freezes g w.0 w'.0 × HasDraft g k w'.0

  pub Drafting-order : (k : ℕ) → Preorder (Drafting k)
  Drafting-order k = record {
    reflexive = λ w draft. (Freezes-of_Apart g w.0 w.0 (refl, refl), draft);
    transitive = λ w w₁ w' h h' draft.
        let (f, draft₁) = h draft in
        let (f', draft') = h' draft₁ in (Freezes-trans g w.0 w₁.0 w'.0 f f', draft');
  }

  pub Drafting-of_Apart :
      {A : Type 0} (k : ℕ) (m : Action (FileWorld d g) A)
      → Keeps (ApartIn d g laws FileState) m
      → Keeps (Drafting k) m
  Drafting-of_Apart k m h w draft =
      (Freezes-of_Apart g w.0 (m w).1.0 (h w), HasDraft-Apart g k w.0 (m w).1.0 (h w) draft)

  pub locked_ok :
      (k : ℕ) (w w' : FileWorld d g)
      → locked d g k w ≡ (ok tt, w')
      → Apart g w.0 w'.0 × HasDraft g k w'.0
  unfolding locked
  locked_ok k w w' h =
      let taken = with_error-eq-ok conflict_draft (on_first (lock_draft g k)) tt w w' h in
      let (lock, _) = on_first-eq (lock_draft g k) (ok tt) w w' taken in
      let (kept, draft) = lock_draft_sound g laws k w.0 w'.0 lock in
      (Apart-of g w.0 w'.0 kept, HasDraft-Apart g k w.0 w'.0 (Apart-of g w.0 w'.0 kept) draft)

  -- What follows the lock.
  pub after_lock-Freezes :
      {A : Type 0} (k : ℕ) (rest : Action (FileWorld d g) A) (a : A) (w w' : FileWorld d g)
      → Keeps (Drafting k) rest
      → (locked d g k >> rest) w ≡ (ok a, w')
      → Freezes g w.0 w'.0
  after_lock-Freezes k rest a w w' keeps h =
      let (_, w₁, lock, done) = >>-eq-ok (locked d g k) rest w w' h in
      let (apart, draft) = locked_ok k w w₁ lock in
      Freezes-trans g w.0 w₁.0 w'.0 (Freezes-of_Apart g w.0 w₁.0 apart)
        (Keeps-at (Drafting k) rest (ok a) w₁ w' keeps done draft).0

  pub create_test-Drafting :
      (k : ℕ) (t : TestCase)
      → t.problem_revision_id ≡ k
      → Keeps (Drafting k) (on_first (create Table.test_cases t))
  create_test-Drafting k t at_k (s, files) = go (create Table.test_cases t s) refl
    where
      go :
          (y : Result TestCase × State)
          → create Table.test_cases t s ≡ y
          → HasDraft g k s
          → Freezes g s y.1 × HasDraft g k y.1
      go (ok t', s') h draft =
          let (safe, same) =
            create_test-Safe g laws t t' s s' h (subst (λ z. HasDraft g z s) (sym at_k) draft) in
          let (r, i, key, state) = draft in
          (
            Freezes-of g s s' safe (
                Keeps-at (KeepsTests g) (create Table.test_cases t) (ok t') s s'
                  (create_test-KeepsTests g laws t) h),
            (r, subst (In r) (sym same) i, key, state),
          )
      go (err e, s') h draft =
          let kept = Apart-of g s s' (laws.create_err Table.test_cases t e s s' h) in
          (Freezes-of_Apart g s s' kept, HasDraft-Apart g k s s' kept draft)

  -- What follows a file that is stored.
  pub saved-Drafting :
      {B : Type 0} (k : ℕ) (digest : Bytes → String) (now : ℕ) (store : Store)
      (random : Result Bytes) (owner_id : ℕ) (filename content_type : String) (source : Source)
      (rest : Models.Artifact → Action (FileWorld d g) B)
      → ((item : Models.Artifact) → Keeps (Drafting k) (rest item))
      → Keeps
          (Drafting k)
          (save_counted d g digest now store random owner_id filename content_type source >>= rest)
  saved-Drafting k digest now store random owner_id filename content_type source rest h =
      Keeps->>= (Drafting-order k)
        (save_counted d g digest now store random owner_id filename content_type source) rest
        (Drafting-of_Apart k
          (save_counted d g digest now store random owner_id filename content_type source)
          (save_counted-Apart d g laws digest now store random owner_id filename content_type
            source))
        h
