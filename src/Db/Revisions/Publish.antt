-- ===== src/Db/Revisions/Publish.antt =====
-- What publishing, editing and adding tests do (`PublishRevision`, `UpdateDraftRevision`,
-- `CreateTestCase`, `CreateProblem` of `internal/db/problems.go`).
use cotests.Prelude.{
  ℕ, ◌≡◌, refl, ap, sym, subst, ◌∙◌, ◌⊎◌, inl, inr, String, true, false, not, ◌&&◌, ◌||◌, Option,
  none, some, List, arith, Bool-cases, str_eq, ◌==◌, is_empty, find?, map_where, In,
}
use cotests.Outcome.{Result, ok, err, not_draft, validation, guard, guard-eq-ok}
use cotests.Outcome.Action.{Action, pure, ask, lift, ◌>>=◌, >>=-eq-ok, >>-eq-ok, same_state}
use cotests.Db.Models.{Problem, ProblemRevision, TestCase, Table, revision_draft}
use cotests.Db.Gorm.{Gorm, GormLaws, SameElsewhere, Unchanged-refl}
use cotests.Db.Validate.{normal_revision, validate_problem, validate_revision}
use cotests.Db.Validate.Problems.{IsValidRevision, validate_revision_parts}
use cotests.Db.Revisions.{
  is_none, edited, published, lock_draft, test_transaction, create_test_case, problem_transaction,
  create_problem, edit_transaction, update_draft_revision, publish_transaction, publish_revision,
}
use cotests.Db.Revisions.Rows.{by_id}
use cotests.Db.Revisions.Frozen.{
  revisions_of, HasDraft, Safe, Safe-trans, Safe-of_Unchanged, Safe-of_same, lock_draft_sound,
  update_draft-Safe, create_revision-Safe, create_test-Safe,
}

-- There is something to show: a statement or a PDF.
abbrev pub HasContent : ProblemRevision → Type 0
HasContent r = (is_empty r.statement ≡ false) ⊎ ((pdf : ℕ) × (r.pdf_artifact_id ≡ some pdf))

given_pdf : (o : Option ℕ) → is_none o ≡ false → (n : ℕ) × (o ≡ some n)
given_pdf none h = cc
given_pdf (some n) h = (n, refl)

HasContent-of :
    (r : ProblemRevision)
    → not (is_empty r.statement && is_none r.pdf_artifact_id) ≡ true
    → HasContent r
HasContent-of r h = elim (Bool-cases (is_empty r.statement)) [
  | inl blank ↦ inr (given_pdf r.pdf_artifact_id (ground arith))
  | inr text ↦ inl text
]

module _ (g : Gorm) (laws : GormLaws g) where
  open g use {State, rows, first, create, update, transaction}

  -- A transaction is safe if its function is, whenever that returns.
  pub transaction-Safe :
      {A : Type 0} (m : Action State A) (x : Result A) (s s' : State)
      → transaction m s ≡ (x, s')
      → ((a : A) → m s ≡ (ok a, s') → Safe g s s')
      → Safe g s s'
  transaction-Safe m (ok a) s s' h inner = inner a (laws.transaction_ok m a s s' h)
  transaction-Safe m (err e) s s' h inner =
      Safe-of_Unchanged g s s' (laws.transaction_err m e s s' h)

  -- A check before the rest leaves the state to the rest.
  pub lift-Safe :
      {A B : Type 0} (r : Result A) (f : A → Action State B) (x : Result B) (s s' : State)
      → (lift r >>= f) s ≡ (x, s')
      → ((a : A) → r ≡ ok a → f a s ≡ (x, s') → Safe g s s')
      → Safe g s s'
  lift-Safe (ok a) f x s s' h inner = inner a refl h
  lift-Safe (err e) f x s s' h inner =
      Safe-of_Unchanged g s s' (Unchanged-refl g (sym (ap (λ y. y.1) h)))

  -- What `edit_transaction` and `publish_transaction` write after the lock.
  locked_update-Safe :
      (id n : ℕ) (f : ProblemRevision → ProblemRevision) (s s₁ s' : State)
      → lock_draft g id s ≡ (ok tt, s₁)
      → update Table.revisions (by_id id) f s₁ ≡ (ok n, s')
      → ((r : ProblemRevision) → (f r).id ≡ r.id)
      → Safe g s s'
  locked_update-Safe id n f s s₁ s' lock write same =
      let (unchanged, (r, i, key, state)) = lock_draft_sound g laws id s s₁ lock in
      Safe-trans g s s₁ s' (Safe-of_Unchanged g s s₁ unchanged) (
        update_draft-Safe g laws id n f s₁ s' write same
          (r, subst (In r) (sym (unchanged Table.revisions)) i, key, state))

  test_transaction-Safe :
      (t t' : TestCase) (s s' : State) → test_transaction g t s ≡ (ok t', s') → Safe g s s'
  unfolding test_transaction
  test_transaction-Safe t t' s s' h =
      let (_, s₁, lock, made) =
        >>-eq-ok (lock_draft g t.problem_revision_id) (create Table.test_cases t) s s' h in
      let (unchanged, (r, i, key, state)) =
        lock_draft_sound g laws t.problem_revision_id s s₁ lock in
      Safe-trans g s s₁ s' (Safe-of_Unchanged g s s₁ unchanged)
        (create_test-Safe g laws t t' s₁ s' made
          (r, subst (In r) (sym (unchanged Table.revisions)) i, key, state)).0

  pub create_test_case-Safe :
      (t : TestCase) (x : Result TestCase) (s s' : State)
      → create_test_case g t s ≡ (x, s')
      → Safe g s s'
  unfolding create_test_case
  create_test_case-Safe t x s s' h =
      lift-Safe _ (λ _. transaction (test_transaction g t)) x s s' h
        λ _ _ k.
          transaction-Safe (test_transaction g t) x s s' k
            (λ t' m. test_transaction-Safe t t' s s' m)

  problem_transaction-Safe :
      (p : Problem) (r : ProblemRevision) (y : Problem × ProblemRevision) (s s' : State)
      → problem_transaction g p r s ≡ (ok y, s')
      → Safe g s s'
  unfolding problem_transaction
  problem_transaction-Safe p r y s s' h =
      let (p', s₁, e, rest) = >>=-eq-ok (create Table.problems p) _ s s' h in
      let (_, _, _, _, frame) = laws.create_ok Table.problems p p' s s₁ e in
      let (r', s₂, made, done) =
        >>=-eq-ok
          (create Table.revisions
            (record r { problem_id = p'.id; number = 1; state = revision_draft }))
          _ s₁ s' rest in
      let same = (same_state done).1 in
      rw same (
        Safe-trans g s s₁ s₂
          (Safe-of_same g s s₁ (frame Table.revisions (λ c. cc)) (frame Table.test_cases (λ c. cc)))
          (create_revision-Safe g laws
            (record r { problem_id = p'.id; number = 1; state = revision_draft }) r' s₁ s₂ made))

  edit_transaction-Safe :
      (r : ProblemRevision) (s s' : State) → edit_transaction g r s ≡ (ok tt, s') → Safe g s s'
  unfolding edit_transaction
  edit_transaction-Safe r s s' h =
      let (_, s₁, lock, rest) = >>-eq-ok (lock_draft g r.id) _ s s' h in
      let (n, s₂, write, done) =
        >>-eq-ok (update Table.revisions (by_id r.id) (edited r)) (pure tt) s₁ s' rest in
      let same = (same_state done).1 in
      rw same (locked_update-Safe r.id n (edited r) s s₁ s₂ lock write (λ q. refl))

  module _ (unmarshal : String → Option (List String)) where
    pub create_problem-Safe :
        (p : Problem) (r : ProblemRevision) (x : Result (Problem × ProblemRevision)) (s s' : State)
        → create_problem g unmarshal p r s ≡ (x, s')
        → Safe g s s'
    unfolding create_problem
    create_problem-Safe p r x s s' h = lift-Safe (validate_problem p) _ x s s' h λ p' _ h₁.
        lift-Safe (validate_revision unmarshal r) _ x s s' h₁ λ r' _ h₂.
          transaction-Safe (problem_transaction g p' r') x s s' h₂
            λ y m. problem_transaction-Safe p' r' y s s' m

    pub update_draft_revision-Safe :
        (r : ProblemRevision) (x : Result (Unit {0})) (s s' : State)
        → update_draft_revision g unmarshal r s ≡ (x, s')
        → Safe g s s'
    unfolding update_draft_revision
    update_draft_revision-Safe r x s s' h =
        lift-Safe (guard (not (r.id == 0 || not (str_eq r.state revision_draft))) not_draft) _ x s
          s' h
          λ _ _ h₁. lift-Safe (validate_revision unmarshal r) _ x s s' h₁ λ r' _ h₂.
            transaction-Safe (edit_transaction g r') x s s' h₂
              λ _ m. edit_transaction-Safe r' s s' m

    -- What has happened when `PublishRevision` returns.
    pub record Publication (id now : ℕ) (s s' : State) : Type 0 where
      pub stored : ProblemRevision
      pub was_draft : HasDraft g id s
      pub was_stored : find? (by_id id) (revisions_of g s) ≡ some stored
      pub valid : IsValidRevision unmarshal (normal_revision stored)
      pub has_content : HasContent (normal_revision stored)
      pub written :
          revisions_of g s'
          ≡ map_where
              (by_id id)
              (λ q. record q { state = "published"; published_at = some now })
              (revisions_of g s)
      pub elsewhere : SameElsewhere g Table.revisions s s'

    publish_transaction-Publication :
        (id now : ℕ) (s s' : State)
        → publish_transaction g unmarshal id now s ≡ (ok tt, s')
        → Publication id now s s' × Safe g s s'
    unfolding publish_transaction normal_revision
    publish_transaction-Publication id now s s' h =
        let (_, s₁, lock, h₁) = >>-eq-ok (lock_draft g id) _ s s' h in
        let (unchanged, draft) = lock_draft_sound g laws id s s₁ lock in
        let (q, s₂, read, h₂) = >>=-eq-ok (ask (first Table.revisions (by_id id))) _ s₁ s' h₁ in
        let (found, e₂) = same_state read in
        let (v, s₃, checked, h₃) = >>=-eq-ok (lift (validate_revision unmarshal q)) _ s₂ s' h₂ in
        let (accepted, e₃) = same_state checked in
        let (_, s₄, content, h₄) =
          >>-eq-ok
            (lift (
              guard (not (is_empty v.statement && is_none v.pdf_artifact_id))
                (validation "statement or PDF is required for publication")))
            _ s₃ s' h₃ in
        let (given, e₄) = same_state content in
        let (n, s₅, write, done) =
          >>-eq-ok (update Table.revisions (by_id id) (published now)) (pure tt) s₄ s' h₄ in
        let e₅ = (same_state done).1 in
        let at_lock : s₄ ≡ s₁ = e₄ ∙ e₃ ∙ e₂ in
        let write₁ : update Table.revisions (by_id id) (published now) s₁ ≡ (ok n, s') =
          subst (λ z. update Table.revisions (by_id id) (published now) z ≡ (ok n, s')) at_lock
            (subst (λ z. update Table.revisions (by_id id) (published now) s₄ ≡ (ok n, z)) (sym e₅)
              write) in
        let (_, changed, frame) =
          laws.update_ok Table.revisions (by_id id) (published now) n s₁ s' write₁ (λ r p. refl) in
        let (normal, valid) = (validate_revision_parts unmarshal q v).0 accepted in
        (
          record {
            stored = q;
            was_draft = draft;
            was_stored =
                ap (find? (by_id id)) (sym (unchanged Table.revisions))
                ∙ laws.first_ok Table.revisions (by_id id) s₁ q found;
            valid = valid;
            has_content = subst HasContent normal (
                HasContent-of v (
                  guard-eq-ok (not (is_empty v.statement && is_none v.pdf_artifact_id))
                    (validation "statement or PDF is required for publication") given));
            written =
                changed ∙ ap (map_where (by_id id) (published now)) (unchanged Table.revisions);
            elsewhere = λ t ne. frame t ne ∙ unchanged t;
          },
          locked_update-Safe id n (published now) s s₁ s' lock write₁ (λ r. refl),
        )

    -- A revision is published only from a stored draft whose row passes the validation and has a
    -- statement or a PDF; then exactly its state and its time of publication are written.
    pub publish_revision-Publication :
        (id now : ℕ) (s s' : State)
        → publish_revision g unmarshal id now s ≡ (ok tt, s')
        → Publication id now s s'
    unfolding publish_revision
    publish_revision-Publication id now s s' h =
        let m = laws.transaction_ok (publish_transaction g unmarshal id now) tt s s' h in
        (publish_transaction-Publication id now s s' m).0

    pub publish_revision-Safe :
        (id now : ℕ) (x : Result (Unit {0})) (s s' : State)
        → publish_revision g unmarshal id now s ≡ (x, s')
        → Safe g s s'
    unfolding publish_revision
    publish_revision-Safe id now x s s' h =
        transaction-Safe (publish_transaction g unmarshal id now) x s s' h
          λ _ m. (publish_transaction-Publication id now s s' m).1
