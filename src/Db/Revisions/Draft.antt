-- ===== src/Db/Revisions/Draft.antt =====
-- What `CreateDraftRevision` of `internal/db/problems.go` makes: a draft with the content and the
-- tests of the latest revision.
use cotests.Prelude.{
  ◌+◌, ℕ, ◌≤◌, ◌≡◌, refl, ap, sym, subst, ◌∙◌, inl, inr, none, some, List, [], ◌∷◌, ◌++◌, arith,
  ==_iff, find?, keep, In, find?-some,
}
use mathlib.Core.List.{append-nil, append_assoc}
use cotests.Outcome.{Result, ok, ok-injective}
use cotests.Outcome.Action.{pure, ask, >>=-eq-ok, >>-eq-ok, same_state}
use cotests.Db.Models.{
  Problem, ProblemRevision, TestCase, Table, has_id, test_cases-ne-revisions,
  revisions-ne-test_cases,
}
use cotests.Db.Gorm.{Gorm, GormLaws, SameElsewhere, Unchanged, Unchanged-trans, lock_row}
use cotests.Db.Revisions.{
  of_revision, of_problem, clone, clone_test, copy_tests, lock_latest, make_clone,
  draft_transaction, create_draft_revision,
}
use cotests.Db.Revisions.Rows.{by_id}
use cotests.Db.Revisions.Frozen.{
  revisions_of, tests_of, HasDraft, Safe, Safe-trans, Safe-of_Unchanged, create_revision-Safe,
  copy_tests-Safe,
}
use cotests.Db.Revisions.Publish.{transaction-Safe}

In-last : {A : Type 0} (l : List A) (x : A) → In x (l ++ x ∷ [])
In-last [] x = inl refl
In-last (y ∷ l) x = inr (In-last l x)

-- The copies, whose primary keys the database chooses.
abbrev pub Copies : ℕ → List TestCase → List TestCase → Type 0
Copies k [] [] = Unit
Copies k [] (c ∷ copies) = ⊥
Copies k (t ∷ tests) [] = ⊥
Copies k (t ∷ tests) (c ∷ copies) =
    (c ≡ record t { id = c.id; problem_revision_id = k }) × Copies k tests copies

module _ (g : Gorm) (laws : GormLaws g) where
  open g use {State, rows, first, first_desc, find, create, update, transaction}

  -- The revision with the highest number of the problem, as the database stores it.
  pub record Latest (problem : ℕ) (latest : ProblemRevision) (s : State) : Type 0 where
    pub stored : find? (by_id latest.id) (revisions_of g s) ≡ some latest
    pub newest : ProblemRevision
    pub newest_stored :
        In newest (revisions_of g s) × (newest.problem_id ≡ problem) × (newest.id ≡ latest.id)
    pub highest :
        (q : ProblemRevision)
        → In q (revisions_of g s)
        → q.problem_id ≡ problem
        → q.number ≤ newest.number

  -- `r` is a new draft with the content of `latest` and copies of its tests.
  pub record Snapshot (problem : ℕ) (latest r : ProblemRevision) (s s' : State) : Type 0 where
    pub shape : r ≡ record {
      id = r.id;
      problem_id = problem;
      number = latest.number + 1;
      state = "draft";
      statement = latest.statement;
      pdf_artifact_id = latest.pdf_artifact_id;
      time_limit_millis = latest.time_limit_millis;
      memory_limit_kib = latest.memory_limit_kib;
      language_metadata = latest.language_metadata;
      checker_metadata = latest.checker_metadata;
      published_at = none;
    }
    pub fresh : find? (by_id r.id) (revisions_of g s) ≡ none
    pub revisions_added : revisions_of g s' ≡ revisions_of g s ++ r ∷ []
    pub tests : List TestCase
    pub tests_read :
        (t : TestCase)
        → (In t tests → In t (tests_of g latest.id s))
          × (In t (tests_of g latest.id s) → In t tests)
    pub copies : List TestCase
    pub copied : Copies r.id tests copies
    pub tests_added : rows Table.test_cases s' ≡ rows Table.test_cases s ++ copies

  copy_tests-Copies :
      (k : ℕ) (l : List TestCase) (s s' : State)
      → copy_tests g k l s ≡ (ok tt, s')
      → (copies : List TestCase) × Copies k l copies
        × (rows Table.test_cases s' ≡ rows Table.test_cases s ++ copies)
        × SameElsewhere g Table.test_cases s s'
  unfolding copy_tests
  copy_tests-Copies k [] s s' h =
      let e = (same_state h).1 in
      (
        [],
        tt,
        ap (rows Table.test_cases) e ∙ sym (append-nil (rows Table.test_cases s)),
        λ t ne. ap (rows t) e,
      )
  copy_tests-Copies k (t ∷ l) s s' h =
      let (t', s₁, made, rest) =
        >>-eq-ok (create Table.test_cases (clone_test k t)) (copy_tests g k l) s s' h in
      let (shape, _, _, added, frame) =
        laws.create_ok Table.test_cases (clone_test k t) t' s s₁ made in
      let (copies, are, more, frame') = copy_tests-Copies k l s₁ s' rest in
      (
        t' ∷ copies,
        (shape, are),
        more
            ∙ ap (λ z. z ++ copies) added
            ∙ append_assoc (rows Table.test_cases s) (t' ∷ []) copies,
        λ u ne. frame' u ne ∙ frame u ne,
      )

  lock_latest-Latest :
      (problem : ℕ) (latest : ProblemRevision) (s s' : State)
      → lock_latest g problem s ≡ (ok latest, s')
      → Unchanged g s s' × Latest problem latest s'
  unfolding lock_latest
  lock_latest-Latest problem latest s s' h =
      let relabel : Problem → Problem = λ p. record p { id = problem } in
      let (k₁, s₁, lock₁, h₁) =
        >>-eq-ok (update Table.problems (has_id Table.problems problem) relabel) _ s s' h in
      let same₁ = lock_row g laws Table.problems problem k₁ s s₁ lock₁ in
      let (newest, s₂, read, h₂) =
        >>=-eq-ok (ask (first_desc Table.revisions (λ q. q.number) (of_problem problem))) _ s₁ s'
          h₁ in
      let (found, e₂) = same_state read in
      let f : ProblemRevision → ProblemRevision = λ q. record q { id = newest.id } in
      let (k₂, s₃, lock₂, h₃) = >>-eq-ok (update Table.revisions (by_id newest.id) f) _ s₂ s' h₂ in
      let same₂ =
        lock_row g laws Table.revisions newest.id k₂ s₁ s₃
          (subst (λ z. update Table.revisions (by_id newest.id) f z ≡ (ok k₂, s₃)) e₂ lock₂) in
      let (again, e₃) = same_state h₃ in
      let stored = laws.first_ok Table.revisions (by_id newest.id) s₃ latest again in
      let (t, _) = find?-some (by_id newest.id) (revisions_of g s₃) stored in
      let key : newest.id ≡ latest.id = ground arith in
      let (fits, i, highest) =
        laws.first_desc_ok Table.revisions (λ q. q.number) (of_problem problem) s₁ newest found in
      let back = same₂ Table.revisions in
      subst (λ z. Unchanged g s z × Latest problem latest z) (sym e₃)
        (
          Unchanged-trans g same₁ same₂,
          record {
            stored = subst (λ n. find? (by_id n) (revisions_of g s₃) ≡ some latest) key stored;
            newest = newest;
            newest_stored =
                (subst (In newest) (sym back) i, (==_iff newest.problem_id problem).0 fits, key);
            highest = λ q m e. highest q (subst (In q) back m) ((==_iff q.problem_id problem).1 e);
          },
        )

  make_clone-Snapshot :
      (problem : ℕ) (latest r : ProblemRevision) (s s' : State)
      → make_clone g problem latest s ≡ (ok r, s')
      → Snapshot problem latest r s s' × Safe g s s'
  unfolding make_clone
  make_clone-Snapshot problem latest r s s' h =
      let (r', s₁, made, h₁) = >>=-eq-ok (create Table.revisions (clone problem latest)) _ s s' h in
      let (shape, _, fresh, added, frame) =
        laws.create_ok Table.revisions (clone problem latest) r' s s₁ made in
      let (tests, s₂, read, h₂) =
        >>=-eq-ok (ask (find Table.test_cases (of_revision latest.id))) _ s₁ s' h₁ in
      let (found, e₂) = same_state read in
      let (_, s₃, copying, done) = >>-eq-ok (copy_tests g r'.id tests) (pure r') s₂ s' h₂ in
      let (result, e₃) = same_state done in
      let copying₁ : copy_tests g r'.id tests s₁ ≡ (ok tt, s') =
        subst (λ z. copy_tests g r'.id tests z ≡ (ok tt, s')) e₂
          (subst (λ z. copy_tests g r'.id tests s₂ ≡ (ok tt, z)) (sym e₃) copying) in
      let (copies, are, more, frame') = copy_tests-Copies r'.id tests s₁ s' copying₁ in
      let tests₁ = frame Table.test_cases test_cases-ne-revisions in
      let draft : HasDraft g r'.id s₁ = (
        r',
        subst (In r') (sym added) (In-last (revisions_of g s) r'),
        refl,
        ap (λ q. q.state) shape,
      ) in
      subst (λ q. Snapshot problem latest q s s' × Safe g s s') (ok-injective result)
        (
          record {
            shape = shape;
            fresh = fresh;
            revisions_added = frame' Table.revisions revisions-ne-test_cases ∙ added;
            tests = tests;
            tests_read = λ t.
                subst
                  (λ l.
                    (In t tests → In t (keep (of_revision latest.id) l))
                    × (In t (keep (of_revision latest.id) l) → In t tests))
                  tests₁ (laws.find_ok Table.test_cases (of_revision latest.id) s₁ tests found t);
            copies = copies;
            copied = are;
            tests_added = more ∙ ap (λ l. l ++ copies) tests₁;
          },
          Safe-trans g s s₁ s' (create_revision-Safe g laws (clone problem latest) r' s s₁ made)
              (copy_tests-Safe g laws r'.id tests s₁ s' copying₁ draft),
        )

  draft_transaction-Snapshot :
      (problem : ℕ) (r : ProblemRevision) (s s' : State)
      → draft_transaction g problem s ≡ (ok r, s')
      → ((latest : ProblemRevision) × (s₁ : State) × Unchanged g s s₁
          × Latest problem latest s₁
          × Snapshot problem latest r s₁ s')
        × Safe g s s'
  unfolding draft_transaction
  draft_transaction-Snapshot problem r s s' h =
      let (latest, s₁, read, rest) = >>=-eq-ok (lock_latest g problem) _ s s' h in
      let (same, is_latest) = lock_latest-Latest problem latest s s₁ read in
      let (snapshot, safe) = make_clone-Snapshot problem latest r s₁ s' rest in
      (
        (latest, s₁, same, is_latest, snapshot),
        Safe-trans g s s₁ s' (Safe-of_Unchanged g s s₁ same) safe,
      )

  -- A new draft takes the content of the stored revision with the highest number of the problem
  -- and that number plus one; its tests are copies of all tests of that revision, and no other row
  -- of the revisions and the tests changes. `s₁` is the state under the locks, with the rows of `s`.
  pub create_draft_revision-Snapshot :
      (problem : ℕ) (r : ProblemRevision) (s s' : State)
      → create_draft_revision g problem s ≡ (ok r, s')
      → (latest : ProblemRevision) × (s₁ : State) × Unchanged g s s₁
        × Latest problem latest s₁
        × Snapshot problem latest r s₁ s'
  unfolding create_draft_revision
  create_draft_revision-Snapshot problem r s s' h =
      (draft_transaction-Snapshot problem r s s'
        (laws.transaction_ok (draft_transaction g problem) r s s' h)).0

  pub create_draft_revision-Safe :
      (problem : ℕ) (x : Result ProblemRevision) (s s' : State)
      → create_draft_revision g problem s ≡ (x, s')
      → Safe g s s'
  unfolding create_draft_revision
  create_draft_revision-Safe problem x s s' h =
      transaction-Safe g laws (draft_transaction g problem) x s s' h
        λ r m. (draft_transaction-Snapshot problem r s s' m).1
