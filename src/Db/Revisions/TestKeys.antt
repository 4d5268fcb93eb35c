-- ===== src/Db/Revisions/TestKeys.antt =====
-- The primary keys of tests stay distinct under the calls of `internal/db/problems.go`.
use cotests.Prelude.{
  ℕ, ◌≡◌, ◌≢◌, refl, sym, ap, ◌∙◌, subst, ◌⊎◌, inl, inr, String, Bool, true, not, ◌||◌, ◌&&◌,
  Option, none, List, [], ◌∷◌, ◌++◌, In, find?, find?-none, arith, ◌==◌, str_eq, is_empty,
}
use cotests.Prelude.Int.{is_negative}
use cotests.Outcome.{Result, ok, err, guard, not_draft, validation}
use cotests.Outcome.Action.{Action, pure}
use cotests.Outcome.Keeps.{
  Preorder, Keeps, Keeps-of, Keeps-at, Keeps-lift, Keeps-ask, Keeps->>=, Keeps->>, Keeps-after_lift,
  Keeps-after_ask,
}
use cotests.Db.Models.{
  Problem, ProblemRevision, TestCase, Table, Row, row_id, has_id, revision_draft,
}
use cotests.Db.Gorm.{Gorm, GormLaws}
use cotests.Db.Validate.{validate_problem, validate_revision}
use cotests.Db.Revisions.{
  is_draft, of_revision, of_problem, edited, published, clone, clone_test, is_none, lock_draft,
  copy_tests, lock_latest, make_clone, draft_transaction, create_draft_revision, test_transaction,
  create_test_case, problem_transaction, edit_transaction, create_problem, update_draft_revision,
  publish_transaction, publish_revision,
}

abbrev pub UniqueTests : List TestCase → Type 0
UniqueTests l = (t u : TestCase) → In t l → In u l → t.id ≡ u.id → t ≡ u

In-append : (l : List TestCase) (x t : TestCase) → In t (l ++ x ∷ []) → In t l ⊎ (t ≡ x)
In-append [] x t (inl e) = inr e
In-append [] x t (inr m) = absurd m
In-append (y ∷ l) x t (inl e) = inl (inl e)
In-append (y ∷ l) x t (inr m) = elim (In-append l x t m) [ inl i ↦ inl (inr i) | inr e ↦ inr e ]

UniqueTests-append :
    (l : List TestCase) (x : TestCase)
    → find? (has_id Table.test_cases x.id) l ≡ none
    → UniqueTests l
    → UniqueTests (l ++ x ∷ [])
UniqueTests-append l x fresh unique t u i j e = elim (In-append l x t i) [
  | inl i₀ ↦ elim (In-append l x u j) [
    | inl j₀ ↦ unique t u i₀ j₀ e
    | inr f ↦ absurd (clash t i₀ (e ∙ ap (λ z. z.id) f))
  ]
  | inr f ↦ elim (In-append l x u j) [
    | inl j₀ ↦ absurd (clash u j₀ (sym e ∙ ap (λ z. z.id) f))
    | inr h ↦ f ∙ sym h
  ]
]
  where
    clash : (z : TestCase) → In z l → z.id ≡ x.id → ⊥
    clash z m k = let b = find?-none (has_id Table.test_cases x.id) l fresh m in ground arith

module _ (g : Gorm) where
  open g use {State, rows, first, first_desc, find, create, update, transaction}

  abbrev pub KeepsTests : State → State → Type 0
  KeepsTests s s' = UniqueTests (rows Table.test_cases s) → UniqueTests (rows Table.test_cases s')

  tests_order : Preorder KeepsTests
  tests_order = record { reflexive = λ s u. u; transitive = λ s s₁ s' h k u. k (h u) }

  pub KeepsTests-of_same :
      (s s' : State) → rows Table.test_cases s' ≡ rows Table.test_cases s → KeepsTests s s'
  KeepsTests-of_same s s' e = subst UniqueTests (sym e)

  module _ (laws : GormLaws g) where
    pub create_test-KeepsTests : (t : TestCase) → Keeps KeepsTests (create Table.test_cases t)
    create_test-KeepsTests t = Keeps-of KeepsTests (create Table.test_cases t) go
      where
        go :
            (x : Result TestCase) (s s' : State)
            → create Table.test_cases t s ≡ (x, s')
            → KeepsTests s s'
        go (ok t') s s' h u =
            let (_, _, fresh, added, _) = laws.create_ok Table.test_cases t t' s s' h in
            subst UniqueTests (sym added) (UniqueTests-append (rows Table.test_cases s) t' fresh u)
        go (err e) s s' h u =
            KeepsTests-of_same s s' (laws.create_err Table.test_cases t e s s' h Table.test_cases) u

    -- Writes of other tables.
    create-KeepsTests :
        (t : Table) (r : Row t) → Table.test_cases ≢ t → Keeps KeepsTests (create t r)
    create-KeepsTests t r ne = Keeps-of KeepsTests (create t r) go
      where
        go : (x : Result (Row t)) (s s' : State) → create t r s ≡ (x, s') → KeepsTests s s'
        go (ok r') s s' h =
            let (_, _, _, _, frame) = laws.create_ok t r r' s s' h in
            KeepsTests-of_same s s' (frame Table.test_cases ne)
        go (err e) s s' h = KeepsTests-of_same s s' (laws.create_err t r e s s' h Table.test_cases)

    pub update-KeepsTests :
        (t : Table) (p : Row t → Bool) (f : Row t → Row t)
        → Table.test_cases ≢ t
        → ((r : Row t) → p r ≡ true → row_id t (f r) ≡ row_id t r)
        → Keeps KeepsTests (update t p f)
    update-KeepsTests t p f ne same = Keeps-of KeepsTests (update t p f) go
      where
        go : (x : Result ℕ) (s s' : State) → update t p f s ≡ (x, s') → KeepsTests s s'
        go (ok n) s s' h =
            let (_, _, frame) = laws.update_ok t p f n s s' h same in
            KeepsTests-of_same s s' (frame Table.test_cases ne)
        go (err e) s s' h =
            KeepsTests-of_same s s' (laws.update_err t p f e s s' h Table.test_cases)

    transaction-KeepsTests :
        {A : Type 0} (m : Action State A) → Keeps KeepsTests m → Keeps KeepsTests (transaction m)
    transaction-KeepsTests {A} m keeps = Keeps-of KeepsTests (transaction m) go
      where
        go : (x : Result A) (s s' : State) → transaction m s ≡ (x, s') → KeepsTests s s'
        go (ok a) s s' h = Keeps-at KeepsTests m (ok a) s s' keeps (laws.transaction_ok m a s s' h)
        go (err e) s s' h =
            KeepsTests-of_same s s' (laws.transaction_err m e s s' h Table.test_cases)

    lock_draft-KeepsTests : (id : ℕ) → Keeps KeepsTests (lock_draft g id)
    unfolding lock_draft
    lock_draft-KeepsTests id =
        let f : ProblemRevision → ProblemRevision = λ r. record r { state = revision_draft } in
        Keeps->>= tests_order (update Table.revisions (is_draft id) f) _
          (update-KeepsTests Table.revisions (is_draft id) f (λ e. cc) (λ r p. refl))
          (λ n. Keeps-lift tests_order (guard (n == 1) not_draft))

    pub create_test_case-KeepsTests : (t : TestCase) → Keeps KeepsTests (create_test_case g t)
    unfolding create_test_case test_transaction
    create_test_case-KeepsTests t =
        Keeps-after_lift tests_order
          (guard
            (not (
              t.problem_revision_id == 0
              || t.input_artifact_id == 0
              || t.output_artifact_id == 0
              || is_negative t.position))
            (validation "invalid test case"))
          _
          (λ _. transaction-KeepsTests (test_transaction g t) (
            Keeps->> tests_order (lock_draft g t.problem_revision_id) (create Table.test_cases t)
              (lock_draft-KeepsTests t.problem_revision_id) (create_test-KeepsTests t)))

    copy_tests-KeepsTests : (k : ℕ) (l : List TestCase) → Keeps KeepsTests (copy_tests g k l)
    unfolding copy_tests
    copy_tests-KeepsTests k [] = Keeps-lift tests_order (ok tt)
    copy_tests-KeepsTests k (t ∷ l) =
        Keeps->> tests_order (create Table.test_cases (clone_test k t)) (copy_tests g k l)
          (create_test-KeepsTests (clone_test k t)) (copy_tests-KeepsTests k l)

    pub create_draft_revision-KeepsTests :
        (problem : ℕ) → Keeps KeepsTests (create_draft_revision g problem)
    unfolding create_draft_revision draft_transaction lock_latest make_clone
    create_draft_revision-KeepsTests problem =
        transaction-KeepsTests (draft_transaction g problem) (
          Keeps->>= tests_order (lock_latest g problem) (make_clone g problem)
            (Keeps->> tests_order
              (update Table.problems (has_id Table.problems problem)
                (λ p. record p { id = problem }))
              _
              (update-KeepsTests Table.problems (has_id Table.problems problem)
                (λ p. record p { id = problem }) (λ e. cc) (λ r p. ground arith))
              (Keeps-after_ask tests_order
                (first_desc Table.revisions (λ r. r.number) (of_problem problem)) _
                (λ newest.
                  Keeps->> tests_order
                    (update Table.revisions (has_id Table.revisions newest.id)
                      (λ r. record r { id = newest.id }))
                    _
                    (update-KeepsTests Table.revisions (has_id Table.revisions newest.id)
                      (λ r. record r { id = newest.id }) (λ e. cc) (λ r p. ground arith))
                    (Keeps-ask tests_order
                      (first Table.revisions (has_id Table.revisions newest.id))))))
            (λ latest.
              Keeps->>= tests_order (create Table.revisions (clone problem latest)) _
                (create-KeepsTests Table.revisions (clone problem latest) (λ e. cc))
                (λ revision.
                  Keeps-after_ask tests_order (find Table.test_cases (of_revision latest.id)) _
                    (λ tests.
                      Keeps->> tests_order (copy_tests g revision.id tests) (pure revision)
                        (copy_tests-KeepsTests revision.id tests)
                        (Keeps-lift tests_order (ok revision))))))

    module _ (unmarshal : String → Option (List String)) where
      pub create_problem-KeepsTests :
          (p : Problem) (r : ProblemRevision) → Keeps KeepsTests (create_problem g unmarshal p r)
      unfolding create_problem problem_transaction
      create_problem-KeepsTests p r = Keeps-after_lift tests_order (validate_problem p) _ (λ p'.
          Keeps-after_lift tests_order (validate_revision unmarshal r) _ (λ r'.
            transaction-KeepsTests (problem_transaction g p' r') (
              Keeps->>= tests_order (create Table.problems p') _
                (create-KeepsTests Table.problems p' (λ e. cc))
                (λ p₁.
                  Keeps->>= tests_order
                    (create Table.revisions
                      (record r' { problem_id = p₁.id; number = 1; state = revision_draft }))
                    _
                    (create-KeepsTests Table.revisions
                      (record r' { problem_id = p₁.id; number = 1; state = revision_draft })
                      (λ e. cc))
                    (λ r₁ s u. u)))))

      pub update_draft_revision-KeepsTests :
          (r : ProblemRevision) → Keeps KeepsTests (update_draft_revision g unmarshal r)
      unfolding update_draft_revision edit_transaction
      update_draft_revision-KeepsTests r =
          Keeps-after_lift tests_order
            (guard (not (r.id == 0 || not (str_eq r.state revision_draft))) not_draft) _
            (λ _. Keeps-after_lift tests_order (validate_revision unmarshal r) _ (λ r'.
              transaction-KeepsTests (edit_transaction g r') (
                Keeps->> tests_order (lock_draft g r'.id) _ (lock_draft-KeepsTests r'.id) (
                  Keeps->> tests_order
                    (update Table.revisions (has_id Table.revisions r'.id) (edited r')) (pure tt)
                    (update-KeepsTests Table.revisions (has_id Table.revisions r'.id) (edited r')
                      (λ e. cc) (λ q p. refl))
                    (Keeps-lift tests_order (ok tt))))))

      pub publish_revision-KeepsTests :
          (id now : ℕ) → Keeps KeepsTests (publish_revision g unmarshal id now)
      unfolding publish_revision publish_transaction
      publish_revision-KeepsTests id now =
          transaction-KeepsTests (publish_transaction g unmarshal id now) (
            Keeps->> tests_order (lock_draft g id) _ (lock_draft-KeepsTests id) (
              Keeps-after_ask tests_order (first Table.revisions (has_id Table.revisions id)) _
                (λ stored. Keeps-after_lift tests_order (validate_revision unmarshal stored) _ (λ r.
                  Keeps-after_lift tests_order
                    (guard (not (is_empty r.statement && is_none r.pdf_artifact_id))
                      (validation "statement or PDF is required for publication"))
                    _
                    (λ _.
                      Keeps->> tests_order
                        (update Table.revisions (has_id Table.revisions id) (published now))
                        (pure tt)
                        (update-KeepsTests Table.revisions (has_id Table.revisions id)
                          (published now) (λ e. cc) (λ q p. refl))
                        (Keeps-lift tests_order (ok tt)))))))
