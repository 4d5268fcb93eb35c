-- ===== src/Db/Revisions/History.antt =====
-- Histories of the revisions: any sequence of the calls of `internal/db/problems.go`, each returning
-- or failing, and of writes of other parts that leave the revisions and their tests alone.
use cotests.Prelude.{ℕ, ◌≡◌, refl, String, Option, List}
use cotests.Outcome.{Result}
use cotests.Outcome.Keeps.{Keeps-at}
use cotests.Db.Revisions.TestKeys.{
  KeepsTests, KeepsTests-of_same, create_problem-KeepsTests, create_draft_revision-KeepsTests,
  update_draft_revision-KeepsTests, create_test_case-KeepsTests, publish_revision-KeepsTests,
}
use cotests.Db.Models.{Problem, ProblemRevision, TestCase, Table}
use cotests.Db.Gorm.{Gorm, GormLaws}
use cotests.Db.Revisions.{
  create_problem, create_draft_revision, update_draft_revision, publish_revision, create_test_case,
}
use cotests.Db.Revisions.Rows.{UniqueIds}
use cotests.Db.Revisions.Frozen.{revisions_of, Frozen, Safe, Safe-trans, Safe-of_same}
use cotests.Db.Revisions.Publish.{
  create_problem-Safe, update_draft_revision-Safe, publish_revision-Safe, create_test_case-Safe,
}
use cotests.Db.Revisions.Draft.{create_draft_revision-Safe}

module _ (g : Gorm) (unmarshal : String → Option (List String)) where
  open g use {State, rows}

  pub data Step (s s' : State) : Type 0 where
    problem_created :
        (p : Problem) (r : ProblemRevision) (x : Result (Problem × ProblemRevision))
        → create_problem g unmarshal p r s ≡ (x, s')
        → Step s s'
    draft_created :
        (problem : ℕ) (x : Result ProblemRevision)
        → create_draft_revision g problem s ≡ (x, s')
        → Step s s'
    draft_edited :
        (r : ProblemRevision) (x : Result (Unit {0}))
        → update_draft_revision g unmarshal r s ≡ (x, s')
        → Step s s'
    test_created :
        (t : TestCase) (x : Result TestCase) → create_test_case g t s ≡ (x, s') → Step s s'
    revision_published :
        (id now : ℕ) (x : Result (Unit {0}))
        → publish_revision g unmarshal id now s ≡ (x, s')
        → Step s s'
    elsewhere :
        rows Table.revisions s' ≡ rows Table.revisions s
        → rows Table.test_cases s' ≡ rows Table.test_cases s
        → Step s s'

  pub data Reach (s : State) : State → Type 0 where
    here : Reach s s
    next : (s₁ s₂ : State) → Reach s s₁ → Step s₁ s₂ → Reach s s₂

  module _ (laws : GormLaws g) where
    pub Step-Safe : (s s' : State) → Step s s' → Safe g s s'
    Step-Safe s s' (problem_created p r x h) = create_problem-Safe g laws unmarshal p r x s s' h
    Step-Safe s s' (draft_created problem x h) = create_draft_revision-Safe g laws problem x s s' h
    Step-Safe s s' (draft_edited r x h) = update_draft_revision-Safe g laws unmarshal r x s s' h
    Step-Safe s s' (test_created t x h) = create_test_case-Safe g laws t x s s' h
    Step-Safe s s' (revision_published id now x h) =
        publish_revision-Safe g laws unmarshal id now x s s' h
    Step-Safe s s' (elsewhere r t) = Safe-of_same g s s' r t

    -- The primary keys of the tests stay distinct.
    pub Step-KeepsTests : (s s' : State) → Step s s' → KeepsTests g s s'
    Step-KeepsTests s s' (problem_created p r x h) =
        Keeps-at (KeepsTests g) (create_problem g unmarshal p r) x s s'
          (create_problem-KeepsTests g laws unmarshal p r) h
    Step-KeepsTests s s' (draft_created problem x h) =
        Keeps-at (KeepsTests g) (create_draft_revision g problem) x s s'
          (create_draft_revision-KeepsTests g laws problem) h
    Step-KeepsTests s s' (draft_edited r x h) =
        Keeps-at (KeepsTests g) (update_draft_revision g unmarshal r) x s s'
          (update_draft_revision-KeepsTests g laws unmarshal r) h
    Step-KeepsTests s s' (test_created t x h) =
        Keeps-at (KeepsTests g) (create_test_case g t) x s s' (create_test_case-KeepsTests g laws t)
          h
    Step-KeepsTests s s' (revision_published id now x h) =
        Keeps-at (KeepsTests g) (publish_revision g unmarshal id now) x s s'
          (publish_revision-KeepsTests g laws unmarshal id now) h
    Step-KeepsTests s s' (elsewhere r t) = KeepsTests-of_same g s s' t

    Reach-Safe : (s s' : State) → Reach s s' → Safe g s s'
    Reach-Safe s s' here = Safe-of_same g s s refl refl
    Reach-Safe s s' (next s₁ s₂ r step) =
        Safe-trans g s s₁ s₂ (Reach-Safe s s₁ r) (Step-Safe s₁ s₂ step)

    -- From a state whose revisions have distinct primary keys, after any history, every revision
    -- that was published is stored with the same columns and has the same tests.
    Reach-Frozen : (s s' : State) → Reach s s' → UniqueIds (revisions_of g s) → Frozen g s s'
    Reach-Frozen s s' r unique = (Reach-Safe s s' r unique).0
