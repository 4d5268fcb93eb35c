-- ===== src/Db/Revisions.antt =====
-- The life of problem revisions in `internal/db/problems.go`: drafts are edited, published once and
-- cloned into new drafts. `unmarshal` is the JSON reader that the validation calls.
pub mod Rows
pub mod Frozen
pub mod Publish
pub mod Draft
pub mod TestKeys
pub mod History
use cotests.Prelude.{
  ℕ, ◌+◌, String, Bool, true, false, not, ◌&&◌, ◌||◌, Option, none, some, List, [], ◌∷◌, ◌==◌,
  if◌then◌else◌, str_eq, is_empty,
}
use cotests.Prelude.Int.{is_negative}
use cotests.Outcome.{Result, ok, err, not_draft, validation, guard}
use cotests.Outcome.Action.{Action, pure, ask, lift, ◌>>=◌, ◌>>◌}
use cotests.Db.Models.{
  Problem, ProblemRevision, TestCase, Table, has_id, revision_draft, revision_published,
}
use cotests.Db.Gorm.{Gorm}
use cotests.Db.Validate.{validate_problem, validate_revision}

abbrev pub is_draft : ℕ → ProblemRevision → Bool
is_draft id r = r.id == id && str_eq r.state revision_draft

abbrev pub of_revision : ℕ → TestCase → Bool
of_revision id t = t.problem_revision_id == id

abbrev pub of_problem : ℕ → ProblemRevision → Bool
of_problem id r = r.problem_id == id

-- the columns that `UpdateDraftRevision` writes
abbrev pub edited : ProblemRevision → ProblemRevision → ProblemRevision
edited r stored = record stored {
  statement = r.statement;
  pdf_artifact_id = r.pdf_artifact_id;
  time_limit_millis = r.time_limit_millis;
  memory_limit_kib = r.memory_limit_kib;
  language_metadata = r.language_metadata;
  checker_metadata = r.checker_metadata;
}

abbrev pub published : ℕ → ProblemRevision → ProblemRevision
published now stored = record stored { state = revision_published; published_at = some now }

-- the draft that `CreateDraftRevision` builds from the latest revision
abbrev pub clone : ℕ → ProblemRevision → ProblemRevision
clone problem_id latest = record latest {
  id = 0;
  problem_id = problem_id;
  number = latest.number + 1;
  state = revision_draft;
  published_at = none;
}

abbrev pub clone_test : ℕ → TestCase → TestCase
clone_test revision_id test = record test { id = 0; problem_revision_id = revision_id }

abbrev is_none : Option ℕ → Bool
is_none none = true
is_none (some n) = false

module _ (g : Gorm) where
  open g use {State, first, first_desc, find, create, update, delete, transaction}

  -- `LockDraft`: one row must have been written
  unfoldable pub lock_draft : ℕ → Action State (Unit {0})
  lock_draft id = do
    n ← update Table.revisions (is_draft id) (λ r. record r { state = revision_draft })
    lift (guard (n == 1) not_draft)

  -- the loop that copies the tests
  unfoldable pub copy_tests : ℕ → List TestCase → Action State (Unit {0})
  copy_tests revision_id [] = pure tt
  copy_tests revision_id (test ∷ tests) = do
    create Table.test_cases (clone_test revision_id test)
    copy_tests revision_id tests

  -- the latest revision of the problem, locked against concurrent edits
  unfoldable pub lock_latest : ℕ → Action State ProblemRevision
  lock_latest problem_id = do
    update Table.problems (has_id Table.problems problem_id) (λ p. record p { id = problem_id })
    newest ← ask (first_desc Table.revisions (λ r. r.number) (of_problem problem_id))
    update Table.revisions (has_id Table.revisions newest.id) (λ r. record r { id = newest.id })
    ask (first Table.revisions (has_id Table.revisions newest.id))

  -- the snapshot of that revision and its tests
  unfoldable pub make_clone : ℕ → ProblemRevision → Action State ProblemRevision
  unfolding copy_tests
  make_clone problem_id latest = do
    revision ← create Table.revisions (clone problem_id latest)
    tests ← ask (find Table.test_cases (of_revision latest.id))
    copy_tests revision.id tests
    pure revision

  -- the function that the transaction of `CreateDraftRevision` runs
  unfoldable pub draft_transaction : ℕ → Action State ProblemRevision
  unfolding lock_latest make_clone
  draft_transaction problem_id = do latest ← lock_latest problem_id; make_clone problem_id latest

  unfoldable pub create_draft_revision : ℕ → Action State ProblemRevision
  create_draft_revision problem_id = transaction (draft_transaction problem_id)

  test_transaction : TestCase → Action State TestCase
  test_transaction test = do lock_draft test.problem_revision_id; create Table.test_cases test

  unfoldable pub create_test_case : TestCase → Action State TestCase
  unfolding test_transaction
  create_test_case test = do
    lift (
        guard
          (not (
            test.problem_revision_id == 0
            || test.input_artifact_id == 0
            || test.output_artifact_id == 0
            || is_negative test.position))
          (validation "invalid test case"))
    transaction (test_transaction test)

  problem_transaction : Problem → ProblemRevision → Action State (Problem × ProblemRevision)
  problem_transaction problem revision = do
    p ← create Table.problems problem
    r ←
        create Table.revisions
          (record revision { problem_id = p.id; number = 1; state = revision_draft })
    pure (p, r)

  edit_transaction : ProblemRevision → Action State (Unit {0})
  edit_transaction r = do
    lock_draft r.id
    update Table.revisions (has_id Table.revisions r.id) (edited r)
    pure tt

  module _ (unmarshal : String → Option (List String)) where
    unfoldable pub create_problem :
        Problem → ProblemRevision → Action State (Problem × ProblemRevision)
    unfolding problem_transaction
    create_problem problem revision = do
      p ← lift (validate_problem problem)
      r ← lift (validate_revision unmarshal revision)
      transaction (problem_transaction p r)

    unfoldable pub update_draft_revision : ProblemRevision → Action State (Unit {0})
    unfolding edit_transaction
    update_draft_revision revision = do
      lift (guard (not (revision.id == 0 || not (str_eq revision.state revision_draft))) not_draft)
      r ← lift (validate_revision unmarshal revision)
      transaction (edit_transaction r)

    -- `validateRevision` checks the stored row; its normal form is looked at and not written
    publish_transaction : ℕ → ℕ → Action State (Unit {0})
    publish_transaction id now = do
      lock_draft id
      stored ← ask (first Table.revisions (has_id Table.revisions id))
      r ← lift (validate_revision unmarshal stored)
      lift (
          guard (not (is_empty r.statement && is_none r.pdf_artifact_id))
            (validation "statement or PDF is required for publication"))
      update Table.revisions (has_id Table.revisions id) (published now)
      pure tt

    unfoldable pub publish_revision : ℕ → ℕ → Action State (Unit {0})
    unfolding publish_transaction
    publish_revision id now = transaction (publish_transaction id now)
