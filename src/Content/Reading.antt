-- ===== src/Content/Reading.antt =====
-- What members read through assignments: `Statement` and `Artifact` of `internal/content/service.go`.
pub mod Sound
pub mod Statements
use cotests.Prelude.{
  ℕ, String, Bool, true, false, not, ◌&&◌, ◌||◌, Option, none, some, List, [], ◌∷◌, map, ◌==◌,
  if◌then◌else◌, any,
}
use cotests.Prelude.Int.{ℤ, given_and}
use cotests.Outcome.{Error, Result, ok, err, forbidden, guard, ◌>>=◌, ◌>>◌}
use cotests.Db.Models.{
  User, Series, Artifact, Problem, ProblemRevision, SeriesProblem, TestCase, Table, has_id,
}
use cotests.Db.Gorm.{Gorm}
use cotests.Db.Contests.{get_series}
use cotests.Content.Access.{require_user, is_admin, manage_problem, can_read_series}
use cotests.Content.Assignments.{is_published}

pub record PublicSample : Type 0 where
  pub position : ℤ
  pub input_artifact_id : ℕ
  pub output_artifact_id : ℕ

pub record Statement : Type 0 where
  pub assignment_id : ℕ
  pub revision_id : ℕ
  pub title : String
  pub code : String
  pub statement : String
  pub pdf_artifact_id : Option ℕ
  pub time_limit_millis : Option ℤ
  pub memory_limit_kib : Option ℤ
  pub languages : String
  pub samples : List PublicSample

abbrev pub sample_of : ℕ → TestCase → Bool
sample_of revision_id t = (t.problem_revision_id == revision_id) && t.is_sample

abbrev pub public_sample : TestCase → PublicSample
public_sample t = record {
  position = t.position;
  input_artifact_id = t.input_artifact_id;
  output_artifact_id = t.output_artifact_id;
}

-- The test reads or writes the artifact.
abbrev pub uses : ℕ → TestCase → Bool
uses id t = (t.input_artifact_id == id) || (t.output_artifact_id == id)

abbrev pub has_pdf : ℕ → ProblemRevision → Bool
has_pdf id r = given_and (λ pdf. pdf == id) r.pdf_artifact_id

-- the condition of the query for revisions, with its subquery on the tests
abbrev pub attached : ℕ → List TestCase → ProblemRevision → Bool
attached id tests r = has_pdf id r || any (λ t. (t.problem_revision_id == r.id) && uses id t) tests

abbrev pub assigned : ℕ → SeriesProblem → Bool
assigned revision_id a = a.published_revision_id == revision_id

-- `err == nil` grants, ErrForbidden goes on, and any other error ends the search.
unfoldable pub granted : {A : Type 0} → Result A → Result Bool
granted (ok a) = ok true
granted (err forbidden) = ok false
granted (err e) = err e

module _ (g : Gorm) where
  open g use {State, rows, first, find, count}

  unfoldable pub read_statement : Option User → ℕ → ℕ → State → Result Statement
  unfolding get_series
  read_statement actor id now s = do
    assignment ← first Table.series_problems (has_id Table.series_problems id) s
    series ← get_series g assignment.series_id s
    can_read_series g actor series now s
    revision ← first Table.revisions (has_id Table.revisions assignment.published_revision_id) s
    guard (is_published revision) forbidden
    problem ← first Table.problems (has_id Table.problems assignment.problem_id) s
    tests ← find Table.test_cases (sample_of revision.id) s
    ok (record {
      assignment_id = id;
      revision_id = revision.id;
      title = problem.title;
      code = assignment.code;
      statement = revision.statement;
      pdf_artifact_id = revision.pdf_artifact_id;
      time_limit_millis = revision.time_limit_millis;
      memory_limit_kib = revision.memory_limit_kib;
      languages = revision.language_metadata;
      samples = map public_sample tests;
    })

  module _ (actor : Option User) (id : ℕ) (clock : ℕ → ℕ → ℕ) (s : State) where
    -- The loop over the assignments of a revision; `clock` is the time at which the check of an
    -- assignment reads it.
    unfoldable pub through_assignments : ProblemRevision → List SeriesProblem → Result Bool
    unfolding granted get_series
    through_assignments r [] = ok false
    through_assignments r (a ∷ rest) =
        let later = through_assignments r rest in
        get_series g a.series_id s >>= λ series.
        granted (can_read_series g actor series (clock r.id a.id) s) >>= λ found.
        if found then ok true else later

    -- `allowed`: the PDF of the revision, or a file of one of its samples
    unfoldable pub allowed_file : ProblemRevision → Result Bool
    allowed_file r =
        if has_pdf id r
        then ok true
        else count Table.test_cases (λ t. sample_of r.id t && uses id t) s >>= λ n.
            ok (not (n == 0))

    -- what the loop does with a published revision whose problem the user does not manage
    unfoldable pub as_member : ProblemRevision → Result Bool
    unfolding allowed_file through_assignments
    as_member r = allowed_file r >>= λ allowed.
        if allowed
        then find Table.series_problems (assigned r.id) s >>= through_assignments r
        else ok false

    -- The loop over the revisions that the file is attached to.
    unfoldable pub through_revisions : List ProblemRevision → Result Bool
    unfolding granted as_member
    through_revisions [] = ok false
    through_revisions (r ∷ rest) =
        let later = through_revisions rest in
        granted (manage_problem g actor r.problem_id s) >>= λ manager.
        if manager
        then ok true
        else if not (is_published r)
        then later
        else as_member r >>= λ member. if member then ok true else later

  unfoldable pub artifact : Option User → ℕ → (ℕ → ℕ → ℕ) → State → Result Artifact
  unfolding require_user is_admin through_revisions
  artifact actor id clock s = do
    user ← require_user actor
    item ← first Table.artifacts (has_id Table.artifacts id) s
    if is_admin user then ok item else do
      revisions ← find Table.revisions (attached id (rows Table.test_cases s)) s
      found ← through_revisions actor id clock s revisions
      guard found forbidden
      ok item
