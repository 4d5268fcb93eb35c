-- ===== src/Content/Assignments.antt =====
-- Writes of series and assignments: `SaveSeries`, `Assign` and `conflictDraft` of
-- `internal/content/service.go`.
pub mod Sound
use cotests.Prelude.{
  ℕ, String, Bool, true, false, not, ◌&&◌, ◌||◌, Option, none, some, List, [], ◌∷◌, map, ltb, ◌==◌,
  if◌then◌else◌, any, str_eq, is_empty, trim_space,
}
use Prim.Native.String.{len}
use cotests.Prelude.Int.{ℤ, is_negative, given_and}
use cotests.Outcome.{Error, Result, conflict, not_draft, validation, guard}
use cotests.Outcome.Action.{Action, pure, ask, lift, ◌>>=◌, ◌>>◌}
use cotests.Db.Models.{
  User, Series, Artifact, Problem, ProblemRevision, SeriesProblem, TestCase, Table, has_id,
  revision_published,
}
use cotests.Db.Gorm.{Gorm}
use cotests.Db.Contests.{create_series, update_series, get_series}
use cotests.Content.Access.{
  require_user, is_admin, manage_contest, manage_problem, revision, managed_series, can_read_series,
}

-- `conflictDraft`: a conflict that wraps the other error is one for `errors.Is`
unfoldable pub conflict_draft : Error → Error
conflict_draft not_draft = conflict
conflict_draft e = e

abbrev pub is_published : ProblemRevision → Bool
is_published r = str_eq r.state revision_published

module _ (g : Gorm) where
  open g use {State, rows, first, find, count, create}

  -- the assignment as `Assign` completes it
  unfoldable pub completed : ProblemRevision → SeriesProblem → SeriesProblem
  completed r a = record a { problem_id = r.problem_id; code = trim_space a.code }

  unfoldable pub assign : Option User → SeriesProblem → Action State SeriesProblem
  unfolding completed
  assign actor assignment = do
    ask (managed_series g actor assignment.series_id)
    r ← ask (revision g actor assignment.published_revision_id)
    lift (guard (is_published r) conflict)
    lift (
        guard
          (not (
            is_empty (completed r assignment).code
            || ltb 64 (len (completed r assignment).code)
            || is_negative assignment.position))
          (validation "invalid assignment code or position"))
    create Table.series_problems (completed r assignment)

  -- a new series has the key 0
  unfoldable pub save_series : Option User → Series → Action State (Unit {0})
  save_series actor series = do
    ask (manage_contest g actor series.contest_id)
    if series.id == 0 then create_series g series >> pure tt else update_series g series
