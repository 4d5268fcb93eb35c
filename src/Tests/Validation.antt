-- ===== src/Tests/Validation.antt =====
-- What the validation functions accept and refuse.
use cotests.Prelude.{◌≡◌, refl, ◌↔◌, false, some, [], ◌∷◌, trim_space}
use cotests.Prelude.Int.{negsuc}
use cotests.Outcome.{ok, err, validation}
use cotests.Db.Models.{Contest, Series, Problem, ProblemRevision}
use cotests.Db.Validate.{
  validate_contest, validate_series, validate_problem, validate_revision, normal_contest,
  normal_series, normal_problem, normal_revision, languages_fine,
}
use cotests.Db.Validate.Normal.{NormalContest, NormalSeries, NormalProblem, NormalRevision}
use cotests.Db.Validate.Contests.{
  IsValidContest, IsValidSeries, validate_contest_iff, validate_series_iff,
}
use cotests.Db.Validate.Problems.{
  IsValidProblem, IsValidRevision, validate_problem_iff, validate_revision_iff,
}
use cotests.Tests.World.{spring, round_one, sum_problem, first_revision, unmarshal}

abbrev padded : Contest
padded = record spring { title = " Spring\n"; description = "\t"; visibility = "" }

abbrev stored : Contest
stored = record spring { visibility = "draft" }

padded_accepted : validate_contest padded ≡ ok stored
unfolding validate_contest normal_contest trim_space
padded_accepted = refl

backwards_refused :
    validate_contest (record spring { end_at = some 100 })
    ≡ err (validation "contest end time must be after start time")
unfolding validate_contest normal_contest trim_space
backwards_refused = refl

negative_refused :
    validate_series (record round_one { position = negsuc 0 })
    ≡ err (validation "series position must not be negative")
unfolding validate_series normal_series trim_space
negative_refused = refl

duplicate_language : languages_fine [] ("go" ∷ "c" ∷ "go" ∷ []) ≡ false
unfolding languages_fine trim_space
duplicate_language = refl

abbrev wide_series : Series
wide_series = record round_one { title = "\t One " }

series_trimmed : validate_series wide_series ≡ ok round_one
unfolding validate_series normal_series trim_space
series_trimmed = refl

abbrev wide_problem : Problem
wide_problem = record sum_problem { title = " Sum "; code = "sum\n"; kind = "" }

abbrev narrow_problem : Problem
narrow_problem = record sum_problem { title = "Sum"; code = "sum"; kind = "programming" }

problem_trimmed : validate_problem wide_problem ≡ ok narrow_problem
unfolding validate_problem normal_problem trim_space
problem_trimmed = refl

abbrev wide_revision : ProblemRevision
wide_revision = record first_revision {
  statement = " Add.\n";
  language_metadata = " \n";
  checker_metadata = " exact ";
}

abbrev narrow_revision : ProblemRevision
narrow_revision = record first_revision {
  statement = "Add.";
  language_metadata = "[]";
  checker_metadata = "exact";
}

revision_trimmed : validate_revision unmarshal wide_revision ≡ ok narrow_revision
unfolding validate_revision normal_revision trim_space
revision_trimmed = refl

validate_contest_iff_example :
    (validate_contest padded ≡ ok stored) ↔ (NormalContest padded stored × IsValidContest stored)
validate_contest_iff_example = validate_contest_iff padded stored

validate_series_iff_example :
    (validate_series wide_series ≡ ok round_one)
    ↔ (NormalSeries wide_series round_one × IsValidSeries round_one)
validate_series_iff_example = validate_series_iff wide_series round_one

validate_problem_iff_example :
    (validate_problem wide_problem ≡ ok narrow_problem)
    ↔ (NormalProblem wide_problem narrow_problem × IsValidProblem narrow_problem)
validate_problem_iff_example = validate_problem_iff wide_problem narrow_problem

validate_revision_iff_example :
    (validate_revision unmarshal wide_revision ≡ ok narrow_revision)
    ↔ (NormalRevision wide_revision narrow_revision × IsValidRevision unmarshal narrow_revision)
validate_revision_iff_example = validate_revision_iff unmarshal wide_revision narrow_revision
