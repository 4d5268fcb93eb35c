-- ===== src/Db/Validate.antt =====
-- The validation functions of `internal/db/contests.go` and `internal/db/problems.go`. Each one
-- normalises the row that it is given and checks it: on success the normalised row comes back.
-- `len` counts bytes, as in Go. `json.Unmarshal` into `[]string` is the parameter `unmarshal`,
-- `none` for an error and for JSON `null`.
pub mod Normal
pub mod Contests
pub mod Problems
use Prim.Native.String.{len}
use cotests.Prelude.{
  ℕ, ◌*◌, ◌^◌, String, Bool, true, false, not, ◌&&◌, ◌||◌, Option, none, some, List, [], ◌∷◌, ltb,
  leb, ◌==◌, if◌then◌else◌, str_eq, is_empty, trim_space, length, any,
}
use cotests.Prelude.Int.{is_negative, is_nonpositive, given_and}
use cotests.Outcome.{Result, ok, err, validation}
use cotests.Db.Models.{Contest, Series, Problem, ProblemRevision, contest_draft, contest_published}

-- `StartAt != nil && EndAt != nil && !EndAt.After(*StartAt)`
abbrev pub ends_early : Option ℕ → Option ℕ → Bool
ends_early none end_at = false
ends_early (some start) none = false
ends_early (some start) (some end_time) = leb end_time start

abbrev or_default : String → String → String
or_default value fallback = if is_empty value then fallback else value

-- The fields that `validateContest` rewrites.
unfoldable pub normal_contest : Contest → Contest
normal_contest c = record c {
  title = trim_space c.title;
  description = trim_space c.description;
  visibility = or_default c.visibility contest_draft;
}

check_contest : Contest → Result Contest
check_contest c =
    if is_empty c.title
    then err (validation "contest title is required")
    else if ltb 300 (len c.title) || ltb 100000 (len c.description)
    then err (validation "contest fields are too large")
    else if not (str_eq c.visibility contest_draft) && not (str_eq c.visibility contest_published)
    then err (validation "invalid contest visibility")
    else if ends_early c.start_at c.end_at
    then err (validation "contest end time must be after start time")
    else ok c

unfoldable pub validate_contest : Contest → Result Contest
unfolding check_contest
validate_contest c = check_contest (normal_contest c)

unfoldable pub normal_series : Series → Series
normal_series s = record s { title = trim_space s.title }

check_series : Series → Result Series
check_series s =
    if s.contest_id == 0
    then err (validation "contest is required")
    else if is_empty s.title || ltb 300 (len s.title)
    then err (validation "series title must contain between 1 and 300 bytes")
    else if is_negative s.position
    then err (validation "series position must not be negative")
    else if ends_early s.start_at s.end_at
    then err (validation "series end time must be after start time")
    else ok s

unfoldable pub validate_series : Series → Result Series
unfolding check_series
validate_series s = check_series (normal_series s)

unfoldable pub normal_problem : Problem → Problem
normal_problem p = record p {
  title = trim_space p.title;
  code = trim_space p.code;
  kind = or_default p.kind "programming";
}

check_problem : Problem → Result Problem
check_problem p =
    if p.owner_id == 0 || is_empty p.title || is_empty p.code
    then err (validation "problem owner, title and code are required")
    else if ltb 300 (len p.title) || ltb 64 (len p.code)
    then err (validation "problem title or code is too long")
    else if not (str_eq p.kind "programming")
    then err (validation "invalid problem kind")
    else ok p

unfoldable pub validate_problem : Problem → Result Problem
unfolding check_problem
validate_problem p = check_problem (normal_problem p)

unfoldable pub normal_revision : ProblemRevision → ProblemRevision
normal_revision r = record r {
  statement = trim_space r.statement;
  language_metadata = or_default (trim_space r.language_metadata) "[]";
  checker_metadata = trim_space r.checker_metadata;
}

-- `strings.TrimSpace(language) != language || language == "" || len(language) > 100 || seen[language]`
unfoldable pub bad_language : List String → String → Bool
bad_language seen language =
    not (str_eq (trim_space language) language)
    || is_empty language
    || ltb 100 (len language)
    || any (str_eq language) seen

-- The loop over the identifiers, with those seen so far.
unfoldable pub languages_fine : List String → List String → Bool
unfolding bad_language
languages_fine seen [] = true
languages_fine seen (language ∷ rest) =
    not (bad_language seen language) && languages_fine (language ∷ seen) rest

module _ (unmarshal : String → Option (List String)) where
  check_metadata : ProblemRevision → Result ProblemRevision
  check_metadata r =
      if ltb (512 * 2 ^ 10) (len r.statement) || ltb 200 (len r.checker_metadata)
      then err (validation "revision metadata is too large")
      else if given_and is_nonpositive r.time_limit_millis
          || given_and is_nonpositive r.memory_limit_kib
      then err (validation "limits must be positive")
      else ok r

  check_languages : ProblemRevision → Option (List String) → Result ProblemRevision
  unfolding check_metadata languages_fine
  check_languages r none = err (validation "languages must be an array of at most 100 identifiers")
  check_languages r (some languages) =
      if ltb 100 (length languages)
      then err (validation "languages must be an array of at most 100 identifiers")
      else if not (languages_fine [] languages)
      then err (validation "invalid or duplicate language identifier")
      else check_metadata r

  unfoldable pub validate_revision : ProblemRevision → Result ProblemRevision
  unfolding check_languages
  validate_revision r =
      let n = normal_revision r in check_languages n (unmarshal n.language_metadata)
