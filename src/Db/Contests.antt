-- ===== src/Db/Contests.antt =====
-- Contests and series in `internal/db/contests.go`: the writes validate first, and the public list
-- holds published contests only.
pub mod Laws
pub mod Public
use cotests.Prelude.{
  ℕ, String, Bool, true, false, not, ◌&&◌, Option, none, some, List, [], ◌∷◌, ◌==◌, str_eq,
}
use cotests.Outcome.{Error, Result, ok, err, not_found, guard}
use cotests.Outcome.Action.{Action, pure, ask, lift, ◌>>=◌, ◌>>◌}
use cotests.Db.Models.{Contest, Series, Table, has_id, contest_published}
use cotests.Db.Gorm.{Gorm}
use cotests.Db.Validate.{validate_contest, validate_series}

-- the columns that `UpdateContest` writes
abbrev pub edited_contest : Contest → Contest → Contest
edited_contest c stored = record stored {
  title = c.title;
  description = c.description;
  visibility = c.visibility;
  start_at = c.start_at;
  end_at = c.end_at;
}

-- the columns that `UpdateSeries` writes
abbrev pub edited_series : Series → Series → Series
edited_series x stored = record stored {
  title = x.title;
  position = x.position;
  start_at = x.start_at;
  end_at = x.end_at;
  release_at = x.release_at;
}

abbrev pub is_public : Contest → Bool
is_public c = str_eq c.visibility contest_published

abbrev pub of_contest : ℕ → Series → Bool
of_contest contest x = x.contest_id == contest

module _ (g : Gorm) where
  open g use {State, first, find, create, update, delete}

  unfoldable pub create_contest : Contest → Action State Contest
  create_contest contest = do c ← lift (validate_contest contest); create Table.contests c

  unfoldable pub get_contest : ℕ → State → Result Contest
  get_contest id = first Table.contests (has_id Table.contests id)

  -- The order that the query asks for is left open, as `find` leaves it.
  unfoldable pub list_public_contests : State → Result (List Contest)
  list_public_contests = find Table.contests is_public

  unfoldable pub get_public_contest : ℕ → State → Result Contest
  get_public_contest id = first Table.contests (λ c. has_id Table.contests id c && is_public c)

  -- a statement that must have found a row
  abbrev pub affected : Action State ℕ → Action State (Unit {0})
  affected m = do n ← m; lift (guard (not (n == 0)) not_found)

  unfoldable pub update_contest : Contest → Action State (Unit {0})
  update_contest contest = do
    lift (guard (not (contest.id == 0)) not_found)
    c ← lift (validate_contest contest)
    affected (update Table.contests (has_id Table.contests c.id) (edited_contest c))

  unfoldable pub delete_contest : ℕ → Action State (Unit {0})
  delete_contest id = affected (delete Table.contests (has_id Table.contests id))

  unfoldable pub create_series : Series → Action State Series
  create_series series = do x ← lift (validate_series series); create Table.series x

  unfoldable pub list_series : ℕ → State → Result (List Series)
  list_series contest = find Table.series (of_contest contest)

  unfoldable pub get_series : ℕ → State → Result Series
  get_series id = first Table.series (has_id Table.series id)

  unfoldable pub update_series : Series → Action State (Unit {0})
  update_series series = do
    lift (guard (not (series.id == 0)) not_found)
    x ← lift (validate_series series)
    affected (
        update Table.series (λ r. has_id Table.series x.id r && of_contest x.contest_id r)
          (edited_series x))

  unfoldable pub delete_series : ℕ → Action State (Unit {0})
  delete_series id = affected (delete Table.series (has_id Table.series id))
