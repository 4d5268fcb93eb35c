-- ===== src/Content/Access.antt =====
-- The permission checks of `internal/content/service.go`. A check reads the database and returns
-- the error that its caller passes on; what it loads on the way comes back with success. `now` is
-- a reading of the service's clock: `CanSubmit` reads it twice, once in `CanReadSeries`.
pub mod Spec
pub mod Sound
pub mod Complete
use cotests.Prelude.{
  ℕ, String, Bool, true, false, not, ◌&&◌, ◌||◌, Option, none, some, ltb, leb, ◌==◌, if◌then◌else◌,
  str_eq,
}
use cotests.Outcome.{Error, Result, ok, err, unauthorized, forbidden, guard, ◌>>=◌, ◌>>◌}
use cotests.Db.Models.{
  User, Contest, Series, ContestMembership, Problem, ProblemRevision, Table, has_id, role_admin,
  contest_published,
}
use cotests.Db.Gorm.{Gorm}

-- `requireUser`: the user behind the pointer, which the caller reads afterwards
unfoldable pub require_user : Option User → Result User
require_user none = err unauthorized
require_user (some user) = ok user

unfoldable pub is_admin : User → Bool
is_admin user = str_eq user.role role_admin

-- the conditions of the queries on memberships
abbrev pub is_member : ℕ → ℕ → ContestMembership → Bool
is_member contest user m = m.contest_id == contest && m.user_id == user

abbrev pub has_role : ℕ → ℕ → String → ContestMembership → Bool
has_role contest user role m = is_member contest user m && str_eq m.role role

abbrev pub organizes_any : ℕ → ContestMembership → Bool
organizes_any user m = m.user_id == user && str_eq m.role "organizer"

-- `t != nil && now.Before(*t)`
unfoldable pub before : ℕ → Option ℕ → Bool
before now none = false
before now (some t) = ltb now t

-- `t != nil && !now.Before(*t)`
unfoldable pub reached : ℕ → Option ℕ → Bool
reached now none = false
reached now (some t) = leb t now

-- `release := series.ReleaseAt; if release == nil { release = series.StartAt }`
unfoldable pub release_time : Series → Option ℕ
release_time series = elim series.release_at [ none ↦ series.start_at | some t ↦ some t ]

-- a round of the loop over the windows in `CanSubmit`
unfoldable pub outside : ℕ → Option ℕ → Option ℕ → Bool
unfolding before reached
outside now start_at end_at = before now start_at || reached now end_at

-- how `CanReadSeries` goes on from the answer of `ManageContest`
unfoldable pub read_after : Result (Unit {0}) → Result (Unit {0}) → Result (Unit {0})
read_after (ok _) rest = ok tt
read_after (err forbidden) rest = rest
read_after (err unauthorized) rest = rest
read_after (err e) rest = err e

module _ (g : Gorm) where
  open g use {State, first, count}

  unfoldable pub manage_contest : Option User → ℕ → State → Result (Unit {0})
  unfolding require_user is_admin
  manage_contest actor id s = do
    user ← require_user actor
    contest ← first Table.contests (has_id Table.contests id) s
    if is_admin user then ok tt else do
      n ← count Table.memberships (has_role id user.id "organizer") s
      guard (not (n == 0)) forbidden

  unfoldable pub manage_problem : Option User → ℕ → State → Result Problem
  unfolding require_user is_admin
  manage_problem actor id s = do
    user ← require_user actor
    problem ← first Table.problems (has_id Table.problems id) s
    guard (not (not (is_admin user) && not (problem.owner_id == user.id))) forbidden
    ok problem

  -- `Revision`: the revision is read before the permission is checked
  unfoldable pub revision : Option User → ℕ → State → Result ProblemRevision
  revision actor id s = do
    r ← first Table.revisions (has_id Table.revisions id) s
    problem ← manage_problem actor r.problem_id s
    ok r

  unfoldable pub can_author : Option User → State → Result (Unit {0})
  unfolding require_user is_admin
  can_author actor s = do
    user ← require_user actor
    if is_admin user then ok tt else do
      n ← count Table.memberships (organizes_any user.id) s
      guard (not (n == 0)) forbidden

  -- `Service.Series`
  unfoldable pub managed_series : Option User → ℕ → State → Result Series
  managed_series actor id s = do
    series ← first Table.series (has_id Table.series id) s
    manage_contest actor series.contest_id s
    ok series

  -- what `CanReadSeries` checks of those who do not manage the contest
  unfoldable pub member_can_read : Option User → Series → ℕ → State → Result (Unit {0})
  unfolding require_user before release_time
  member_can_read actor series now s = do
    user ← require_user actor
    contest ← first Table.contests (has_id Table.contests series.contest_id) s
    guard (str_eq contest.visibility contest_published) forbidden
    guard (not (before now contest.start_at)) forbidden
    guard (not (before now (release_time series))) forbidden
    n ← count Table.memberships (is_member series.contest_id user.id) s
    guard (not (n == 0)) forbidden

  unfoldable pub can_read_series : Option User → Series → ℕ → State → Result (Unit {0})
  unfolding read_after
  can_read_series actor series now s =
      read_after (manage_contest actor series.contest_id s) (member_can_read actor series now s)

  unfoldable pub can_submit : Option User → ℕ → ℕ → ℕ → State → Result (Unit {0})
  unfolding require_user outside
  can_submit actor series_id read_now now s = do
    user ← require_user actor
    series ← first Table.series (has_id Table.series series_id) s
    can_read_series actor series read_now s
    n ← count Table.memberships (has_role series.contest_id user.id "participant") s
    guard (not (n == 0)) forbidden
    contest ← first Table.contests (has_id Table.contests series.contest_id) s
    guard (str_eq contest.visibility contest_published) forbidden
    guard (not (outside now contest.start_at contest.end_at)) forbidden
    guard (not (outside now series.start_at series.end_at)) forbidden
