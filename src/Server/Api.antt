-- ===== src/Server/Api.antt =====
-- The contest part of the JSON interface (`internal/server/api.go`): the guards of the handlers that
-- write, what they write, and how errors are answered. A number of the route and a body are what
-- reading them gave, a value or an error.
pub mod Guards
use cotests.Prelude.{
  ℕ, String, Bool, true, false, not, ◌&&◌, ◌||◌, Option, none, some, List, [], ◌∷◌, ◌==◌,
  if◌then◌else◌, str_eq, any,
}
use cotests.Prelude.Int.{ℤ, pos}
use cotests.Outcome.{
  Error, Result, ok, err, unauthorized, forbidden, conflict, not_found, not_draft, not_exist, quota,
  too_large, body_too_large, duplicated_key, validation, failure, guard,
}
use cotests.Outcome.Action.{Action, pure, ask, lift, ◌>>=◌, ◌>>◌}
use cotests.Db.Models.{
  User, Contest, Series, ContestMembership, SeriesProblem, Table, has_id, role_admin,
}
use cotests.Db.Gorm.{Gorm}
use cotests.Db.Contests.{
  get_contest, create_contest, update_contest, delete_contest, delete_series, affected, is_public,
}
use cotests.Content.Access.{manage_contest, managed_series, has_role}
use cotests.Content.Members.{set_member, remove_member}
use cotests.Content.Reorder.{reorder_series, reorder_problems}
use cotests.Content.Assignments.{assign, save_series}

-- `apiError`: the status and the code of the answer
unfoldable pub api_error : Error → ℕ × String
api_error unauthorized = (401, "unauthorized")
api_error forbidden = (403, "forbidden")
api_error not_found = (404, "not_found")
api_error conflict = (409, "conflict")
api_error not_draft = (409, "conflict")
api_error quota = (409, "conflict")
api_error duplicated_key = (409, "conflict")
api_error (validation message) = (400, "validation")
api_error body_too_large = (413, "too_large")
api_error too_large = (413, "too_large")
api_error (failure message) = (500, "internal")
api_error not_exist = (500, "internal")

unfoldable pub api_admin : Option User → Result (Unit {0})
api_admin none = err unauthorized
api_admin (some user) = guard (str_eq user.role role_admin) forbidden

pub record ContestInput : Type 0 where
  pub title : String
  pub description : String
  pub visibility : String
  pub start_at : Option ℕ
  pub end_at : Option ℕ

-- the contest of a body, under the key of the route
abbrev pub contest_model : ℕ → ContestInput → Contest
contest_model id i = record {
  id = id;
  title = i.title;
  description = i.description;
  visibility = i.visibility;
  start_at = i.start_at;
  end_at = i.end_at;
}

pub record SeriesInput : Type 0 where
  pub title : String
  pub position : ℤ
  pub start_at : Option ℕ
  pub end_at : Option ℕ
  pub release_at : Option ℕ

abbrev pub with_input : SeriesInput → Series → Series
with_input i x = record x {
  title = i.title;
  position = i.position;
  start_at = i.start_at;
  end_at = i.end_at;
  release_at = i.release_at;
}

abbrev pub new_series : ℕ → Series
new_series contest = record {
  id = 0;
  contest_id = contest;
  title = "";
  position = pos 0;
  start_at = none;
  end_at = none;
  release_at = none;
}

pub record MemberInput : Type 0 where
  pub user_id : ℕ
  pub role : String

pub record AssignInput : Type 0 where
  pub revision_id : ℕ
  pub code : String
  pub position : ℤ

abbrev pub assignment_model : ℕ → AssignInput → SeriesProblem
assignment_model series i = record {
  id = 0;
  series_id = series;
  problem_id = 0;
  published_revision_id = i.revision_id;
  code = i.code;
  position = i.position;
}

-- The requests that write contests, members, series and assignments.
pub data Call : Type 0 where
  contest_post : Result ContestInput → Call
  contest_put : Result ℕ → Result ContestInput → Call
  contest_delete : Result ℕ → Call
  member_put : Result ℕ → Result MemberInput → Call
  member_delete : Result ℕ → Result ℕ → Call
  series_post series_put : Result ℕ → Result SeriesInput → Call
  series_delete : Result ℕ → Call
  series_order problem_order : Result ℕ → Result (List ℕ) → Call
  assignment_post : Result ℕ → Result AssignInput → Call
  assignment_delete : Result ℕ → Result ℕ → Call

-- a handler that returns no value
abbrev pub void : {S A : Type 0} → Action S A → Action S (Unit {0})
void m = m >>= λ _. pure tt

module _ (g : Gorm) (actor : Option User) where
  open g use {State, delete}

  -- `manager`
  unfoldable pub manager : Result ℕ → Action State ℕ
  manager route = do id ← lift route; ask (manage_contest g actor id); pure id

  -- `loadContest`: who does not manage a contest sees it when it is published
  unfoldable pub load_contest : Result ℕ → Action State Contest
  load_contest route = do
    id ← lift route
    item ← ask (get_contest g id)
    if is_public item then pure item else (ask (manage_contest g actor id) >> pure item)

  abbrev pub create_contest_handler : Result ContestInput → Action State (Unit {0})
  create_contest_handler body = do
    lift (api_admin actor)
    input ← lift body
    void (create_contest g (contest_model 0 input))

  abbrev pub update_contest_handler : Result ℕ → Result ContestInput → Action State (Unit {0})
  update_contest_handler route body = do
    id ← manager route
    input ← lift body
    update_contest g (contest_model id input)

  abbrev pub delete_contest_handler : Result ℕ → Action State (Unit {0})
  delete_contest_handler route = do lift (api_admin actor); id ← lift route; delete_contest g id

  abbrev pub set_member_handler : Result ℕ → Result MemberInput → Action State (Unit {0})
  set_member_handler route body = do
    id ← lift route
    input ← lift body
    set_member g actor id input.user_id input.role

  abbrev pub delete_member_handler : Result ℕ → Result ℕ → Action State (Unit {0})
  delete_member_handler route user_route = do
    id ← lift route
    user ← lift user_route
    remove_member g actor id user

  -- `saveSeries` on POST
  abbrev pub create_series_handler : Result ℕ → Result SeriesInput → Action State (Unit {0})
  create_series_handler route body = do
    id ← lift route
    input ← lift body
    save_series g actor (with_input input (new_series id))

  -- `saveSeries` on PUT
  abbrev pub update_series_handler : Result ℕ → Result SeriesInput → Action State (Unit {0})
  update_series_handler route body = do
    id ← lift route
    item ← ask (managed_series g actor id)
    input ← lift body
    save_series g actor (with_input input item)

  abbrev pub delete_series_handler : Result ℕ → Action State (Unit {0})
  delete_series_handler route = do
    id ← lift route
    ask (managed_series g actor id)
    delete_series g id

  -- `orderSeries`, with the two parts of `readOrder`
  abbrev pub order_series_handler : Result ℕ → Result (List ℕ) → Action State (Unit {0})
  order_series_handler route body = do
    id ← lift route
    ids ← lift body
    reorder_series g actor id ids

  -- `orderProblems`
  abbrev pub order_problems_handler : Result ℕ → Result (List ℕ) → Action State (Unit {0})
  order_problems_handler route body = do
    id ← lift route
    ids ← lift body
    reorder_problems g actor id ids

  abbrev pub assign_handler : Result ℕ → Result AssignInput → Action State (Unit {0})
  assign_handler route body = do
    id ← lift route
    input ← lift body
    void (assign g actor (assignment_model id input))

  abbrev pub unassign_handler : Result ℕ → Result ℕ → Action State (Unit {0})
  unassign_handler route assignment_route = do
    id ← lift route
    ask (managed_series g actor id)
    assignment ← lift assignment_route
    affected g (
        delete Table.series_problems
          (λ a. has_id Table.series_problems assignment a && (a.series_id == id)))

  unfoldable pub serve : Call → Action State (Unit {0})
  serve (contest_post body) = create_contest_handler body
  serve (contest_put route body) = update_contest_handler route body
  serve (contest_delete route) = delete_contest_handler route
  serve (member_put route body) = set_member_handler route body
  serve (member_delete route user_route) = delete_member_handler route user_route
  serve (series_post route body) = create_series_handler route body
  serve (series_put route body) = update_series_handler route body
  serve (series_delete route) = delete_series_handler route
  serve (series_order route body) = order_series_handler route body
  serve (problem_order route body) = order_problems_handler route body
  serve (assignment_post route body) = assign_handler route body
  serve (assignment_delete route assignment_route) = unassign_handler route assignment_route
