-- ===== src/Server/Identity.antt =====
-- Who makes a request and what they may open: `CookieSessionProvider`, `RequireAuth` and
-- `RequireRole` of `internal/server/auth.go`.
pub mod Laws
pub mod Login
use cotests.Prelude.{
  String, ℕ, Bool, true, false, Option, none, some, List, [], ◌∷◌, ltb, if◌then◌else◌, str_eq,
  is_empty, any,
}
use cotests.Outcome.{Result, ok, err}
use cotests.Db.Models.{User, Session, Table, has_id}
use cotests.Db.Gorm.{Gorm}
use cotests.Db.Sessions.{get_session_by_token, delete_session}

-- The handler behind the middleware runs, or the request is answered at once.
pub data Access : Type 0 where
  opened : Access
  redirected : String → Access
  answered : ℕ → String → Access

unfoldable pub require_auth : Option User → Bool → Access
require_auth none true = answered 401 "Please log in to continue."
require_auth none false = redirected "/login"
require_auth (some user) htmx = opened

-- `user != nil && user.Role == role`
abbrev pub plays : Option User → String → Bool
plays none role = false
plays (some user) role = str_eq user.role role

unfoldable pub require_role : List String → Option User → Access
require_role roles user =
    if any (plays user) roles then opened else answered 403 "You do not have access to this page."

module _ (g : Gorm) (hash_token : String → String) where
  open g use {State, first}

  -- an error is a missing user
  abbrev pub user_of : Result User → Option User
  user_of (ok user) = some user
  user_of (err e) = none

  session_user : ℕ → Result Session → State → Option User × State
  unfolding delete_session
  session_user now (err e) s = (none, s)
  session_user now (ok session) s =
      if ltb session.expires_at now
      then (none, (delete_session g session.id s).1)
      else (user_of (first Table.users (has_id Table.users session.user_id) s), s)

  cookie_user : ℕ → String → State → Option User × State
  unfolding get_session_by_token session_user
  cookie_user now token s =
      if is_empty token
      then (none, s)
      else session_user now (get_session_by_token g hash_token token s) s

  unfoldable pub get_user : Option String → ℕ → State → Option User × State
  unfolding cookie_user
  get_user none now s = (none, s)
  get_user (some token) now s = cookie_user now token s
