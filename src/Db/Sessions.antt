-- ===== src/Db/Sessions.antt =====
-- Sessions and users: `internal/db/sessions.go` and `internal/db/users.go`. `hash_token` is the
-- hexadecimal SHA-256 of a token; a new token, or the failure of the random source, is an argument.
-- `time.Now` is read where the code reads it. `hash_password` is `auth.HashPassword`, which is
-- bcrypt.
pub mod Laws
use cotests.Prelude.{ℕ, ◌+◌, ◌*◌, ◌^◌, String, Bool, Option, ltb, str_eq}
use cotests.Outcome.{Error, Result, ok, err}
use cotests.Outcome.Action.{Action, pure, ask, lift, ◌>>=◌, ◌>>◌}
use cotests.Db.Models.{User, Session, Table, has_id, role_admin, role_user}
use cotests.Db.Gorm.{Gorm}

-- time.Hour * 24 * 7
abbrev pub session_life : ℕ
session_life = 60 * 60 * 10 ^ 9 * 24 * 7

abbrev pub ended_before : ℕ → Session → Bool
ended_before now session = ltb session.expires_at now

module _ (g : Gorm) where
  open g use {State, first, create, delete}

  unfoldable pub delete_expired_sessions : ℕ → Action State ℕ
  delete_expired_sessions now = delete Table.sessions (ended_before now)

  unfoldable pub delete_session : ℕ → Action State ℕ
  delete_session id = delete Table.sessions (has_id Table.sessions id)

  module _ (hash_token : String → String) where
    abbrev pub of_token : String → Session → Bool
    of_token token session = str_eq session.token_hash (hash_token token)

    unfoldable pub create_session : ℕ → ℕ → ℕ → Result String → Action State (Session × String)
    unfolding delete_expired_sessions
    create_session user swept_at now new_token = do
      delete_expired_sessions swept_at
      token ← lift new_token
      session ← create Table.sessions (record {
        id = 0;
        user_id = user;
        token_hash = hash_token token;
        expires_at = now + session_life;
      })
      pure (session, token)

    unfoldable pub get_session_by_token : String → State → Result Session
    get_session_by_token token = first Table.sessions (of_token token)

  module _ (hash_password : String → Result String) where
    unfoldable pub create_user_as : String → String → String → String → Action State User
    create_user_as email password name role = do
      password_hash ← lift (hash_password password)
      create Table.users (record {
        id = 0;
        email = email;
        password_hash = password_hash;
        name = name;
        role = role;
      })

    unfoldable pub create_user : String → String → String → Action State User
    unfolding create_user_as
    create_user email password name = create_user_as email password name role_user

    unfoldable pub create_admin : String → String → String → Action State User
    unfolding create_user_as
    create_admin email password name = create_user_as email password name role_admin

  abbrev pub has_email : String → User → Bool
  has_email email user = str_eq user.email email

  unfoldable pub get_user_by_email : String → State → Result User
  get_user_by_email email = first Table.users (has_email email)
