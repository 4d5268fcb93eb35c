-- ===== src/Server/Login.antt =====
-- `Register`, `Login` and `Logout` of `internal/server/handlers.go`, and the credentials that
-- `internal/auth/credentials.go` accepts. `to_lower` is strings.ToLower on all of Unicode,
-- `parse_address` the address that net/mail.ParseAddress finds, `hash_token` SHA-256, `hash_password`
-- and `check_password` are bcrypt, and `split_host` is net.SplitHostPort.
pub mod Entry
pub mod Laws
pub mod Registration
use cotests.Prelude.{
  ℕ, String, Bool, true, false, not, ◌||◌, Option, none, some, List, ltb, if◌then◌else◌, str_eq,
  trim_space,
}
use Prim.Native.String.{len}
use cotests.Outcome.{Error, Result, ok, err, duplicated_key, failure, ◌>>=◌}
use cotests.Db.Models.{User, Session}
use cotests.Db.Gorm.{Gorm}
use cotests.Db.Sessions.{
  create_user, create_session, get_user_by_email, get_session_by_token, delete_session,
}
use cotests.Server.RateLimit.{Attempts, allow_auth_attempt}

abbrev pub min_password_bytes : ℕ
min_password_bytes = 8

abbrev pub max_password_bytes : ℕ
max_password_bytes = 72

unfoldable pub validate_password : String → Result (Unit {0})
validate_password password =
    if ltb (len password) min_password_bytes || ltb max_password_bytes (len password)
    then err (failure "password must be between 8 and 72 UTF-8 bytes")
    else ok tt

-- What the browser is told: an error on the form, or where to go, with a session cookie or without.
pub data Reply : Type 0 where
  form_error : ℕ → String → Reply
  redirect : String → Reply
  signed_in : String → Reply

pub record Form : Type 0 where
  pub email : String
  pub password : String
  pub name : String

module _ (to_lower : String → String) (parse_address : String → Option String) where
  unfoldable pub normalize_email : String → Result String
  normalize_email value =
      let email = to_lower (trim_space value) in
      elim (parse_address email) [
        | none ↦ err (failure "enter a valid email address")
        | some address ↦
            if str_eq address email then ok email else err (failure "enter a valid email address")
      ]

  -- `readAuthForm`; no form is one that does not parse
  unfoldable pub read_auth_form : Option Form → Result Form
  read_auth_form none = err (failure "invalid form submission")
  read_auth_form (some form) = ok (record {
    email = to_lower (trim_space form.email);
    password = form.password;
    name = trim_space form.name;
  })

  unfoldable pub validate_credentials : String → String → Result (Unit {0})
  unfolding normalize_email validate_password
  validate_credentials email password = normalize_email email >>= λ _. validate_password password

abbrev pub message_of : Error → String
message_of (failure message) = message
message_of e = ""

-- The environment of a request: the address, three readings of the clock and the new token.
pub record Visit : Type 0 where
  pub remote_addr : String
  pub now : ℕ
  pub swept_at : ℕ
  pub created_at : ℕ
  pub new_token : Result String
  -- a place among the requests that may compute a password hash is free
  pub place_free : Bool

module _ (g : Gorm) (to_lower : String → String) (parse_address : String → Option String)
    (split_host : String → Option String) (hash_token : String → String)
    (hash_password : String → Result String) (check_password : String → String → Bool) where
  open g use {State}

  -- the handler's state: the limiter and the database
  abbrev pub Site : Type 0
  Site = Attempts × State

  -- what `CreateSession` leads to
  abbrev welcome : Reply → Result (Session × String) → Reply
  welcome failed (ok (session, token)) = signed_in token
  welcome failed (err e) = failed

  pub open_session : Reply → ℕ → Visit → State → Reply × State
  open_session failed user visit s =
      let (opened, s') =
        create_session g hash_token user visit.swept_at visit.created_at visit.new_token s in
      (welcome failed opened, s')

  -- how `Register` goes on from the answer of `CreateUser`
  unfoldable pub registered : Visit → Result User × State → Reply × State
  unfolding open_session
  registered visit (ok user, s) = open_session (redirect "/login") user.id visit s
  registered visit (err duplicated_key, s) = (form_error 409 "This email is already taken", s)
  registered visit (err e, s) = (form_error 500 "Registration failed. Please try again.", s)

  unfoldable pub register_user : Form → Visit → State → Reply × State
  unfolding registered
  register_user form visit s =
      registered visit (create_user g hash_password form.email form.password form.name s)

  unfoldable pub login_user : Form → Visit → State → Reply × State
  unfolding open_session
  login_user form visit s = elim (get_user_by_email g form.email s) [
    | err e ↦ (form_error 401 "Invalid email or password", s)
    | ok user ↦
        if check_password form.password user.password_hash
        then open_session (form_error 500 "Login failed. Please try again.") user.id visit s
        else (form_error 401 "Invalid email or password", s)
  ]

  -- the guards that `Register` and `Login` share; `refused` words a refusal of the credentials
  pub guarded :
      (Error → Reply)
      → (Form → Visit → State → Reply × State)
      → Option Form
      → Visit
      → Site
      → Reply × Site
  guarded refused work posted visit (attempts, s) =
      if not visit.place_free
      then (form_error 429 "Please wait before trying again.", (attempts, s))
      else elim (read_auth_form to_lower parse_address posted) [
        | err e ↦ (form_error 400 (message_of e), (attempts, s))
        | ok form ↦
            let (allowed, attempts') =
              allow_auth_attempt split_host to_lower visit.remote_addr form.email visit.now
                attempts in
            if not allowed
            then (form_error 429 "Please wait before trying again.", (attempts', s))
            else elim (validate_credentials to_lower parse_address form.email form.password) [
              | err e ↦ (refused e, (attempts', s))
              | ok _ ↦ let (reply, s') = work form visit s in (reply, (attempts', s'))
            ]
      ]

  unfoldable pub register : Option Form → Visit → Site → Reply × Site
  unfolding guarded register_user
  register = guarded (λ e. form_error 400 (message_of e)) register_user

  unfoldable pub login : Option Form → Visit → Site → Reply × Site
  unfolding guarded login_user
  login = guarded (λ e. form_error 400 "Invalid email or password") login_user

  -- `Logout`: the cookie goes whatever the database says
  unfoldable pub logout : Option String → State → Reply × State
  logout none s = (redirect "/", s)
  logout (some token) s = elim (get_session_by_token g hash_token token s) [
    | err e ↦ (redirect "/", s)
    | ok session ↦ (redirect "/", (delete_session g session.id s).1)
  ]
