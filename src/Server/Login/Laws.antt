-- ===== src/Server/Login/Laws.antt =====
-- Who gets a session from `Login` of `internal/server/handlers.go`.
use cotests.Prelude.{
  ◌≤◌, ◌≡◌, subst, inl, inr, String, Bool, true, Option, some, trim_space, arith, Bool-cases, find?,
}
use Prim.Native.String.{len}
use cotests.Outcome.{Result}
use cotests.Db.Models.{User, Session, Table}
use cotests.Db.Gorm.{Gorm, GormLaws}
use cotests.Db.Sessions.{has_email, get_user_by_email}
use cotests.Db.Sessions.Laws.{Opened}
use cotests.Server.RateLimit.{Attempts}
use cotests.Server.Login.{Reply, form_error, signed_in, Form, Visit, login_user, login}
use cotests.Server.Login.Entry.{
  Result-cases, guarded-Entered, validate_credentials-len, posted_form_some, open_session-Opened,
}

module _ (g : Gorm) (laws : GormLaws g) (to_lower : String → String)
    (parse_address : String → Option String) (split_host : String → Option String)
    (hash_token : String → String) (hash_password : String → Result String)
    (check_password : String → String → Bool) where
  open g use {State, rows, first}

  -- The stored user of a form, whose password it has.
  pub record Authenticated (raw : Form) (user : User) (s : State) : Type 0 where
    pub known :
        find? (has_email g (to_lower (trim_space raw.email))) (rows Table.users s) ≡ some user
    pub matches : check_password raw.password user.password_hash ≡ true
    pub sized : (8 ≤ len raw.password) × (len raw.password ≤ 72)

  login_user-Authenticated :
      (form : Form) (visit : Visit) (token : String) (s s' : State)
      → login_user g to_lower parse_address split_host hash_token hash_password check_password form
          visit s
        ≡ (signed_in token, s')
      → (user : User) × (find? (has_email g form.email) (rows Table.users s) ≡ some user)
        × (check_password form.password user.password_hash ≡ true)
        × ((session : Session) × Opened g laws hash_token user.id visit.swept_at visit.created_at
              visit.new_token session token s s')
  unfolding login_user get_user_by_email
  login_user-Authenticated form visit token s s' h =
      elim (Result-cases (get_user_by_email g form.email s)) [
        | inr (e, missing) ↦ let k = (rw (login_user, missing) at h) in absurd (ground arith)
        | inl (user, found) ↦ elim (Bool-cases (check_password form.password user.password_hash)) [
          | inr wrong ↦ let k = (rw (login_user, found, wrong) at h) in absurd (ground arith)
          | inl right ↦ (
            user,
            laws.first_ok Table.users (has_email g form.email) s user found,
            right,
            open_session-Opened g laws to_lower parse_address split_host hash_token hash_password
                check_password (form_error 500 "Login failed. Please try again.") user.id visit
                token s s' (λ e. ground arith) (rw (login_user, found, right) at h),
          )
        ]
      ]

  abbrev logs_in : Form → Visit → State → Reply × State
  logs_in = login_user g to_lower parse_address split_host hash_token hash_password check_password

  -- A login that succeeds has named the email of a stored user, in any case and with spaces around
  -- it, with a password of 8 to 72 bytes that matches the stored hash; it has opened a session for
  -- that user, whose token is the new cookie.
  pub login-Authenticated :
      (posted : Option Form) (visit : Visit) (token : String) (attempts attempts' : Attempts)
      (s s' : State)
      → login g to_lower parse_address split_host hash_token hash_password check_password posted
          visit
          (attempts, s)
        ≡ (signed_in token, (attempts', s'))
      → (raw : Form) × (user : User) × (posted ≡ some raw)
        × Authenticated raw user s
        × ((session : Session) × Opened g laws hash_token user.id visit.swept_at visit.created_at
              visit.new_token session token s s')
  unfolding login
  login-Authenticated posted visit token attempts attempts' s s' h =
      let entered =
        guarded-Entered g laws to_lower parse_address split_host hash_token hash_password
          check_password (λ e. form_error 400 "Invalid email or password") logs_in posted visit
          token attempts attempts' s s' (λ e k. ground arith) h in
      let (raw, given, email, password) =
        posted_form_some g laws to_lower parse_address split_host hash_token hash_password
          check_password posted entered.form entered.posted_form in
      let (user, known, right, opened) =
        login_user-Authenticated entered.form visit token s s' entered.worked in
      (
        raw,
        user,
        given,
        record {
          known = subst (λ m. find? (has_email g m) (rows Table.users s) ≡ some user) email known;
          matches = subst (λ p. check_password p user.password_hash ≡ true) password right;
          sized =
              subst (λ p. (8 ≤ len p) × (len p ≤ 72)) password
                (validate_credentials-len g laws to_lower parse_address split_host hash_token
                  hash_password check_password entered.form.email entered.form.password
                  entered.credible);
        },
        opened,
      )
