-- ===== src/Server/Login/Registration.antt =====
-- Who gets a session from `Register` of `internal/server/handlers.go`.
use cotests.Prelude.{
  ◌≤◌, ◌≡◌, refl, sym, ap, ◌∙◌, subst, String, Bool, Option, some, [], ◌∷◌, ◌++◌, trim_space, arith,
}
use Prim.Native.String.{len}
use cotests.Outcome.{Result, ok, err}
use cotests.Outcome.Action.{lift, >>=-eq-ok as action-eq-ok, same_state}
use cotests.Db.Models.{User, Session, Table}
use cotests.Db.Gorm.{Gorm, GormLaws, SameElsewhere}
use cotests.Db.Sessions.{create_user_as, create_user}
use cotests.Db.Sessions.Laws.{Opened}
use cotests.Server.RateLimit.{Attempts}
use cotests.Server.Login.{
  registered, Reply, form_error, redirect, signed_in, Form, Visit, message_of, register_user,
  register,
}
use cotests.Server.Login.Entry.{
  guarded-Entered, validate_credentials-len, posted_form_some, open_session-Opened,
}

module _ (g : Gorm) (laws : GormLaws g) (to_lower : String → String)
    (parse_address : String → Option String) (split_host : String → Option String)
    (hash_token : String → String) (hash_password : String → Result String)
    (check_password : String → String → Bool) where
  open g use {State, rows, first}

  abbrev registers : Form → Visit → State → Reply × State
  registers =
      register_user g to_lower parse_address split_host hash_token hash_password check_password

  -- The new row of a registration.
  pub record Registered (raw : Form) (user : User) (s s₁ : State) : Type 0 where
    pub plain : user.role ≡ "user"
    pub email : user.email ≡ to_lower (trim_space raw.email)
    pub hashed : hash_password raw.password ≡ ok user.password_hash
    pub sized : (8 ≤ len raw.password) × (len raw.password ≤ 72)
    pub added : rows Table.users s₁ ≡ rows Table.users s ++ user ∷ []
    pub elsewhere : SameElsewhere g Table.users s s₁

  create_user-row :
      (email password name : String) (user : User) (s s₁ : State)
      → create_user g hash_password email password name s ≡ (ok user, s₁)
      → (user.role ≡ "user")
        × (user.email ≡ email)
        × (hash_password password ≡ ok user.password_hash)
        × (rows Table.users s₁ ≡ rows Table.users s ++ user ∷ [])
        × SameElsewhere g Table.users s s₁
  unfolding create_user create_user_as
  create_user-row email password name user s s₁ h =
      let (p, s₂, hashed, made) = action-eq-ok (lift (hash_password password)) _ s s₁ h in
      let (e, same) = same_state hashed in
      let (shape, _, _, added, frame) = laws.create_ok Table.users _ user s₂ s₁ made in
      (
        ap (λ u. u.role) shape,
        ap (λ u. u.email) shape,
        e ∙ ap (λ u. ok u.password_hash) (sym shape),
        added ∙ ap (λ l. l ++ user ∷ []) (ap (rows Table.users) same),
        λ t ne. frame t ne ∙ ap (rows t) same,
      )

  register_user-row :
      (form : Form) (visit : Visit) (token : String) (s s' : State)
      → registers form visit s ≡ (signed_in token, s')
      → (user : User) × (s₁ : State) × (create_user g hash_password form.email form.password
            form.name s
          ≡ (ok user, s₁))
        × ((session : Session) × Opened g laws hash_token user.id visit.swept_at visit.created_at
              visit.new_token session token s₁ s')
  unfolding register_user registered
  register_user-row form visit token s s' h =
      go (create_user g hash_password form.email form.password form.name s) refl h
    where
      go :
          (r : Result User × State)
          → create_user g hash_password form.email form.password form.name s ≡ r
          → registered g to_lower parse_address split_host hash_token hash_password check_password
              visit r
            ≡ (signed_in token, s')
          → (user : User) × (s₁ : State) × (create_user g hash_password form.email form.password
                form.name s
              ≡ (ok user, s₁))
            × ((session : Session) × Opened g laws hash_token user.id visit.swept_at
                  visit.created_at visit.new_token session token s₁ s')
      go (ok user, s₁) made k = (
        user,
        s₁,
        made,
        open_session-Opened g laws to_lower parse_address split_host hash_token hash_password
            check_password (redirect "/login") user.id visit token s₁ s' (λ e. ground arith) k,
      )
      go (err e, s₁) made k = absurd (ground arith)

  -- A registration that succeeds stores one new user, never an administrator, under the email of the
  -- form in lower case and without spaces around it, with a hash of its password of 8 to 72 bytes;
  -- then a session for that user is opened, whose token is the new cookie.
  pub register-Registered :
      (posted : Option Form) (visit : Visit) (token : String) (attempts attempts' : Attempts)
      (s s' : State)
      → register g to_lower parse_address split_host hash_token hash_password check_password posted
          visit
          (attempts, s)
        ≡ (signed_in token, (attempts', s'))
      → (raw : Form) × (user : User) × (s₁ : State) × (posted ≡ some raw)
        × Registered raw user s s₁
        × ((session : Session) × Opened g laws hash_token user.id visit.swept_at visit.created_at
              visit.new_token session token s₁ s')
  unfolding register
  register-Registered posted visit token attempts attempts' s s' h =
      let entered =
        guarded-Entered g laws to_lower parse_address split_host hash_token hash_password
          check_password (λ e. form_error 400 (message_of e)) registers posted visit token attempts
          attempts' s s' (λ e k. ground arith) h in
      let (raw, given, email, password) =
        posted_form_some g laws to_lower parse_address split_host hash_token hash_password
          check_password posted entered.form entered.posted_form in
      let (user, s₁, made, opened) =
        register_user-row entered.form visit token s s' entered.worked in
      let (plain, mail, hashed, added, elsewhere) =
        create_user-row entered.form.email entered.form.password entered.form.name user s s₁ made in
      (
        raw,
        user,
        s₁,
        given,
        record {
          plain = plain;
          email = mail ∙ email;
          hashed = subst (λ p. hash_password p ≡ ok user.password_hash) password hashed;
          sized =
              subst (λ p. (8 ≤ len p) × (len p ≤ 72)) password
                (validate_credentials-len g laws to_lower parse_address split_host hash_token
                  hash_password check_password entered.form.email entered.form.password
                  entered.credible);
          added = added;
          elsewhere = elsewhere;
        },
        opened,
      )
