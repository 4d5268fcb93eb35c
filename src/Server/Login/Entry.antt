-- ===== src/Server/Login/Entry.antt =====
-- What a form has passed before `Login` and `Register` of `internal/server/handlers.go` act on it.
use cotests.Prelude.{
  ℕ, ◌≤◌, ◌≡◌, ◌≢◌, refl, sym, ap, ◌∙◌, ◌⊎◌, inl, inr, String, Bool, true, Option, none, some,
  trim_space, arith, Bool-cases,
}
use Prim.Native.String.{len}
use cotests.Outcome.{Error, Result, ok, err, >>=-eq-ok, ok-injective}
use cotests.Db.Models.{Session}
use cotests.Db.Gorm.{Gorm, GormLaws}
use cotests.Db.Sessions.{create_session}
use cotests.Db.Sessions.Laws.{Opened, create_session-Opened}
use cotests.Server.RateLimit.{Attempts, allow_auth_attempt}
use cotests.Server.Login.{
  Reply, signed_in, Form, Visit, validate_password, read_auth_form, validate_credentials,
  normalize_email, welcome, open_session, guarded,
}

pub Result-cases :
    {A : Type 0} (r : Result A) → ((a : A) × (r ≡ ok a)) ⊎ ((e : Error) × (r ≡ err e))
Result-cases (ok a) = inl (a, refl)
Result-cases (err e) = inr (e, refl)

validate_password-len :
    (password : String)
    → validate_password password ≡ ok tt
    → (8 ≤ len password) × (len password ≤ 72)
unfolding validate_password
validate_password-len password h = ground arith

module _ (g : Gorm) (laws : GormLaws g) (to_lower : String → String)
    (parse_address : String → Option String) (split_host : String → Option String)
    (hash_token : String → String) (hash_password : String → Result String)
    (check_password : String → String → Bool) where
  open g use {State, rows, first}

  abbrev pub guard_of :
      (Error → Reply)
      → (Form → Visit → State → Reply × State)
      → Option Form
      → Visit
      → Attempts × State
      → Reply × (Attempts × State)
  guard_of = guarded g to_lower parse_address split_host hash_token hash_password check_password

  -- What got a form past the guards.
  pub record Entered (work : Form → Visit → State → Reply × State) (posted : Option Form)
      (visit : Visit) (reply : Reply) (attempts : Attempts) (s s' : State) : Type 0 where
    pub form : Form
    pub posted_form : read_auth_form to_lower parse_address posted ≡ ok form
    pub in_budget :
        (allow_auth_attempt split_host to_lower visit.remote_addr form.email visit.now attempts).0
        ≡ true
    pub credible : validate_credentials to_lower parse_address form.email form.password ≡ ok tt
    pub worked : work form visit s ≡ (reply, s')

  pub guarded-Entered :
      (refused : Error → Reply) (work : Form → Visit → State → Reply × State) (posted : Option Form)
      (visit : Visit) (token : String) (attempts attempts' : Attempts) (s s' : State)
      → ((e : Error) → refused e ≢ signed_in token)
      → guard_of refused work posted visit (attempts, s) ≡ (signed_in token, (attempts', s'))
      → Entered work posted visit (signed_in token) attempts s s'
  unfolding guarded
  guarded-Entered refused work posted visit token attempts attempts' s s' never h =
      elim (Bool-cases visit.place_free) [
        | inr full ↦ let e = (rw (guarded, full) at h) in absurd (ground arith)
        | inl free ↦ elim (Result-cases (read_auth_form to_lower parse_address posted)) [
          | inr (e, bad) ↦ let k = (rw (guarded, free, bad) at h) in absurd (ground arith)
          | inl (form, good) ↦
              elim (Bool-cases
                (allow_auth_attempt split_host to_lower visit.remote_addr form.email visit.now
                  attempts).0) [
                    | inr spent ↦
                        let k = (rw (guarded, free, good, spent) at h) in absurd (ground arith)
                    | inl budget ↦
                        elim (Result-cases
                          (validate_credentials to_lower parse_address form.email form.password)) [
                            | inr (e, bad) ↦
                                let k = (rw (guarded, free, good, budget, bad) at h) in
                                absurd (never e (ap (λ z. z.0) k))
                            | inl (_, fine) ↦
                                let k = (rw (guarded, free, good, budget, fine) at h) in
                                record {
                                  form = form;
                                  posted_form = good;
                                  in_budget = budget;
                                  credible = fine;
                                  worked = ap (λ z. (z.0, z.1.1)) k;
                                }
                          ]
                  ]
        ]
      ]

  -- The password has 8 to 72 bytes.
  pub validate_credentials-len :
      (email password : String)
      → validate_credentials to_lower parse_address email password ≡ ok tt
      → (8 ≤ len password) × (len password ≤ 72)
  unfolding validate_credentials
  validate_credentials-len email password h =
      let (_, _, rest) = >>=-eq-ok (normalize_email to_lower parse_address email) _ h in
      validate_password-len password rest

  pub posted_form_some :
      (posted : Option Form) (form : Form)
      → read_auth_form to_lower parse_address posted ≡ ok form
      → (raw : Form) × (posted ≡ some raw)
        × (form.email ≡ to_lower (trim_space raw.email))
        × (form.password ≡ raw.password)
  unfolding read_auth_form
  posted_form_some none form h = cc
  posted_form_some (some raw) form h =
      let e = ok-injective h in (raw, refl, ap (λ f. f.email) (sym e), ap (λ f. f.password) (sym e))

  abbrev open_for : Reply → ℕ → Visit → State → Reply × State
  open_for =
      open_session g to_lower parse_address split_host hash_token hash_password check_password

  pub open_session-Opened :
      (failed : Reply) (user : ℕ) (visit : Visit) (token : String) (s s' : State)
      → failed ≢ signed_in token
      → open_for failed user visit s ≡ (signed_in token, s')
      → (session : Session) × Opened g laws hash_token user visit.swept_at visit.created_at
          visit.new_token session token s s'
  unfolding open_session
  open_session-Opened failed user visit token s s' never h =
      go (create_session g hash_token user visit.swept_at visit.created_at visit.new_token s) refl h
    where
      go :
          (r : Result (Session × String) × State)
          → create_session g hash_token user visit.swept_at visit.created_at visit.new_token s ≡ r
          → ◌≡◌ {A = Reply × State}
              (
                welcome g to_lower parse_address split_host hash_token hash_password check_password
                    failed r.0,
                r.1,
              )
              (signed_in token, s')
          → (session : Session) × Opened g laws hash_token user visit.swept_at visit.created_at
              visit.new_token session token s s'
      go (err e, s₁) same h = absurd (never (ap (λ z. z.0) h))
      go (ok (session, t), s₁) same h =
          let drawn : t ≡ token = ground arith in
          let done : s₁ ≡ s' = ap (λ z. z.1) h in
          (
            session,
            create_session-Opened g laws hash_token user visit.swept_at visit.created_at
                visit.new_token session token s s'
                (same
                  ∙ ap (λ z. (ok (session, z), s₁)) drawn
                  ∙ ap (λ z. (ok (session, token), z)) done),
          )
