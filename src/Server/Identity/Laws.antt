-- ===== src/Server/Identity/Laws.antt =====
-- Who is recognised by a session cookie (`internal/server/auth.go`, `internal/db/sessions.go`).
use cotests.Prelude.{
  ℕ, ◌≤◌, ◌≡◌, refl, sym, ap, subst, inl, inr, ◌↔◌, String, Bool, true, false, Option, none, some,
  List, [], ◌∷◌, ltb, if◌then◌else◌, str_eq, is_empty, any, arith, Bool-cases, eq_iff, eq_refl,
  find?, find?-some, In,
}
use cotests.Outcome.{Result, ok, err}
use cotests.Db.Models.{User, Session, Table, has_id}
use cotests.Db.Gorm.{Gorm, GormLaws}
use cotests.Db.Sessions.{of_token, get_session_by_token}
use cotests.Server.Identity.{
  opened, answered, user_of, require_role, plays, session_user, cookie_user, get_user,
}

pub any_iff :
    {A : Type 0} (p : A → Bool) (l : List A) → (any p l ≡ true) ↔ ((a : A) × In a l × (p a ≡ true))
any_iff p [] = (λ h. cc, λ h. absurd h.1)
any_iff p (x ∷ l) = (
  λ h. elim (Bool-cases (p x)) [
    | inl t ↦ (x, inl refl, t)
    | inr f ↦ let r = (any_iff p l).0 (ground arith) in (r.0, inr r.1, r.2)
  ],
  λ (a, m, t). elim m [
    | inl e ↦ rw (subst (λ z. p z ≡ true) e t)
    | inr j ↦ let r = (any_iff p l).1 (a, j, t) in ground (arith, r)
  ],
)

all_idle : (roles : List String) → any (plays none) roles ≡ false
all_idle [] = refl
all_idle (role ∷ roles) = all_idle roles

opened-eq :
    (b : Bool) (code : ℕ) (message : String)
    → (if b then opened else answered code message) ≡ opened
    → b ≡ true
opened-eq b code message h = ground arith

-- `RequireRole` opens a page exactly to the users with one of the roles.
require_role_iff :
    (roles : List String) (actor : Option User)
    → (require_role roles actor ≡ opened)
      ↔ ((user : User) × (actor ≡ some user) × In user.role roles)
unfolding require_role
require_role_iff roles none = (
  λ h. let e = opened-eq (any (plays none) roles) _ _ h in absurd (ground (arith, all_idle roles)),
  λ h. cc,
)
require_role_iff roles (some user) = (
  λ h.
      let (role, m, e) =
        (any_iff (plays (some user)) roles).0 (opened-eq (any (plays (some user)) roles) _ _ h) in
      (user, refl, subst (λ r. In r roles) (sym ((eq_iff user.role role).0 e)) m),
  λ (u, same, m).
      let e : user ≡ u = ground arith in
      rw (
        (any_iff (plays (some user)) roles).1
          (u.role, m, subst (λ v. str_eq v.role u.role ≡ true) (sym e) (eq_refl u.role))),
)

module _ (g : Gorm) (laws : GormLaws g) (hash_token : String → String) where
  open g use {State, rows, first, create, delete}

  -- The user is stored, and so is a session of theirs with this token that has not ended.
  pub record Recognised (token : String) (now : ℕ) (user : User) (s : State) : Type 0 where
    pub session : Session
    pub held : In session (rows Table.sessions s)
    pub hashed : session.token_hash ≡ hash_token token
    pub current : now ≤ session.expires_at
    pub known : find? (has_id Table.users session.user_id) (rows Table.users s) ≡ some user

  user_of-eq-some :
      (r : Result User) (user : User) → user_of g hash_token r ≡ some user → r ≡ ok user
  user_of-eq-some (ok v) user h = ground arith
  user_of-eq-some (err e) user h = cc

  session_user-Recognised :
      (token : String) (now : ℕ) (found : Result Session) (user : User) (s s' : State)
      → get_session_by_token g hash_token token s ≡ found
      → session_user g hash_token now found s ≡ (some user, s')
      → (s' ≡ s) × Recognised token now user s
  unfolding get_session_by_token session_user
  session_user-Recognised token now (err e) user s s' f h = absurd (ground arith)
  session_user-Recognised token now (ok session) user s s' f h =
      elim (Bool-cases (ltb session.expires_at now)) [
        | inl late ↦ absurd (ground arith)
        | inr current ↦
            let e = (rw (session_user, current) at h) in
            let loaded = user_of-eq-some _ user (ap (λ x. x.0) e) in
            let (hashed, held) =
              find?-some (of_token g hash_token token) (rows Table.sessions s)
                (laws.first_ok Table.sessions (of_token g hash_token token) s session f) in
            (
              sym (ap (λ x. x.1) e),
              record {
                session = session;
                held = held;
                hashed = (eq_iff session.token_hash (hash_token token)).0 hashed;
                current = ground arith;
                known =
                    laws.first_ok Table.users (has_id Table.users session.user_id) s user loaded;
              },
            )
      ]

  -- A request has a user only through a cookie whose token belongs to a stored session that has not
  -- ended, and finding out changes nothing.
  pub get_user-Recognised :
      (cookie : Option String) (now : ℕ) (user : User) (s s' : State)
      → get_user g hash_token cookie now s ≡ (some user, s')
      → (s' ≡ s) × ((token : String) × (cookie ≡ some token) × Recognised token now user s)
  unfolding get_user cookie_user
  get_user-Recognised none now user s s' h = absurd (ground arith)
  get_user-Recognised (some token) now user s s' h = elim (Bool-cases (is_empty token)) [
    | inl empty ↦ let e = (rw (get_user, empty) at h) in absurd (ground arith)
    | inr given ↦
        let (same, r) =
          session_user-Recognised token now (get_session_by_token g hash_token token s) user s s'
            refl (rw (get_user, given) at h) in
        (same, (token, refl, r))
  ]
