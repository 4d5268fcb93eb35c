-- ===== src/Server/Identity/Login.antt =====
-- A session that was opened is recognised (`internal/db/sessions.go`, `internal/server/auth.go`).
use cotests.Prelude.{
  ℕ, ◌+◌, ◌≤◌, ◌≡◌, ◌≢◌, refl, sym, ap, ◌∙◌, subst, inl, inr, String, Bool, true, false, not, some,
  List, [], ◌∷◌, ◌++◌, ltb, is_empty, arith, Bool-cases, eq_iff, eq_refl, find?, In, keep, In-keep,
}
use cotests.Outcome.{Result, ok}
use cotests.Db.Models.{User, Session, Table, has_id}
use cotests.Db.Gorm.{Gorm, GormLaws, IsReliable}
use cotests.Db.Sessions.{of_token, session_life, ended_before, create_session, get_session_by_token}
use cotests.Db.Sessions.Laws.{create_session-Opened}
use cotests.Server.Identity.{session_user, cookie_user, get_user}

find?-append_new :
    {A : Type 0} (p : A → Bool) (l : List A) (x : A)
    → ((y : A) → In y l → p y ≡ false)
    → p x ≡ true
    → find? p (l ++ x ∷ []) ≡ some x
find?-append_new p [] x absent h = rw h
find?-append_new p (y ∷ l) x absent h =
    rw (absent y (inl refl)) (find?-append_new p l x (λ z m. absent z (inr m)) h)

module _ (g : Gorm) (laws : GormLaws g) (reliable : IsReliable g)
    (hash_token : String → String) where
  open g use {State, rows, first}

  -- The token of a session that was just opened is recognised as its user's until the session ends,
  -- with no change of the database, provided that reads of the database answer, the token is not
  -- empty, the user is stored and no other session has a token with that hash.
  pub create_session-get_user :
      (user : User) (swept_at now later : ℕ) (new_token : Result String) (session : Session)
      (token : String) (s s' : State)
      → create_session g hash_token user.id swept_at now new_token s ≡ (ok (session, token), s')
      → find? (has_id Table.users user.id) (rows Table.users s) ≡ some user
      → ((other : Session) → In other (rows Table.sessions s) → other.token_hash ≢ hash_token token)
      → is_empty token ≡ false
      → later ≤ now + session_life
      → get_user g hash_token (some token) later s' ≡ (some user, s')
  unfolding get_user cookie_user session_user get_session_by_token
  create_session-get_user user swept_at now later new_token session token s s' h stored unused given
        timely =
      let o =
        create_session-Opened g laws hash_token user.id swept_at now new_token session token s s'
          h in
      let mine : of_token g hash_token token session ≡ true =
        rw o.hashed (eq_refl (hash_token token)) in
      let absent : (other : Session)
          → In other (keep (λ x. not (ended_before swept_at x)) (rows Table.sessions s))
          → of_token g hash_token token other ≡ false =
        λ other m. elim (Bool-cases (of_token g hash_token token other)) [
          | inl t ↦ absurd (
              unused other (In-keep _ (rows Table.sessions s) m).1
                ((eq_iff other.token_hash (hash_token token)).0 t))
          | inr f ↦ f
        ] in
      let found = reliable.first_found Table.sessions (of_token g hash_token token) s' session (
        ap (find? (of_token g hash_token token)) o.listed
        ∙ find?-append_new (of_token g hash_token token) _ session absent mine) in
      let known = reliable.first_found Table.users (has_id Table.users session.user_id) s' user (
        ap (find? (has_id Table.users session.user_id)) (o.elsewhere Table.users (λ e. cc))
        ∙ subst (λ n. find? (has_id Table.users n) (rows Table.users s) ≡ some user) (sym o.owner)
            stored) in
      let current : ltb session.expires_at later ≡ false = rw o.lasting (ground arith) in
      rw (given, found, current, known)
