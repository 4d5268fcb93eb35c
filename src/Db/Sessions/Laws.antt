-- ===== src/Db/Sessions/Laws.antt =====
-- What opening a session does to the tables (`internal/db/sessions.go`).
use cotests.Prelude.{
  ℕ, ◌+◌, ◌≡◌, ◌≢◌, refl, sym, ap, ◌∙◌, subst, String, false, not, [], ◌∷◌, ◌++◌, keep,
}
use cotests.Outcome.{Result, ok, ok-injective}
use cotests.Outcome.Action.{lift, >>=-eq-ok, >>-eq-ok, same_state}
use cotests.Db.Models.{Session, Table}
use cotests.Db.Gorm.{Gorm, GormLaws, cascades}
use cotests.Db.Sessions.{session_life, ended_before, delete_expired_sessions, create_session}

no_cascade : (t : Table) → cascades Table.sessions t ≡ false
no_cascade t = refl

module _ (g : Gorm) (laws : GormLaws g) (hash_token : String → String) where
  open g use {State, rows, create, delete}

  -- The sessions that had ended are gone, the new one is there, and no other table changed.
  pub record Opened (user swept_at now : ℕ) (new_token : Result String) (session : Session)
      (token : String) (s s' : State) : Type 0 where
    pub drawn : new_token ≡ ok token
    pub owner : session.user_id ≡ user
    pub hashed : session.token_hash ≡ hash_token token
    pub lasting : session.expires_at ≡ now + session_life
    pub listed :
        rows Table.sessions s'
        ≡ keep (λ x. not (ended_before swept_at x)) (rows Table.sessions s) ++ session ∷ []
    pub elsewhere : (t : Table) → t ≢ Table.sessions → rows t s' ≡ rows t s

  pub create_session-Opened :
      (user swept_at now : ℕ) (new_token : Result String) (session : Session) (token : String)
      (s s' : State)
      → create_session g hash_token user swept_at now new_token s ≡ (ok (session, token), s')
      → Opened user swept_at now new_token session token s s'
  unfolding create_session delete_expired_sessions
  create_session-Opened user swept_at now new_token session token s s' h =
      let (n, s₁, swept, h₁) = >>-eq-ok (delete_expired_sessions g swept_at) _ s s' h in
      let (t, s₂, drawn, h₂) = >>=-eq-ok (lift new_token) _ s₁ s' h₁ in
      let (drawn', e₂) = same_state drawn in
      let (x, s₃, created, h₃) = >>=-eq-ok (create Table.sessions _) _ s₂ s' h₂ in
      let (shape, _, _, added, frame) = laws.create_ok Table.sessions _ x s₂ s₃ created in
      let (_, kept, spared) = laws.delete_ok Table.sessions (ended_before swept_at) n s s₁ swept in
      let (returned, e₃) = same_state h₃ in
      let opened : Opened user swept_at now new_token x t s s₃ = record {
        drawn = drawn';
        owner = ap (λ r. r.user_id) shape;
        hashed = ap (λ r. r.token_hash) shape;
        lasting = ap (λ r. r.expires_at) shape;
        listed = added ∙ ap (λ l. l ++ x ∷ []) (ap (rows Table.sessions) e₂ ∙ kept);
        elsewhere = λ u ne. frame u ne ∙ ap (rows u) e₂ ∙ spared u ne (no_cascade u);
      } in
      let opened' : Opened user swept_at now new_token session token s s₃ =
        subst (λ z. Opened user swept_at now new_token z.0 z.1 s s₃) (ok-injective returned)
          opened in
      subst (λ z. Opened user swept_at now new_token session token s z) (sym e₃) opened'
