-- ===== src/Content/Members/Laws.antt =====
-- What a grant or a revocation does to the members, and who may make it.
use cotests.Prelude.{
  ℕ, ◌≡◌, ◌≢◌, refl, ap, sym, subst, ◌∙◌, ◌⊎◌, inl, inr, String, Bool, true, false, ◌&&◌, ◌||◌,
  Option, none, some, arith, Bool-cases, Option-cases, eq_iff, str_eq, ◌==◌, if◌then◌else◌, find?,
}
use mathlib.Core.Option
use cotests.Outcome.{Error, Result, ok, err, forbidden, validation, guard, guard-eq-ok}
use cotests.Outcome.Action.{
  pure, ask, lift, >>=-eq-ok, >>-eq-ok, >>-eq-err, same_state, same_state_err,
}
use cotests.Db.Models.{User, ContestMembership, Table, has_id}
use cotests.Db.Gorm.{Gorm, GormLaws, SameElsewhere, Unchanged, Unchanged-refl, lock_row}
use cotests.Content.Access.{is_member, manage_contest}
use cotests.Content.Access.Spec.{Manages}
use cotests.Content.Access.Sound.{manage_contest_sound}
use cotests.Content.Members.{
  admin, existing_role, may_grant, write_member, member_transaction, set_member_with, role_in,
}
use cotests.Content.Members.Rows.{
  role_of, updated, role_of-map_where, role_of-keep, role_of-append, some_injective,
  existing_role_cases, known_cases,
}

module _ (g : Gorm) (laws : GormLaws g) where
  open g use {State, rows, first, update, upsert, delete, transaction}

  -- What a call on the members leaves as it was, and whom it changes.
  abbrev Sets : ℕ → ℕ → Option String → State → State → Type 0
  Sets c u new s s' =
      SameElsewhere g Table.memberships s s'
      × ((c' u' : ℕ) → role_in g c' u' s' ≡ updated c u c' u' new (role_in g c' u' s))

  abbrev outcome : String → Bool → Option String
  outcome role true = none
  outcome role false = some role

  write_member-Sets :
      (c u : ℕ) (role : String) (remove : Bool) (s s' : State)
      → write_member g c u role remove s ≡ (ok tt, s')
      → Sets c u (outcome role remove) s s'
  unfolding write_member
  write_member-Sets c u role true s s' h =
      let (n, s₁, e, k) = >>-eq-ok (delete Table.memberships (is_member c u)) (pure tt) s s' h in
      let same = (same_state k).1 in
      let (_, kept, frame) = laws.delete_ok Table.memberships (is_member c u) n s s₁ e in
      rw same (
        λ t ne. frame t ne refl,
        λ c' u'. ap (role_of c' u') kept ∙ role_of-keep c u c' u' (rows Table.memberships s),
      )
  write_member-Sets c u role false s s' h =
      let member : ContestMembership = record {
        id = 0;
        contest_id = c;
        user_id = u;
        role = role;
      } in
      let f : ContestMembership → ContestMembership = λ m. record m { role = role } in
      let (r', s₁, e, k) =
        >>-eq-ok (upsert Table.memberships (is_member c u) f member) (pure tt) s s' h in
      let same = (same_state k).1 in
      rw same (elim (Option-cases (find? (is_member c u) (rows Table.memberships s))) [
        | inl new ↦
            let (shape, _, _, added, frame) =
              laws.upsert_new Table.memberships (is_member c u) f member r' s s₁ e new in
            (
              frame,
              λ c' u'.
                  ap (role_of c' u') added
                  ∙ role_of-append c u c' u' r' (rows Table.memberships s)
                      (ap (λ m. m.contest_id) shape) (ap (λ m. m.user_id) shape) new
                  ∙ ap (λ o. updated c u c' u' (some o) (role_in g c' u' s))
                      (ap (λ m. m.role) shape),
            )
        | inr (q, old) ↦
            let (changed, frame) =
              laws.upsert_old Table.memberships (is_member c u) f member r' q s s₁ e old in
            (
              frame,
              λ c' u'.
                  ap (role_of c' u') changed
                  ∙ role_of-map_where c u c' u' role (rows Table.memberships s) old,
            )
      ])

  existing_role-role_in :
      (c u : ℕ) (x : String) (s : State)
      → existing_role (first Table.memberships (is_member c u) s) ≡ ok x
      → (role_in g c u s ≡ some x) ⊎ (role_in g c u s ≡ none)
  existing_role-role_in c u x s h =
      elim (existing_role_cases (first Table.memberships (is_member c u) s) x h) [
        | inl (m, found, role) ↦ inl (
            ap (Option.map (λ q. q.role))
              (laws.first_ok Table.memberships (is_member c u) s m found)
            ∙ ap some role)
        | inr missing ↦ inr (
            ap (Option.map (λ q. q.role))
              (laws.first_not_found Table.memberships (is_member c u) s missing))
      ]

  Sets-after :
      (c u : ℕ) (new : Option String) (s s₁ s' : State)
      → Unchanged g s s₁
      → Sets c u new s₁ s'
      → Sets c u new s s'
  Sets-after c u new s s₁ s' same (frame, roles) = (
    λ t ne. frame t ne ∙ same t,
    λ c' u'.
        roles c' u' ∙ ap (λ l. updated c u c' u' new (role_of c' u' l)) (same Table.memberships),
  )

  -- Only administrators hand out the organizer role or touch the row of an organizer.
  abbrev Authorised : Option User → ℕ → ℕ → String → State → Type 0
  Authorised actor c u role s =
      (admin actor ≡ true) ⊎ ((role ≢ "organizer") × (role_in g c u s ≢ some "organizer"))

  may_grant-Authorised :
      (actor : Option User) (c u : ℕ) (role x : String) (s : State)
      → may_grant actor role x ≡ true
      → (role_in g c u s ≡ some x) ⊎ (role_in g c u s ≡ none)
      → Authorised actor c u role s
  may_grant-Authorised actor c u role x s passed held = elim (Bool-cases (admin actor)) [
    | inl administrator ↦ inl administrator
    | inr common ↦ inr (
      λ e. ground (arith, eq_iff role "organizer"),
      λ e. elim held [
        | inl there ↦
            let k : x ≡ "organizer" = some_injective (sym there ∙ e) in
            ground (arith, eq_iff x "organizer")
        | inr nothing ↦ cc
      ],
    )
  ]

  member_transaction-Sets :
      (actor : Option User) (c u : ℕ) (role : String) (remove : Bool) (s s' : State)
      → member_transaction g actor c u role remove s ≡ (ok tt, s')
      → Sets c u (outcome role remove) s s' × Authorised actor c u role s
  unfolding member_transaction
  member_transaction-Sets actor c u role remove s s' h =
      let (n, s₁, lock, h₁) =
        >>-eq-ok (update Table.contests (has_id Table.contests c) (λ x. record x { id = c })) _ s s'
          h in
      let locked = lock_row g laws Table.contests c n s s₁ lock in
      let (x, s₂, looked, h₂) =
        >>=-eq-ok (ask (λ z. existing_role (first Table.memberships (is_member c u) z))) _ s₁ s'
          h₁ in
      let (held, e₂) = same_state looked in
      let (_, s₃, passed, h₃) =
        >>-eq-ok (lift (guard (may_grant actor role x) forbidden)) _ s₂ s' h₂ in
      let (granted, e₃) = same_state passed in
      let (user, s₄, found, h₄) =
        >>-eq-ok (ask (first Table.users (has_id Table.users u))) _ s₃ s' h₃ in
      let (_, e₄) = same_state found in
      let e : s₄ ≡ s₁ = e₄ ∙ e₃ ∙ e₂ in
      let same : role_in g c u s₁ ≡ role_in g c u s = ap (role_of c u) (locked Table.memberships) in
      (
        Sets-after c u (outcome role remove) s s₁ s' locked
            (write_member-Sets c u role remove s₁ s' (rw e at h₄)),
        may_grant-Authorised actor c u role x s
            (guard-eq-ok (may_grant actor role x) forbidden granted)
            (subst (λ o. (o ≡ some x) ⊎ (o ≡ none)) same (existing_role-role_in c u x s₁ held)),
      )

  abbrev known_role : String → Bool → Result (Unit {0})
  known_role role remove =
      guard (str_eq role "organizer" || str_eq role "participant" || remove)
        (validation "invalid membership role")

  set_member_with_steps :
      (actor : Option User) (c u : ℕ) (role : String) (remove : Bool) (s s' : State)
      → set_member_with g actor c u role remove s ≡ (ok tt, s')
      → (manage_contest g actor c s ≡ ok tt)
        × (known_role role remove ≡ ok tt)
        × (member_transaction g actor c u role remove s ≡ (ok tt, s'))
  unfolding set_member_with
  set_member_with_steps actor c u role remove s s' h =
      let (_, s₁, passed, h₁) = >>-eq-ok (ask (manage_contest g actor c)) _ s s' h in
      let (managed, e₁) = same_state passed in
      let (_, s₂, known, h₂) = >>-eq-ok (lift (known_role role remove)) _ s₁ s' h₁ in
      let (valid, e₂) = same_state known in
      (
        managed,
        valid,
        laws.transaction_ok (member_transaction g actor c u role remove) tt s s'
            (rw (e₂ ∙ e₁) at h₂),
      )

  -- A change of a membership that succeeds sets the role of that user in that contest (removes it,
  -- if the member is removed), and leaves every other role and every other table as it was.
  pub set_member_with-Sets :
      (actor : Option User) (c u : ℕ) (role : String) (remove : Bool) (s s' : State)
      → set_member_with g actor c u role remove s ≡ (ok tt, s')
      → SameElsewhere g Table.memberships s s'
        × ((c' u' : ℕ)
            → role_in g c' u' s'
              ≡ (if c' == c && u' == u then outcome role remove else role_in g c' u' s))
  unfolding set_member_with
  set_member_with-Sets actor c u role remove s s' h =
      let (managed, known, done) = set_member_with_steps actor c u role remove s s' h in
      (member_transaction-Sets actor c u role remove s s' done).0

  -- Only managers of the contest change its members, only administrators hand out the organizer
  -- role or change the row of an organizer, and only the two known roles are handed out.
  pub set_member_with-Authorised :
      (actor : Option User) (c u : ℕ) (role : String) (remove : Bool) (s s' : State)
      → set_member_with g actor c u role remove s ≡ (ok tt, s')
      → Manages g actor c s
        × ((admin actor ≡ true) ⊎ ((role ≢ "organizer") × (role_in g c u s ≢ some "organizer")))
        × ((role ≡ "organizer") ⊎ (role ≡ "participant") ⊎ (remove ≡ true))
  set_member_with-Authorised actor c u role remove s s' h =
      let (managed, known, done) = set_member_with_steps actor c u role remove s s' h in
      let valid =
        guard-eq-ok (str_eq role "organizer" || str_eq role "participant" || remove)
          (validation "invalid membership role") known in
      (
        manage_contest_sound g laws actor c s managed,
        (member_transaction-Sets actor c u role remove s s' done).1,
        known_cases role remove valid,
      )

  -- A change of a membership that fails, at whatever step, leaves every table as it was.
  pub set_member_with-Unchanged :
      (actor : Option User) (c u : ℕ) (role : String) (remove : Bool) (e : Error) (s s' : State)
      → set_member_with g actor c u role remove s ≡ (err e, s')
      → Unchanged g s s'
  unfolding set_member_with
  set_member_with-Unchanged actor c u role remove e s s' h =
      elim (>>-eq-err (ask (manage_contest g actor c)) _ e s s' h) [
        | inl refused ↦ Unchanged-refl g (same_state_err refused)
        | inr (_, s₁, passed, h₁) ↦
            let e₁ = (same_state passed).1 in
            elim (>>-eq-err (lift (known_role role remove)) _ e s₁ s' h₁) [
              | inl invalid ↦ Unchanged-refl g (same_state_err invalid ∙ e₁)
              | inr (_, s₂, known, h₂) ↦
                  let e₂ = (same_state known).1 in
                  laws.transaction_err (member_transaction g actor c u role remove) e s s'
                    (rw (e₂ ∙ e₁) at h₂)
            ]
      ]
