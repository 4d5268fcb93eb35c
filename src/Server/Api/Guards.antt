-- ===== src/Server/Api/Guards.antt =====
-- What the guards of the handlers in `internal/server/api.go` keep from being written.
use cotests.Prelude.{
  ℕ, ◌≡◌, refl, sym, ap, ◌∙◌, subst, ◌⊎◌, inl, inr, Option, none, some, Bool-cases, eq_iff, str_eq,
}
use cotests.Outcome.{Result, ok, err, forbidden, guard-eq-ok, ok-injective}
use cotests.Outcome.Action.{
  Action, continue, pure, ask, lift, ◌>>=◌, ◌>>◌, >>=-eq-ok, >>-eq-ok, same_state,
}
use cotests.Db.Models.{User, Contest, Series, Table, has_id, role_admin, contest_published}
use cotests.Db.Gorm.{Gorm, GormLaws, Unchanged, Unchanged-refl}
use cotests.Db.Contests.{get_contest, is_public}
use cotests.Content.Access.{manage_contest, managed_series}
use cotests.Content.Access.Spec.{Stored, Manages}
use cotests.Content.Access.Sound.{manage_contest_sound, managed_series_sound}
use cotests.Content.Members.{set_member_with, set_member, remove_member}
use cotests.Content.Reorder.{reorder_series, reorder_problems}
use cotests.Content.Assignments.{assign, save_series}
use cotests.Server.Api.{
  api_admin, Call, contest_post, contest_put, contest_delete, member_put, member_delete,
  series_post, series_put, series_delete, series_order, problem_order, assignment_post,
  assignment_delete, void, assignment_model, manager, load_contest, serve,
}

-- A call that first looks at a value leaves the state alone, or got the value and went on.
lift_cases :
    {S A B : Type 0} (r : Result A) (k : A → Action S B) (x : Result B) (s s' : S)
    → (lift r >>= k) s ≡ (x, s')
    → (s' ≡ s) ⊎ ((a : A) × (r ≡ ok a) × (k a s ≡ (x, s')))
lift_cases (ok a) k x s s' h = inr (a, refl, h)
lift_cases (err e) k x s s' h = inl (sym (ap (λ z. z.1) h))

-- A handler that returns no value leaves the state that its call left.
void_state :
    {S A : Type 0} (m : Action S A) (x : Result (Unit {0})) (s s' : S)
    → void m s ≡ (x, s')
    → (y : Result A) × (m s ≡ (y, s'))
void_state {S} {A} m x s s' h = go (m s) h
  where
    go : (p : Result A × S) → continue p (λ _. pure tt) ≡ (x, s') → (y : Result A) × (p ≡ (y, s'))
    go (ok a, s₁) k = (ok a, ap (λ z. (ok a, z.1)) k)
    go (err e, s₁) k = (err e, ap (λ z. (err e, z.1)) k)

api_admin_sound :
    (actor : Option User)
    → api_admin actor ≡ ok tt
    → (u : User) × (actor ≡ some u) × (u.role ≡ role_admin)
unfolding api_admin
api_admin_sound none h = cc
api_admin_sound (some u) h =
    (u, refl, (eq_iff u.role role_admin).0 (guard-eq-ok (str_eq u.role role_admin) forbidden h))

module _ (g : Gorm) (laws : GormLaws g) (actor : Option User) where
  open g use {State}

  -- The route names a contest that the user manages.
  abbrev pub OfContest : Result ℕ → State → Type 0
  OfContest route s = (id : ℕ) × (route ≡ ok id) × Manages g actor id s

  -- The route names a stored series of a contest that the user manages.
  abbrev pub OfSeries : Result ℕ → State → Type 0
  OfSeries route s =
      (id : ℕ) × (x : Series) × (route ≡ ok id)
      × Stored g Table.series id x s
      × Manages g actor x.contest_id s

  abbrev pub IsAdministrator : Type 0
  IsAdministrator = (u : User) × (actor ≡ some u) × (u.role ≡ role_admin)

  -- Who may make which request.
  abbrev pub Allowed : Call → State → Type 0
  Allowed (contest_post body) s = IsAdministrator
  Allowed (contest_put route body) s = OfContest route s
  Allowed (contest_delete route) s = IsAdministrator
  Allowed (member_put route body) s = OfContest route s
  Allowed (member_delete route user) s = OfContest route s
  Allowed (series_post route body) s = OfContest route s
  Allowed (series_put route body) s = OfSeries route s
  Allowed (series_delete route) s = OfSeries route s
  Allowed (series_order route body) s = OfContest route s
  Allowed (problem_order route body) s = OfSeries route s
  Allowed (assignment_post route body) s = OfSeries route s
  Allowed (assignment_delete route assignment) s = OfSeries route s

  abbrev Guarded : Type 0 → State → State → Type 0
  Guarded Right s s' = Unchanged g s s' ⊎ Right

  -- A first step that must pass before anything is written.
  lift-Guarded :
      {A B : Type 0} (r : Result A) (k : A → Action State B) (Right : Type 0) (x : Result B)
      (s s' : State)
      → (lift r >>= k) s ≡ (x, s')
      → ((a : A) → r ≡ ok a → k a s ≡ (x, s') → Guarded Right s s')
      → Guarded Right s s'
  lift-Guarded r k Right x s s' h next = elim (lift_cases r k x s s' h) [
    | inl same ↦ inl (Unchanged-refl g same)
    | inr (a, e, rest) ↦ next a e rest
  ]

  manager-Guarded :
      (route : Result ℕ) (k : ℕ → Action State (Unit {0})) (x : Result (Unit {0})) (s s' : State)
      → (manager g actor route >>= k) s ≡ (x, s')
      → Guarded (OfContest route s) s s'
  unfolding manager
  manager-Guarded (err e) k x s s' h = inl (Unchanged-refl g (sym (ap (λ z. z.1) h)))
  manager-Guarded (ok id) k x s s' h = go (manage_contest g actor id s) refl h
    where
      go :
          (r : Result (Unit {0}))
          → manage_contest g actor id s ≡ r
          → (((lift r >> pure id) >>= k) s) ≡ (x, s')
          → Guarded (OfContest (ok id) s) s s'
      go (ok _) same h = inr (id, refl, manage_contest_sound g laws actor id s same)
      go (err e) same h = inl (Unchanged-refl g (sym (ap (λ z. z.1) h)))

  -- After the route, the contest of that number.
  contest-Guarded :
      {B : Type 0} (route : Result ℕ) (id : ℕ) (k : Unit {0} → Action State B) (x : Result B)
      (s s' : State)
      → route ≡ ok id
      → (ask (manage_contest g actor id) >>= k) s ≡ (x, s')
      → Guarded (OfContest route s) s s'
  contest-Guarded route id k x s s' e h =
      lift-Guarded (manage_contest g actor id s) k (OfContest route s) x s s' h
        (λ u managed _. inr (id, e, manage_contest_sound g laws actor id s managed))

  series-Guarded :
      {B : Type 0} (route : Result ℕ) (id : ℕ) (k : Series → Action State B) (x : Result B)
      (s s' : State)
      → route ≡ ok id
      → (ask (managed_series g actor id) >>= k) s ≡ (x, s')
      → Guarded (OfSeries route s) s s'
  series-Guarded route id k x s s' e h =
      lift-Guarded (managed_series g actor id s) k (OfSeries route s) x s s' h (λ y managed _.
        let (stored, may) = managed_series_sound g laws actor id s y managed in
        inr (id, y, e, stored, may))

  -- None of the twelve requests to the JSON interface that create, change, delete or order contests,
  -- members of contests, series and assignments of problems changes the database unless its user may
  -- make it: an administrator for creating and deleting contests, and otherwise one who manages the
  -- contest, or the contest of the stored series, that the route names.
  pub serve-Allowed :
      (call : Call) (x : Result (Unit {0})) (s s' : State)
      → serve g actor call s ≡ (x, s')
      → Unchanged g s s' ⊎ Allowed call s
  unfolding serve set_member remove_member set_member_with reorder_series reorder_problems assign
      save_series
  serve-Allowed (contest_post body) x s s' h =
      lift-Guarded (api_admin actor) _ _ x s s' h (λ _ e _. inr (api_admin_sound actor e))
  serve-Allowed (contest_put route body) x s s' h = manager-Guarded route _ x s s' h
  serve-Allowed (contest_delete route) x s s' h =
      lift-Guarded (api_admin actor) _ _ x s s' h (λ _ e _. inr (api_admin_sound actor e))
  serve-Allowed (member_put route body) x s s' h = lift-Guarded route _ _ x s s' h (λ id e h₁.
      lift-Guarded body _ _ x s s' h₁ (λ i _ h₂. contest-Guarded route id _ x s s' e h₂))
  serve-Allowed (member_delete route user) x s s' h = lift-Guarded route _ _ x s s' h (λ id e h₁.
      lift-Guarded user _ _ x s s' h₁ (λ i _ h₂. contest-Guarded route id _ x s s' e h₂))
  serve-Allowed (series_post route body) x s s' h = lift-Guarded route _ _ x s s' h (λ id e h₁.
      lift-Guarded body _ _ x s s' h₁ (λ i _ h₂. contest-Guarded route id _ x s s' e h₂))
  serve-Allowed (series_put route body) x s s' h =
      lift-Guarded route _ _ x s s' h (λ id e h₁. series-Guarded route id _ x s s' e h₁)
  serve-Allowed (series_delete route) x s s' h =
      lift-Guarded route _ _ x s s' h (λ id e h₁. series-Guarded route id _ x s s' e h₁)
  serve-Allowed (series_order route body) x s s' h = lift-Guarded route _ _ x s s' h (λ id e h₁.
      lift-Guarded body _ _ x s s' h₁ (λ i _ h₂. contest-Guarded route id _ x s s' e h₂))
  serve-Allowed (problem_order route body) x s s' h =
      lift-Guarded route _ _ x s s' h (λ id e h₁.
        lift-Guarded body _ _ x s s' h₁ (λ i _ h₂. series-Guarded route id _ x s s' e h₂))
  serve-Allowed (assignment_post route body) x s s' h = lift-Guarded route _ _ x s s' h (λ id e h₁.
      lift-Guarded body _ _ x s s' h₁ (λ i _ h₂.
        let (y, made) = void_state (assign g actor (assignment_model id i)) x s s' h₂ in
        series-Guarded route id _ y s s' e made))
  serve-Allowed (assignment_delete route assignment) x s s' h =
      lift-Guarded route _ _ x s s' h (λ id e h₁. series-Guarded route id _ x s s' e h₁)

  -- A contest that is shown is the stored one; it is published or the user manages it.
  pub load_contest_sound :
      (route : Result ℕ) (c : Contest) (s s' : State)
      → load_contest g actor route s ≡ (ok c, s')
      → (s' ≡ s)
        × ((id : ℕ) × (route ≡ ok id)
            × Stored g Table.contests id c s
            × ((c.visibility ≡ contest_published) ⊎ Manages g actor id s))
  unfolding load_contest get_contest
  load_contest_sound route c s s' h =
      let (id, s₁, named, h₁) = >>=-eq-ok (lift route) _ s s' h in
      let (e, e₁) = same_state named in
      let (item, s₂, read, h₂) = >>=-eq-ok (ask (get_contest g id)) _ s₁ s' h₁ in
      let (found, e₂) = same_state read in
      let stored : Stored g Table.contests id item s =
        laws.first_ok Table.contests (has_id Table.contests id) s item
          (subst (λ z. get_contest g id z ≡ ok item) e₁ found) in
      elim (Bool-cases (is_public item)) [
        | inl public ↦
            let k = (rw public at h₂) in
            let (same, e₃) = same_state k in
            (
              e₃ ∙ e₂ ∙ e₁,
              (
                id,
                e,
                subst (λ z. Stored g Table.contests id z s) (ok-injective same) stored,
                inl (
                    subst (λ z. z.visibility ≡ contest_published) (ok-injective same)
                      ((eq_iff item.visibility contest_published).0 public)),
              ),
            )
        | inr hidden ↦
            let k = (rw hidden at h₂) in
            let (_, s₃, managed, done) =
              >>-eq-ok (ask (manage_contest g actor id)) (pure item) s₂ s' k in
            let (may, e₃) = same_state managed in
            let (same, e₄) = same_state done in
            (
              e₄ ∙ e₃ ∙ e₂ ∙ e₁,
              (
                id,
                e,
                subst (λ z. Stored g Table.contests id z s) (ok-injective same) stored,
                inr (
                    manage_contest_sound g laws actor id s
                      (subst (λ z. manage_contest g actor id z ≡ ok tt) (e₂ ∙ e₁) may)),
              ),
            )
      ]
