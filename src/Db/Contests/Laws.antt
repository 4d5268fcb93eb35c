-- ===== src/Db/Contests/Laws.antt =====
-- The tables of contests and series hold valid rows only, whatever `internal/db/contests.go` is
-- asked to write.
use cotests.Prelude.{
  ℕ, ◌≡◌, refl, sym, ap, ◌∙◌, subst, inl, inr, Bool, true, not, ◌&&◌, List, [], ◌∷◌, ◌++◌, arith,
  Bool-cases, ◌==◌, map_where, In,
}
use cotests.Outcome.{Result, ok, err, guard, not_found}
use cotests.Outcome.Action.{Action, lift, continue, ◌>>=◌}
use cotests.Db.Models.{Contest, Series, Table, Row, has_id}
use cotests.Db.Gorm.{Gorm, GormLaws, Unchanged}
use cotests.Db.Validate.{validate_contest, validate_series}
use cotests.Db.Validate.Contests.{
  IsValidContest, IsValidSeries, validate_contest_iff, validate_series_iff,
}
use cotests.Db.Contests.{
  edited_contest, edited_series, of_contest, affected, create_contest, update_contest,
  delete_contest, create_series, update_series, delete_series,
}

-- What validation returns is valid.
validate_contest-IsValidContest : (c c' : Contest) → validate_contest c ≡ ok c' → IsValidContest c'
validate_contest-IsValidContest c c' h = ((validate_contest_iff c c').0 h).1

validate_series-IsValidSeries : (x x' : Series) → validate_series x ≡ ok x' → IsValidSeries x'
validate_series-IsValidSeries x x' h = ((validate_series_iff x x').0 h).1

edited_contest-IsValidContest :
    (c stored : Contest) → IsValidContest c → IsValidContest (edited_contest c stored)
edited_contest-IsValidContest c stored v = record {
  title_given = v.title_given;
  title_fits = v.title_fits;
  description_fits = v.description_fits;
  visibility_known = v.visibility_known;
  in_order = v.in_order;
}

edited_series-IsValidSeries :
    (x stored : Series)
    → IsValidSeries x
    → x.contest_id ≡ stored.contest_id
    → IsValidSeries (edited_series x stored)
edited_series-IsValidSeries x stored v e = record {
  contest_given = λ z. v.contest_given (e ∙ z);
  title_given = v.title_given;
  title_fits = v.title_fits;
  position_natural = v.position_natural;
  in_order = v.in_order;
}

module _ {A : Type 0} (Good : A → Type 0) where
  -- Every row is good.
  abbrev pub Every : List A → Type 0
  Every l = (a : A) → In a l → Good a

  Every-append : (l : List A) (x : A) → Every l → Good x → Every (l ++ x ∷ [])
  Every-append [] x all good a (inl e) = subst Good (sym e) good
  Every-append [] x all good a (inr m) = absurd m
  Every-append (y ∷ l) x all good a (inl e) = all a (inl e)
  Every-append (y ∷ l) x all good a (inr m) = Every-append l x (λ b j. all b (inr j)) good a m

  Every-map_where :
      (p : A → Bool) (f : A → A) (l : List A)
      → Every l
      → ((a : A) → p a ≡ true → Good (f a))
      → Every (map_where p f l)
  Every-map_where p f [] all good a m = absurd m
  Every-map_where p f (x ∷ l) all good a (inr m) =
      Every-map_where p f l (λ b j. all b (inr j)) good a m
  Every-map_where p f (x ∷ l) all good a (inl e) = elim (Bool-cases (p x)) [
    | inl t ↦ subst Good (sym (rw t at e)) (good x t)
    | inr n ↦ subst Good (sym (rw n at e)) (all x (inl refl))
  ]

module _ (g : Gorm) (laws : GormLaws g) where
  open g use {State, rows, create, update, delete}

  pub record WellFormed (s : State) : Type 0 where
    pub contests : Every IsValidContest (rows Table.contests s)
    pub series : Every IsValidSeries (rows Table.series s)

  -- The writes of the file, each returning or failing.
  pub data Write (s s' : State) : Type 0 where
    contest_created :
        (c : Contest) (x : Result Contest) → create_contest g c s ≡ (x, s') → Write s s'
    contest_updated :
        (c : Contest) (x : Result (Unit {0})) → update_contest g c s ≡ (x, s') → Write s s'
    contest_deleted :
        (id : ℕ) (x : Result (Unit {0})) → delete_contest g id s ≡ (x, s') → Write s s'
    series_created : (c : Series) (x : Result Series) → create_series g c s ≡ (x, s') → Write s s'
    series_updated :
        (c : Series) (x : Result (Unit {0})) → update_series g c s ≡ (x, s') → Write s s'
    series_deleted : (id : ℕ) (x : Result (Unit {0})) → delete_series g id s ≡ (x, s') → Write s s'

  -- However the call ends, well-formed tables stay well formed.
  abbrev Keeps : {A : Type 0} → Action State A → Type 0
  Keeps {A} m = (x : Result A) (s s' : State) → m s ≡ (x, s') → WellFormed s → WellFormed s'

  Unchanged-WellFormed : (s s' : State) → Unchanged g s s' → WellFormed s → WellFormed s'
  Unchanged-WellFormed s s' u w = record {
    contests = subst (Every IsValidContest) (sym (u Table.contests)) w.contests;
    series = subst (Every IsValidSeries) (sym (u Table.series)) w.series;
  }

  lift-Keeps :
      {A B : Type 0} (r : Result A) (k : A → Action State B)
      → ((a : A) → r ≡ ok a → Keeps (k a))
      → Keeps (lift r >>= k)
  lift-Keeps (ok a) k keeps x s s' h w = keeps a refl x s s' h w
  lift-Keeps (err e) k keeps x s s' h w = subst WellFormed (ap (λ z. z.1) h) w

  affected_end : (n : ℕ) → Keeps (lift {S = State} (guard (not (n == 0)) not_found))
  affected_end n x s s' h w = subst WellFormed (ap (λ z. z.1) h) w

  continue-Keeps :
      {A B : Type 0} (y : Result A × State) (k : A → Action State B)
      → ((a : A) → Keeps (k a))
      → WellFormed y.1
      → (x : Result B) (s' : State) → continue y k ≡ (x, s')
      → WellFormed s'
  continue-Keeps (ok a, s₁) k keeps w x s' h = keeps a x s₁ s' h w
  continue-Keeps (err e, s₁) k keeps w x s' h = subst WellFormed (ap (λ z. z.1) h) w

  affected-Keeps : (m : Action State ℕ) → Keeps m → Keeps (affected g m)
  affected-Keeps m keeps x s s' h w =
      continue-Keeps (m s) _ affected_end (keeps (m s).0 s (m s).1 refl w) x s' h

  delete-Keeps : (t : Table) (p : Row t → Bool) → Keeps (delete t p)
  delete-Keeps t p (err e) s s' h w = Unchanged-WellFormed s s' (laws.delete_err t p e s s' h) w
  delete-Keeps t p (ok n) s s' h w = record {
    contests = λ c m. w.contests c (laws.delete_shrinks t p n s s' h Table.contests c m);
    series = λ c m. w.series c (laws.delete_shrinks t p n s s' h Table.series c m);
  }

  contest-Keeps : (c : Contest) → IsValidContest c → Keeps (create Table.contests c)
  contest-Keeps c v (err e) s s' h w =
      Unchanged-WellFormed s s' (laws.create_err Table.contests c e s s' h) w
  contest-Keeps c v (ok c') s s' h w =
      let (shape, _, _, added, frame) = laws.create_ok Table.contests c c' s s' h in
      record {
        contests = subst (Every IsValidContest) (sym added) (
            Every-append IsValidContest (rows Table.contests s) c' w.contests (
              subst IsValidContest (sym shape)
                (edited_contest-IsValidContest c (record c { id = c'.id }) v)));
        series = subst (Every IsValidSeries) (sym (frame Table.series (λ e. cc))) w.series;
      }

  series-Keeps : (x : Series) → IsValidSeries x → Keeps (create Table.series x)
  series-Keeps x v (err e) s s' h w =
      Unchanged-WellFormed s s' (laws.create_err Table.series x e s s' h) w
  series-Keeps x v (ok x') s s' h w =
      let (shape, _, _, added, frame) = laws.create_ok Table.series x x' s s' h in
      record {
        contests = subst (Every IsValidContest) (sym (frame Table.contests (λ e. cc))) w.contests;
        series = subst (Every IsValidSeries) (sym added) (
            Every-append IsValidSeries (rows Table.series s) x' w.series (
              subst IsValidSeries (sym shape)
                (edited_series-IsValidSeries x (record x { id = x'.id }) v refl)));
      }

  contest_edit-Keeps :
      (c : Contest)
      → IsValidContest c
      → Keeps (update Table.contests (has_id Table.contests c.id) (edited_contest c))
  contest_edit-Keeps c v (err e) s s' h w =
      Unchanged-WellFormed s s' (laws.update_err Table.contests _ _ e s s' h) w
  contest_edit-Keeps c v (ok n) s s' h w =
      let (_, changed, frame) =
        laws.update_ok Table.contests (has_id Table.contests c.id) (edited_contest c) n s s' h
          (λ r p. refl) in
      record {
        contests = subst (Every IsValidContest) (sym changed) (
            Every-map_where IsValidContest (has_id Table.contests c.id) (edited_contest c)
              (rows Table.contests s) w.contests (λ a p. edited_contest-IsValidContest c a v));
        series = subst (Every IsValidSeries) (sym (frame Table.series (λ e. cc))) w.series;
      }

  series_edit-Keeps :
      (x : Series)
      → IsValidSeries x
      → Keeps (
          update Table.series
            (λ r. has_id Table.series x.id r && of_contest x.contest_id r)
            (edited_series x))
  series_edit-Keeps x v (err e) s s' h w =
      Unchanged-WellFormed s s' (laws.update_err Table.series _ _ e s s' h) w
  series_edit-Keeps x v (ok n) s s' h w =
      let p = λ (r : Series). has_id Table.series x.id r && of_contest x.contest_id r in
      let (_, changed, frame) =
        laws.update_ok Table.series p (edited_series x) n s s' h (λ r q. refl) in
      record {
        contests = subst (Every IsValidContest) (sym (frame Table.contests (λ e. cc))) w.contests;
        series = subst (Every IsValidSeries) (sym changed) (
            Every-map_where IsValidSeries p (edited_series x) (rows Table.series s) w.series
              (λ a q. edited_series-IsValidSeries x a v (ground arith)));
      }

  -- Every write of contests and series, whether it returns or fails, leaves tables whose rows are all
  -- valid with rows that are all valid.
  pub Write-WellFormed : (s s' : State) → Write s s' → WellFormed s → WellFormed s'
  unfolding create_contest update_contest delete_contest create_series update_series delete_series
  Write-WellFormed s s' (contest_created c x h) w =
      lift-Keeps (validate_contest c) (create Table.contests)
        (λ c' e. contest-Keeps c' (validate_contest-IsValidContest c c' e)) x s s' h w
  Write-WellFormed s s' (contest_updated c x h) w =
      lift-Keeps (guard (not (c.id == 0)) not_found) _
        (λ u _. lift-Keeps (validate_contest c) _ (λ c' e.
          affected-Keeps _ (contest_edit-Keeps c' (validate_contest-IsValidContest c c' e))))
        x s s' h w
  Write-WellFormed s s' (contest_deleted id x h) w =
      affected-Keeps _ (delete-Keeps Table.contests (has_id Table.contests id)) x s s' h w
  Write-WellFormed s s' (series_created c x h) w =
      lift-Keeps (validate_series c) (create Table.series)
        (λ c' e. series-Keeps c' (validate_series-IsValidSeries c c' e)) x s s' h w
  Write-WellFormed s s' (series_updated c x h) w =
      lift-Keeps (guard (not (c.id == 0)) not_found) _
        (λ u _.
          lift-Keeps (validate_series c) _ (λ c' e.
            affected-Keeps _ (series_edit-Keeps c' (validate_series-IsValidSeries c c' e))))
        x s s' h w
  Write-WellFormed s s' (series_deleted id x h) w =
      affected-Keeps _ (delete-Keeps Table.series (has_id Table.series id)) x s s' h w
