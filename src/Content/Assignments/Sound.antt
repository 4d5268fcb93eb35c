-- ===== src/Content/Assignments/Sound.antt =====
-- Which assignments are made (`Assign` of `internal/content/service.go`).
use Prim.Native.String.{len}
use cotests.Prelude.{
  ℕ, ◌≤◌, ◌≡◌, refl, sym, ap, ◌∙◌, subst, false, not, ◌||◌, Option, [], ◌∷◌, ◌++◌, ltb, arith,
  eq_iff, is_empty, trim_space,
}
use cotests.Prelude.Int.{ℤ, pos, negsuc, is_negative}
use cotests.Outcome.{ok, conflict, guard, guard-eq-ok}
use cotests.Outcome.Action.{ask, lift, >>=-eq-ok, >>-eq-ok, same_state}
use cotests.Db.Models.{
  User, Series, Problem, ProblemRevision, SeriesProblem, Table, revision_published,
}
use cotests.Db.Gorm.{Gorm, GormLaws, SameElsewhere}
use cotests.Content.Access.{managed_series, revision}
use cotests.Content.Access.Spec.{Stored, Manages, ManagesProblem}
use cotests.Content.Access.Sound.{managed_series_sound, revision_sound}
use cotests.Content.Assignments.{is_published, completed, assign}

is_negative_natural : (z : ℤ) → is_negative z ≡ false → (n : ℕ) × (z ≡ pos n)
is_negative_natural (pos n) h = (n, refl)
is_negative_natural (negsuc n) h = cc

module _ (g : Gorm) (laws : GormLaws g) where
  open g use {State, rows, create}

  pub record Assigned (actor : Option User) (asked made : SeriesProblem) (s s' : State)
      : Type 0 where
    pub series : Series
    pub revision : ProblemRevision
    pub problem : Problem
    pub listed : Stored g Table.series asked.series_id series s
    pub organised : Manages g actor series.contest_id s
    pub revised : Stored g Table.revisions asked.published_revision_id revision s
    pub released : revision.state ≡ revision_published
    pub authored : ManagesProblem g actor revision.problem_id problem s
    pub same_problem : made.problem_id ≡ revision.problem_id
    pub same_place :
        (made.series_id ≡ asked.series_id)
        × (made.published_revision_id ≡ asked.published_revision_id)
        × (made.position ≡ asked.position)
    pub code_trimmed : made.code ≡ trim_space asked.code
    pub code_fits : (is_empty made.code ≡ false) × (len made.code ≤ 64)
    pub position_natural : (n : ℕ) × (made.position ≡ pos n)
    pub added : rows Table.series_problems s' ≡ rows Table.series_problems s ++ made ∷ []
    pub elsewhere : SameElsewhere g Table.series_problems s s'

  -- An assignment is made only by those who manage both the contest of the series and the problem,
  -- only of a published revision, whose problem it names, and with a code of 1 to 64 bytes and a
  -- position that is not negative; then it is the one row that is written.
  pub assign-Assigned :
      (actor : Option User) (asked made : SeriesProblem) (s s' : State)
      → assign g actor asked s ≡ (ok made, s')
      → Assigned actor asked made s s'
  unfolding assign completed
  assign-Assigned actor asked made s s' h =
      let (x, s₁, h_x, r₁) = >>-eq-ok (ask (managed_series g actor asked.series_id)) _ s s' h in
      let (managed, e₁) = same_state h_x in
      let (r, s₂, h_r, r₂) =
        >>=-eq-ok (ask (revision g actor asked.published_revision_id)) _ s₁ s' r₁ in
      let (found, e₂) = same_state h_r in
      let (_, s₃, h_p, r₃) = >>-eq-ok (lift (guard (is_published r) conflict)) _ s₂ s' r₂ in
      let (published, e₃) = same_state h_p in
      let (_, s₄, h_c, h_n) =
        >>-eq-ok
          (lift (
            guard
              (not (
                is_empty (completed g r asked).code
                || ltb 64 (len (completed g r asked).code)
                || is_negative asked.position))
              _))
          _ s₃ s' r₃ in
      let (fits, e₄) = same_state h_c in
      let ok_fits = guard-eq-ok _ _ fits in
      let start : s₄ ≡ s = e₄ ∙ e₃ ∙ e₂ ∙ e₁ in
      let (shape, _, _, added, frame) =
        laws.create_ok Table.series_problems (completed g r asked) made s s' (
          subst (λ z. create Table.series_problems (completed g r asked) z ≡ (ok made, s')) start
            h_n) in
      let (listed, organised) = managed_series_sound g laws actor asked.series_id s x managed in
      let (revised, (p, authored)) =
        revision_sound g laws actor asked.published_revision_id s r
          (subst (λ z. revision g actor asked.published_revision_id z ≡ ok r) e₁ found) in
      record {
        series = x;
        revision = r;
        problem = p;
        listed = listed;
        organised = organised;
        revised = revised;
        released = (eq_iff r.state revision_published).0 (guard-eq-ok _ _ published);
        authored = authored;
        same_problem = ap (λ z. z.problem_id) shape;
        same_place = (
          ap (λ z. z.series_id) shape,
          ap (λ z. z.published_revision_id) shape,
          ap (λ z. z.position) shape,
        );
        code_trimmed = ap (λ z. z.code) shape;
        code_fits =
            subst (λ c. (is_empty c ≡ false) × (len c ≤ 64)) (ap (λ z. z.code) (sym shape))
              (ground arith, ground arith);
        position_natural =
            subst (λ z. (n : ℕ) × (z ≡ pos n)) (ap (λ z. z.position) (sym shape))
              (is_negative_natural asked.position (ground arith));
        added = added;
        elsewhere = frame;
      }
