-- ===== src/Content/Reorder/Orders.antt =====
-- `ReorderSeries` and `ReorderProblems` of `internal/content/service.go`.
use cotests.Prelude.{ℕ, ◌≡◌, refl, List, Option}
use cotests.Outcome.{Error, ok, err}
use cotests.Outcome.Action.{ask, >>-eq-ok, >>-eq-err, same_state, same_state_err}
use cotests.Prelude.{subst, inl, inr}
use cotests.Db.Models.{User, Series, Table}
use cotests.Db.Gorm.{Gorm, GormLaws, Unchanged, Unchanged-refl}
use cotests.Content.Access.{manage_contest, managed_series}
use cotests.Content.Access.Spec.{Stored, Manages}
use cotests.Content.Access.Sound.{manage_contest_sound, managed_series_sound}
use cotests.Content.Reorder.{reorder_transaction, reorder, reorder_series, reorder_problems}
use cotests.Content.Reorder.Loops.{HasPosition}
use cotests.Content.Reorder.Laws.{Reordered, reorder-Reordered}

abbrev pub series_columns :
    HasPosition Table.series
      (λ r. r.contest_id)
      (λ r. r.position)
      (λ k r. record r { position = k })
series_columns = record {
  id_kept = λ k r. refl;
  parent_kept = λ k r. refl;
  placed = λ k r. refl;
  overwritten = λ k j r. refl;
}

abbrev pub assignment_columns :
    HasPosition Table.series_problems
      (λ r. r.series_id)
      (λ r. r.position)
      (λ k r. record r { position = k })
assignment_columns = record {
  id_kept = λ k r. refl;
  parent_kept = λ k r. refl;
  placed = λ k r. refl;
  overwritten = λ k j r. refl;
}

module _ (g : Gorm) (laws : GormLaws g) where
  open g use {State, transaction}

  abbrev pub SeriesReordered : ℕ → List ℕ → State → State → Type 0
  SeriesReordered = Reordered g laws Table.series Table.contests _ _ _ series_columns

  abbrev pub AssignmentsReordered : ℕ → List ℕ → State → State → Type 0
  AssignmentsReordered =
      Reordered g laws Table.series_problems Table.series _ _ _ assignment_columns

  -- Managers of a contest reorder its series: the identifiers named are exactly those of the
  -- series of the contest, each once, the i-th series named gets position i, and nothing else of
  -- any row changes.
  pub reorder_series-Reordered :
      (actor : Option User) (contest : ℕ) (ids : List ℕ) (s s' : State)
      → reorder_series g actor contest ids s ≡ (ok tt, s')
      → Manages g actor contest s × SeriesReordered contest ids s s'
  unfolding reorder_series
  reorder_series-Reordered actor contest ids s s' h =
      let (_, s₁, check, h₁) = >>-eq-ok (ask (manage_contest g actor contest)) _ s s' h in
      let (managed, e) = same_state check in
      let go =
        reorder g Table.series Table.contests (λ r. r.contest_id) (λ r. r.position)
          (λ k r. record r { position = k }) contest ids in
      (
        manage_contest_sound g laws actor contest s managed,
        reorder-Reordered g laws Table.series Table.contests _ _ _ series_columns contest ids s s'
            (subst (λ z. go z ≡ (ok tt, s')) e h₁),
      )

  -- Managers of the contest of a stored series reorder its assignments: the identifiers named are
  -- exactly those of its assignments, each once, the i-th one named gets position i, and nothing
  -- else of any row changes.
  pub reorder_problems-Reordered :
      (actor : Option User) (series_id : ℕ) (ids : List ℕ) (s s' : State)
      → reorder_problems g actor series_id ids s ≡ (ok tt, s')
      → ((x : Series) × Stored g Table.series series_id x s × Manages g actor x.contest_id s)
        × AssignmentsReordered series_id ids s s'
  unfolding reorder_problems
  reorder_problems-Reordered actor series_id ids s s' h =
      let (x, s₁, check, h₁) = >>-eq-ok (ask (managed_series g actor series_id)) _ s s' h in
      let (managed, e) = same_state check in
      let (stored, rule) = managed_series_sound g laws actor series_id s x managed in
      let go =
        reorder g Table.series_problems Table.series (λ r. r.series_id) (λ r. r.position)
          (λ k r. record r { position = k }) series_id ids in
      (
        (x, stored, rule),
        reorder-Reordered g laws Table.series_problems Table.series _ _ _ assignment_columns
            series_id ids s s' (subst (λ z. go z ≡ (ok tt, s')) e h₁),
      )

  -- A new order of series that is refused, at any point, changes nothing.
  pub reorder_series-Unchanged :
      (actor : Option User) (contest : ℕ) (ids : List ℕ) (e : Error) (s s' : State)
      → reorder_series g actor contest ids s ≡ (err e, s')
      → Unchanged g s s'
  unfolding reorder_series reorder
  reorder_series-Unchanged actor contest ids e s s' h =
      let m =
        reorder_transaction g Table.series Table.contests (λ r. r.contest_id) (λ r. r.position)
          (λ k r. record r { position = k }) contest ids in
      elim (>>-eq-err (ask (manage_contest g actor contest)) _ e s s' h) [
        | inl refused ↦ Unchanged-refl g (same_state_err refused)
        | inr (_, s₁, check, h₁) ↦
            laws.transaction_err m e s s'
              (subst (λ z. transaction m z ≡ (err e, s')) (same_state check).1 h₁)
      ]
