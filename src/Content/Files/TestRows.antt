-- ===== src/Content/Files/TestRows.antt =====
-- The rows of tests that `SaveTest` and `DeleteTest` of `internal/content/files.go` change or delete
-- are those of a draft.
use cotests.Prelude.{
  ℕ, ◌≡◌, ◌≢◌, refl, sym, ap, ◌∙◌, subst, inl, inr, Bool, true, not, List, [], ◌∷◌, In, find?, keep,
  In-keep, map_where, arith, if◌then◌else◌, Bool-cases,
}
use cotests.Outcome.{ok}
use cotests.Outcome.Action.{with_error, >>=-eq-ok, >>-eq-ok, same_state, with_error-eq-ok}
use cotests.Db.Models.{TestCase, Table, has_id}
use cotests.Db.Gorm.{Gorm, GormLaws}
use cotests.Db.Revisions.{of_revision, lock_draft}
use cotests.Db.Revisions.Rows.{UniqueIds, by_id}
use cotests.Db.Revisions.Frozen.{HasDraft, HasDraft-ne, lock_draft_sound}
use cotests.Db.Revisions.TestKeys.{UniqueTests}
use cotests.Artifact.Directory.{Disk}
use cotests.Content.Assignments.{conflict_draft}
use cotests.Content.Files.{test_of, delete_test_transaction}
use cotests.Content.Files.Freezing.{
  Freezes, Freezes-trans, Apart-of, Freezes-of_Apart, HasDraft-Apart,
}

keep-map_where :
    (id k : ℕ) (p : TestCase → Bool) (f : TestCase → TestCase) (l : List TestCase)
    → ((t : TestCase) → In t l → p t ≡ true → t.problem_revision_id ≡ k)
    → ((t : TestCase) → (f t).problem_revision_id ≡ t.problem_revision_id)
    → id ≢ k
    → keep (of_revision id) (map_where p f l) ≡ keep (of_revision id) l
keep-map_where id k p f [] h same ne = refl
keep-map_where id k p f (t ∷ l) h same ne = elim (Bool-cases (p t)) [
  | inl hit ↦
      let at_k = h t (inl refl) hit in
      ground (arith, same t, keep-map_where id k p f l (λ u i. h u (inr i)) same ne)
  | inr miss ↦ ground (arith, keep-map_where id k p f l (λ u i. h u (inr i)) same ne)
]

keep-keep :
    (id k : ℕ) (p : TestCase → Bool) (l : List TestCase)
    → ((t : TestCase) → p t ≡ true → t.problem_revision_id ≡ k)
    → id ≢ k
    → keep (of_revision id) (keep (λ t. not (p t)) l) ≡ keep (of_revision id) l
keep-keep id k p [] h ne = refl
keep-keep id k p (t ∷ l) h ne = elim (Bool-cases (p t)) [
  | inl hit ↦ let at_k = h t hit in ground (arith, keep-keep id k p l h ne)
  | inr miss ↦ ground (arith, keep-keep id k p l h ne)
]

In-map_where :
    (p : TestCase → Bool) (f : TestCase → TestCase) (l : List TestCase) (t : TestCase)
    → In t (map_where p f l)
    → (u : TestCase) × In u l × (t ≡ (if p u then f u else u))
In-map_where p f [] t m = absurd m
In-map_where p f (x ∷ l) t (inl e) = (x, inl refl, e)
In-map_where p f (x ∷ l) t (inr m) = let (u, i, e) = In-map_where p f l t m in (u, inr i, e)

UniqueTests-map_where :
    (p : TestCase → Bool) (f : TestCase → TestCase) (l : List TestCase)
    → ((t : TestCase) → (f t).id ≡ t.id)
    → UniqueTests l
    → UniqueTests (map_where p f l)
UniqueTests-map_where p f l same unique t u i j e =
    let (t₀, i₀, et) = In-map_where p f l t i in
    let (u₀, j₀, eu) = In-map_where p f l u j in
    let ids : (x : TestCase) → (if p x then f x else x).id ≡ x.id = λ x. ground (arith, same x) in
    let e₀ : t₀.id ≡ u₀.id =
      sym (ids t₀) ∙ ap (λ x. x.id) (sym et) ∙ e ∙ ap (λ x. x.id) eu ∙ ids u₀ in
    et ∙ ap (λ x. if p x then f x else x) (unique t₀ u₀ i₀ j₀ e₀) ∙ sym eu

module _ (d : Disk) (g : Gorm) (laws : GormLaws g) where
  open g use {State, rows, first, create, update, delete}

  -- A test of a draft is changed.
  pub update_test-Freezes :
      (k n : ℕ) (f : TestCase → TestCase) (t : TestCase) (s s' : State)
      → HasDraft g k s
      → In t (rows Table.test_cases s)
      → t.problem_revision_id ≡ k
      → ((u : TestCase) → ((f u).id ≡ u.id) × ((f u).problem_revision_id ≡ u.problem_revision_id))
      → update Table.test_cases (has_id Table.test_cases t.id) f s ≡ (ok n, s')
      → Freezes g s s'
  update_test-Freezes k n f t s s' draft there at_k same h u v =
      let (_, changed, frame) =
        laws.update_ok Table.test_cases (has_id Table.test_cases t.id) f n s s' h
          (λ r p. (same r).0) in
      let revisions = frame Table.revisions (λ e. cc) in
      let belongs : (q : TestCase)
          → In q (rows Table.test_cases s)
          → has_id Table.test_cases t.id q ≡ true
          → q.problem_revision_id ≡ k =
        λ q i e. ap (λ z. z.problem_revision_id) (v q t i there (ground arith)) ∙ at_k in
      (
        λ id r stored pub_state. (
          ap (find? (by_id id)) revisions ∙ stored,
          ap (keep (of_revision id)) changed
              ∙ keep-map_where id k (has_id Table.test_cases t.id) f (rows Table.test_cases s)
                  belongs (λ q. (same q).1) (HasDraft-ne g k id r s draft u stored pub_state),
        ),
        subst UniqueIds (sym revisions) u,
        subst UniqueTests (sym changed) (
            UniqueTests-map_where (has_id Table.test_cases t.id) f (rows Table.test_cases s)
              (λ q. (same q).0) v),
      )

  delete_ok-Freezes :
      (k test_id n : ℕ) (s s' : State)
      → HasDraft g k s
      → delete Table.test_cases (test_of test_id k) s ≡ (ok n, s')
      → Freezes g s s'
  delete_ok-Freezes k test_id n s s' draft h u v =
      let (_, left, frame) = laws.delete_ok Table.test_cases (test_of test_id k) n s s' h in
      let revisions = frame Table.revisions (λ e. cc) refl in
      (
        λ id r stored pub_state. (
          ap (find? (by_id id)) revisions ∙ stored,
          ap (keep (of_revision id)) left
              ∙ keep-keep id k (test_of test_id k) (rows Table.test_cases s) (λ t e. ground arith)
                  (HasDraft-ne g k id r s draft u stored pub_state),
        ),
        subst UniqueIds (sym revisions) u,
        subst UniqueTests (sym left) (λ t q i j.
            v t q (In-keep (λ z. not (test_of test_id k z)) (rows Table.test_cases s) i).1
              (In-keep (λ z. not (test_of test_id k z)) (rows Table.test_cases s) j).1),
      )

  pub delete_test_transaction-Freezes :
      (k test_id : ℕ) (a : Unit {0}) (s s' : State)
      → delete_test_transaction d g k test_id s ≡ (ok a, s')
      → Freezes g s s'
  unfolding delete_test_transaction
  delete_test_transaction-Freezes k test_id a s s' h =
      let (_, s₁, locking, h₁) = >>-eq-ok (with_error conflict_draft (lock_draft g k)) _ s s' h in
      let lock = with_error-eq-ok conflict_draft (lock_draft g k) tt s s₁ locking in
      let (kept, draft) = lock_draft_sound g laws k s s₁ lock in
      let apart = Apart-of g s s₁ kept in
      let (n, s₂, deleted, done) =
        >>=-eq-ok (delete Table.test_cases (test_of test_id k)) _ s₁ s' h₁ in
      let same = (same_state done).1 in
      subst (Freezes g s) (sym same) (
        Freezes-trans g s s₁ s₂ (Freezes-of_Apart g s s₁ apart)
          (delete_ok-Freezes k test_id n s₁ s₂ (HasDraft-Apart g k s s₁ apart draft) deleted))
