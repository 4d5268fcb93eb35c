-- ===== src/Db/Revisions/Frozen.antt =====
-- Published revisions are immutable: what each statement of the revision workflows in
-- `internal/db/problems.go` leaves of them.
use cotests.Prelude.{
  ℕ, ◌≡◌, ◌≢◌, refl, ap, sym, subst, ◌∙◌, String, some, List, [], ◌∷◌, arith, eq_iff, ◌==◌, find?,
  keep, map_where, count_where-pos, In, find?-some,
}
use cotests.Outcome.{ok, not_draft, guard-eq-ok}
use cotests.Outcome.Action.{>>=-eq-ok, >>-eq-ok, same_state}
use cotests.Db.Models.{ProblemRevision, TestCase, Table, revision_draft, revision_published}
use cotests.Db.Gorm.{Gorm, GormLaws, Unchanged, Unchanged-of}
use cotests.Db.Revisions.{is_draft, of_revision, lock_draft, copy_tests, clone_test}
use cotests.Db.Revisions.Rows.{
  UniqueIds, by_id, find?-map_where_ne, UniqueIds-map_where, UniqueIds-append, find?-append_some,
  keep-append_none,
}

module _ (g : Gorm) where
  open g use {State, rows, update, create}

  abbrev pub revisions_of : State → List ProblemRevision
  revisions_of s = rows Table.revisions s

  abbrev pub tests_of : ℕ → State → List TestCase
  tests_of id s = keep (of_revision id) (rows Table.test_cases s)

  -- Every published revision is still there with the same columns and the same tests.
  abbrev pub Frozen : State → State → Type 0
  Frozen s s' =
      (id : ℕ) (r : ProblemRevision)
      → find? (by_id id) (revisions_of s) ≡ some r
      → r.state ≡ revision_published
      → (find? (by_id id) (revisions_of s') ≡ some r) × (tests_of id s' ≡ tests_of id s)

  -- A step that freezes the published revisions and keeps the primary keys apart.
  abbrev pub Safe : State → State → Type 0
  Safe s s' = UniqueIds (revisions_of s) → Frozen s s' × UniqueIds (revisions_of s')

  pub Safe-trans : (s s₁ s' : State) → Safe s s₁ → Safe s₁ s' → Safe s s'
  Safe-trans s s₁ s' h k u =
      let (frozen, u₁) = h u in
      let (frozen', u') = k u₁ in
      (
        λ id r stored pub_state.
            let (stored₁, tests₁) = frozen id r stored pub_state in
            let (stored', tests') = frozen' id r stored₁ pub_state in (stored', tests' ∙ tests₁),
        u',
      )

  pub Safe-of_same :
      (s s' : State)
      → revisions_of s' ≡ revisions_of s
      → rows Table.test_cases s' ≡ rows Table.test_cases s
      → Safe s s'
  Safe-of_same s s' r t u = (
    λ id q stored pub_state. (ap (find? (by_id id)) r ∙ stored, ap (keep (of_revision id)) t),
    subst UniqueIds (sym r) u,
  )

  pub Safe-of_Unchanged : (s s' : State) → Unchanged g s s' → Safe s s'
  Safe-of_Unchanged s s' h = Safe-of_same s s' (h Table.revisions) (h Table.test_cases)

  -- A draft is stored under the key.
  abbrev pub HasDraft : ℕ → State → Type 0
  HasDraft id s =
      (r : ProblemRevision) × In r (revisions_of s) × (r.id ≡ id) × (r.state ≡ revision_draft)

  draft-ne-published : revision_draft ≢ revision_published
  draft-ne-published = ground (arith, eq_iff revision_draft revision_published)

  draft_not_published : (x : String) → x ≡ revision_draft → x ≡ revision_published → ⊥
  draft_not_published x d p = draft-ne-published (sym d ∙ p)

  -- Where a draft is stored, no published revision is.
  pub HasDraft-ne :
      (k id : ℕ) (r : ProblemRevision) (s : State)
      → HasDraft k s
      → UniqueIds (revisions_of s)
      → find? (by_id id) (revisions_of s) ≡ some r
      → r.state ≡ revision_published
      → id ≢ k
  HasDraft-ne k id r s (d, i, e, draft) u stored pub_state same =
      let (key, j) = find?-some (by_id id) (revisions_of s) stored in
      let k₁ : r.id ≡ id = ground arith in
      let is_r : d ≡ r = u d r i j (e ∙ sym same ∙ sym k₁) in
      draft_not_published r.state (ap (λ x. x.state) (sym is_r) ∙ draft) pub_state

  module _ (laws : GormLaws g) where
    relabel_drafts :
        (id : ℕ) (l : List ProblemRevision)
        → map_where (is_draft id) (λ r. record r { state = revision_draft }) l ≡ l
    relabel_drafts id [] = refl
    relabel_drafts id (r ∷ l) = ground (arith, relabel_drafts id l, eq_iff r.state revision_draft)

    -- `LockDraft` passes only where a draft is stored, and changes no row.
    pub lock_draft_sound :
        (id : ℕ) (s s' : State) → lock_draft g id s ≡ (ok tt, s') → Unchanged g s s' × HasDraft id s
    unfolding lock_draft
    lock_draft_sound id s s' h =
        let f : ProblemRevision → ProblemRevision = λ r. record r { state = revision_draft } in
        let (n, s₁, e, k) = >>=-eq-ok (update Table.revisions (is_draft id) f) _ s s' h in
        let (one, same) = same_state k in
        let written = guard-eq-ok (n == 1) not_draft one in
        let (counted, changed, frame) =
          laws.update_ok Table.revisions (is_draft id) f n s s₁ e (λ r p. refl) in
        let (r, t, i) = count_where-pos (is_draft id) (revisions_of s) (ground arith) in
        rw same (
          Unchanged-of g Table.revisions s s₁ (changed ∙ relabel_drafts id (revisions_of s)) frame,
          (r, i, ground arith, (eq_iff r.state revision_draft).0 (ground arith)),
        )

    -- An update of a draft is safe.
    pub update_draft-Safe :
        (k n : ℕ) (f : ProblemRevision → ProblemRevision) (s s' : State)
        → update Table.revisions (by_id k) f s ≡ (ok n, s')
        → ((r : ProblemRevision) → (f r).id ≡ r.id)
        → HasDraft k s
        → Safe s s'
    update_draft-Safe k n f s s' h same draft u =
        let (_, changed, frame) =
          laws.update_ok Table.revisions (by_id k) f n s s' h (λ r p. same r) in
        (
          λ id r stored pub_state. (
            ap (find? (by_id id)) changed
                ∙ find?-map_where_ne id k f (revisions_of s) same
                    (HasDraft-ne k id r s draft u stored pub_state)
                ∙ stored,
            ap (keep (of_revision id)) (frame Table.test_cases (λ e. cc)),
          ),
          subst UniqueIds (sym changed) (UniqueIds-map_where k f (revisions_of s) same u),
        )

    pub create_revision-Safe :
        (r r' : ProblemRevision) (s s' : State)
        → create Table.revisions r s ≡ (ok r', s')
        → Safe s s'
    create_revision-Safe r r' s s' h u =
        let (_, _, fresh, added, frame) = laws.create_ok Table.revisions r r' s s' h in
        (
          λ id q stored pub_state. (
            ap (find? (by_id id)) added ∙ find?-append_some (by_id id) (revisions_of s) r' stored,
            ap (keep (of_revision id)) (frame Table.test_cases (λ e. cc)),
          ),
          subst UniqueIds (sym added) (UniqueIds-append (revisions_of s) r' fresh u),
        )

    -- A test is added to a draft.
    pub create_test-Safe :
        (t t' : TestCase) (s s' : State)
        → create Table.test_cases t s ≡ (ok t', s')
        → HasDraft t.problem_revision_id s
        → Safe s s' × (revisions_of s' ≡ revisions_of s)
    create_test-Safe t t' s s' h draft =
        let (shape, _, _, added, frame) = laws.create_ok Table.test_cases t t' s s' h in
        let same = frame Table.revisions (λ e. cc) in
        (
          λ u. (
            λ id r stored pub_state.
                let ne = HasDraft-ne t.problem_revision_id id r s draft u stored pub_state in
                let k : t'.problem_revision_id ≡ t.problem_revision_id =
                  ap (λ x. x.problem_revision_id) shape in
                (
                  ap (find? (by_id id)) same ∙ stored,
                  ap (keep (of_revision id)) added
                      ∙ keep-append_none (of_revision id) (rows Table.test_cases s) t'
                          (ground arith),
                ),
            subst UniqueIds (sym same) u,
          ),
          same,
        )

    pub copy_tests-Safe :
        (k : ℕ) (l : List TestCase) (s s' : State)
        → copy_tests g k l s ≡ (ok tt, s')
        → HasDraft k s
        → Safe s s'
    unfolding copy_tests
    copy_tests-Safe k [] s s' h draft =
        Safe-of_same s s' (ap revisions_of (same_state h).1)
          (ap (rows Table.test_cases) (same_state h).1)
    copy_tests-Safe k (t ∷ l) s s' h draft =
        let (t', s₁, e, rest) =
          >>-eq-ok (create Table.test_cases (clone_test k t)) (copy_tests g k l) s s' h in
        let (safe, same) = create_test-Safe (clone_test k t) t' s s₁ e draft in
        let (r, i, key, state) = draft in
        Safe-trans s s₁ s' safe
          (copy_tests-Safe k l s₁ s' rest (r, subst (In r) (sym same) i, key, state))
