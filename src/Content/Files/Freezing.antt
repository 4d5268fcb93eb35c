-- ===== src/Content/Files/Freezing.antt =====
-- The statements of `internal/content/files.go` and `Save` of `internal/artifact/store.go` leave
-- published revisions and their tests alone.
use cotests.Prelude.{
  ℕ, ◌≡◌, ◌≢◌, refl, sym, ap, ◌∙◌, subst, String, Bool, true, not, ◌||◌, List, In, find?, keep,
  ◌==◌, is_empty, trim_space,
}
use cotests.Outcome.{Result, ok, err, guard, failure}
use cotests.Outcome.Action.{Action}
use cotests.Outcome.Keeps.{
  Preorder, Keeps, Keeps-of, Keeps->>=, Keeps->>, Keeps-deferred, Keeps-after_lift,
}
use cotests.Source.{Bytes, Source}
use cotests.Db.Models
use cotests.Db.Models.{ProblemRevision, TestCase, Table, Row, has_id, revision_published}
use cotests.Db.Gorm.{Gorm, GormLaws, Unchanged}
use cotests.Db.Revisions.{of_revision}
use cotests.Db.Revisions.Rows.{UniqueIds, by_id}
use cotests.Db.Revisions.Frozen.{revisions_of, Frozen, HasDraft, Safe, Safe-trans}
use cotests.Db.Revisions.TestKeys.{UniqueTests, KeepsTests}
use cotests.Artifact.Directory.{Disk}
use cotests.Artifact.Keys.{random_key}
use cotests.Artifact.{
  Store, World, on_disk, kept_or_removed, with_row, new_artifact, commit_file, save_in, save,
}
use cotests.Content.Files.{counted, save_counted}

module _ (g : Gorm) where
  open g use {State, rows, create, update, delete}

  -- A step that freezes the published revisions and keeps the primary keys apart, those of the
  -- tests too.
  abbrev pub Freezes : State → State → Type 0
  Freezes s s' =
      UniqueIds (revisions_of g s)
      → UniqueTests (rows Table.test_cases s)
      → Frozen g s s' × UniqueIds (revisions_of g s') × UniqueTests (rows Table.test_cases s')

  pub Freezes-of : (s s' : State) → Safe g s s' → KeepsTests g s s' → Freezes s s'
  Freezes-of s s' safe keeps u v = let (frozen, u') = safe u in (frozen, u', keeps v)

  pub Freezes-trans : (s s₁ s' : State) → Freezes s s₁ → Freezes s₁ s' → Freezes s s'
  Freezes-trans s s₁ s' h k u v =
      let (frozen, u₁, v₁) = h u v in
      let (frozen', u', v') = k u₁ v₁ in
      let (both, _) = Safe-trans g s s₁ s' (λ _. (frozen, u₁)) (λ _. (frozen', u')) u in
      (both, u', v')

  -- Neither the revisions nor the tests are written.
  abbrev pub Apart : State → State → Type 0
  Apart s s' =
      (revisions_of g s' ≡ revisions_of g s) × (rows Table.test_cases s' ≡ rows Table.test_cases s)

  pub Apart-of : (s s' : State) → Unchanged g s s' → Apart s s'
  Apart-of s s' h = (h Table.revisions, h Table.test_cases)

  pub Freezes-of_Apart : (s s' : State) → Apart s s' → Freezes s s'
  Freezes-of_Apart s s' (r, t) u v = (
    λ id q stored pub_state. (ap (find? (by_id id)) r ∙ stored, ap (keep (of_revision id)) t),
    subst UniqueIds (sym r) u,
    subst UniqueTests (sym t) v,
  )

  pub HasDraft-Apart : (id : ℕ) (s s' : State) → Apart s s' → HasDraft g id s → HasDraft g id s'
  HasDraft-Apart id s s' (r, _) (q, i, key, state) = (q, subst (In q) (sym r) i, key, state)

  pub Apart-order : Preorder Apart
  Apart-order = record {
    reflexive = λ s. (refl, refl);
    transitive = λ s s₁ s' h k. (k.0 ∙ h.0, k.1 ∙ h.1);
  }

  module _ (laws : GormLaws g) where
    pub create-Apart :
        (t : Table) (r : Row t)
        → Table.revisions ≢ t
        → Table.test_cases ≢ t
        → Keeps Apart (create t r)
    create-Apart t r ne ne' = Keeps-of Apart (create t r) go
      where
        go : (x : Result (Row t)) (s s' : State) → create t r s ≡ (x, s') → Apart s s'
        go (ok r') s s' h =
            let (_, _, _, _, frame) = laws.create_ok t r r' s s' h in
            (frame Table.revisions ne, frame Table.test_cases ne')
        go (err e) s s' h = Apart-of s s' (laws.create_err t r e s s' h)

    pub update-Apart :
        (t : Table) (p : Row t → Bool) (f : Row t → Row t)
        → Table.revisions ≢ t
        → Table.test_cases ≢ t
        → ((r : Row t) → p r ≡ true → Models.row_id t (f r) ≡ Models.row_id t r)
        → Keeps Apart (update t p f)
    update-Apart t p f ne ne' same = Keeps-of Apart (update t p f) go
      where
        go : (x : Result ℕ) (s s' : State) → update t p f s ≡ (x, s') → Apart s s'
        go (ok n) s s' h =
            let (_, _, frame) = laws.update_ok t p f n s s' h same in
            (frame Table.revisions ne, frame Table.test_cases ne')
        go (err e) s s' h = Apart-of s s' (laws.update_err t p f e s s' h)

module _ (d : Disk) (g : Gorm) (laws : GormLaws g) where
  open d use {Root, make_dir, create_temp, remove}
  open g use {State, rows, create}

  abbrev pub ApartIn : (W : Type 0) → State × W → State × W → Type 0
  ApartIn W w w' = Apart g w.0 w'.0

  pub ApartIn-order : (W : Type 0) → Preorder (ApartIn W)
  ApartIn-order W = record {
    reflexive = λ w. (refl, refl);
    transitive = λ w w₁ w' h k. (k.0 ∙ h.0, k.1 ∙ h.1);
  }

  disk-Apart : {A : Type 0} (m : Action Root A) → Keeps (ApartIn Root) (on_disk d g m)
  disk-Apart m w = (refl, refl)

  row-Apart : (key : String) (row : Models.Artifact) → Keeps (ApartIn Root) (with_row d g key row)
  row-Apart key row (s, root) =
      go (create Table.artifacts row s)
        (create-Apart g laws Table.artifacts row (λ e. cc) (λ e. cc) s)
    where
      go :
          (x : Result Models.Artifact × State)
          → Apart g s x.1
          → ApartIn Root (s, root) (kept_or_removed d g key x root).1
      go (ok item, s') h = h
      go (err e, s') h = h

  save-Apart :
      (digest : Bytes → String) (store : Store) (random : Result Bytes) (now owner_id : ℕ)
      (filename content_type : String) (source : Source)
      → Keeps
          (ApartIn Root)
          (save d g digest store random now owner_id filename content_type source)
  unfolding save
  save-Apart digest store random now owner_id filename content_type source =
      let order = ApartIn-order Root in
      Keeps-after_lift order
        (guard (not (owner_id == 0 || is_empty (trim_space filename) || store.max_bytes == 0))
          (failure "invalid artifact"))
        _
        (λ _. Keeps->> order (on_disk d g make_dir) _ (disk-Apart make_dir) (
          Keeps-after_lift order (random_key random) _ (λ key.
            Keeps->>= order (on_disk d g create_temp) _ (disk-Apart create_temp) (λ name.
              Keeps-deferred order (on_disk d g (remove name))
                (save_in d g digest store source owner_id filename content_type now key name)
                (disk-Apart (remove name))
                (Keeps->>= order (on_disk d g (commit_file d store source name key)) _
                  (disk-Apart (commit_file d store source name key))
                  (λ content.
                    row-Apart key
                      (new_artifact d g digest owner_id key filename content_type now content)))))))

  -- Storing a file writes no revision and no test.
  pub save_counted-Apart :
      (digest : Bytes → String) (now : ℕ) (store : Store) (random : Result Bytes) (owner_id : ℕ)
      (filename content_type : String) (source : Source)
      → Keeps
          (ApartIn (Root × List Models.Artifact))
          (save_counted d g digest now store random owner_id filename content_type source)
  unfolding save_counted
  save_counted-Apart digest now store random owner_id filename content_type source
        (s, (root, created)) =
      go (save d g digest store random now owner_id filename content_type source (s, root))
        (save-Apart digest store random now owner_id filename content_type source (s, root))
    where
      go :
          (x : Result Models.Artifact × World d g)
          → Apart g s x.1.0
          → Apart g s (counted d g created x).1.0
      go (ok item, w) h = h
      go (err e, w) h = h
