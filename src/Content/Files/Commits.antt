-- ===== src/Content/Files/Commits.antt =====
-- `CommitZIP` of `internal/content/files.go` as a whole: what a call that returns has done.
use mathlib.Core.Path.{fun_ext}
use cotests.Prelude.{
  ℕ, String, ◌≡◌, ◌<◌, refl, sym, ap, ◌∙◌, subst, ◌⊎◌, inl, inr, Option, none, some, List, [],
  find?,
}
use cotests.Outcome.{Result, ok, err}
use cotests.Outcome.Action.{
  Action, on_first, >>-eq-ok, on_first-eq, with_error-eq-ok, same_state, ask->>=-eq-ok,
  ask->>-eq-ok, lift->>=-eq-ok,
}
use cotests.Source.{Bytes, Source, max_int64}
use cotests.Importer.{TestPair}
use cotests.Db.Models.{User, Artifact, ImportPreview, Table}
use cotests.Db.Gorm.{Gorm, GormLaws, Unchanged, Unchanged-trans, Unchanged-refl}
use cotests.Db.Revisions.{lock_draft}
use cotests.Db.Revisions.Frozen.{HasDraft, lock_draft_sound}
use cotests.Content.Access.{require_user, revision}
use cotests.Content.Access.Sound.{require_user_sound}
use cotests.Content.Assignments.{conflict_draft}
use cotests.Artifact.Directory.{Disk, DiskLaws}
use cotests.Artifact.{Store, World}
use cotests.Content.Files.{FileWorld, compensated, file_transaction, locked}
use cotests.Content.Files.Archives.{
  preview_of, commit_preview, commit_transaction, commit_zip, unless,
}
use cotests.Content.Files.Importing.{Rows, rows_of}
use cotests.Content.Files.Committed.{Imported, commit_preview-Imported}

module _ (d : Disk) (g : Gorm) where
  open d use {Root}
  open g use {State, rows, first, transaction_with}

  -- A transaction on files that returned is its function that returned.
  file_transaction-eq-ok :
      {A : Type 0} (laws : GormLaws g) (fn : Action (FileWorld d g) A) (a : A) (w w' : World d g)
      → file_transaction d g fn w ≡ (ok a, w')
      → (created : List Artifact) × (fn (w.0, (w.1, [])) ≡ (ok a, (w'.0, (w'.1, created))))
  unfolding file_transaction
  file_transaction-eq-ok {A} laws fn a (s, root) w' h =
      go (transaction_with fn (s, (root, []))) refl h
    where
      go :
          (x : Result A × FileWorld d g)
          → transaction_with fn (s, (root, [])) ≡ x
          → compensated d g x ≡ (ok a, w')
          → (created : List Artifact) × (fn (s, (root, [])) ≡ (ok a, (w'.0, (w'.1, created))))
      go (ok b, (s₁, (root₁, created))) k j =
          let ends : (s₁, root₁) ≡ w' = ap (λ z. z.1) j in
          (
            created,
            laws.transaction_with_ok fn b (s, (root, [])) (s₁, (root₁, created)) k
                ∙ ap (λ z. (z.0, (z.1.0, (z.1.1, created)))) j,
          )
      go (err e, v) k j = cc

  -- The lock changes nothing, and a draft is stored.
  locked-eq-ok :
      (laws : GormLaws g) (k : ℕ) (v v' : FileWorld d g)
      → locked d g k v ≡ (ok tt, v')
      → Unchanged g v.0 v'.0 × HasDraft g k v.0 × (v'.1 ≡ v.1)
  unfolding locked
  locked-eq-ok laws k v v' h =
      let taken = with_error-eq-ok conflict_draft (on_first (lock_draft g k)) tt v v' h in
      let (lock, outside) = on_first-eq (lock_draft g k) (ok tt) v v' taken in
      let (kept, draft) = lock_draft_sound g laws k v.0 v'.0 lock in (kept, draft, outside)

  module _ (digest : Bytes → String) (now : ℕ) (read_zip : Source → Result (List TestPair)) where
    abbrev pub AlreadyDone : ImportPreview → World d g → World d g → Type 0
    AlreadyDone preview w w' =
        (at : ℕ) × (preview.committed_at ≡ some at) × Unchanged g w.0 w'.0 × (w'.1 ≡ w.1)

    -- What a `CommitZIP` that returns has done.
    pub record Commits (owner_id revision_id preview_id : ℕ) (w w' : World d g) : Type 0 where
      pub draft : HasDraft g revision_id w.0
      pub preview : ImportPreview
      pub preview_found :
          find? (preview_of preview_id owner_id revision_id) (rows Table.previews w.0)
          ≡ some preview
      pub outcome :
          AlreadyDone preview w w'
          ⊎ Imported d g digest now read_zip owner_id revision_id preview w.1
              (rows_of g w.0)
              (rows_of g w'.0)

    module _ (disk_laws : DiskLaws d) (laws : GormLaws g) (store : Store)
        (bound : store.max_bytes < max_int64) where
      commit_transaction-Commits :
          (random : ℕ → Result Bytes) (owner_id revision_id preview_id : ℕ)
          (created : List Artifact) (w w' : World d g)
          → commit_transaction d g digest now read_zip store random owner_id revision_id preview_id
              (w.0, (w.1, []))
            ≡ (ok tt, (w'.0, (w'.1, created)))
          → Commits owner_id revision_id preview_id w w'
      unfolding commit_transaction
      commit_transaction-Commits random owner_id revision_id preview_id created w w' h =
          let v : FileWorld d g = (w.0, (w.1, [])) in
          let (_, v₁, lock, h₁) = >>-eq-ok (locked d g revision_id) _ v (w'.0, (w'.1, created)) h in
          let (kept, draft, outside) = locked-eq-ok laws revision_id v v₁ lock in
          let (preview, found, h₂) =
            ask->>=-eq-ok
              (λ z. first Table.previews (preview_of preview_id owner_id revision_id) z.0) _ v₁
              (w'.0, (w'.1, created)) h₁ in
          record {
            draft = draft;
            preview = preview;
            preview_found =
                ap (find? (preview_of preview_id owner_id revision_id)) (sym (kept Table.previews))
                ∙ laws.first_ok Table.previews (preview_of preview_id owner_id revision_id) v₁.0
                    preview found;
            outcome = go preview preview.committed_at v₁ refl kept outside h₂;
          }
        where
          go :
              (preview : ImportPreview) (o : Option ℕ) (v₁ : FileWorld d g)
              → preview.committed_at ≡ o
              → Unchanged g w.0 v₁.0
              → v₁.1 ≡ (w.1, [])
              → unless o
                  (commit_preview d g digest now read_zip store random owner_id revision_id preview)
                  v₁
                ≡ (ok tt, (w'.0, (w'.1, created)))
              → AlreadyDone preview w w'
                ⊎ Imported d g digest now read_zip owner_id revision_id preview w.1
                    (rows_of g w.0)
                    (rows_of g w'.0)
          go preview (some at) v₁ e kept outside k =
              let (_, ends) = same_state k in
              inl (
                at,
                e,
                Unchanged-trans g kept (Unchanged-refl g (ap (λ z. z.0) ends)),
                ap (λ z. z.1.0) ends ∙ ap (λ z. z.0) outside,
              )
          go preview none v₁ e kept outside k =
              let imported =
                commit_preview-Imported d g digest now read_zip disk_laws laws store bound random
                  owner_id revision_id preview v₁ (w'.0, (w'.1, created)) e k in
              inr (
                subst {A = Root × Rows}
                  (λ z.
                    Imported d g digest now read_zip owner_id revision_id preview z.0 z.1
                      (rows_of g w'.0))
                  (ap (λ root. (root, rows_of g v₁.0)) (ap (λ z. z.0) outside)
                    ∙ ap (λ before. (w.1, before)) (fun_ext kept))
                  imported)

      -- A `CommitZIP` that returns, with a limit of a file below the greatest int64: the actor is a
      -- user, the revision is a draft, and the preview is one of that user and that revision.
      -- Either it was committed before, and no row and no file is changed; or it had not expired,
      -- the stored archive was read, its tests were added in their order at the positions after the
      -- last one of the revision, each with the rows of its two files, and the preview is marked as
      -- committed. No other row is changed.
      pub commit_zip-Commits :
          (random : ℕ → Result Bytes) (actor : Option User) (revision_id preview_id : ℕ)
          (w w' : World d g)
          → commit_zip d g digest now read_zip store random actor revision_id preview_id w
            ≡ (ok tt, w')
          → (user : User) × (actor ≡ some user) × Commits user.id revision_id preview_id w w'
      unfolding commit_zip
      commit_zip-Commits random actor revision_id preview_id w w' h =
          let (_, _, h₁) = ask->>-eq-ok (λ z. revision g actor revision_id z.0) _ w w' h in
          let (user, is_user, h₂) = lift->>=-eq-ok (require_user actor) _ w w' h₁ in
          let (created, done) =
            file_transaction-eq-ok laws
              (commit_transaction d g digest now read_zip store random user.id revision_id
                preview_id)
              tt w w' h₂ in
          (
            user,
            require_user_sound actor user is_user,
            commit_transaction-Commits random user.id revision_id preview_id created w w' done,
          )
