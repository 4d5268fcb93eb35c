-- ===== src/Artifact/Harmless.antt =====
-- `Save` of `internal/artifact/store.go` leaves nothing behind when it fails.
use cotests.Prelude.{
  ℕ, ◌≡◌, ◌≢◌, refl, sym, ap, ◌∙◌, inl, inr, String, true, false, not, none, some, is_empty,
  trim_space, ◌==◌, ◌||◌,
}
use cotests.Outcome.{Error, Result, ok, err, guard, failure}
use cotests.Outcome.Action.{Action, deferred, >>=-eq-err, same_state_err, deferred-eq}
use cotests.Outcome.Keeps.{Preorder, Fails, Fails-lift, Fails->>}
use cotests.Source.{Bytes, Source}
use cotests.Db.Models
use cotests.Db.Models.{Table}
use cotests.Db.Gorm.{Gorm, GormLaws, Unchanged, Unchanged-refl, Unchanged-trans}
use cotests.Artifact.Directory.{Disk, DiskLaws, File, SameBut, CanRemove}
use cotests.Artifact.Keys.{is_upload, random_key, random_key-not_upload}
use cotests.Artifact.Files.{Text-cases, NothingNew, NothingNew-of_same, NothingNew-trans, removed}
use cotests.Artifact.Saving.{commit_file_ok, commit_file_err}
use cotests.Artifact.{
  Store, commit_file, World, on_disk, kept_or_removed, with_row, new_artifact, save_in, save,
}

pub pair_eq :
    {A B : Type 0} {a a' : A} {b b' : B} → a ≡ a' → b ≡ b' → ◌≡◌ {A = A × B} (a, b) (a', b')
pair_eq e f = λ i. (e i, f i)

err_of :
    {A W : Type 0} {e e' : Error} {w w' : W}
    → ◌≡◌ {A = Result A × W} (err e, w) (err e', w')
    → ◌≡◌ {A = Result A} (err e) (err e')
err_of h = ap (λ y. y.0) h

not_err :
    {A W : Type 0} {e : Error} {a : A} {w w' : W} → ◌≡◌ {A = Result A × W} (ok a, w) (err e, w') → ⊥
not_err h = cc

module _ (d : Disk) (g : Gorm) where
  open d use {Root, look, make_dir, create_temp, remove}
  open g use {State, create}

  -- No row changed, and no file is new.
  abbrev pub Harmless : World d g → World d g → Type 0
  Harmless w w' = Unchanged g w.0 w'.0 × NothingNew d w.1 w'.1

  pub Harmless-order : Preorder Harmless
  Harmless-order = record {
    reflexive = λ w. (Unchanged-refl g refl, λ n file h. h);
    transitive =
        λ w w₁ w' h k. (Unchanged-trans g h.0 k.0, NothingNew-trans d w.1 w₁.1 w'.1 h.1 k.1);
  }

  -- A call on the directory leaves the database alone.
  pub on_disk-eq :
      {A : Type 0} (m : Action Root A) (x : Result A) (w w' : World d g)
      → on_disk d g m w ≡ (x, w')
      → (m w.1 ≡ (x, w'.1)) × (w'.0 ≡ w.0)
  on_disk-eq m x w w' h = (ap (λ y. (y.0, y.1.1)) h, ap (λ y. y.1.0) (sym h))

  module _ (disk_laws : DiskLaws d) (laws : GormLaws g) where
    row_refused :
        CanRemove d
        → (key : String) (row : Models.Artifact) (e : Error) (w w' : World d g)
        → with_row d g key row w ≡ (err e, w')
        → Unchanged g w.0 w'.0 × (look key w'.1 ≡ none) × SameBut d key w.1 w'.1
    row_refused can key row e w w' h = go (create Table.artifacts row w.0) refl h
      where
        go :
            (x : Result Models.Artifact × State)
            → create Table.artifacts row w.0 ≡ x
            → kept_or_removed d g key x w.1 ≡ (err e, w')
            → Unchanged g w.0 w'.0 × (look key w'.1 ≡ none) × SameBut d key w.1 w'.1
        go (ok r, s') made k = absurd (not_err k)
        go (err c, s') made k =
            let ew = same_state_err k in
            let gone = removed d disk_laws can key (remove key w.1).0 w.1 (remove key w.1).1 refl in
            (
              laws.create_err Table.artifacts row e w.0 w'.0
                  (made ∙ pair_eq (err_of k) (sym (ap (λ z. z.0) ew))),
              ap (λ z. look key z.1) ew ∙ gone.0,
              λ n ne. ap (λ z. look n z.1) ew ∙ gone.1 n ne,
            )

    -- Every file but the temporary one was there before.
    abbrev OnlyTemporary : String → World d g → World d g → Type 0
    OnlyTemporary name w w' =
        Unchanged g w.0 w'.0
        × ((n : String) (file : File) → n ≢ name → look n w'.1 ≡ some file → look n w.1 ≡ some file)

    module _ (digest : Bytes → String) (store : Store) (source : Source) where
      -- What a failure leaves behind in the part with a temporary file.
      save_in_err :
          CanRemove d
          → (owner_id : ℕ) (filename content_type : String) (now : ℕ) (key name : String)
            (e : Error) (w w' : World d g)
          → name ≢ key
          → save_in d g digest store source owner_id filename content_type now key name w
            ≡ (err e, w')
          → OnlyTemporary name w w'
      save_in_err can owner_id filename content_type now key name e w w' ne h =
          elim (>>=-eq-err (on_disk d g (commit_file d store source name key))
            (λ content.
              with_row d g key
                (new_artifact d g digest owner_id key filename content_type now content))
            e w w' h) [
              | inl refused ↦
                  let (failed, same) =
                    on_disk-eq (commit_file d store source name key) (err e) w w' refused in
                  (
                    Unchanged-refl g same,
                    λ n file apart there.
                        sym (
                          commit_file_err d disk_laws store source name key e w.1 w'.1 failed n
                            apart)
                        ∙ there,
                  )
              | inr (content, w₁, committed, refused) ↦
                  let (done, same) =
                    on_disk-eq (commit_file d store source name key) (ok content) w w₁ committed in
                  let (_, _, others) =
                    commit_file_ok d disk_laws store source name key content w.1 w₁.1 done ne in
                  let (kept, gone, frame) =
                    row_refused can key
                      (new_artifact d g digest owner_id key filename content_type now content) e w₁
                      w' refused in
                  (
                    Unchanged-trans g (Unchanged-refl g same) kept,
                    λ n file apart there. elim (Text-cases n key) [
                      | inl k ↦ absurd (nothing (sym (ap (λ z. look z w'.1) k ∙ gone) ∙ there))
                      | inr nk ↦ sym (others n apart nk) ∙ sym (frame n nk) ∙ there
                    ],
                  )
            ]
        where
          nothing : {file : File} → none ≡ some file → ⊥
          nothing k = cc

      -- A key is no name of a temporary file.
      pub name-ne-key :
          (random : Result Bytes) (key name : String) (root root' : Root)
          → random_key random ≡ ok key
          → create_temp root ≡ (ok name, root')
          → name ≢ key
      name-ne-key random key name root root' drawn made same =
          let (upload, _, _) = disk_laws.create_temp_ok name root root' made in
          both (sym upload ∙ ap is_upload same ∙ random_key-not_upload random key drawn)
        where
          both : true ≡ false → ⊥
          both k = cc

      -- `Save` from the temporary file on, with the deferred removal
      with_temporary :
          CanRemove d
          → (random : Result Bytes) (now owner_id : ℕ) (filename content_type key name : String)
            (e : Error) (w w₁ w' : World d g)
          → random_key random ≡ ok key
          → create_temp w.1 ≡ (ok name, w₁.1)
          → w₁.0 ≡ w.0
          → deferred
              (on_disk d g (remove name))
              (save_in d g digest store source owner_id filename content_type now key name)
              w₁
            ≡ (err e, w')
          → Harmless w w'
      with_temporary can random now owner_id filename content_type key name e w w₁ w' drawn created
            same h =
          let (w₂, body, cleaned) =
            deferred-eq (on_disk d g (remove name))
              (save_in d g digest store source owner_id filename content_type now key name) (err e)
              w₁ w' h in
          let ne = name-ne-key random key name w.1 w₁.1 drawn created in
          let (_, _, frame) = disk_laws.create_temp_ok name w.1 w₁.1 created in
          let (kept, only) =
            save_in_err can owner_id filename content_type now key name e w₁ w₂ ne body in
          let (gone, others) =
            removed d disk_laws can name (remove name w₂.1).0 w₂.1 (remove name w₂.1).1 refl in
          let here : w'.1 ≡ (remove name w₂.1).1 = ap (λ z. z.1) (sym cleaned) in
          (
            Unchanged-trans g (Unchanged-trans g (Unchanged-refl g same) kept)
                (Unchanged-refl g (ap (λ z. z.0) (sym cleaned))),
            λ n file there. elim (Text-cases n name) [
              | inl k ↦ absurd (
                  nothing
                    (sym gone ∙ sym (ap (look name) here) ∙ sym (ap (λ z. look z w'.1) k) ∙ there))
              | inr apart ↦
                  sym (frame n apart)
                  ∙ only n file apart (sym (others n apart) ∙ sym (ap (look n) here) ∙ there)
            ],
          )
        where
          nothing : {file : File} → none ≡ some file → ⊥
          nothing k = cc

      -- A `Save` that fails, at whatever step, leaves every row as it was and no file that was not
      -- there before, if files can be removed.
      pub save-Harmless :
          CanRemove d
          → (random : Result Bytes) (now owner_id : ℕ) (filename content_type : String)
          → Fails Harmless (save d g digest store random now owner_id filename content_type source)
      unfolding save
      save-Harmless can random now owner_id filename content_type =
          Fails-lift Harmless-order
            (guard (not (owner_id == 0 || is_empty (trim_space filename) || store.max_bytes == 0))
              (failure "invalid artifact"))
            _
            (λ _ _.
              Fails->> Harmless-order (on_disk d g make_dir) _
                (λ w. (
                  Unchanged-refl g refl,
                  NothingNew-of_same d w.1 (make_dir w.1).1
                      (disk_laws.make_dir_files (make_dir w.1).0 w.1 (make_dir w.1).1 refl),
                ))
                (Fails-lift Harmless-order (random_key random) _ (λ key drawn e w w' h.
                  elim (>>=-eq-err (on_disk d g create_temp)
                    (λ name.
                      deferred (on_disk d g (remove name)) (
                        save_in d g digest store source owner_id filename content_type now key
                          name))
                    e w w' h) [
                      | inl refused ↦
                          let (failed, same) = on_disk-eq create_temp (err e) w w' refused in
                          (
                            Unchanged-refl g same,
                            NothingNew-of_same d w.1 w'.1
                                (disk_laws.create_temp_err e w.1 w'.1 failed),
                          )
                      | inr (name, w₁, made, rest) ↦
                          let (created, same) = on_disk-eq create_temp (ok name) w w₁ made in
                          with_temporary can random now owner_id filename content_type key name e w
                            w₁ w' drawn created same rest
                    ])))
