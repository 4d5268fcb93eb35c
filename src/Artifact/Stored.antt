-- ===== src/Artifact/Stored.antt =====
-- What `Save` of `internal/artifact/store.go` has stored when it returns.
use cotests.Prelude.{
  ℕ, ◌≡◌, ◌≢◌, ◌≤◌, ◌<◌, refl, sym, ap, ◌∙◌, subst, inl, inr, String, not, none, some, is_empty,
  trim_space, ◌==◌, ◌||◌, length,
}
use cotests.Outcome.{Error, Result, ok, err, guard, failure}
use cotests.Outcome.Action.{lift, deferred, >>=-eq-ok, >>-eq-ok, same_state, deferred-eq}
use cotests.Source.{Bytes, Source, max_int64, read_beyond_whole, take-beyond}
use cotests.Db.Models
use cotests.Db.Models.{Table}
use cotests.Db.Gorm.{Gorm, GormLaws, Created}
use cotests.Artifact.Directory.{Disk, DiskLaws, File, SameBut, SameFiles}
use cotests.Artifact.Keys.{random_key}
use cotests.Artifact.Files.{Text-cases}
use cotests.Artifact.Saving.{SameBesides, commit_file_ok}
use cotests.Artifact.Harmless.{pair_eq, on_disk-eq, name-ne-key}
use cotests.Artifact.{
  Store, commit_file, World, on_disk, kept_or_removed, with_row, new_artifact, save_in, save,
}

never :
    {A W : Type 0} {e : Error} {a : A} {w w' : W} → ◌≡◌ {A = Result A × W} (err e, w) (ok a, w') → ⊥
never h = cc

module _ (d : Disk) (g : Gorm) where
  open d use {Root, look, make_dir, create_temp, remove}
  open g use {State, create}

  module _ (disk_laws : DiskLaws d) (laws : GormLaws g) where
    row_stored :
        (key : String) (row item : Models.Artifact) (w w' : World d g)
        → with_row d g key row w ≡ (ok item, w')
        → Created g Table.artifacts row item w.0 w'.0 × (w'.1 ≡ w.1)
    row_stored key row item w w' h = go (create Table.artifacts row w.0) refl h
      where
        go :
            (x : Result Models.Artifact × State)
            → create Table.artifacts row w.0 ≡ x
            → kept_or_removed d g key x w.1 ≡ (ok item, w')
            → Created g Table.artifacts row item w.0 w'.0 × (w'.1 ≡ w.1)
        go (ok r, s') e k =
            let (er, ew) = same_state k in
            (
              laws.create_ok Table.artifacts row item w.0 w'.0
                  (e ∙ pair_eq er (sym (ap (λ z. z.0) ew))),
              ap (λ z. z.1) ew,
            )
        go (err c, s') e k = absurd (never k)

    module _ (digest : Bytes → String) (store : Store) (source : Source) where
      -- What `Save` has stored when it returns.
      pub record Saved (random : Result Bytes) (now owner_id : ℕ) (filename content_type : String)
          (item : Models.Artifact) (w w' : World d g) : Type 0 where
        pub key : String
        pub drawn : random_key random ≡ ok key
        pub row :
            Created g Table.artifacts
              (new_artifact d g digest owner_id key filename content_type now source.content)
              item
              w.0
              w'.0
        pub file : (f : File) × (look key w'.1 ≡ some f) × (f.content ≡ source.content)
        pub small : length source.content ≤ store.max_bytes
        pub others : SameBut d key w.1 w'.1

      -- The part of `Save` with a temporary file, when it returns.
      record SavedIn (now owner_id : ℕ) (filename content_type key name : String)
          (item : Models.Artifact) (w w' : World d g) : Type 0 where
        row_in :
            Created g Table.artifacts
              (new_artifact d g digest owner_id key filename content_type now source.content)
              item
              w.0
              w'.0
        file_in : (f : File) × (look key w'.1 ≡ some f) × (f.content ≡ source.content)
        small_in : length source.content ≤ store.max_bytes
        gone_in : look name w'.1 ≡ none
        others_in : SameBesides d disk_laws name key w.1 w'.1

      save_in_ok :
          (now owner_id : ℕ) (filename content_type key name : String) (item : Models.Artifact)
          (w w' : World d g)
          → store.max_bytes < max_int64
          → name ≢ key
          → save_in d g digest store source owner_id filename content_type now key name w
            ≡ (ok item, w')
          → SavedIn now owner_id filename content_type key name item w w'
      save_in_ok now owner_id filename content_type key name item w w' bound ne h =
          let row_of : Bytes → Models.Artifact =
            new_artifact d g digest owner_id key filename content_type now in
          let (content, w₁, committed, inserted) =
            >>=-eq-ok (on_disk d g (commit_file d store source name key))
              (λ content. with_row d g key (row_of content)) w w' h in
          let (done, same) =
            on_disk-eq d g (commit_file d store source name key) (ok content) w w₁ committed in
          let ((read, small, file, stands, holds), gone, others) =
            commit_file_ok d disk_laws store source name key content w.1 w₁.1 done ne in
          let (whole, _) = read_beyond_whole store.max_bytes source content bound read small in
          let (created, disk) = row_stored key (row_of content) item w₁ w' inserted in
          let fits = subst (λ z. length z ≤ store.max_bytes) whole small in
          record {
            row_in =
                subst (λ z. Created g Table.artifacts (row_of z) item w.0 w'.0) whole
                  (subst (λ z. Created g Table.artifacts (row_of content) item z w'.0) same
                    created);
            file_in = (
              file,
              ap (look key) disk ∙ stands,
              holds ∙ take-beyond store.max_bytes source.content bound fits,
            );
            small_in = fits;
            gone_in = ap (look name) disk ∙ gone;
            others_in = λ n ne₁ ne₂. ap (look n) disk ∙ others n ne₁ ne₂;
          }

      remove_frame :
          (name : String) (x : Result (Unit {0})) (root root' : Root)
          → remove name root ≡ (x, root')
          → SameBut d name root root' × (look name root ≡ none → look name root' ≡ none)
      remove_frame name (ok u) root root' h =
          let (gone, others) = disk_laws.remove_ok name root root' h in (others, λ _. gone)
      remove_frame name (err e) root root' h =
          let same = disk_laws.remove_err name e root root' h in
          (λ n ne. same n, λ gone. same name ∙ gone)

      -- `Save` from the temporary file on, with the deferred removal
      with_temporary_ok :
          (random : Result Bytes) (now owner_id : ℕ) (filename content_type key name : String)
          (item : Models.Artifact) (root : Root) (w w₄ w' : World d g)
          → store.max_bytes < max_int64
          → random_key random ≡ ok key
          → SameFiles d w.1 root
          → create_temp root ≡ (ok name, w₄.1)
          → w₄.0 ≡ w.0
          → deferred
              (on_disk d g (remove name))
              (save_in d g digest store source owner_id filename content_type now key name)
              w₄
            ≡ (ok item, w')
          → Saved random now owner_id filename content_type item w w'
      with_temporary_ok random now owner_id filename content_type key name item root w w₄ w' bound
            drawn start created rows h₄ =
          let ne =
            name-ne-key d g disk_laws laws digest store source random key name root w₄.1 drawn
              created in
          let (w₅, body, cleaned) =
            deferred-eq (on_disk d g (remove name))
              (save_in d g digest store source owner_id filename content_type now key name)
              (ok item) w₄ w' h₄ in
          let made_in =
            save_in_ok now owner_id filename content_type key name item w₄ w₅ bound ne body in
          let (_, absent, frame) = disk_laws.create_temp_ok name root w₄.1 created in
          let (others, stays) =
            remove_frame name (remove name w₅.1).0 w₅.1 (remove name w₅.1).1 refl in
          let (f, stands, holds) = made_in.file_in in
          let last : (n : String) → look n w'.1 ≡ look n (remove name w₅.1).1 =
            λ n. ap (λ z. look n z.1) (sym cleaned) in
          let row_of : String → Models.Artifact =
            λ k. new_artifact d g digest owner_id k filename content_type now source.content in
          let nk : key ≢ name = λ k. ne (sym k) in
          record {
            key = key;
            drawn = drawn;
            row =
                subst (λ z. Created g Table.artifacts (row_of key) item z w'.0) rows
                  (subst (λ z. Created g Table.artifacts (row_of key) item w₄.0 z)
                    (ap (λ z. z.0) cleaned) made_in.row_in);
            file = (f, last key ∙ others key nk ∙ stands, holds);
            small = made_in.small_in;
            others = λ n apart. elim (Text-cases n name) [
              | inl k ↦
                  ap (λ z. look z w'.1) k
                  ∙ last name
                  ∙ stays made_in.gone_in
                  ∙ sym (ap (λ z. look z w.1) k ∙ sym (start name) ∙ absent)
              | inr away ↦
                  last n ∙ others n away ∙ made_in.others_in n away apart ∙ frame n away ∙ start n
            ];
          }

      -- A `Save` that returns, with a limit below the greatest int64: under a key drawn from the
      -- random source stands exactly the content of the source, which is within the limit, the row
      -- with its size and its digest was inserted with that key, and no other file is changed, the
      -- temporary one included.
      pub save-Saved :
          (random : Result Bytes) (now owner_id : ℕ) (filename content_type : String)
          (item : Models.Artifact) (w w' : World d g)
          → store.max_bytes < max_int64
          → save d g digest store random now owner_id filename content_type source w ≡ (ok item, w')
          → Saved random now owner_id filename content_type item w w'
      unfolding save
      save-Saved random now owner_id filename content_type item w w' bound h =
          let (_, w₁, passed, h₁) =
            >>-eq-ok
              (lift (
                guard
                  (not (owner_id == 0 || is_empty (trim_space filename) || store.max_bytes == 0))
                  (failure "invalid artifact")))
              _ w w' h in
          let e₁ = (same_state passed).1 in
          let (_, w₂, ensured, h₂) = >>-eq-ok (on_disk d g make_dir) _ w₁ w' h₁ in
          let (dir, same₂) = on_disk-eq d g make_dir (ok tt) w₁ w₂ ensured in
          let (key, w₃, drew, h₃) = >>=-eq-ok (lift (random_key random)) _ w₂ w' h₂ in
          let (drawn, e₃) = same_state drew in
          let (name, w₄, made, h₄) =
            >>=-eq-ok (on_disk d g create_temp)
              (λ name.
                deferred (on_disk d g (remove name))
                  (save_in d g digest store source owner_id filename content_type now key name))
              w₃ w' h₃ in
          let (created, same₄) = on_disk-eq d g create_temp (ok name) w₃ w₄ made in
          with_temporary_ok random now owner_id filename content_type key name item w₃.1 w w₄ w'
            bound drawn
            (λ n.
              ap (λ z. look n z.1) e₃
              ∙ disk_laws.make_dir_files (ok tt) w₁.1 w₂.1 dir n
              ∙ ap (λ z. look n z.1) e₁)
            created (same₄ ∙ ap (λ z. z.0) e₃ ∙ same₂ ∙ ap (λ z. z.0) e₁) h₄
