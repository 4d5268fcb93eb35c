-- ===== src/Content/Files/Once.antt =====
-- `CommitZIP` of `internal/content/files.go` imports an archive once.
use cotests.Prelude.{
  ℕ, String, Bool-cases, true, ◌≡◌, ◌<◌, refl, sym, ap, ◌∙◌, inl, inr, arith, Option, none, some,
  List, [], ◌∷◌, find?, map_where,
}
use cotests.Outcome.{Result, ok}
use cotests.Source.{Bytes, Source, max_int64}
use cotests.Importer.{TestPair}
use cotests.Db.Models.{User, ImportPreview, Table, has_id}
use cotests.Db.Gorm.{Gorm, GormLaws, Unchanged}
use cotests.Artifact.Directory.{Disk, DiskLaws}
use cotests.Artifact.{Store, World}
use cotests.Content.Files.Archives.{preview_of, committed, commit_zip}
use cotests.Content.Files.Commits.{Commits, commit_zip-Commits}

some-injective : {A : Type 0} {a b : A} → some a ≡ some b → a ≡ b
some-injective k = cc

-- The preview that was found is found again, marked.
found_again :
    (id owner_id revision_id now : ℕ) (p : ImportPreview) (l : List ImportPreview)
    → find? (preview_of id owner_id revision_id) l ≡ some p
    → find?
        (preview_of id owner_id revision_id)
        (map_where (has_id Table.previews p.id) (committed now) l)
      ≡ some (committed now p)
found_again id owner_id revision_id now p [] h = cc
found_again id owner_id revision_id now p (x ∷ l) h =
    elim (Bool-cases (preview_of id owner_id revision_id x)) [
      | inl here ↦
          let same : x ≡ p = some-injective (rw here at h) in
          let is_p : has_id Table.previews p.id x ≡ true = ground (arith, ap (λ z. z.id) same) in
          rw (is_p, here) (ap (λ z. some (committed now z)) same)
      | inr other ↦
          let later : find? (preview_of id owner_id revision_id) l ≡ some p = rw other at h in
          elim (Bool-cases (has_id Table.previews p.id x)) [
            | inl is_p ↦ rw (is_p, other) (found_again id owner_id revision_id now p l later)
            | inr not_p ↦ rw (not_p, other) (found_again id owner_id revision_id now p l later)
          ]
    ]

module _ (d : Disk) (g : Gorm) where
  open g use {rows}

  module _ (digest : Bytes → String) (now : ℕ) (read_zip : Source → Result (List TestPair))
      (disk_laws : DiskLaws d) (laws : GormLaws g) (store : Store)
      (bound : store.max_bytes < max_int64) where
    -- After a `CommitZIP` that returns the preview is marked.
    marked :
        (owner_id revision_id preview_id : ℕ) (w w' : World d g)
        → Commits d g digest now read_zip owner_id revision_id preview_id w w'
        → (p : ImportPreview) × (at : ℕ) × (find?
              (preview_of preview_id owner_id revision_id)
              (rows Table.previews w'.0)
            ≡ some p)
          × (p.committed_at ≡ some at)
    marked owner_id revision_id preview_id w w' c = elim c.outcome [
      | inl (at, e, kept, _) ↦ (
        c.preview,
        at,
        ap (find? (preview_of preview_id owner_id revision_id)) (kept Table.previews)
            ∙ c.preview_found,
        e,
      )
      | inr done ↦ (
        committed now c.preview,
        now,
        ap (find? (preview_of preview_id owner_id revision_id)) done.marked
            ∙ found_again preview_id owner_id revision_id now c.preview (rows Table.previews w.0)
                c.preview_found,
        refl,
      )
    ]

    -- An archive is imported once, with limits of a file below the greatest int64: when after a
    -- `CommitZIP` that returned the same actor commits the same preview of the same revision again,
    -- at any time and with any limit, and this call returns too, it changes no row and no file.
    pub commit_zip-commit_zip :
        (random random_again : ℕ → Result Bytes) (now_again : ℕ) (store_again : Store)
        (actor : Option User) (revision_id preview_id : ℕ) (w w' w'' : World d g)
        → store_again.max_bytes < max_int64
        → commit_zip d g digest now read_zip store random actor revision_id preview_id w
          ≡ (ok tt, w')
        → commit_zip d g digest now_again read_zip store_again random_again actor revision_id
            preview_id w'
          ≡ (ok tt, w'')
        → Unchanged g w'.0 w''.0 × (w''.1 ≡ w'.1)
    commit_zip-commit_zip random random_again now_again store_again actor revision_id preview_id w
          w' w'' bound_again h k =
        let (user, is_user, one) =
          commit_zip-Commits d g digest now read_zip disk_laws laws store bound random actor
            revision_id preview_id w w' h in
        let (user', is_user', two) =
          commit_zip-Commits d g digest now_again read_zip disk_laws laws store_again bound_again
            random_again actor revision_id preview_id w' w'' k in
        let same_user : user' ≡ user = some-injective (sym is_user' ∙ is_user) in
        let (p, at, found, done) = marked user.id revision_id preview_id w w' one in
        let same : two.preview ≡ p = some-injective (
          sym two.preview_found
          ∙ ap (λ u. find? (preview_of preview_id u.id revision_id) (rows Table.previews w'.0))
              same_user
          ∙ found) in
        elim two.outcome [
          | inl (_, _, kept, files) ↦ (kept, files)
          | inr again ↦ absurd (never (sym again.not_yet ∙ ap (λ z. z.committed_at) same ∙ done))
        ]
      where
        never : {n : ℕ} → none ≡ some n → ⊥
        never e = cc
