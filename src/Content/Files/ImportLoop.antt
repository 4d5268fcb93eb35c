-- ===== src/Content/Files/ImportLoop.antt =====
-- The loop of `CommitZIP` of `internal/content/files.go`.
use Prim.Native.String.{◌++◌}
use mathlib.Core.List.{append-nil, append_assoc}
use cotests.Prelude
use cotests.Prelude.{
  ℕ, ◌+◌, ◌*◌, ◌≡◌, ◌≢◌, ◌<◌, refl, sym, ap, ◌∙◌, subst, inl, inr, String, none, some, List, [],
  ◌∷◌, In,
}
use cotests.Prelude.Int.{ℤ, ◌+ℤ◌}
use cotests.Outcome.{Result, ok, err}
use cotests.Outcome.Action.{on_first, >>=-eq-ok, >>-eq-ok, on_first-eq, same_state}
use cotests.Source.{Bytes, Source, max_int64}
use cotests.Importer.{TestPair}
use cotests.Db.Models.{Artifact, Table, with_id}
use cotests.Db.Gorm.{Gorm, GormLaws, SameElsewhere}
use cotests.Artifact.Directory.{Disk, DiskLaws}
use cotests.Artifact.{Store, World, new_artifact, save}
use cotests.Artifact.Stored.{save-Saved}
use cotests.Content.Files.{FileWorld, counted, plain, save_counted}
use cotests.Content.Files.Archives.{imported_test, import_tests}
use cotests.Content.Files.Importing.{
  In-left, In-last, AreTests, IsTest, IsTest-of_rows, Imports, Imports-cons, rows_of,
}

module _ (d : Disk) (g : Gorm) (digest : Bytes → String) (now : ℕ) where
  open g use {State, rows, create}

  module _ (disk_laws : DiskLaws d) (laws : GormLaws g) (store : Store)
      (bound : store.max_bytes < max_int64) where
    -- A file that was stored has the last row.
    saved_row :
        (random : Result Bytes) (owner_id : ℕ) (filename : String) (content : Bytes)
        (item : Artifact) (v v' : FileWorld d g)
        → save_counted d g digest now store random owner_id filename "text/plain" (plain content) v
          ≡ (ok item, v')
        → (item
            ≡ with_id Table.artifacts item.id (
                new_artifact d g digest owner_id item.storage_key filename "text/plain" now
                  content))
          × (rows Table.artifacts v'.0 ≡ Prelude.◌++◌ (rows Table.artifacts v.0) (item ∷ []))
          × SameElsewhere g Table.artifacts v.0 v'.0
    unfolding save_counted
    saved_row random owner_id filename content item (s, (root, created)) v' h =
        go
          (save d g digest store random now owner_id filename "text/plain" (plain content)
            (s, root))
          refl h
      where
        go :
            (x : Result Artifact × World d g)
            → save d g digest store random now owner_id filename "text/plain"
                (plain content)
                (s, root)
              ≡ x
            → counted d g created x ≡ (ok item, v')
            → (item
                ≡ with_id Table.artifacts item.id (
                    new_artifact d g digest owner_id item.storage_key filename "text/plain" now
                      content))
              × (rows Table.artifacts v'.0 ≡ Prelude.◌++◌ (rows Table.artifacts s) (item ∷ []))
              × SameElsewhere g Table.artifacts s v'.0
        go (err e, w) k j = cc
        go (ok a, (s₁, root₁)) k j =
            let same : a ≡ item = cc in
            let ends : s₁ ≡ v'.0 = ap (λ z. z.1.0) j in
            let saved =
              save-Saved d g disk_laws laws digest store (plain content) random now owner_id
                filename "text/plain" a (s, root) (s₁, root₁) bound k in
            let (row, _, _, added, frame) = saved.row in
            let keyed : saved.key ≡ a.storage_key = sym (ap (λ z. z.storage_key) row) in
            let row' : a
                ≡ with_id Table.artifacts a.id (
                    new_artifact d g digest owner_id a.storage_key filename "text/plain" now
                      content) =
              subst
                (λ key.
                  a
                  ≡ with_id Table.artifacts a.id
                      (new_artifact d g digest owner_id key filename "text/plain" now content))
                keyed row in
            rw (← same, ← ends) (row', added, frame)

    -- The loop, when it returns.
    pub import_tests-Imports :
        (read_zip : Source → Result (List TestPair)) (random : ℕ → Result Bytes)
        (owner_id revision_id : ℕ) (max : ℤ) (i : ℕ) (pairs : List TestPair) (v v' : FileWorld d g)
        → import_tests d g digest now read_zip store random owner_id revision_id max i pairs v
          ≡ (ok tt, v')
        → Imports d g digest now owner_id revision_id max i pairs (rows_of g v.0) (rows_of g v'.0)
    unfolding import_tests AreTests
    import_tests-Imports read_zip random owner_id revision_id max i [] v v' h =
        let (_, same) = same_state h in
        record {
          tests = [];
          files = [];
          tests_added =
              ap (λ z. rows Table.test_cases z.0) same
              ∙ sym (append-nil (rows Table.test_cases v.0));
          files_added =
              ap (λ z. rows Table.artifacts z.0) same ∙ sym (append-nil (rows Table.artifacts v.0));
          are_tests = tt;
          elsewhere = λ u ne ne'. ap (λ z. rows u z.0) same;
        }
    import_tests-Imports read_zip random owner_id revision_id max i (pair ∷ pairs) v v' h =
        let (input, v₁, e₁, h₁) =
          >>=-eq-ok
            (save_counted d g digest now store (random (2 * i)) owner_id (pair.name ++ ".in")
              "text/plain" (plain pair.input))
            _ v v' h in
        let (output, v₂, e₂, h₂) =
          >>=-eq-ok
            (save_counted d g digest now store (random (2 * i + 1)) owner_id (pair.name ++ ".out")
              "text/plain" (plain pair.output))
            _ v₁ v' h₁ in
        let test = imported_test revision_id (max +ℤ 1 +ℤ i) input.id output.id in
        let (t, v₃, e₃, h₃) = >>-eq-ok (on_first (create Table.test_cases test)) _ v₂ v' h₂ in
        let (row_in, added_in, frame_in) =
          saved_row (random (2 * i)) owner_id (pair.name ++ ".in") pair.input input v v₁ e₁ in
        let (row_out, added_out, frame_out) =
          saved_row (random (2 * i + 1)) owner_id (pair.name ++ ".out") pair.output output v₁ v₂
            e₂ in
        let (made, _) = on_first-eq (create Table.test_cases test) (ok t) v₂ v₃ e₃ in
        let (row, _, _, added, frame) = laws.create_ok Table.test_cases test t v₂.0 v₃.0 made in
        let stored : rows Table.artifacts v₃.0
            ≡ Prelude.◌++◌ (rows Table.artifacts v.0) (input ∷ output ∷ []) =
          frame Table.artifacts (λ e. cc)
          ∙ added_out
          ∙ ap (λ l. Prelude.◌++◌ l (output ∷ [])) added_in
          ∙ append_assoc (rows Table.artifacts v.0) (input ∷ []) (output ∷ []) in
        Imports-cons d g digest now owner_id revision_id max i pair pairs t (input ∷ output ∷ [])
          (rows_of g v.0) (rows_of g v₃.0) (rows_of g v'.0)
          (added
            ∙ ap (λ l. Prelude.◌++◌ l (t ∷ []))
                (frame_out Table.test_cases (λ e. cc) ∙ frame_in Table.test_cases (λ e. cc)))
          stored (λ u ne ne'. frame u ne ∙ frame_out u ne' ∙ frame_in u ne')
          (subst (IsTest d g digest now owner_id revision_id max i pair t) (sym stored) (
            IsTest-of_rows d g digest now owner_id revision_id max i pair t input output
              (Prelude.◌++◌ (rows Table.artifacts v.0) (input ∷ output ∷ [])) row row_in row_out
              (subst (In input) (append_assoc (rows Table.artifacts v.0) (input ∷ []) (output ∷ []))
                (In-left (Prelude.◌++◌ (rows Table.artifacts v.0) (input ∷ [])) (output ∷ []) input
                  (In-last (rows Table.artifacts v.0) input)))
              (subst (In output)
                (append_assoc (rows Table.artifacts v.0) (input ∷ []) (output ∷ []))
                (In-last (Prelude.◌++◌ (rows Table.artifacts v.0) (input ∷ [])) output))))
          (import_tests-Imports read_zip random owner_id revision_id max (i + 1) pairs v₃ v' h₃)
