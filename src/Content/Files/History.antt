-- ===== src/Content/Files/History.antt =====
-- Histories of the whole program as far as revisions are concerned: any sequence of the calls of
-- `internal/db/problems.go` and of `internal/content/files.go`, each returning or failing.
use cotests.Prelude.{ℕ, ◌≡◌, subst, String, Option, List}
use cotests.Outcome.{Error, Result}
use cotests.Outcome.Keeps.{Keeps-at}
use cotests.Source.{Bytes, Source}
use cotests.Importer.{TestPair, Limits}
use cotests.Db.Models.{User, Artifact, TestCase, Table}
use cotests.Db.Gorm.{Gorm, GormLaws}
use cotests.Db.Revisions.Rows.{UniqueIds}
use cotests.Db.Revisions.Frozen.{revisions_of, Frozen}
use cotests.Db.Revisions.TestKeys.{UniqueTests}
use cotests.Db.Revisions.History.{Step, Step-Safe, Step-KeepsTests}
use cotests.Artifact.Directory.{Disk}
use cotests.Artifact.{Store, World}
use cotests.Content.Files.{TestInput, delete_test, save_test, upload_pdf}
use cotests.Content.Files.Archives.{Preview, commit_zip, preview_zip}
use cotests.Content.Files.Collector.{collect}
use cotests.Content.Files.Freezing.{Freezes, Freezes-of, Freezes-trans}
use cotests.Content.Files.Calls.{
  FreezesIn, freezes_order, save_test-Keeps, upload_pdf-Keeps, commit_zip-Keeps, preview_zip-Keeps,
  delete_test-Keeps, collect-Keeps,
}

module _ (d : Disk) (g : Gorm) (unmarshal : String → Option (List String))
    (digest : Bytes → String) where
  open g use {State}

  pub data FileStep (w w' : World d g) : Type 0 where
    -- a call of `internal/db/problems.go`, or a write elsewhere; the files may change in any way
    revisions_written : Step g unmarshal w.0 w'.0 → FileStep w w'
    test_saved :
        (now : ℕ) (store : Store) (random_in random_out : Result Bytes) (actor : Option User)
        (revision_id test_id : ℕ) (given : TestInput) (x : Result TestCase)
        → save_test d g digest now store random_in random_out actor revision_id test_id given w
          ≡ (x, w')
        → FileStep w w'
    test_deleted :
        (actor : Option User) (revision_id test_id : ℕ) (x : Result (Unit {0}))
        → delete_test d g actor revision_id test_id w ≡ (x, w')
        → FileStep w w'
    pdf_uploaded :
        (now : ℕ) (store : Store) (random : Result Bytes) (actor : Option User) (revision_id : ℕ)
        (source : Source) (x : Result Artifact)
        → upload_pdf d g digest now store random actor revision_id source w ≡ (x, w')
        → FileStep w w'
    zip_previewed :
        (now : ℕ) (read_zip : Source → Result (List TestPair)) (limits : Limits) (store : Store)
        (random : Result Bytes) (actor : Option User) (revision_id : ℕ) (source : Source)
        (x : Result Preview)
        → preview_zip d g digest now read_zip limits store random actor revision_id source w
          ≡ (x, w')
        → FileStep w w'
    zip_committed :
        (now : ℕ) (read_zip : Source → Result (List TestPair)) (store : Store)
        (random : ℕ → Result Bytes) (actor : Option User) (revision_id preview_id : ℕ)
        (x : Result (Unit {0}))
        → commit_zip d g digest now read_zip store random actor revision_id preview_id w ≡ (x, w')
        → FileStep w w'
    garbage_collected :
        (now : ℕ) (cancelled : String → Option Error) (actor : Option User)
        → (collect d g now cancelled actor w).2 ≡ w'
        → FileStep w w'

  pub data FileReach (w : World d g) : World d g → Type 0 where
    here : FileReach w w
    next : (w₁ w₂ : World d g) → FileReach w w₁ → FileStep w₁ w₂ → FileReach w w₂

  module _ (laws : GormLaws g) where
    FileStep-Freezes : (w w' : World d g) → FileStep w w' → Freezes g w.0 w'.0
    FileStep-Freezes w w' (revisions_written step) =
        Freezes-of g w.0 w'.0 (Step-Safe g unmarshal laws w.0 w'.0 step)
          (Step-KeepsTests g unmarshal laws w.0 w'.0 step)
    FileStep-Freezes w w'
          (test_saved now store random_in random_out actor revision_id test_id given x h) =
        Keeps-at (FreezesIn d g laws digest)
          (save_test d g digest now store random_in random_out actor revision_id test_id given) x w
          w'
          (save_test-Keeps d g laws digest now store random_in random_out actor revision_id test_id
            given)
          h
    FileStep-Freezes w w' (test_deleted actor revision_id test_id x h) =
        Keeps-at (FreezesIn d g laws digest) (delete_test d g actor revision_id test_id) x w w'
          (delete_test-Keeps d g laws digest actor revision_id test_id) h
    FileStep-Freezes w w' (pdf_uploaded now store random actor revision_id source x h) =
        Keeps-at (FreezesIn d g laws digest)
          (upload_pdf d g digest now store random actor revision_id source) x w w'
          (upload_pdf-Keeps d g laws digest now store random actor revision_id source) h
    FileStep-Freezes w w'
          (zip_previewed now read_zip limits store random actor revision_id source x h) =
        Keeps-at (FreezesIn d g laws digest)
          (preview_zip d g digest now read_zip limits store random actor revision_id source) x w w'
          (preview_zip-Keeps d g laws digest now read_zip limits store random actor revision_id
            source)
          h
    FileStep-Freezes w w'
          (zip_committed now read_zip store random actor revision_id preview_id x h) =
        Keeps-at (FreezesIn d g laws digest)
          (commit_zip d g digest now read_zip store random actor revision_id preview_id) x w w'
          (commit_zip-Keeps d g laws digest now read_zip store random actor revision_id preview_id)
          h
    FileStep-Freezes w w' (garbage_collected now cancelled actor e) =
        subst (λ z. Freezes g w.0 z.0) e (collect-Keeps d g laws digest now cancelled actor w)

    FileReach-Freezes : (w w' : World d g) → FileReach w w' → Freezes g w.0 w'.0
    FileReach-Freezes w w' here = (freezes_order d g laws digest).reflexive w
    FileReach-Freezes w w' (next w₁ w₂ r step) =
        Freezes-trans g w.0 w₁.0 w₂.0 (FileReach-Freezes w w₁ r) (FileStep-Freezes w₁ w₂ step)

    -- From a state in which revisions and tests have distinct primary keys, after any history of
    -- calls on revisions, tests, statements and archives, collections included, each returning or
    -- failing: every revision that was published is stored with the same columns, and the rows of
    -- its tests are the same.
    pub FileReach-Frozen :
        (w w' : World d g)
        → FileReach w w'
        → UniqueIds (revisions_of g w.0)
        → UniqueTests (g.rows Table.test_cases w.0)
        → Frozen g w.0 w'.0
    FileReach-Frozen w w' r unique unique_tests = (FileReach-Freezes w w' r unique unique_tests).0
