-- ===== src/Content/Files/Archives.antt =====
-- Archives of tests in `internal/content/files.go`: `PreviewZIP` stores an archive and lists its
-- tests, `CommitZIP` makes tests of it. `read_zip` is `importer.ReadTestZIP` with the limits of the
-- service (`read_test_zip` of `Importer`).
use cotests.Prelude.{
  ℕ, ◌+◌, ◌*◌, ◌^◌, String, Bool, false, not, ◌&&◌, ◌||◌, Option, none, some, List, [], ◌∷◌, ◌==◌,
  length, any, ltb, map,
}
use Prim.Native.String.{◌++◌}
use cotests.Prelude.Int.{ℤ, pos, negsuc, max_ℤ, ◌+ℤ◌}
use cotests.Outcome.{Error, Result, ok, err, conflict, failure, validation, guard}
use cotests.Outcome.Action.{Action, pure, ask, lift, on_first, ◌>>=◌, ◌>>◌}
use cotests.Source.{Bytes, Source, read_beyond}
use cotests.Importer.{TestPair, Limits}
use cotests.Db.Models.{User, TestCase, ImportPreview, Table, has_id, revision_draft}
use cotests.Db.Gorm.{Gorm}
use cotests.Db.Revisions.{of_revision}
use cotests.Content.Access.{require_user}
use cotests.Artifact.Directory.{Disk}
use cotests.Artifact.{Store, World, open_artifact}
use cotests.Content.Files.{FileWorld, plain, file_transaction, locked, checked, save_counted}
use cotests.Prelude.{str_eq}

pub record PreviewTest : Type 0 where
  pub name : String
  pub input_bytes : ℕ
  pub output_bytes : ℕ

pub record Preview : Type 0 where
  pub id : ℕ
  pub expires_at : ℕ
  pub tests : List PreviewTest

abbrev preview_test : TestPair → PreviewTest
preview_test pair = record {
  name = pair.name;
  input_bytes = length pair.input;
  output_bytes = length pair.output;
}

abbrev pub shown : ImportPreview → List TestPair → Preview
shown preview pairs = record {
  id = preview.id;
  expires_at = preview.expires_at;
  tests = map preview_test pairs;
}

-- `invalid(err.Error())`
abbrev pub invalid : Error → Error
invalid (failure text) = validation text
invalid e = validation "archive"

abbrev pub or_invalid : {A : Type 0} → Result A → Result A
or_invalid (ok a) = ok a
or_invalid (err e) = err (invalid e)

abbrev pub too_long : Store → TestPair → Bool
too_long store pair =
    ltb store.max_bytes (length pair.input) || ltb store.max_bytes (length pair.output)

-- time.Hour in nanoseconds
abbrev pub hour : ℕ
hour = 3600000000000

-- the condition of the query for the preview
abbrev pub preview_of : ℕ → ℕ → ℕ → ImportPreview → Bool
preview_of id owner revision p = p.id == id && p.owner_id == owner && p.revision_id == revision

abbrev pub committed : ℕ → ImportPreview → ImportPreview
committed now p = record p { committed_at = some now }

abbrev pub new_preview : ℕ → ℕ → ℕ → ℕ → ImportPreview
new_preview owner_id revision_id artifact_id now = record {
  id = 0;
  owner_id = owner_id;
  revision_id = revision_id;
  artifact_id = artifact_id;
  expires_at = now + hour;
  committed_at = none;
}

-- SELECT COALESCE(MAX(position), -1)
abbrev pub greatest : List TestCase → Option ℤ
greatest [] = none
greatest (t ∷ l) = elim (greatest l) [ none ↦ some t.position | some m ↦ some (max_ℤ t.position m) ]

abbrev pub last_position : List TestCase → ℤ
last_position tests = elim (greatest tests) [ none ↦ negsuc 0 | some m ↦ m ]

-- `max > 1<<30`
abbrev pub beyond_positions : ℤ → Bool
beyond_positions (pos n) = ltb (2 ^ 30) n
beyond_positions (negsuc n) = false

abbrev pub imported_test : ℕ → ℤ → ℕ → ℕ → TestCase
imported_test revision position input output = record {
  id = 0;
  problem_revision_id = revision;
  position = position;
  is_sample = false;
  points = none;
  time_limit_override_millis = none;
  input_artifact_id = input;
  output_artifact_id = output;
}

-- a preview that is committed is left alone
abbrev pub unless : {S : Type 0} → Option ℕ → Action S (Unit {0}) → Action S (Unit {0})
unless (some at) m = pure tt
unless none m = m

module _ (d : Disk) (g : Gorm) where
  open g use {first, find, create, update}

  module _ (digest : Bytes → String) (now : ℕ) (read_zip : Source → Result (List TestPair)) where
    -- the loop of `CommitZIP`: the i-th test gets the position max+1+i; `random k` is the k-th
    -- value of the random source
    unfoldable pub import_tests :
        Store
        → (ℕ → Result Bytes)
        → ℕ
        → ℕ
        → ℤ
        → ℕ
        → List TestPair
        → Action (FileWorld d g) (Unit {0})
    import_tests store random user_id revision_id max i [] = pure tt
    import_tests store random user_id revision_id max i (pair ∷ pairs) = do
      input ←
          save_counted d g digest now store (random (2 * i)) user_id (pair.name ++ ".in")
            "text/plain" (plain pair.input)
      output ←
          save_counted d g digest now store (random (2 * i + 1)) user_id (pair.name ++ ".out")
            "text/plain" (plain pair.output)
      on_first
          (create Table.test_cases (imported_test revision_id (max +ℤ 1 +ℤ i) input.id output.id))
      import_tests store random user_id revision_id max (i + 1) pairs

    -- what `CommitZIP` does with a preview that is not committed yet
    unfoldable pub commit_preview :
        Store → (ℕ → Result Bytes) → ℕ → ℕ → ImportPreview → Action (FileWorld d g) (Unit {0})
    unfolding import_tests
    commit_preview store random user_id revision_id preview = do
      lift (guard (ltb now preview.expires_at) conflict)
      item ← ask (λ w. first Table.artifacts (has_id Table.artifacts preview.artifact_id) w.0)
      file ← ask (λ w. open_artifact d item w.1.0)
      pairs ← lift (or_invalid (read_zip file))
      tests ← ask (λ w. find Table.test_cases (of_revision revision_id) w.0)
      lift (
          guard (not (beyond_positions (last_position tests)))
            (validation "test positions exceed limit"))
      import_tests store random user_id revision_id (last_position tests) 0 pairs
      on_first (update Table.previews (has_id Table.previews preview.id) (committed now))
      pure tt

    unfoldable pub commit_transaction :
        Store → (ℕ → Result Bytes) → ℕ → ℕ → ℕ → Action (FileWorld d g) (Unit {0})
    commit_transaction store random user_id revision_id preview_id = do
      locked d g revision_id
      preview ← ask (λ w. first Table.previews (preview_of preview_id user_id revision_id) w.0)
      unless preview.committed_at (commit_preview store random user_id revision_id preview)

    unfoldable pub commit_zip :
        Store → (ℕ → Result Bytes) → Option User → ℕ → ℕ → Action (World d g) (Unit {0})
    unfolding commit_transaction
    commit_zip store random actor revision_id preview_id = do
      checked d g actor revision_id
      user ← lift (require_user actor)
      file_transaction d g (commit_transaction store random user.id revision_id preview_id)

    unfoldable pub preview_transaction :
        Store → Result Bytes → ℕ → ℕ → Bytes → Action (FileWorld d g) ImportPreview
    preview_transaction store random user_id revision_id raw = do
      locked d g revision_id
      item ←
          save_counted d g digest now store random user_id "tests.zip" "application/zip" (plain raw)
      on_first (create Table.previews (new_preview user_id revision_id item.id now))

    -- the archive is bounded by the limit of imports and not by that of a single file
    unfoldable pub preview_zip :
        Limits → Store → Result Bytes → Option User → ℕ → Source → Action (World d g) Preview
    unfolding preview_transaction
    preview_zip limits store random actor revision_id source = do
      revision ← checked d g actor revision_id
      user ← lift (require_user actor)
      lift (guard (str_eq revision.state revision_draft) conflict)
      raw ← lift (read_beyond limits.max_bytes source)
      pairs ← lift (or_invalid (read_zip (plain raw)))
      lift (guard (not (length pairs == 0)) (validation "archive must contain tests"))
      lift
          (guard (not (any (too_long store) pairs)) (validation "test exceeds artifact size limit"))
      preview ← file_transaction d g (
          preview_transaction (record store { max_bytes = limits.max_bytes }) random user.id
            revision_id raw)
      pure (shown preview pairs)
