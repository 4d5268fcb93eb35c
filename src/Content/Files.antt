-- ===== src/Content/Files.antt =====
-- `internal/content/files.go`: the files of draft revisions. Every write runs in a transaction that
-- also counts the files that it creates (`fileTransaction`). `store` and `digest` are those of the
-- service's file store, `now` is the time and `random` what the random source gives, one value for
-- each file.
pub mod Archives
pub mod Positions
pub mod Importing
pub mod ImportLoop
pub mod Committed
pub mod Commits
pub mod Once
pub mod Collector
pub mod Rollback
pub mod Failures
pub mod ArchiveFailures
pub mod Spared
pub mod Collected
pub mod Freezing
pub mod Drafts
pub mod ArchiveDrafts
pub mod TestRows
pub mod TestDrafts
pub mod Calls
pub mod History
use cotests.Prelude.{
  ℕ, String, Bool, true, false, not, ◌&&◌, ◌||◌, Option, none, some, List, [], ◌∷◌, ◌++◌, ◌==◌,
  if◌then◌else◌, length, take, leb,
}
use cotests.Prelude.Int.{ℤ, is_negative, is_nonpositive, given_and}
use cotests.Outcome.{Error, Result, ok, err, not_found, validation, guard}
use cotests.Outcome.Action.{Action, pure, ask, lift, on_first, with_error, ◌>>=◌, ◌>>◌}
use cotests.Source.{Bytes, Source}
use cotests.Db.Models
use cotests.Db.Models.{User, ProblemRevision, TestCase, Table, has_id}
use cotests.Db.Gorm.{Gorm}
use cotests.Db.Revisions.{lock_draft}
use cotests.Content.Access.{require_user, revision}
use cotests.Content.Assignments.{conflict_draft}
use cotests.Artifact.Directory.{Disk}
use cotests.Artifact.{Store, World, remove_key, save}

pub record TestInput : Type 0 where
  pub position : ℤ
  pub is_sample : Bool
  pub points : Option ℤ
  pub time_limit_override_millis : Option ℤ
  pub input : Bytes
  pub output : Bytes

abbrev pub plain : Bytes → Source
plain content = record { content = content; broken = none }

abbrev pub test_of : ℕ → ℕ → TestCase → Bool
test_of id revision t = t.id == id && t.problem_revision_id == revision

-- the columns that `SaveTest` writes
abbrev pub with_test : TestInput → ℕ → ℕ → TestCase → TestCase
with_test given input output stored = record stored {
  position = given.position;
  is_sample = given.is_sample;
  points = given.points;
  time_limit_override_millis = given.time_limit_override_millis;
  input_artifact_id = input;
  output_artifact_id = output;
}

abbrev pub new_test : TestInput → ℕ → ℕ → ℕ → ℕ → TestCase
new_test given id revision input output = record {
  id = id;
  problem_revision_id = revision;
  position = given.position;
  is_sample = given.is_sample;
  points = given.points;
  time_limit_override_millis = given.time_limit_override_millis;
  input_artifact_id = input;
  output_artifact_id = output;
}

abbrev pub with_pdf : ℕ → ProblemRevision → ProblemRevision
with_pdf id r = record r { pdf_artifact_id = some id }

-- `io.ReadFull` got five bytes, and they are "%PDF-"
abbrev pub is_pdf : Bytes → Bool
is_pdf (a ∷ b ∷ c ∷ e ∷ f ∷ l) = a == 0x25 && b == 0x50 && c == 0x44 && e == 0x46 && f == 0x2d
is_pdf l = false

module _ (d : Disk) (g : Gorm) where
  open d use {Root}
  open g use {State, first, create, update, delete, transaction, transaction_with}

  -- the world inside `fileTransaction`, with the list `created`
  abbrev pub FileWorld : Type 0
  FileWorld = State × (Root × List Models.Artifact)

  abbrev pub counted :
      List Models.Artifact → Result Models.Artifact × World d g → Result Models.Artifact × FileWorld
  counted created (ok item, (s, root)) = (ok item, (s, (root, created ++ item ∷ [])))
  counted created (err e, (s, root)) = (err e, (s, (root, created)))

  -- the loop over `created`; errors are dropped
  abbrev pub remove_created : List Models.Artifact → Root → Root
  remove_created [] root = root
  remove_created (item ∷ l) root = remove_created l (remove_key d item.storage_key root).1

  abbrev pub compensated : {A : Type 0} → Result A × FileWorld → Result A × World d g
  compensated (ok a, (s, (root, created))) = (ok a, (s, root))
  compensated (err e, (s, (root, created))) = (err e, (s, remove_created created root))

  unfoldable pub file_transaction : {A : Type 0} → Action FileWorld A → Action (World d g) A
  file_transaction fn (s, root) = compensated (transaction_with fn (s, (root, [])))

  -- a call of the database alone
  abbrev pub db_transaction : {A : Type 0} → Action State A → Action (World d g) A
  db_transaction m = on_first (transaction m)

  -- `db.LockDraft` with its error as the callers report it
  unfoldable pub locked : {W : Type 0} → ℕ → Action (State × W) (Unit {0})
  locked revision_id = with_error conflict_draft (on_first (lock_draft g revision_id))

  -- the check of `Service.Revision`
  abbrev pub checked : Option User → ℕ → Action (World d g) ProblemRevision
  checked actor revision_id = ask (λ w. revision g actor revision_id w.0)

  unfoldable pub delete_test_transaction : ℕ → ℕ → Action State (Unit {0})
  delete_test_transaction revision_id test_id = do
    with_error conflict_draft (lock_draft g revision_id)
    n ← delete Table.test_cases (test_of test_id revision_id)
    lift (guard (n == 1) not_found)

  unfoldable pub delete_test : Option User → ℕ → ℕ → Action (World d g) (Unit {0})
  delete_test actor revision_id test_id = do
    checked actor revision_id
    db_transaction (delete_test_transaction revision_id test_id)

  -- what `SaveTest` writes once both files are stored
  unfoldable pub write_test : TestInput → ℕ → ℕ → ℕ → ℕ → Action State TestCase
  write_test given test_id revision_id input output =
      if test_id == 0
      then create Table.test_cases (new_test given 0 revision_id input output)
      else (update Table.test_cases (has_id Table.test_cases test_id) (with_test given input output)
          >> pure (new_test given test_id revision_id input output))

  -- a test that is to be changed must be one of the revision
  unfoldable pub find_test : ℕ → ℕ → Action FileWorld (Unit {0})
  find_test test_id revision_id =
      if test_id == 0
      then pure tt
      else (ask (λ w. first Table.test_cases (test_of test_id revision_id) w.0) >> pure tt)

  module _ (digest : Bytes → String) (now : ℕ) where
    -- the function `save` that `fileTransaction` passes on
    unfoldable pub save_counted :
        Store → Result Bytes → ℕ → String → String → Source → Action FileWorld Models.Artifact
    save_counted store random owner_id filename content_type source (s, (root, created)) =
        counted created
          (save d g digest store random now owner_id filename content_type source (s, root))

    unfoldable pub save_test_transaction :
        Store → Result Bytes → Result Bytes → ℕ → ℕ → ℕ → TestInput → Action FileWorld TestCase
    unfolding locked find_test save_counted
    save_test_transaction store random_in random_out user_id revision_id test_id given = do
      locked revision_id
      find_test test_id revision_id
      input ← save_counted store random_in user_id "input.txt" "text/plain" (plain given.input)
      output ← save_counted store random_out user_id "output.txt" "text/plain" (plain given.output)
      on_first (write_test given test_id revision_id input.id output.id)

    -- the actor is a user once `Revision` has passed
    unfoldable pub save_test :
        Store
        → Result Bytes
        → Result Bytes
        → Option User
        → ℕ
        → ℕ
        → TestInput
        → Action (World d g) TestCase
    unfolding save_test_transaction
    save_test store random_in random_out actor revision_id test_id given = do
      checked actor revision_id
      user ← lift (require_user actor)
      lift (
          guard
            (not (
              is_negative given.position
              || given_and is_negative given.points
              || given_and is_nonpositive given.time_limit_override_millis))
            (validation "invalid test metadata"))
      file_transaction
          (save_test_transaction store random_in random_out user.id revision_id test_id given)

    unfoldable pub upload_transaction :
        Store → Result Bytes → ℕ → ℕ → Source → Action FileWorld Models.Artifact
    upload_transaction store random user_id revision_id source = do
      locked revision_id
      item ← save_counted store random user_id "statement.pdf" "application/pdf" source
      on_first (update Table.revisions (has_id Table.revisions revision_id) (with_pdf item.id))
      pure item

    -- the first five bytes must be "%PDF-"; they are put back before the rest
    unfoldable pub upload_pdf :
        Store → Result Bytes → Option User → ℕ → Source → Action (World d g) Models.Artifact
    upload_pdf store random actor revision_id source = do
      checked actor revision_id
      user ← lift (require_user actor)
      lift (guard (is_pdf source.content) (validation "a PDF file is required"))
      file_transaction (upload_transaction store random user.id revision_id source)
