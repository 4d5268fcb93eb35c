-- ===== src/Content/Files/Importing.antt =====
-- The rows that the loop of `CommitZIP` of `internal/content/files.go` inserts.
use Prim.Native.String.{◌++◌}
use mathlib.Core.List.{append_assoc}
use cotests.Prelude
use cotests.Prelude.{
  ℕ, ◌+◌, ◌*◌, ◌≡◌, ◌≢◌, ◌<◌, refl, sym, ap, ◌∙◌, subst, inl, inr, String, none, some, List, [],
  ◌∷◌, In,
}
use cotests.Prelude.Int.{ℤ, ◌+ℤ◌}
use cotests.Source.{Bytes}
use cotests.Importer.{TestPair}
use cotests.Db.Models.{TestCase, Artifact, Table, Row, with_id}
use cotests.Db.Gorm.{Gorm}
use cotests.Artifact.Directory.{Disk}
use cotests.Artifact.{new_artifact}
use cotests.Content.Files.Archives.{imported_test}

pub In-left : {A : Type 0} (l m : List A) (x : A) → In x l → In x (Prelude.◌++◌ l m)
In-left [] m x i = absurd i
In-left (y ∷ l) m x (inl e) = inl e
In-left (y ∷ l) m x (inr i) = inr (In-left l m x i)

pub In-last : {A : Type 0} (l : List A) (x : A) → In x (Prelude.◌++◌ l (x ∷ []))
In-last [] x = inl refl
In-last (y ∷ l) x = inr (In-last l x)

-- what the tables hold
abbrev pub Rows : Type 0
Rows = (t : Table) → List (Row t)

abbrev pub rows_of : (g : Gorm) → g.State → Rows
rows_of g s t = g.rows t s

module _ (d : Disk) (g : Gorm) (digest : Bytes → String) (now : ℕ) where
  open g use {State, rows, create}

  -- The row under `id` is that of a text file with the content.
  abbrev pub IsFile : ℕ → ℕ → String → Bytes → List Artifact → Type 0
  IsFile owner_id id filename content l =
      (a : Artifact) × In a l
      × (a
          ≡ with_id Table.artifacts id
              (new_artifact d g digest owner_id a.storage_key filename "text/plain" now content))

  -- The test is the `i`-th of the archive: its position is max+1+i, and its files are those of the
  -- pair.
  abbrev pub IsTest : ℕ → ℕ → ℤ → ℕ → TestPair → TestCase → List Artifact → Type 0
  IsTest owner_id revision_id max i pair t l =
      (t
        ≡ with_id Table.test_cases t.id
            (imported_test revision_id (max +ℤ 1 +ℤ i) t.input_artifact_id t.output_artifact_id))
      × IsFile owner_id t.input_artifact_id (pair.name ++ ".in") pair.input l
      × IsFile owner_id t.output_artifact_id (pair.name ++ ".out") pair.output l

  -- The tests are those of the pairs, in their order, from the `i`-th on.
  unfoldable pub AreTests : ℕ → ℕ → ℤ → ℕ → List TestPair → List TestCase → List Artifact → Type 0
  AreTests owner_id revision_id max i [] [] l = Unit {0}
  AreTests owner_id revision_id max i (pair ∷ pairs) (t ∷ ts) l =
      IsTest owner_id revision_id max i pair t l
      × AreTests owner_id revision_id max (i + 1) pairs ts l
  AreTests owner_id revision_id max i pairs ts l = ⊥

  -- Only tests and artifacts were inserted: those of the pairs.
  pub record Imports (owner_id revision_id : ℕ) (max : ℤ) (i : ℕ) (pairs : List TestPair)
      (before after : Rows) : Type 0 where
    pub tests : List TestCase
    pub files : List Artifact
    pub tests_added : after Table.test_cases ≡ Prelude.◌++◌ (before Table.test_cases) tests
    pub files_added : after Table.artifacts ≡ Prelude.◌++◌ (before Table.artifacts) files
    pub are_tests : AreTests owner_id revision_id max i pairs tests (after Table.artifacts)
    pub elsewhere : (u : Table) → u ≢ Table.test_cases → u ≢ Table.artifacts → after u ≡ before u

  pub IsTest-of_rows :
      (owner_id revision_id : ℕ) (max : ℤ) (i : ℕ) (pair : TestPair) (t : TestCase)
      (input output : Artifact) (l : List Artifact)
      → t
        ≡ with_id Table.test_cases t.id
            (imported_test revision_id (max +ℤ 1 +ℤ i) input.id output.id)
      → input
        ≡ with_id Table.artifacts input.id (
            new_artifact d g digest owner_id input.storage_key
              (pair.name ++ ".in")
              "text/plain"
              now
              pair.input)
      → output
        ≡ with_id Table.artifacts output.id (
            new_artifact d g digest owner_id output.storage_key
              (pair.name ++ ".out")
              "text/plain"
              now
              pair.output)
      → In input l
      → In output l
      → IsTest owner_id revision_id max i pair t l
  IsTest-of_rows owner_id revision_id max i pair t input output l row row_in row_out j k =
      let ei : t.input_artifact_id ≡ input.id = ap (λ z. z.input_artifact_id) row in
      let eo : t.output_artifact_id ≡ output.id = ap (λ z. z.output_artifact_id) row in
      (
        subst
            (λ n.
              t
              ≡ with_id Table.test_cases t.id
                  (imported_test revision_id (max +ℤ 1 +ℤ i) n t.output_artifact_id))
            (sym ei)
            (subst
              (λ n.
                t
                ≡ with_id Table.test_cases t.id
                    (imported_test revision_id (max +ℤ 1 +ℤ i) input.id n))
              (sym eo) row),
        (input, j, rw ei row_in),
        (output, k, rw eo row_out),
      )

  IsTest-left :
      (owner_id revision_id : ℕ) (max : ℤ) (i : ℕ) (pair : TestPair) (t : TestCase)
      (l m : List Artifact)
      → IsTest owner_id revision_id max i pair t l
      → IsTest owner_id revision_id max i pair t (Prelude.◌++◌ l m)
  IsTest-left owner_id revision_id max i pair t l m (row, (a, j, e), (b, k, f)) =
      (row, (a, In-left l m a j, e), (b, In-left l m b k, f))

  -- One test, and then those of the rest of the archive.
  pub Imports-cons :
      (owner_id revision_id : ℕ) (max : ℤ) (i : ℕ) (pair : TestPair) (pairs : List TestPair)
      (t : TestCase) (files : List Artifact) (before middle after : Rows)
      → middle Table.test_cases ≡ Prelude.◌++◌ (before Table.test_cases) (t ∷ [])
      → middle Table.artifacts ≡ Prelude.◌++◌ (before Table.artifacts) files
      → ((u : Table) → u ≢ Table.test_cases → u ≢ Table.artifacts → middle u ≡ before u)
      → IsTest owner_id revision_id max i pair t (middle Table.artifacts)
      → Imports owner_id revision_id max (i + 1) pairs middle after
      → Imports owner_id revision_id max i (pair ∷ pairs) before after
  unfolding AreTests
  Imports-cons owner_id revision_id max i pair pairs t files before middle after et ea frame here
        rest =
      record {
        tests = t ∷ rest.tests;
        files = Prelude.◌++◌ files rest.files;
        tests_added =
            rest.tests_added
            ∙ ap (λ l. Prelude.◌++◌ l rest.tests) et
            ∙ append_assoc (before Table.test_cases) (t ∷ []) rest.tests;
        files_added =
            rest.files_added
            ∙ ap (λ l. Prelude.◌++◌ l rest.files) ea
            ∙ append_assoc (before Table.artifacts) files rest.files;
        are_tests = (
          subst (IsTest owner_id revision_id max i pair t) (sym rest.files_added) (
              IsTest-left owner_id revision_id max i pair t (middle Table.artifacts) rest.files
                here),
          rest.are_tests,
        );
        elsewhere = λ u ne ne'. rest.elsewhere u ne ne' ∙ frame u ne ne';
      }
