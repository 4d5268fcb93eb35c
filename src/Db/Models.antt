-- ===== src/Db/Models.antt =====
-- `internal/db/models.go`: the rows of the tables. Times are nanoseconds since Go's zero time, in
-- UTC; identifiers are numbers, and 0 stands for a row that is not stored yet. The bookkeeping
-- columns `CreatedAt` and `UpdatedAt` are kept only where the program reads them (artifacts).
use cotests.Prelude.{ℕ, ◌≡◌, ◌≢◌, refl, ap, sym, String, Bool, Option, ◌==◌}
use cotests.Prelude.Int.{ℤ}

pub record User : Type 0 where
  pub id : ℕ
  pub email : String
  pub password_hash : String
  pub name : String
  pub role : String

pub record Session : Type 0 where
  pub id : ℕ
  pub user_id : ℕ
  pub token_hash : String
  pub expires_at : ℕ

pub record Contest : Type 0 where
  pub id : ℕ
  pub title : String
  pub description : String
  pub visibility : String
  pub start_at : Option ℕ
  pub end_at : Option ℕ

pub record Series : Type 0 where
  pub id : ℕ
  pub contest_id : ℕ
  pub title : String
  pub position : ℤ
  pub start_at : Option ℕ
  pub end_at : Option ℕ
  pub release_at : Option ℕ

pub record ContestMembership : Type 0 where
  pub id : ℕ
  pub contest_id : ℕ
  pub user_id : ℕ
  pub role : String

pub record ImportPreview : Type 0 where
  pub id : ℕ
  pub owner_id : ℕ
  pub revision_id : ℕ
  pub artifact_id : ℕ
  pub expires_at : ℕ
  pub committed_at : Option ℕ

pub record Artifact : Type 0 where
  pub id : ℕ
  pub owner_id : ℕ
  pub storage_key : String
  pub sha256 : String
  pub size_bytes : ℕ
  pub content_type : String
  pub filename : String
  pub created_at : ℕ

pub record Problem : Type 0 where
  pub id : ℕ
  pub owner_id : ℕ
  pub title : String
  pub code : String
  pub kind : String

pub record ProblemRevision : Type 0 where
  pub id : ℕ
  pub problem_id : ℕ
  pub number : ℕ
  pub state : String
  pub statement : String
  pub pdf_artifact_id : Option ℕ
  pub time_limit_millis : Option ℤ
  pub memory_limit_kib : Option ℤ
  pub language_metadata : String
  pub checker_metadata : String
  pub published_at : Option ℕ

pub record SeriesProblem : Type 0 where
  pub id : ℕ
  pub series_id : ℕ
  pub problem_id : ℕ
  pub published_revision_id : ℕ
  pub code : String
  pub position : ℤ

pub record TestCase : Type 0 where
  pub id : ℕ
  pub problem_revision_id : ℕ
  pub position : ℤ
  pub is_sample : Bool
  pub points : Option ℤ
  pub time_limit_override_millis : Option ℤ
  pub input_artifact_id : ℕ
  pub output_artifact_id : ℕ

abbrev pub role_admin : String
role_admin = "admin"

abbrev pub role_user : String
role_user = "user"

abbrev pub contest_draft : String
contest_draft = "draft"

abbrev pub contest_published : String
contest_published = "published"

abbrev pub revision_draft : String
revision_draft = "draft"

abbrev pub revision_published : String
revision_published = "published"

-- The tables, and the rows of each.
pub data Table : Type 0 where
  users sessions contests series memberships previews : Table
  artifacts problems revisions series_problems test_cases : Table

abbrev pub Row : Table → Type 0
Row Table.users = User
Row Table.sessions = Session
Row Table.contests = Contest
Row Table.series = Series
Row Table.memberships = ContestMembership
Row Table.previews = ImportPreview
Row Table.artifacts = Artifact
Row Table.problems = Problem
Row Table.revisions = ProblemRevision
Row Table.series_problems = SeriesProblem
Row Table.test_cases = TestCase

pub test_cases-ne-revisions : Table.test_cases ≢ Table.revisions
test_cases-ne-revisions e = cc

pub revisions-ne-test_cases : Table.revisions ≢ Table.test_cases
revisions-ne-test_cases e = cc

-- The primary key, and a row with another one.
abbrev pub row_id : (t : Table) → Row t → ℕ
row_id Table.users r = r.id
row_id Table.sessions r = r.id
row_id Table.contests r = r.id
row_id Table.series r = r.id
row_id Table.memberships r = r.id
row_id Table.previews r = r.id
row_id Table.artifacts r = r.id
row_id Table.problems r = r.id
row_id Table.revisions r = r.id
row_id Table.series_problems r = r.id
row_id Table.test_cases r = r.id

abbrev pub with_id : (t : Table) → ℕ → Row t → Row t
with_id Table.users n r = record r { id = n }
with_id Table.sessions n r = record r { id = n }
with_id Table.contests n r = record r { id = n }
with_id Table.series n r = record r { id = n }
with_id Table.memberships n r = record r { id = n }
with_id Table.previews n r = record r { id = n }
with_id Table.artifacts n r = record r { id = n }
with_id Table.problems n r = record r { id = n }
with_id Table.revisions n r = record r { id = n }
with_id Table.series_problems n r = record r { id = n }
with_id Table.test_cases n r = record r { id = n }

-- The condition of `First(&row, id)` and of `Where("id = ?", id)`.
abbrev pub has_id : (t : Table) → ℕ → Row t → Bool
has_id t n r = row_id t r == n

pub row_id-with_id : (t : Table) (n : ℕ) (r : Row t) → row_id t (with_id t n r) ≡ n
row_id-with_id Table.users n r = refl
row_id-with_id Table.sessions n r = refl
row_id-with_id Table.contests n r = refl
row_id-with_id Table.series n r = refl
row_id-with_id Table.memberships n r = refl
row_id-with_id Table.previews n r = refl
row_id-with_id Table.artifacts n r = refl
row_id-with_id Table.problems n r = refl
row_id-with_id Table.revisions n r = refl
row_id-with_id Table.series_problems n r = refl
row_id-with_id Table.test_cases n r = refl

-- Writing the primary key that is there changes nothing.
pub with_id_self : (t : Table) (n : ℕ) (r : Row t) → row_id t r ≡ n → with_id t n r ≡ r
with_id_self Table.users n r e = ap (λ k. record r { id = k }) (sym e)
with_id_self Table.sessions n r e = ap (λ k. record r { id = k }) (sym e)
with_id_self Table.contests n r e = ap (λ k. record r { id = k }) (sym e)
with_id_self Table.series n r e = ap (λ k. record r { id = k }) (sym e)
with_id_self Table.memberships n r e = ap (λ k. record r { id = k }) (sym e)
with_id_self Table.previews n r e = ap (λ k. record r { id = k }) (sym e)
with_id_self Table.artifacts n r e = ap (λ k. record r { id = k }) (sym e)
with_id_self Table.problems n r e = ap (λ k. record r { id = k }) (sym e)
with_id_self Table.revisions n r e = ap (λ k. record r { id = k }) (sym e)
with_id_self Table.series_problems n r e = ap (λ k. record r { id = k }) (sym e)
with_id_self Table.test_cases n r e = ap (λ k. record r { id = k }) (sym e)
