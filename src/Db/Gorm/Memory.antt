-- ===== src/Db/Gorm/Memory.antt =====
-- A database in memory that runs every statement and checks no constraint: the engine that the
-- tests and the examples of the theorems run on.
pub mod Rows
pub mod Laws
use Prim.Native.Nat.{max}
use cotests.Prelude.{
  ℕ, suc, ◌≤◌, ◌<◌, ◌≡◌, ◌≢◌, refl, ap, sym, subst, ◌∙◌, Bool, not, Option, none, some, List, [],
  ◌∷◌, ◌++◌, find?, keep, count_where, map_where, In, In-keep, keep-In, Option-cases, Bool-cases,
  ltb, inl, inr, arith, if◌then◌else◌,
}
use cotests.Outcome.{Error, Result, ok, err, not_found}
use cotests.Db.Models
use cotests.Db.Models.{Table, Row, row_id, with_id, has_id, row_id-with_id}
use cotests.Db.Gorm.{Gorm, GormLaws, IsReliable, SameElsewhere, Created, Table-discrete}

pub record Tables : Type 0 where
  pub users : List Models.User
  pub sessions : List Models.Session
  pub contests : List Models.Contest
  pub series : List Models.Series
  pub memberships : List Models.ContestMembership
  pub previews : List Models.ImportPreview
  pub artifacts : List Models.Artifact
  pub problems : List Models.Problem
  pub revisions : List Models.ProblemRevision
  pub series_problems : List Models.SeriesProblem
  pub test_cases : List Models.TestCase

abbrev pub empty : Tables
empty = record {
  users = [];
  sessions = [];
  contests = [];
  series = [];
  memberships = [];
  previews = [];
  artifacts = [];
  problems = [];
  revisions = [];
  series_problems = [];
  test_cases = [];
}

abbrev pub rows_of : (t : Table) → Tables → List (Row t)
rows_of Table.users s = s.users
rows_of Table.sessions s = s.sessions
rows_of Table.contests s = s.contests
rows_of Table.series s = s.series
rows_of Table.memberships s = s.memberships
rows_of Table.previews s = s.previews
rows_of Table.artifacts s = s.artifacts
rows_of Table.problems s = s.problems
rows_of Table.revisions s = s.revisions
rows_of Table.series_problems s = s.series_problems
rows_of Table.test_cases s = s.test_cases

abbrev pub with_rows : (t : Table) → List (Row t) → Tables → Tables
with_rows Table.users l s = record s { users = l }
with_rows Table.sessions l s = record s { sessions = l }
with_rows Table.contests l s = record s { contests = l }
with_rows Table.series l s = record s { series = l }
with_rows Table.memberships l s = record s { memberships = l }
with_rows Table.previews l s = record s { previews = l }
with_rows Table.artifacts l s = record s { artifacts = l }
with_rows Table.problems l s = record s { problems = l }
with_rows Table.revisions l s = record s { revisions = l }
with_rows Table.series_problems l s = record s { series_problems = l }
with_rows Table.test_cases l s = record s { test_cases = l }

abbrev answer : {A : Type 0} → Option A → Result A
answer none = err not_found
answer (some a) = ok a

-- The first among the greatest.
abbrev better : {A : Type 0} → (A → ℕ) → A → Option A → Option A
better key x none = some x
better key x (some y) = if ltb (key x) (key y) then some y else some x

abbrev top? : {A : Type 0} → (A → ℕ) → List A → Option A
top? key [] = none
top? key (x ∷ l) = better key x (top? key l)

abbrev next_id : (t : Table) → List (Row t) → ℕ
next_id t [] = 1
next_id t (r ∷ l) = max (suc (row_id t r)) (next_id t l)

abbrev insert_row : (t : Table) → Row t → Tables → Result (Row t) × Tables
insert_row t r s =
    let r' = with_id t (next_id t (rows_of t s)) r in
    (ok r', with_rows t (rows_of t s ++ r' ∷ []) s)

abbrev roll_back : {A : Type 0} → Tables → Result A × Tables → Result A × Tables
roll_back s (ok a, s') = (ok a, s')
roll_back s (err e, s') = (err e, s)

abbrev roll_back_with : {A W : Type 0} → Tables → Result A × (Tables × W) → Result A × (Tables × W)
roll_back_with s (ok a, sw) = (ok a, sw)
roll_back_with s (err e, (s', w)) = (err e, (s, w))

abbrev upsert_row :
    (t : Table)
    → (Row t → Bool)
    → (Row t → Row t)
    → Row t
    → Option (Row t)
    → Tables
    → Result (Row t) × Tables
upsert_row t p f r none s = insert_row t r s
upsert_row t p f r (some q) s = (ok (f q), with_rows t (map_where p f (rows_of t s)) s)

abbrev pub memory : Gorm
memory = record {
  State = Tables;
  rows = rows_of;
  first = λ t p s. answer (find? p (rows_of t s));
  first_desc = λ t key p s. answer (top? key (keep p (rows_of t s)));
  find = λ t p s. ok (keep p (rows_of t s));
  count = λ t p s. ok (count_where p (rows_of t s));
  create = insert_row;
  upsert = λ t p f r s. upsert_row t p f r (find? p (rows_of t s)) s;
  update =
      λ t p f s. (ok (count_where p (rows_of t s)), with_rows t (map_where p f (rows_of t s)) s);
  delete = λ t p s.
      (ok (count_where p (rows_of t s)), with_rows t (keep (λ r. not (p r)) (rows_of t s)) s);
  transaction = λ m s. roll_back s (m s);
  transaction_with = λ m s. roll_back_with s.0 (m s);
}
