-- ===== src/Content/Access/Spec.antt =====
-- The access rules in terms of the stored rows, apart from the code that checks them.
use cotests.Prelude.{ℕ, ◌≤◌, ◌<◌, ◌≡◌, ◌⊎◌, String, Option, none, some, find?, In}
use cotests.Db.Models.{
  User, Contest, Series, ContestMembership, Problem, Table, Row, has_id, role_admin,
  contest_published,
}
use cotests.Db.Gorm.{Gorm}

-- A bound that is given has been reached, or has not been.
abbrev pub From : Option ℕ → ℕ → Type 0
From none now = Unit
From (some t) now = t ≤ now

abbrev pub Until : Option ℕ → ℕ → Type 0
Until none now = Unit
Until (some t) now = now < t

-- Statements are released at the release time of the series, or at its start.
abbrev pub Released : Option ℕ → Option ℕ → ℕ → Type 0
Released none start_at now = From start_at now
Released (some release) start_at now = release ≤ now

module _ (g : Gorm) where
  open g use {State, rows}

  -- The row that the table holds under a primary key.
  abbrev pub Stored : (t : Table) → ℕ → Row t → State → Type 0
  Stored t id r s = find? (has_id t id) (rows t s) ≡ some r

  -- The user is a member of the contest, in this role.
  abbrev pub HasRole : ℕ → ℕ → String → State → Type 0
  HasRole contest user role s =
      (m : ContestMembership) × In m (rows Table.memberships s)
      × (m.contest_id ≡ contest)
      × (m.user_id ≡ user)
      × (m.role ≡ role)

  abbrev pub IsMember : ℕ → ℕ → State → Type 0
  IsMember contest user s =
      (m : ContestMembership) × In m (rows Table.memberships s)
      × (m.contest_id ≡ contest)
      × (m.user_id ≡ user)

  -- Administrators manage every contest that exists, organizers the contests assigned to them.
  abbrev pub Manages : Option User → ℕ → State → Type 0
  Manages actor contest s =
      (u : User) × (actor ≡ some u)
      × ((c : Contest) × Stored Table.contests contest c s)
      × ((u.role ≡ role_admin) ⊎ HasRole contest u.id "organizer" s)

  -- Administrators manage every problem, others the problems that they own.
  abbrev pub ManagesProblem : Option User → ℕ → Problem → State → Type 0
  ManagesProblem actor id p s =
      (u : User) × (actor ≡ some u)
      × Stored Table.problems id p s
      × ((u.role ≡ role_admin) ⊎ (p.owner_id ≡ u.id))

  -- Members read what is released in a published contest that has started.
  abbrev pub MemberReads : Option User → Series → ℕ → State → Type 0
  MemberReads actor series now s =
      (u : User) × (c : Contest) × (actor ≡ some u)
      × Stored Table.contests series.contest_id c s
      × (c.visibility ≡ contest_published)
      × From c.start_at now
      × Released series.release_at series.start_at now
      × IsMember series.contest_id u.id s

  abbrev pub Reads : Option User → Series → ℕ → State → Type 0
  Reads actor series now s = Manages actor series.contest_id s ⊎ MemberReads actor series now s

  -- Participants submit while both half-open windows are open.
  abbrev pub Submits : Option User → ℕ → ℕ → ℕ → State → Type 0
  Submits actor series_id read_now now s =
      (u : User) × (series : Series) × (c : Contest) × (actor ≡ some u)
      × Stored Table.series series_id series s
      × Stored Table.contests series.contest_id c s
      × Reads actor series read_now s
      × HasRole series.contest_id u.id "participant" s
      × (c.visibility ≡ contest_published)
      × From c.start_at now
      × Until c.end_at now
      × From series.start_at now
      × Until series.end_at now
