-- ===== src/Db/Contests/Public.antt =====
-- What the public pages can show (`ListPublicContests` and `GetPublicContest` of
-- `internal/db/contests.go`).
use cotests.Prelude.{ℕ, ◌≡◌, ◌↔◌, List, arith, eq_iff, In, In-keep, keep-In, find?-some}
use cotests.Outcome.{ok}
use cotests.Db.Models.{Contest, Table, contest_published}
use cotests.Db.Gorm.{Gorm, GormLaws}
use cotests.Db.Contests.{is_public, list_public_contests, get_public_contest}

module _ (g : Gorm) (laws : GormLaws g) where
  open g use {State, rows}

  -- The public list holds every published contest and no other one.
  list_public_contests_iff :
      (s : State) (l : List Contest)
      → list_public_contests g s ≡ ok l
      → (c : Contest) → In c l ↔ (In c (rows Table.contests s) × (c.visibility ≡ contest_published))
  unfolding list_public_contests
  list_public_contests_iff s l h c =
      let found = laws.find_ok Table.contests is_public s l h c in
      (
        λ m.
            let (p, i) = In-keep is_public (rows Table.contests s) (found.0 m) in
            (i, (eq_iff c.visibility contest_published).0 p),
        λ (i, e). found.1 (
            keep-In is_public (rows Table.contests s) i
              ((eq_iff c.visibility contest_published).1 e)),
      )

  -- A contest that is shown to the public is stored under its key and published.
  pub get_public_contest_sound :
      (id : ℕ) (s : State) (c : Contest)
      → get_public_contest g id s ≡ ok c
      → In c (rows Table.contests s) × (c.id ≡ id) × (c.visibility ≡ contest_published)
  unfolding get_public_contest
  get_public_contest_sound id s c h =
      let (p, i) = find?-some _ (rows Table.contests s) (laws.first_ok Table.contests _ s c h) in
      (i, ground arith, (eq_iff c.visibility contest_published).0 (ground arith))
