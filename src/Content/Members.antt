-- ===== src/Content/Members.antt =====
-- `SetMember` and `RemoveMember` of `internal/content/service.go`: who is a member of a contest, and
-- in which role.
pub mod Rows
pub mod Laws
use cotests.Prelude.{
  ℕ, ◌≡◌, String, Bool, true, false, not, ◌&&◌, ◌||◌, Option, none, some, ◌==◌, if◌then◌else◌,
  str_eq, find?,
}
use mathlib.Core.Option
use cotests.Outcome.{Error, Result, ok, err, forbidden, not_found, validation, guard}
use cotests.Outcome.Action.{Action, pure, ask, lift, ◌>>=◌, ◌>>◌}
use cotests.Db.Models.{User, Contest, ContestMembership, Table, has_id}
use cotests.Db.Gorm.{Gorm}
use cotests.Content.Access.{is_admin, is_member, manage_contest}

-- `admin(user)`: a missing user is none
abbrev pub admin : Option User → Bool
admin none = false
admin (some user) = is_admin user

-- The role of the row that was looked up; no row leaves the zero value.
unfoldable pub existing_role : Result ContestMembership → Result String
existing_role (ok m) = ok m.role
existing_role (err not_found) = ok ""
existing_role (err e) = err e

abbrev pub may_grant : Option User → String → String → Bool
may_grant actor role existing =
    admin actor || not (str_eq role "organizer" || str_eq existing "organizer")

module _ (g : Gorm) where
  open g use {State, rows, first, update, upsert, delete, transaction}

  -- the upsert, or the delete when the member is removed
  write_member : ℕ → ℕ → String → Bool → Action State (Unit {0})
  write_member contest user role true = delete Table.memberships (is_member contest user) >> pure tt
  write_member contest user role false =
      let member : ContestMembership = record {
        id = 0;
        contest_id = contest;
        user_id = user;
        role = role;
      } in
      upsert Table.memberships (is_member contest user) (λ m. record m { role = role }) member
      >> pure tt

  -- the function that the transaction runs
  member_transaction : Option User → ℕ → ℕ → String → Bool → Action State (Unit {0})
  unfolding existing_role write_member
  member_transaction actor contest user role remove = do
    -- serialises grants and revocations
    update Table.contests (has_id Table.contests contest) (λ c. record c { id = contest })
    existing ← ask (λ s. existing_role (first Table.memberships (is_member contest user) s))
    lift (guard (may_grant actor role existing) forbidden)
    ask (first Table.users (has_id Table.users user))
    write_member contest user role remove

  unfoldable pub set_member_with : Option User → ℕ → ℕ → String → Bool → Action State (Unit {0})
  unfolding member_transaction
  set_member_with actor contest user role remove = do
    ask (manage_contest g actor contest)
    lift (
        guard (str_eq role "organizer" || str_eq role "participant" || remove)
          (validation "invalid membership role"))
    transaction (member_transaction actor contest user role remove)

  unfoldable pub set_member : Option User → ℕ → ℕ → String → Action State (Unit {0})
  unfolding set_member_with
  set_member actor contest user role = set_member_with actor contest user role false

  unfoldable pub remove_member : Option User → ℕ → ℕ → Action State (Unit {0})
  unfolding set_member_with
  remove_member actor contest user = set_member_with actor contest user "" true

  -- The memberships as a map: the role of a user in a contest.
  abbrev pub role_in : ℕ → ℕ → State → Option String
  role_in contest user s =
      Option.map (λ m. m.role) (find? (is_member contest user) (rows Table.memberships s))
