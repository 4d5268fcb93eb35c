-- ===== src/Tests/Members.antt =====
-- Grants and revocations in the small installation.
use cotests.Prelude.{
  ℕ, ◌≡◌, ◌≢◌, refl, Bool, true, false, none, some, ◌⊎◌, ◌&&◌, ◌==◌, if◌then◌else◌, String,
}
use cotests.Outcome.{ok, err, forbidden}
use cotests.Db.Models.{Table}
use cotests.Db.Gorm.{SameElsewhere, Unchanged}
use cotests.Db.Gorm.Memory.{Tables, memory}
use cotests.Db.Gorm.Memory.Laws.{memory-GormLaws}
use cotests.Content.Access.{manage_contest}
use cotests.Content.Access.Spec.{Manages}
use cotests.Content.Members.{admin, set_member_with, set_member, role_in}
use cotests.Content.Members.Laws.{
  set_member_with-Sets, set_member_with-Authorised, set_member_with-Unchanged,
}
use cotests.Tests.World.{root, olga, world}

-- the organizer takes the participant out
abbrev emptied : Tables
emptied = (set_member_with memory (some olga) 1 3 "" true world).1

removed : set_member_with memory (some olga) 1 3 "" true world ≡ (ok tt, emptied)
unfolding set_member_with manage_contest
removed = refl

nobody_left : role_in memory 1 3 emptied ≡ none
unfolding set_member_with manage_contest
nobody_left = refl

promoted :
    role_in memory 1 3 (set_member memory (some root) 1 3 "organizer" world).1 ≡ some "organizer"
unfolding set_member manage_contest
promoted = refl

organizer_cannot_promote :
    set_member_with memory (some olga) 1 3 "organizer" false world ≡ (err forbidden, world)
unfolding set_member_with manage_contest
organizer_cannot_promote = refl

set_member_with-Sets_example :
    SameElsewhere memory Table.memberships world emptied
    × ((c u : ℕ)
        → role_in memory c u emptied
          ≡ (if c == 1 && u == 3 then none else role_in memory c u world))
set_member_with-Sets_example =
    set_member_with-Sets memory memory-GormLaws (some olga) 1 3 "" true world emptied removed

set_member_with-Authorised_example :
    Manages memory (some olga) 1 world
    × ((admin (some olga) ≡ true)
        ⊎ ((◌≢◌ {A = String} "" "organizer") × (role_in memory 1 3 world ≢ some "organizer")))
    × ((◌≡◌ {A = String} "" "organizer")
        ⊎ (◌≡◌ {A = String} "" "participant")
        ⊎ (◌≡◌ {A = Bool} true true))
set_member_with-Authorised_example =
    set_member_with-Authorised memory memory-GormLaws (some olga) 1 3 "" true world emptied removed

set_member_with-Unchanged_example : Unchanged memory world world
set_member_with-Unchanged_example =
    set_member_with-Unchanged memory memory-GormLaws (some olga) 1 3 "organizer" false forbidden
      world world organizer_cannot_promote
