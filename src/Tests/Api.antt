-- ===== src/Tests/Api.antt =====
-- Requests to the JSON interface in the small installation.
use cotests.Prelude.{ℕ, ◌≡◌, refl, ◌⊎◌, none, some, trim_space}
use cotests.Outcome.{Result, ok, err, forbidden}
use cotests.Db.Models.{Table, contest_published}
use cotests.Db.Gorm.{Unchanged}
use cotests.Db.Gorm.Memory.{Tables, memory}
use cotests.Db.Gorm.Memory.Laws.{memory-GormLaws}
use cotests.Db.Validate.{validate_contest, normal_contest}
use cotests.Prelude.{[], ◌∷◌}
use cotests.Db.Contests.{list_public_contests, get_contest, update_contest}
use cotests.Content.Access.{manage_contest}
use cotests.Content.Access.Spec.{Stored, Manages}
use cotests.Server.Api.{
  api_admin, ContestInput, Call, contest_put, contest_delete, manager, load_contest, serve,
}
use cotests.Server.Api.Guards.{Allowed, serve-Allowed, load_contest_sound}
use cotests.Tests.World.{olga, spring, world}

abbrev input : ContestInput
input = record {
  title = "Spring cup";
  description = "";
  visibility = "published";
  start_at = some 100;
  end_at = none;
}

abbrev change : Call
change = contest_put (ok 1) (ok input)

abbrev changed : Tables
changed = (serve memory (some olga) change world).1

organizer_changes : serve memory (some olga) change world ≡ (ok tt, changed)
unfolding serve manager manage_contest update_contest validate_contest normal_contest trim_space
organizer_changes = refl

organizer_keeps : serve memory (some olga) (contest_delete (ok 1)) world ≡ (err forbidden, world)
unfolding serve api_admin
organizer_keeps = refl

serve-Allowed_example :
    Unchanged memory world changed ⊎ Allowed memory memory-GormLaws (some olga) change world
serve-Allowed_example =
    serve-Allowed memory memory-GormLaws (some olga) change (ok tt) world changed organizer_changes

anybody_sees : load_contest memory none (ok 1) world ≡ (ok spring, world)
unfolding load_contest get_contest
anybody_sees = refl

load_contest_sound_example :
    (world ≡ world)
    × ((id : ℕ) × (◌≡◌ {A = Result ℕ} (ok 1) (ok id))
        × Stored memory Table.contests id spring world
        × ((spring.visibility ≡ contest_published) ⊎ Manages memory none id world))
load_contest_sound_example =
    load_contest_sound memory memory-GormLaws none (ok 1) spring world world anybody_sees

listed : list_public_contests memory world ≡ ok (spring ∷ [])
unfolding list_public_contests
listed = refl
