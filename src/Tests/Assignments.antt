-- ===== src/Tests/Assignments.antt =====
-- Contests, assignments and files in the small installation.
use cotests.Prelude.{
  ℕ, ◌≡◌, refl, sym, subst, ◌⊎◌, inl, inr, none, some, [], ◌∷◌, arith, trim_space,
}
use cotests.Prelude.Int.{pos}
use cotests.Outcome.{ok, err, forbidden, conflict}
use cotests.Db.Models.{User, Contest, Artifact, SeriesProblem, Table, role_admin}
use cotests.Db.Gorm.Memory.{Tables, memory}
use cotests.Db.Gorm.Memory.Laws.{memory-GormLaws}
use cotests.Db.Validate.{validate_contest, normal_contest}
use cotests.Db.Validate.Contests.{IsValidContest, IsValidSeries}
use cotests.Db.Contests.{create_contest}
use cotests.Db.Contests.Laws.{WellFormed, contest_created, Write-WellFormed}
use cotests.Content.Access.{
  manage_contest, managed_series, manage_problem, revision, can_read_series, member_can_read,
}
use cotests.Content.Access.Spec.{Stored}
use cotests.Content.Assignments.{assign}
use cotests.Content.Assignments.Sound.{Assigned, assign-Assigned}
use cotests.Content.Reading.{Statement, read_statement, artifact}
use cotests.Content.Reading.Sound.{MayFetch, artifact_sound}
use cotests.Content.Reading.Statements.{Shown, read_statement-Shown}
use cotests.Tests.World.{olga, piotr, spring, round_one, round_two, task, world}

abbrev autumn : Contest
autumn = record spring { id = 0; title = " Autumn " }

abbrev after_autumn : Tables
after_autumn = (create_contest memory autumn world).1

autumn_created :
    create_contest memory autumn world
    ≡ (ok (record spring { id = 2; title = "Autumn" }), after_autumn)
unfolding create_contest validate_contest normal_contest trim_space
autumn_created = refl

spring-IsValidContest : IsValidContest spring
spring-IsValidContest = record {
  title_given = refl;
  title_fits = omega arith;
  description_fits = omega arith;
  visibility_known = inr refl;
  in_order = omega arith;
}

round_one-IsValidSeries : IsValidSeries round_one
round_one-IsValidSeries = record {
  contest_given = λ e. absurd (omega arith);
  title_given = refl;
  title_fits = omega arith;
  position_natural = (0, refl);
  in_order = omega arith;
}

round_two-IsValidSeries : IsValidSeries round_two
round_two-IsValidSeries = record {
  contest_given = λ e. absurd (omega arith);
  title_given = refl;
  title_fits = omega arith;
  position_natural = (1, refl);
  in_order = tt;
}

world-WellFormed : WellFormed memory memory-GormLaws world
world-WellFormed = record {
  contests = λ c m. elim m [
    | inl e ↦ subst IsValidContest (sym e) spring-IsValidContest
    | inr f ↦ absurd f
  ];
  series = λ x m. elim m [
    | inl e ↦ subst IsValidSeries (sym e) round_one-IsValidSeries
    | inr (inl e) ↦ subst IsValidSeries (sym e) round_two-IsValidSeries
    | inr (inr f) ↦ absurd f
  ];
}

Write-WellFormed_example : WellFormed memory memory-GormLaws after_autumn
Write-WellFormed_example =
    Write-WellFormed memory memory-GormLaws world after_autumn
      (contest_created autumn (ok (record spring { id = 2; title = "Autumn" })) autumn_created)
      world-WellFormed

abbrev new_task : SeriesProblem
new_task = record task { id = 0; series_id = 2; problem_id = 0; code = " C " }

abbrev made_task : SeriesProblem
made_task = record task { id = 3; series_id = 2; code = "C" }

abbrev after_task : Tables
after_task = (assign memory (some olga) new_task world).1

task_assigned : assign memory (some olga) new_task world ≡ (ok made_task, after_task)
unfolding assign managed_series manage_contest manage_problem revision trim_space
task_assigned = refl

draft_refused :
    assign memory (some olga) (record new_task { published_revision_id = 2 }) world
    ≡ (err conflict, world)
unfolding assign managed_series manage_contest manage_problem revision trim_space
draft_refused = refl

assign-Assigned_example :
    Assigned memory memory-GormLaws (some olga) new_task made_task world after_task
assign-Assigned_example =
    assign-Assigned memory memory-GormLaws (some olga) new_task made_task world after_task
      task_assigned

abbrev shown : Statement
shown = record {
  assignment_id = 1;
  revision_id = 1;
  title = "Sum";
  code = "A";
  statement = "Add two numbers.";
  pdf_artifact_id = none;
  time_limit_millis = some (pos 1000);
  memory_limit_kib = none;
  languages = "[]";
  samples = record { position = pos 0; input_artifact_id = 1; output_artifact_id = 2 } ∷ [];
}

statement_read : read_statement memory (some piotr) 1 120 world ≡ ok shown
unfolding read_statement can_read_series manage_contest member_can_read
statement_read = refl

read_statement-Shown_example : Shown memory memory-GormLaws (some piotr) 1 120 shown world
read_statement-Shown_example =
    read_statement-Shown memory memory-GormLaws (some piotr) 1 120 shown world statement_read

abbrev input_file : Artifact
input_file = record {
  id = 1;
  owner_id = 2;
  storage_key = "aa";
  sha256 = "";
  size_bytes = 4;
  content_type = "text/plain";
  filename = "1.in";
  created_at = 40;
}

abbrev with_files : Tables
with_files = record world { artifacts = input_file ∷ record input_file { id = 3 } ∷ [] }

abbrev noon : ℕ → ℕ → ℕ
noon r a = 120

sample_fetched : artifact memory (some piotr) 1 noon with_files ≡ ok input_file
unfolding artifact can_read_series manage_contest member_can_read manage_problem
sample_fetched = refl

stray_refused : artifact memory (some piotr) 3 noon with_files ≡ err forbidden
unfolding artifact
stray_refused = refl

artifact_sound_example :
    (u : User) × (some piotr ≡ some u)
    × Stored memory Table.artifacts 1 input_file with_files
    × ((u.role ≡ role_admin) ⊎ MayFetch memory (some piotr) 1 noon with_files)
artifact_sound_example =
    artifact_sound memory memory-GormLaws (some piotr) 1 noon with_files input_file sample_fetched
