-- ===== src/Tests/World.antt =====
-- A small installation: an administrator, an organizer and a participant of one contest.
use cotests.Prelude.{String, true, Option, none, some, List, [], ◌∷◌}
use cotests.Prelude.Int.{pos}
use cotests.Db.Models.{User, Contest, Series, Problem, ProblemRevision, SeriesProblem, TestCase}
use cotests.Db.Gorm.Memory.{Tables, empty}

abbrev pub root : User
root = record {
  id = 1;
  email = "root@example.com";
  password_hash = "";
  name = "Root";
  role = "admin";
}

abbrev pub olga : User
olga = record {
  id = 2;
  email = "olga@example.com";
  password_hash = "";
  name = "Olga";
  role = "user";
}

abbrev pub piotr : User
piotr = record {
  id = 3;
  email = "piotr@example.com";
  password_hash = "";
  name = "Piotr";
  role = "user";
}

abbrev pub spring : Contest
spring = record {
  id = 1;
  title = "Spring";
  description = "";
  visibility = "published";
  start_at = some 100;
  end_at = some 200;
}

abbrev pub round_one : Series
round_one = record {
  id = 1;
  contest_id = 1;
  title = "One";
  position = pos 0;
  start_at = some 110;
  end_at = some 150;
  release_at = none;
}

abbrev pub round_two : Series
round_two = record {
  id = 2;
  contest_id = 1;
  title = "Two";
  position = pos 1;
  start_at = none;
  end_at = none;
  release_at = some 160;
}

abbrev pub sum_problem : Problem
sum_problem = record { id = 1; owner_id = 2; title = "Sum"; code = "SUM"; kind = "programming" }

abbrev pub first_revision : ProblemRevision
first_revision = record {
  id = 1;
  problem_id = 1;
  number = 1;
  state = "published";
  statement = "Add two numbers.";
  pdf_artifact_id = none;
  time_limit_millis = some (pos 1000);
  memory_limit_kib = none;
  language_metadata = "[]";
  checker_metadata = "";
  published_at = some 50;
}

abbrev pub second_revision : ProblemRevision
second_revision = record first_revision { id = 2; number = 2; state = "draft"; published_at = none }

abbrev pub sample : TestCase
sample = record {
  id = 1;
  problem_revision_id = 1;
  position = pos 0;
  is_sample = true;
  points = none;
  time_limit_override_millis = none;
  input_artifact_id = 1;
  output_artifact_id = 2;
}

abbrev pub task : SeriesProblem
task = record {
  id = 1;
  series_id = 1;
  problem_id = 1;
  published_revision_id = 1;
  code = "A";
  position = pos 0;
}

abbrev other_task : SeriesProblem
other_task = record task { id = 2; code = "B"; position = pos 1 }

abbrev pub world : Tables
world = record empty {
  users = root ∷ olga ∷ piotr ∷ [];
  contests = spring ∷ [];
  series = round_one ∷ round_two ∷ [];
  memberships =
      record { id = 1; contest_id = 1; user_id = 2; role = "organizer" }
      ∷ record { id = 2; contest_id = 1; user_id = 3; role = "participant" }
      ∷ [];
  problems = sum_problem ∷ [];
  revisions = first_revision ∷ second_revision ∷ [];
  test_cases = sample ∷ record sample { id = 2; problem_revision_id = 2 } ∷ [];
  series_problems = task ∷ other_task ∷ [];
}

-- a stand-in for the JSON reader that knows the empty array
abbrev pub unmarshal : String → Option (List String)
unmarshal text = some []
