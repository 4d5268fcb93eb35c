-- ===== src/Tests/Revisions.antt =====
-- Revisions in the small installation.
use cotests.Prelude.{◌≡◌, refl, [], ◌∷◌}
use cotests.Outcome.{ok, err, not_draft}
use cotests.Db.Models.{ProblemRevision}
use cotests.Db.Gorm.{Unchanged}
use cotests.Db.Gorm.Memory.{Tables, memory}
use cotests.Db.Gorm.Memory.Laws.{memory-GormLaws}
use cotests.Db.Validate.{validate_revision, normal_revision, languages_fine}
use cotests.Prelude.{trim_space}
use cotests.Db.Revisions.{
  lock_draft, publish_revision, create_draft_revision, draft_transaction, create_test_case,
}
use cotests.Db.Revisions.Publish.{Publication, publish_revision-Publication}
use cotests.Db.Revisions.Draft.{Latest, Snapshot, create_draft_revision-Snapshot}
use cotests.Tests.World.{world, unmarshal, second_revision, sample}

abbrev released : Tables
released = (publish_revision memory unmarshal 2 60 world).1

second_published : publish_revision memory unmarshal 2 60 world ≡ (ok tt, released)
unfolding publish_revision lock_draft validate_revision normal_revision trim_space languages_fine
second_published = refl

never_twice : publish_revision memory unmarshal 1 60 world ≡ (err not_draft, world)
unfolding publish_revision lock_draft
never_twice = refl

abbrev third_revision : ProblemRevision
third_revision = record second_revision { id = 3; number = 3 }

abbrev drafted : Tables
drafted = (create_draft_revision memory 1 world).1

third_drafted : create_draft_revision memory 1 world ≡ (ok third_revision, drafted)
unfolding create_draft_revision draft_transaction
third_drafted = refl

tests_copied :
    drafted.test_cases
    ≡ sample
      ∷ record sample { id = 2; problem_revision_id = 2 }
      ∷ record sample { id = 3; problem_revision_id = 3 }
      ∷ []
unfolding create_draft_revision draft_transaction
tests_copied = refl

published_test_refused : create_test_case memory sample world ≡ (err not_draft, world)
unfolding create_test_case lock_draft
published_test_refused = refl

publish_revision-Publication_example :
    Publication memory memory-GormLaws unmarshal 2 60 world released
publish_revision-Publication_example =
    publish_revision-Publication memory memory-GormLaws unmarshal 2 60 world released
      second_published

create_draft_revision-Snapshot_example :
    (latest : ProblemRevision) × (s₁ : Tables) × Unchanged memory world s₁
    × Latest memory memory-GormLaws 1 latest s₁
    × Snapshot memory memory-GormLaws 1 latest third_revision s₁ drafted
create_draft_revision-Snapshot_example =
    create_draft_revision-Snapshot memory memory-GormLaws 1 third_revision world drafted
      third_drafted
