-- ===== src/Tests/Access.antt =====
-- Who may do what in the small installation.
use cotests.Prelude.{◌≡◌, refl, some}
use cotests.Outcome.{ok, err, forbidden, not_found}
use cotests.Db.Gorm.Memory.{memory}
use cotests.Db.Gorm.Memory.Laws.{memory-GormLaws, memory-IsReliable}
use cotests.Content.Access.{
  manage_contest, manage_problem, revision, can_read_series, can_submit, member_can_read,
}
use cotests.Content.Access.Spec.{Reads, Submits}
use cotests.Content.Access.Sound.{can_read_series_sound, can_submit_sound}
use cotests.Content.Access.Complete.{can_read_series_complete, can_submit_complete}
use cotests.Tests.World.{root, olga, piotr, round_two, sum_problem, first_revision, world}

organizer_manages : manage_contest memory (some olga) 1 world ≡ ok tt
unfolding manage_contest
organizer_manages = refl

participant_refused : manage_contest memory (some piotr) 1 world ≡ err forbidden
unfolding manage_contest
participant_refused = refl

missing_contest : manage_contest memory (some root) 9 world ≡ err not_found
unfolding manage_contest
missing_contest = refl

owner_gets_problem : manage_problem memory (some olga) 1 world ≡ ok sum_problem
unfolding manage_problem
owner_gets_problem = refl

owner_gets_revision : revision memory (some olga) 1 world ≡ ok first_revision
unfolding revision manage_problem
owner_gets_revision = refl

reader_waits : can_read_series memory (some piotr) round_two 159 world ≡ err forbidden
unfolding can_read_series manage_contest member_can_read
reader_waits = refl

reader_reads : can_read_series memory (some piotr) round_two 160 world ≡ ok tt
unfolding can_read_series manage_contest member_can_read
reader_reads = refl

participant_submits : can_submit memory (some piotr) 1 149 149 world ≡ ok tt
unfolding can_submit can_read_series manage_contest member_can_read
participant_submits = refl

too_late : can_submit memory (some piotr) 1 149 150 world ≡ err forbidden
unfolding can_submit can_read_series manage_contest member_can_read
too_late = refl

can_read_series_sound_example : Reads memory (some piotr) round_two 160 world
can_read_series_sound_example =
    can_read_series_sound memory memory-GormLaws (some piotr) round_two 160 world reader_reads

can_submit_sound_example : Submits memory (some piotr) 1 149 149 world
can_submit_sound_example =
    can_submit_sound memory memory-GormLaws (some piotr) 1 149 149 world participant_submits

can_read_series_complete_example : can_read_series memory (some piotr) round_two 160 world ≡ ok tt
can_read_series_complete_example =
    can_read_series_complete memory memory-IsReliable (some piotr) round_two 160 world
      (can_read_series_sound memory memory-GormLaws (some piotr) round_two 160 world reader_reads)

can_submit_complete_example : can_submit memory (some piotr) 1 149 149 world ≡ ok tt
can_submit_complete_example =
    can_submit_complete memory memory-IsReliable (some piotr) 1 149 149 world
      (can_submit_sound memory memory-GormLaws (some piotr) 1 149 149 world participant_submits)
