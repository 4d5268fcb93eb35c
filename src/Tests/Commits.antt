-- ===== src/Tests/Commits.antt =====
-- An archive that is committed twice in the small installation.
use cotests.Prelude.{◌≡◌, refl, arith, some, trim_space}
use cotests.Outcome.{ok}
use cotests.Source.{read_beyond}
use cotests.Db.Models.{User}
use cotests.Db.Gorm.{Unchanged}
use cotests.Db.Gorm.Memory.{memory}
use cotests.Db.Gorm.Memory.Laws.{memory-GormLaws}
use cotests.Db.Revisions.{lock_draft}
use cotests.Artifact.Directory.Memory.{memory_disk, memory_disk-DiskLaws}
use cotests.Content.Access.{revision, manage_problem}
use cotests.Artifact.{save, commit_file, open_artifact}
use cotests.Artifact.Keys.{hex_encode}
use cotests.Content.Files.{file_transaction, locked, save_counted}
use cotests.Content.Files.Archives.{commit_preview, commit_zip}
use cotests.Content.Files.Commits.{Commits, commit_zip-Commits}
use cotests.Content.Files.Once.{commit_zip-commit_zip}
use cotests.Tests.World.{olga}
use cotests.Tests.Files.{digest}
use cotests.Tests.Archives.{previewed, read_zip, roomy, randoms, after_import, imported}

commit_zip-Commits_example :
    (user : User) × (some olga ≡ some user)
    × Commits memory_disk memory digest 50 read_zip user.id 2 1 previewed after_import
commit_zip-Commits_example =
    commit_zip-Commits memory_disk memory digest 50 read_zip memory_disk-DiskLaws memory-GormLaws
      roomy (omega arith) randoms (some olga) 2 1 previewed after_import imported

-- The second call returns, and is made after the preview has expired.
committed_again :
    commit_zip memory_disk memory digest 200 read_zip roomy randoms (some olga) 2 1 after_import
    ≡ (ok tt, after_import)
unfolding save trim_space commit_file read_beyond hex_encode commit_zip revision manage_problem
    file_transaction locked lock_draft commit_preview open_artifact save_counted
committed_again = refl

commit_zip-commit_zip_example :
    Unchanged memory after_import.0 after_import.0 × (after_import.1 ≡ after_import.1)
commit_zip-commit_zip_example =
    commit_zip-commit_zip memory_disk memory digest 50 read_zip memory_disk-DiskLaws memory-GormLaws
      roomy (omega arith) randoms randoms 200 roomy (some olga) 2 1 previewed after_import
      after_import (omega arith) imported committed_again
