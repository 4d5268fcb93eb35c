-- ===== src/Tests/Files.antt =====
-- Files of revisions in the small installation, on a directory in memory.
use cotests.Prelude.{
  ℕ, ◌≡◌, ◌<◌, refl, String, false, none, some, [], ◌∷◌, arith, subst, length, All,
}
use cotests.Prelude.Int.{pos}
use cotests.Prelude.{trim_space}
use cotests.Prelude.Int.{difference}
use cotests.Outcome.{Result, ok, err, too_large, quota, ok-injective}
use cotests.Source.{Bytes, read_beyond}
use cotests.Db.Models.{Artifact}
use cotests.Db.Gorm.Memory.{Tables, memory}
use cotests.Db.Gorm.Memory.Laws.{memory-GormLaws}
use cotests.Artifact.Directory.Memory.{
  Files, memory_disk, memory_disk-DiskLaws, memory_disk-CanRemove,
}
use cotests.Artifact.Keys.{FillsKey, is_upload, hex_encode}
use cotests.Artifact.Harmless.{Harmless, save-Harmless}
use cotests.Artifact.Stored.{Saved, save-Saved}
use cotests.Artifact.{Store, commit_file, save}
use cotests.Importer.Names.{base_name}
use cotests.Content.Access.{revision, manage_problem}
use cotests.Db.Revisions.{lock_draft}
use cotests.Content.Files.{file_transaction, TestInput, plain, save_test}
use cotests.Content.Files.Failures.{save_test-Harmless}
use cotests.Tests.World.{olga, world}

abbrev pub thirty_two : ℕ → Bytes
thirty_two n =
    n ∷ n ∷ n ∷ n ∷ n ∷ n ∷ n ∷ n ∷ n ∷ n ∷ n ∷ n ∷ n ∷ n ∷ n ∷ n ∷ n ∷ n ∷ n ∷ n ∷ n ∷ n ∷ n ∷ n
    ∷ n ∷ n ∷ n ∷ n ∷ n ∷ n ∷ n ∷ n ∷ []

abbrev pub digest : Bytes → String
digest content = "sum"

abbrev pub store : Store
store = record { max_bytes = 3; max_total_bytes = 10 }

abbrev pub start : Tables × Files
start = (world, [])

abbrev saving : Result Artifact × (Tables × Files)
saving =
    save memory_disk memory digest store (ok (thirty_two 10)) 7 2 "a.txt" "text/plain"
      (plain (1 ∷ 2 ∷ [])) start

abbrev after_save : Tables × Files
after_save = saving.1

abbrev pub stored_row : Artifact
stored_row = record {
  id = 1;
  owner_id = 2;
  storage_key = "0a0a0a0a0a0a0a0a0a0a0a0a0a0a0a0a0a0a0a0a0a0a0a0a0a0a0a0a0a0a0a0a";
  sha256 = "sum";
  size_bytes = 2;
  content_type = "text/plain";
  filename = "a.txt";
  created_at = 7;
}

saved :
    save memory_disk memory digest store
      (ok (thirty_two 10))
      7
      2
      "a.txt"
      "text/plain"
      (plain (1 ∷ 2 ∷ []))
      start
    ≡ (ok stored_row, after_save)
unfolding save trim_space commit_file read_beyond is_upload difference hex_encode base_name
saved = refl

save-Saved_example :
    Saved memory_disk memory memory_disk-DiskLaws memory-GormLaws digest store
      (plain (1 ∷ 2 ∷ []))
      (ok (thirty_two 10))
      7
      2
      "a.txt"
      "text/plain"
      stored_row
      start
      after_save
save-Saved_example =
    save-Saved memory_disk memory memory_disk-DiskLaws memory-GormLaws digest store
      (plain (1 ∷ 2 ∷ [])) (ok (thirty_two 10)) 7 2 "a.txt" "text/plain" stored_row start after_save
      (omega arith) saved

-- One byte is stored, and no two more may be.
abbrev tight : Store
tight = record { max_bytes = 3; max_total_bytes = 3 }

abbrev over_quota : Tables × Files
over_quota =
    (save memory_disk memory digest tight (ok (thirty_two 11)) 7 2 "b.txt" "text/plain"
      (plain (1 ∷ 2 ∷ [])) after_save).1

refused :
    save memory_disk memory digest tight
      (ok (thirty_two 11))
      7
      2
      "b.txt"
      "text/plain"
      (plain (1 ∷ 2 ∷ []))
      after_save
    ≡ (err quota, over_quota)
unfolding save trim_space commit_file read_beyond is_upload difference hex_encode base_name
refused = refl

save-Harmless_example : Harmless memory_disk memory after_save over_quota
save-Harmless_example =
    save-Harmless memory_disk memory memory_disk-DiskLaws memory-GormLaws digest tight
      (plain (1 ∷ 2 ∷ [])) memory_disk-CanRemove (ok (thirty_two 11)) 7 2 "b.txt" "text/plain" quota
      after_save over_quota refused

-- The input is stored, and then the output is too long.
abbrev long_output : TestInput
long_output = record {
  position = pos 0;
  is_sample = false;
  points = none;
  time_limit_override_millis = none;
  input = 1 ∷ [];
  output = 1 ∷ 2 ∷ 3 ∷ 4 ∷ [];
}

abbrev after_failure : Tables × Files
after_failure =
    (save_test memory_disk memory digest 7 store (ok (thirty_two 12)) (ok (thirty_two 13))
      (some olga) 2 0 long_output start).1

test_refused :
    save_test memory_disk memory digest 7 store
      (ok (thirty_two 12))
      (ok (thirty_two 13))
      (some olga)
      2
      0
      long_output
      start
    ≡ (err too_large, after_failure)
unfolding save trim_space commit_file read_beyond is_upload difference hex_encode base_name
    save_test revision manage_problem file_transaction lock_draft
test_refused = refl

pub thirty_two-FillsKey : (n : ℕ) → n < 256 → FillsKey (ok (thirty_two n))
thirty_two-FillsKey n small bytes e =
    subst (λ b. (length b ≡ 32) × All (λ k. k < 256) b) (ok-injective e)
      (
        refl,
        (
          small,
          (
            small,
            (
              small,
              (
                small,
                (
                  small,
                  (
                    small,
                    (
                      small,
                      (
                        small,
                        (
                          small,
                          (
                            small,
                            (
                              small,
                              (
                                small,
                                (
                                  small,
                                  (
                                    small,
                                    (
                                      small,
                                      (
                                        small,
                                        (
                                          small,
                                          (
                                            small,
                                            (
                                              small,
                                              (
                                                small,
                                                (
                                                  small,
                                                  (
                                                    small,
                                                    (
                                                      small,
                                                      (
                                                        small,
                                                        (
                                                          small,
                                                          (
                                                            small,
                                                            (
                                                            small,
                                                            (
                                                            small,
                                                            (small, (small, (small, (small, tt)))),
                                                            ),
                                                            ),
                                                          ),
                                                        ),
                                                      ),
                                                    ),
                                                  ),
                                                ),
                                              ),
                                            ),
                                          ),
                                        ),
                                      ),
                                    ),
                                  ),
                                ),
                              ),
                            ),
                          ),
                        ),
                      ),
                    ),
                  ),
                ),
              ),
            ),
          ),
        ),
      )

save_test-Harmless_example : Harmless memory_disk memory start after_failure
save_test-Harmless_example =
    save_test-Harmless memory_disk memory memory_disk-DiskLaws memory-GormLaws memory_disk-CanRemove
      digest 7 store (ok (thirty_two 12)) (ok (thirty_two 13)) (some olga) 2 0 long_output
      (omega arith) (thirty_two-FillsKey 12 (omega arith)) (thirty_two-FillsKey 13 (omega arith))
      too_large start after_failure test_refused
