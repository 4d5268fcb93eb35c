-- ===== src/Tests/Archives.antt =====
-- Archives, collections and histories in the small installation, on a directory in memory.
use cotests.Prelude.{
  ℕ, ◌+◌, ◌%◌, ◌≡◌, refl, sym, ap, inl, inr, true, false, none, some, List, [], ◌∷◌, arith, subst,
  ◌∙◌, eq_iff, In,
}
use cotests.Prelude.{trim_space}
use cotests.Prelude.Int.{difference}
use cotests.Outcome.{Result, ok, err, too_large}
use cotests.Source.{Bytes, Source, read_beyond}
use cotests.Db.Models.{Artifact}
use cotests.Db.Gorm.Memory.{Tables, memory}
use cotests.Db.Gorm.Memory.Laws.{memory-GormLaws}
use cotests.Artifact.Directory.Memory.{
  Files, memory_disk, memory_disk-DiskLaws, memory_disk-CanRemove,
}
use cotests.Artifact.Keys.{is_upload, hex_encode}
use cotests.Artifact.Harmless.{Harmless}
use cotests.Artifact.{Store, commit_file, save, open_artifact}
use cotests.Importer.Names.{base_name}
use cotests.Content.Access.{revision, manage_problem, is_admin}
use cotests.Db.Revisions.{lock_draft}
use cotests.Content.Files.{file_transaction, locked, save_counted}
use cotests.Importer.{TestPair}
use cotests.Content.Files.Archives.{commit_preview, commit_zip}
use cotests.Content.Files.ArchiveFailures.{commit_zip-Harmless}
use cotests.Tests.World.{olga, root, world}
use cotests.Content.Files.Collector.{collect}
use cotests.Content.Files.Collected.{input_of, AreDistinct, Stays, collect-Stays}
use cotests.Content.Files.History.{here, next, zip_committed, FileReach-Frozen}
use cotests.Db.Revisions.Rows.{UniqueIds}
use cotests.Db.Revisions.Frozen.{Frozen}
use cotests.Db.Revisions.TestKeys.{UniqueTests}
use cotests.Tests.World.{sample, unmarshal}
use cotests.Tests.Files.{thirty_two, thirty_two-FillsKey, digest, store, stored_row}

-- An archive of two tests whose second output is too long.
abbrev two_pairs : List TestPair
two_pairs =
    record { name = "a"; input = 4 ∷ []; output = 2 ∷ [] }
    ∷ record { name = "b"; input = 1 ∷ []; output = 1 ∷ 2 ∷ 3 ∷ 4 ∷ [] }
    ∷ []

abbrev pub read_zip : Source → Result (List TestPair)
read_zip source = ok two_pairs

-- One file is stored.
abbrev stored_file : Files
stored_file =
    (stored_row.storage_key, record { content = 1 ∷ 2 ∷ []; is_regular = true; mod_time = 0 }) ∷ []

abbrev pub previewed : Tables × Files
previewed = (
  record world {
    artifacts = stored_row ∷ [];
    previews =
        record {
          id = 1;
          owner_id = 2;
          revision_id = 2;
          artifact_id = 1;
          expires_at = 100;
          committed_at = none;
        }
        ∷ [];
  },
  stored_file,
)

abbrev pub randoms : ℕ → Result Bytes
randoms k = ok (thirty_two (20 + k % 100))

abbrev after_commit : Tables × Files
after_commit =
    (commit_zip memory_disk memory digest 50 read_zip store randoms (some olga) 2 1 previewed).1

commit_refused :
    commit_zip memory_disk memory digest 50 read_zip store randoms (some olga) 2 1 previewed
    ≡ (err too_large, after_commit)
unfolding save trim_space commit_file read_beyond is_upload difference hex_encode base_name
    commit_zip revision manage_problem file_transaction locked lock_draft commit_preview
    open_artifact save_counted
commit_refused = refl

commit_zip-Harmless_example : Harmless memory_disk memory previewed after_commit
commit_zip-Harmless_example =
    commit_zip-Harmless memory_disk memory memory_disk-DiskLaws memory-GormLaws
      memory_disk-CanRemove digest 50 read_zip store randoms (some olga) 2 1 (omega arith)
      (λ k. thirty_two-FillsKey (20 + k % 100) (omega arith)) too_large previewed after_commit
      commit_refused

-- One artifact is the input of a test, another is used by none.
abbrev idle_row : Artifact
idle_row = record stored_row { id = 3; storage_key = "0b" }

abbrev littered : Tables × Files
littered = (
  record world { artifacts = stored_row ∷ idle_row ∷ [] },
  ("left behind", record { content = []; is_regular = true; mod_time = 0 }) ∷ stored_file,
)

littered-AreDistinct : AreDistinct memory littered.0
unfolding is_upload
littered-AreDistinct = record {
  by_id = ids;
  by_key = keys;
  no_upload = λ a. elim [
    | inl e ↦ subst (λ z. is_upload z.storage_key ≡ false) (sym e) refl
    | inr m ↦ elim m [
      | inl e ↦ subst (λ z. is_upload z.storage_key ≡ false) (sym e) refl
      | inr none_left ↦ absurd none_left
    ]
  ];
}
  where
    ids :
        (a b : Artifact)
        → In a littered.0.artifacts
        → In b littered.0.artifacts
        → a.id ≡ b.id
        → a ≡ b
    ids a b (inl e) (inl f) k = e ∙ sym f
    ids a b (inl e) (inr (inl f)) k = absurd (ground arith)
    ids a b (inl e) (inr (inr f)) k = absurd f
    ids a b (inr (inl e)) (inl f) k = absurd (ground arith)
    ids a b (inr (inl e)) (inr (inl f)) k = e ∙ sym f
    ids a b (inr (inl e)) (inr (inr f)) k = absurd f
    ids a b (inr (inr e)) j k = absurd e

    differ : stored_row.storage_key ≡ "0b" → ⊥
    differ h = ground (arith, eq_iff stored_row.storage_key "0b")

    keys :
        (a b : Artifact)
        → In a littered.0.artifacts
        → In b littered.0.artifacts
        → a.storage_key ≡ b.storage_key
        → a ≡ b
    keys a b (inl e) (inl f) k = e ∙ sym f
    keys a b (inl e) (inr (inl f)) k =
        absurd (differ (sym (ap (λ z. z.storage_key) e) ∙ k ∙ ap (λ z. z.storage_key) f))
    keys a b (inl e) (inr (inr f)) k = absurd f
    keys a b (inr (inl e)) (inl f) k =
        absurd (differ (sym (ap (λ z. z.storage_key) f) ∙ sym k ∙ ap (λ z. z.storage_key) e))
    keys a b (inr (inl e)) (inr (inl f)) k = e ∙ sym f
    keys a b (inr (inl e)) (inr (inr f)) k = absurd f
    keys a b (inr (inr e)) j k = absurd e

abbrev swept : ℕ × Result (Unit {0}) × (Tables × Files)
swept = collect memory_disk memory 3600000000100 (λ name. none) (some root) littered

collect-Stays_example :
    Stays memory_disk memory memory_disk-DiskLaws memory-GormLaws stored_row littered swept.2
collect-Stays_example =
    collect-Stays memory_disk memory memory_disk-DiskLaws memory-GormLaws 3600000000100
      (λ name. none) (some root) littered littered-AreDistinct stored_row (inl refl)
      (input_of sample (inl refl) refl)

-- The artifact that is not used is gone.
idle_removed : swept.2.0.artifacts ≡ stored_row ∷ []
unfolding collect is_admin
idle_removed = refl

world-UniqueIds : UniqueIds previewed.0.revisions
world-UniqueIds r q (inl e) (inl f) k = ground arith
world-UniqueIds r q (inl e) (inr (inl f)) k = absurd (ground arith)
world-UniqueIds r q (inl e) (inr (inr f)) k = absurd f
world-UniqueIds r q (inr (inl e)) (inl f) k = absurd (ground arith)
world-UniqueIds r q (inr (inl e)) (inr (inl f)) k = ground arith
world-UniqueIds r q (inr (inl e)) (inr (inr f)) k = absurd f
world-UniqueIds r q (inr (inr e)) j k = absurd e

world-UniqueTests : UniqueTests previewed.0.test_cases
world-UniqueTests r q (inl e) (inl f) k = ground arith
world-UniqueTests r q (inl e) (inr (inl f)) k = absurd (ground arith)
world-UniqueTests r q (inl e) (inr (inr f)) k = absurd f
world-UniqueTests r q (inr (inl e)) (inl f) k = absurd (ground arith)
world-UniqueTests r q (inr (inl e)) (inr (inl f)) k = ground arith
world-UniqueTests r q (inr (inl e)) (inr (inr f)) k = absurd f
world-UniqueTests r q (inr (inr e)) j k = absurd e

-- The archive is imported with room for all of its tests.
abbrev pub roomy : Store
roomy = record store { max_bytes = 9; max_total_bytes = 0 }

abbrev pub after_import : Tables × Files
after_import =
    (commit_zip memory_disk memory digest 50 read_zip roomy randoms (some olga) 2 1 previewed).1

pub imported :
    commit_zip memory_disk memory digest 50 read_zip roomy randoms (some olga) 2 1 previewed
    ≡ (ok tt, after_import)
unfolding save trim_space commit_file read_beyond hex_encode commit_zip revision manage_problem
    file_transaction locked lock_draft commit_preview open_artifact save_counted
imported = refl

FileReach-Frozen_example : Frozen memory previewed.0 after_import.0
FileReach-Frozen_example =
    FileReach-Frozen memory_disk memory unmarshal digest memory-GormLaws previewed after_import
      (next previewed after_import here
        (zip_committed 50 read_zip roomy randoms (some olga) 2 1 (ok tt) imported))
      world-UniqueIds world-UniqueTests
