-- ===== src/Content/Files/Committed.antt =====
-- `CommitZIP` of `internal/content/files.go` when it returns: what it imported, and that an archive
-- is imported once.
use cotests.Prelude.{
  ℕ, String, Bool-cases, ◌^◌, ◌≡◌, ◌≢◌, ◌<◌, refl, ap, ◌∙◌, ◌⊎◌, ◌↔◌, inl, inr, arith, true, not,
  none, some, List, In, In-keep, keep-In, find?, map_where, ltb,
}
use cotests.Prelude.Int.{ℤ, pos, negsuc, AtMost}
use cotests.Outcome.{Result, ok, err, failure, conflict, validation, guard, guard-eq-ok}
use cotests.Outcome.Action.{
  pure, on_first, >>-eq-ok, on_first-eq, same_state, ask->>=-eq-ok, lift->>=-eq-ok, lift->>-eq-ok,
}
use cotests.Source.{Bytes, Source, max_int64}
use cotests.Importer.{TestPair}
use cotests.Db.Models.{TestCase, Artifact, ImportPreview, Table, has_id}
use cotests.Db.Gorm.{Gorm, GormLaws}
use cotests.Db.Revisions.{of_revision}
use cotests.Artifact.Directory.{Disk, DiskLaws, File}
use cotests.Artifact.Keys.{is_key}
use cotests.Artifact.{Store, open_artifact}
use cotests.Content.Files.{FileWorld}
use cotests.Content.Files.Archives.{
  or_invalid, committed, last_position, beyond_positions, import_tests, commit_preview,
}
use cotests.Content.Files.Positions.{last_position_sound}
use cotests.Content.Files.Importing.{Rows, rows_of, Imports}
use cotests.Content.Files.ImportLoop.{import_tests-Imports}

-- No test of the revision has a position after `max`.
abbrev NoneAbove : ℕ → ℤ → List TestCase → Type 0
NoneAbove revision_id max l =
    (t : TestCase) → In t l → t.problem_revision_id ≡ revision_id → AtMost t.position max

abbrev Taken : ℕ → ℤ → List TestCase → Type 0
Taken revision_id max l =
    (max ≡ negsuc 0)
    ⊎ ((t : TestCase) × In t l × (t.problem_revision_id ≡ revision_id) × (t.position ≡ max))

of_revision_iff : (id : ℕ) (t : TestCase) → (of_revision id t ≡ true) ↔ (t.problem_revision_id ≡ id)
of_revision_iff id t = ground arith

module _ (d : Disk) (g : Gorm) (digest : Bytes → String) (now : ℕ)
    (read_zip : Source → Result (List TestPair)) where
  open d use {Root, look}
  open g use {State, rows, first, find, update, transaction_with}

  -- An import, with the tables before and after it.
  pub record Imported (owner_id revision_id : ℕ) (preview : ImportPreview) (root : Root)
      (before after : Rows) : Type 0 where
    pub not_yet : preview.committed_at ≡ none
    pub in_time : now < preview.expires_at
    pub archive : Artifact
    pub archive_found :
        find? (has_id Table.artifacts preview.artifact_id) (before Table.artifacts) ≡ some archive
    pub source : Source
    pub source_read :
        (file : File) × (look archive.storage_key root ≡ some file)
        × (source.content ≡ file.content)
    pub pairs : List TestPair
    pub pairs_read : read_zip source ≡ ok pairs
    -- the greatest position of a test of the revision, -1 if there is none
    pub max : ℤ
    pub none_above : NoneAbove revision_id max (before Table.test_cases)
    pub max_taken : Taken revision_id max (before Table.test_cases)
    pub max_small : AtMost max (pos (2 ^ 30))
    pub middle : Rows
    pub imports : Imports d g digest now owner_id revision_id max 0 pairs before middle
    pub marked :
        after Table.previews
        ≡ map_where (has_id Table.previews preview.id) (committed now) (before Table.previews)
    pub elsewhere : (u : Table) → u ≢ Table.previews → after u ≡ middle u

  small : (m : ℤ) → not (beyond_positions m) ≡ true → AtMost m (pos (2 ^ 30))
  small (pos n) h = ground arith
  small (negsuc n) h = tt

  read_pairs :
      (source : Source) (pairs : List TestPair)
      → or_invalid (read_zip source) ≡ ok pairs
      → read_zip source ≡ ok pairs
  read_pairs source pairs h = go (read_zip source) h
    where
      go : (x : Result (List TestPair)) → or_invalid x ≡ ok pairs → x ≡ ok pairs
      go (ok l) k = k
      go (err e) k = cc

  module _ (disk_laws : DiskLaws d) (laws : GormLaws g) (store : Store)
      (bound : store.max_bytes < max_int64) where
    opened :
        (item : Artifact) (root : Root) (source : Source)
        → open_artifact d item root ≡ ok source
        → (file : File) × (look item.storage_key root ≡ some file) × (source.content ≡ file.content)
    unfolding open_artifact
    opened item root source h = elim (Bool-cases (is_key item.storage_key)) [
      | inl key ↦ disk_laws.open_ok item.storage_key root source (rw key at h)
      | inr other ↦ absurd (never (rw other at h))
    ]
      where
        never : ◌≡◌ {A = Result Source} (err (failure "invalid artifact key")) (ok source) → ⊥
        never k = cc

    last_position_highest :
        (revision_id : ℕ) (tests : List TestCase) (s : State)
        → find Table.test_cases (of_revision revision_id) s ≡ ok tests
        → NoneAbove revision_id (last_position tests) (rows Table.test_cases s)
          × Taken revision_id (last_position tests) (rows Table.test_cases s)
    last_position_highest revision_id tests s h =
        let (above, taken) = last_position_sound tests in
        let listed = laws.find_ok Table.test_cases (of_revision revision_id) s tests h in
        (
          λ t i of. above t (
              (listed t).1 (
                keep-In (of_revision revision_id) (rows Table.test_cases s) i
                  ((of_revision_iff revision_id t).1 of))),
          elim taken [
            | inl e ↦ inl e
            | inr (t, i, at) ↦
                let (of, j) =
                  In-keep (of_revision revision_id) (rows Table.test_cases s) ((listed t).0 i) in
                inr (t, j, (of_revision_iff revision_id t).0 of, at)
          ],
        )

    pub commit_preview-Imported :
        (random : ℕ → Result Bytes) (owner_id revision_id : ℕ) (preview : ImportPreview)
        (v v' : FileWorld d g)
        → preview.committed_at ≡ none
        → commit_preview d g digest now read_zip store random owner_id revision_id preview v
          ≡ (ok tt, v')
        → Imported owner_id revision_id preview v.1.0 (rows_of g v.0) (rows_of g v'.0)
    unfolding commit_preview
    commit_preview-Imported random owner_id revision_id preview v v' fresh h =
        let (_, timed, h₁) = lift->>-eq-ok (guard (ltb now preview.expires_at) conflict) _ v v' h in
        let (item, found, h₂) =
          ask->>=-eq-ok
            (λ w. first Table.artifacts (has_id Table.artifacts preview.artifact_id) w.0) _ v v'
            h₁ in
        let (source, read, h₃) = ask->>=-eq-ok (λ w. open_artifact d item w.1.0) _ v v' h₂ in
        let (pairs, parsed, h₄) = lift->>=-eq-ok (or_invalid (read_zip source)) _ v v' h₃ in
        let (tests, listed, h₅) =
          ask->>=-eq-ok (λ w. find Table.test_cases (of_revision revision_id) w.0) _ v v' h₄ in
        let (_, bounded, h₆) =
          lift->>-eq-ok
            (guard (not (beyond_positions (last_position tests)))
              (validation "test positions exceed limit"))
            _ v v' h₅ in
        let (_, v₁, ran, h₇) =
          >>-eq-ok
            (import_tests d g digest now read_zip store random owner_id revision_id
              (last_position tests) 0 pairs)
            _ v v' h₆ in
        let (n, v₂, wrote, done) =
          >>-eq-ok
            (on_first (update Table.previews (has_id Table.previews preview.id) (committed now)))
            (pure tt) v₁ v' h₇ in
        let (_, ends) = same_state done in
        let (written, _) =
          on_first-eq (update Table.previews (has_id Table.previews preview.id) (committed now))
            (ok n) v₁ v₂ wrote in
        let (_, marked, frame) =
          laws.update_ok Table.previews (has_id Table.previews preview.id) (committed now) n v₁.0
            v₂.0 written (λ r p. refl) in
        let highest = last_position_highest revision_id tests v.0 listed in
        let imported : Imports d g digest now owner_id revision_id (last_position tests) 0 pairs
            (rows_of g v.0) (rows_of g v₁.0) =
          import_tests-Imports d g digest now disk_laws laws store bound read_zip random owner_id
            revision_id (last_position tests) 0 pairs v v₁ ran in
        record {
          not_yet = fresh;
          in_time = passed (guard-eq-ok (ltb now preview.expires_at) conflict timed);
          archive = item;
          archive_found =
              laws.first_ok Table.artifacts (has_id Table.artifacts preview.artifact_id) v.0 item
                found;
          source = source;
          source_read = opened item v.1.0 source read;
          pairs = pairs;
          pairs_read = read_pairs source pairs parsed;
          max = last_position tests;
          none_above = highest.0;
          max_taken = highest.1;
          max_small = small (last_position tests) (
              guard-eq-ok (not (beyond_positions (last_position tests)))
                (validation "test positions exceed limit") bounded);
          middle = rows_of g v₁.0;
          imports = imported;
          marked =
              ap (λ z. rows Table.previews z.0) ends
              ∙ marked
              ∙ ap (map_where (has_id Table.previews preview.id) (committed now))
                  (imported.elsewhere Table.previews (λ e. cc) (λ e. cc));
          elsewhere = λ u ne. ap (λ z. rows u z.0) ends ∙ frame u ne;
        }
      where
        passed : ltb now preview.expires_at ≡ true → now < preview.expires_at
        passed k = ground arith
