-- ===== src/Content/Files/Spared.antt =====
-- The passes over the files in `Collect` of `internal/content/files.go` and `CollectTemporary` of
-- `internal/artifact/store.go`: which files they leave alone.
use Prim.Native.String.{len}
use cotests.Prelude.{
  ℕ, ◌≡◌, ◌≢◌, refl, sym, ap, ◌∙◌, inl, inr, String, Bool, true, false, ◌&&◌, Option, none, some,
  List, [], ◌∷◌, In, ◌==◌, ltb, arith, eq_iff, if◌then◌else◌, In-count_where,
}
use cotests.Outcome.{Error, Result, ok, err}
use cotests.Db.Models.{Artifact, Table}
use cotests.Db.Gorm.{Gorm, GormLaws}
use cotests.Artifact.Directory.{Disk, DiskLaws, File}
use cotests.Artifact.Keys.{is_upload}
use cotests.Artifact.Files.{remove-SameBut, remove_key-SameBut}
use cotests.Artifact.{
  Pass, and_then, over_entries, counted_upload, old_upload, upload_entry, remove_key,
  collect_uploads, collect_temporary,
}
use cotests.Content.Files.Collector.{
  stored_as, is_hex, unlinked, unlink, unowned, old_file, unless_cancelled, orphans, collect_files,
}

module _ (d : Disk) (disk_laws : DiskLaws d) (key : String) where
  open d use {Root, look, info, remove, read_dir}

  -- The file under the key is as it was.
  abbrev Spares : Root → Pass d → Type 0
  Spares root p = look key p.2 ≡ look key root

  and_then-Spares :
      (root : Root) (p : Pass d) (rest : ℕ → Root → Pass d)
      → Spares root p
      → ((n : ℕ) (root₁ : Root) → Spares root₁ (rest n root₁))
      → Spares root (and_then d p rest)
  and_then-Spares root (n, ok u, root₁) rest h k = k n root₁ ∙ h
  and_then-Spares root (n, err e, root₁) rest h k = h

  over_entries-Spares :
      (x : Result (List (String × Bool))) (pass : List (String × Bool) → ℕ → Root → Pass d) (n : ℕ)
      (root : Root)
      → ((l : List (String × Bool)) → Spares root (pass l n root))
      → Spares root (over_entries d x pass n root)
  over_entries-Spares (ok l) pass n root h = h l
  over_entries-Spares (err e) pass n root h = refl

  -- A test whose branches all spare the file.
  if-Spares :
      (b : Bool) (root : Root) (p q : Pass d)
      → (b ≡ true → Spares root p)
      → Spares root q
      → Spares root (if b then p else q)
  if-Spares true root p q h k = h refl
  if-Spares false root p q h k = k

  counted_upload-Spares :
      (x : Result (Unit {0}) × Root) (n : ℕ) (root : Root)
      → look key x.1 ≡ look key root
      → Spares root (counted_upload d x n)
  counted_upload-Spares (ok u, root₁) n root h = h
  counted_upload-Spares (err e, root₁) n root h = h

  old_upload-Spares :
      (cutoff : ℕ) (name : String) (x : Result File) (n : ℕ) (root : Root)
      → key ≢ name
      → Spares root (old_upload d cutoff name x n root)
  old_upload-Spares cutoff name (err e) n root ne = refl
  old_upload-Spares cutoff name (ok file) n root ne =
      if-Spares (file.is_regular && ltb file.mod_time cutoff) root _ _
        (λ _.
          counted_upload-Spares (remove name root) n root
            (remove-SameBut d disk_laws name root key ne))
        refl

  apart : (name : String) → is_upload key ≡ false → is_upload name ≡ true → key ≢ name
  apart name h k e = both (sym k ∙ sym (ap is_upload e) ∙ h)
    where
      both : true ≡ false → ⊥
      both q = cc

  uploads-Spares :
      (cutoff : ℕ) (l : List (String × Bool)) (n : ℕ) (root : Root)
      → is_upload key ≡ false
      → Spares root (collect_uploads d cutoff l n root)
  unfolding collect_uploads
  uploads-Spares cutoff [] n root h = refl
  uploads-Spares cutoff ((name, is_dir) ∷ l) n root h =
      and_then-Spares root (upload_entry d cutoff name n root) (collect_uploads d cutoff l)
        (if-Spares (is_upload name) root _ _
          (λ yes_upload.
            old_upload-Spares cutoff name (info name root) n root (apart name h yes_upload))
          refl)
        (λ m root₁. uploads-Spares cutoff l m root₁ h)

  -- A pass over the temporary files leaves a file that is not one of them.
  collect_temporary-Spares :
      (cutoff : ℕ) (root : Root)
      → is_upload key ≡ false
      → Spares root (collect_temporary d cutoff root)
  unfolding collect_temporary
  collect_temporary-Spares cutoff root h =
      over_entries-Spares (read_dir root) (collect_uploads d cutoff) 0 root
        (λ l. uploads-Spares cutoff l 0 root h)

  module _ (g : Gorm) where
    open g use {State, rows, count}

    unlinked-Spares :
        (x : Result (Unit {0}) × Root) (n : ℕ) (root : Root)
        → look key x.1 ≡ look key root
        → Spares root (unlinked d g x n)
    unlinked-Spares (ok u, root₁) n root h = h
    unlinked-Spares (err e, root₁) n root h = h

    unlink-Spares :
        (l : List Artifact) (n : ℕ) (root : Root)
        → ((item : Artifact) → In item l → key ≢ item.storage_key)
        → Spares root (unlink d g l n root)
    unfolding unlink
    unlink-Spares [] n root h = refl
    unlink-Spares (item ∷ l) n root h =
        and_then-Spares root (unlinked d g (remove_key d item.storage_key root) n) (unlink d g l)
          (unlinked-Spares (remove_key d item.storage_key root) n root
            (remove_key-SameBut d disk_laws item.storage_key root key (h item (inl refl))))
          (λ m root₁. unlink-Spares l m root₁ (λ other i. h other (inr i)))

    module _ (laws : GormLaws g) (a : Artifact) (is_key : a.storage_key ≡ key) (s : State)
        (stored : In a (rows Table.artifacts s)) where
      -- A file with an artifact is not removed as an orphan.
      unowned-Spares :
          (name : String) (x : Result ℕ) (n : ℕ) (root : Root)
          → count Table.artifacts (stored_as name) s ≡ x
          → Spares root (unowned d g name x n root)
      unowned-Spares name (err e) n root h = refl
      unowned-Spares name (ok m) n root h =
          if-Spares (m == 0) root _ _
            (λ zero_owners.
              unlinked-Spares (remove_key d name root) n root
                (remove_key-SameBut d disk_laws name root key (λ e. owned e zero_owners)))
            refl
        where
          owned : key ≡ name → (m == 0) ≡ true → ⊥
          owned e none_there =
              let counted = laws.count_ok Table.artifacts (stored_as name) s m h in
              let here : stored_as name a ≡ true = (eq_iff a.storage_key name).1 (is_key ∙ e) in
              ground (arith, In-count_where (stored_as name) (rows Table.artifacts s) stored here)

      orphans-Spares :
          (cutoff : ℕ) (cancelled : String → Option Error) (l : List (String × Bool)) (n : ℕ)
          (root : Root)
          → Spares root (orphans d g cutoff cancelled s l n root)
      unfolding orphans
      orphans-Spares cutoff cancelled [] n root = refl
      orphans-Spares cutoff cancelled ((name, is_dir) ∷ l) n root =
          and_then-Spares root
            (unless_cancelled d g cutoff cancelled s (cancelled name) name n root)
            (orphans d g cutoff cancelled s l) (round (cancelled name))
            (λ m root₁. orphans-Spares cutoff cancelled l m root₁)
        where
          file : (x : Result File) → Spares root (old_file d g cutoff cancelled s name x n root)
          file (err e) = refl
          file (ok f) =
              if-Spares (f.is_regular && ltb f.mod_time cutoff) root _ _
                (λ _. unowned-Spares name (count Table.artifacts (stored_as name) s) n root refl)
                refl

          round :
              (o : Option Error)
              → Spares root (unless_cancelled d g cutoff cancelled s o name n root)
          round (some e) = refl
          round none =
              if-Spares ((len name == 64) && is_hex name) root _ _ (λ _. file (info name root)) refl

      -- All that follows the transaction.
      pub collect_files-Spares :
          (cutoff : ℕ) (cancelled : String → Option Error) (found : List Artifact) (root : Root)
          → is_upload key ≡ false
          → ((item : Artifact) → In item found → key ≢ item.storage_key)
          → Spares root (collect_files d g cutoff cancelled s found root)
      unfolding collect_files
      collect_files-Spares cutoff cancelled found root not_upload others =
          and_then-Spares root (unlink d g found 0 root) _ (unlink-Spares found 0 root others)
            (λ removed root₁.
              and_then-Spares root₁ _
                (λ removed₂ root₂.
                  over_entries d (read_dir root₂) (orphans d g cutoff cancelled s) removed₂ root₂)
                (collect_temporary-Spares cutoff root₁ not_upload)
                (λ removed₂ root₂.
                  over_entries-Spares (read_dir root₂) (orphans d g cutoff cancelled s) removed₂
                    root₂ (λ l. orphans-Spares cutoff cancelled l removed₂ root₂)))
