-- ===== src/Artifact.antt =====
-- `internal/artifact/store.go`: the store of private files. A file system (`Artifact.Directory`) stands
-- beside the database; `storageMu` lets one call run at a time, so a call is one step. The bytes
-- from the random source, SHA-256 and the time that GORM gives a new row are arguments.
pub mod Directory
pub mod Keys
pub mod Files
pub mod Saving
pub mod Harmless
pub mod Stored
use cotests.Prelude.{
  ℕ, ◌+◌, String, Bool, true, false, not, ◌&&◌, ◌||◌, Option, none, some, List, [], ◌∷◌, ltb, leb,
  ◌==◌, if◌then◌else◌, str_eq, is_empty, trim_space, length, take,
}
use cotests.Prelude.Int.{ℤ, difference, exceeds}
use cotests.Outcome.{Error, Result, ok, err, failure, too_large, quota, not_exist, guard}
use cotests.Outcome.Action.{Action, pure, ask, lift, ◌>>=◌, ◌>>◌, deferred, closed_by}
use cotests.Source.{Bytes, Source, beyond, read_beyond}
use cotests.Importer.Names.{base_name}
use cotests.Db.Models
use cotests.Db.Models.{Table}
use cotests.Db.Gorm.{Gorm}
use Directory.{Disk, File}
use Keys.{random_key, is_upload, is_key}

pub record Store : Type 0 where
  pub max_bytes : ℕ
  pub max_total_bytes : ℕ

-- `errors.Is(err, os.ErrNotExist)`
abbrev pub is_not_exist : Error → Bool
is_not_exist not_exist = true
is_not_exist e = false

module _ (d : Disk) where
  open d use {
    Root, read_dir, info, make_dir, create_temp, write, sync, close, chmod, rename, remove,
    open_file,
  }

  -- the loop that adds up the sizes of the stored files
  unfoldable pub used_bytes : List (String × Bool) → ℕ → Root → Result ℕ
  used_bytes [] used root = ok used
  used_bytes ((name, is_dir) ∷ l) used root = elim (is_dir || is_upload name) [
    | true ↦ used_bytes l used root
    | false ↦ elim (info name root) [
      | err e ↦ err e
      | ok file ↦ used_bytes l (used + length file.content) root
    ]
  ]

  unfoldable pub within_quota : Store → ℕ → Action Root (Unit {0})
  unfolding used_bytes
  within_quota store written = if store.max_total_bytes == 0 then pure tt else do
    entries ← ask read_dir
    used ← ask (used_bytes entries 0)
    lift (guard (not (exceeds written (difference store.max_total_bytes used))) quota)

  -- the copy into the temporary file, which is closed in any case
  abbrev pub copy_to : Store → Source → String → Action Root Bytes
  copy_to store source name = do
    write name (take (beyond store.max_bytes) source.content)
    content ← lift (read_beyond store.max_bytes source)
    sync name
    pure content

  unfoldable pub fill : Store → Source → String → Action Root Bytes
  fill store source name = closed_by (close name) (copy_to store source name)

  -- `Save` from the temporary file on, up to the metadata
  unfoldable pub commit_file : Store → Source → String → String → Action Root Bytes
  unfolding fill within_quota
  commit_file store source name key = do
    content ← fill store source name
    lift (guard (leb (length content) store.max_bytes) too_large)
    within_quota store (length content)
    chmod name
    rename name key
    pure content

  unfoldable pub remove_key : String → Action Root (Unit {0})
  unfolding is_key
  remove_key key = do lift (guard (is_key key) (failure "invalid artifact key")); remove key

  -- `Open`
  unfoldable pub open_artifact : Models.Artifact → Root → Result Source
  unfolding is_key
  open_artifact item root =
      if is_key item.storage_key
      then open_file item.storage_key root
      else err (failure "invalid artifact key")

  -- what a pass over the files gives: how many were removed, how it ended, and the directory
  abbrev pub Pass : Type 0
  Pass = ℕ × Result (Unit {0}) × Root

  -- the rest of a pass, unless it ended
  abbrev pub and_then : Pass → (ℕ → Root → Pass) → Pass
  and_then (removed, ok u, root) rest = rest removed root
  and_then (removed, err e, root) rest = (removed, err e, root)

  -- a pass over the entries of the directory; there may be none yet
  abbrev pub over_entries :
      Result (List (String × Bool)) → (List (String × Bool) → ℕ → Root → Pass) → ℕ → Root → Pass
  over_entries (ok entries) pass removed root = pass entries removed root
  over_entries (err e) pass removed root = (removed, if is_not_exist e then ok tt else err e, root)

  abbrev pub counted_upload : Result (Unit {0}) × Root → ℕ → Pass
  counted_upload (ok u, root) removed = (removed + 1, ok tt, root)
  counted_upload (err e, root) removed = (removed, err e, root)

  abbrev pub old_upload : ℕ → String → Result File → ℕ → Root → Pass
  old_upload cutoff name (err e) removed root = (removed, err e, root)
  old_upload cutoff name (ok file) removed root =
      if file.is_regular && ltb file.mod_time cutoff
      then counted_upload (remove name root) removed
      else (removed, ok tt, root)

  abbrev pub upload_entry : ℕ → String → ℕ → Root → Pass
  upload_entry cutoff name removed root =
      if is_upload name
      then old_upload cutoff name (info name root) removed root
      else (removed, ok tt, root)

  -- the loop of `CollectTemporary`, with the number of files removed so far
  unfoldable pub collect_uploads : ℕ → List (String × Bool) → ℕ → Root → Pass
  collect_uploads cutoff [] removed root = (removed, ok tt, root)
  collect_uploads cutoff ((name, is_dir) ∷ l) removed root =
      and_then (upload_entry cutoff name removed root) (collect_uploads cutoff l)

  unfoldable pub collect_temporary : ℕ → Root → Pass
  unfolding collect_uploads
  collect_temporary cutoff root = over_entries (read_dir root) (collect_uploads cutoff) 0 root

  module _ (g : Gorm) where
    open g use {State, create}

    -- the state of the database and that of the directory
    abbrev pub World : Type 0
    World = State × Root

    abbrev pub on_disk : {A : Type 0} → Action Root A → Action World A
    on_disk m (s, root) = let (r, root') = m root in (r, (s, root'))

    -- the row, and the file away again if it cannot be stored
    abbrev pub kept_or_removed :
        String → Result Models.Artifact × State → Root → Result Models.Artifact × World
    kept_or_removed key (ok stored, s) root = (ok stored, (s, root))
    kept_or_removed key (err e, s) root = (err e, (s, (remove key root).1))

    abbrev pub with_row : String → Models.Artifact → Action World Models.Artifact
    with_row key row (s, root) = kept_or_removed key (create Table.artifacts row s) root

    module _ (digest : Bytes → String) where
      abbrev pub new_artifact : ℕ → String → String → String → ℕ → Bytes → Models.Artifact
      new_artifact owner_id key filename content_type now content = record {
        id = 0;
        owner_id = owner_id;
        storage_key = key;
        sha256 = digest content;
        size_bytes = length content;
        content_type = content_type;
        filename = base_name filename;
        created_at = now;
      }

      -- the part of `Save` that has a temporary file
      abbrev pub save_in :
          Store → Source → ℕ → String → String → ℕ → String → String → Action World Models.Artifact
      save_in store source owner_id filename content_type now key name = do
        content ← on_disk (commit_file store source name key)
        with_row key (new_artifact owner_id key filename content_type now content)

      unfoldable pub save :
          Store → Result Bytes → ℕ → ℕ → String → String → Source → Action World Models.Artifact
      unfolding random_key
      save store random now owner_id filename content_type source = do
        lift (
            guard (not (owner_id == 0 || is_empty (trim_space filename) || store.max_bytes == 0))
              (failure "invalid artifact"))
        on_disk make_dir
        key ← lift (random_key random)
        name ← on_disk create_temp
        deferred (on_disk (remove name))
            (save_in store source owner_id filename content_type now key name)
