-- ===== src/Artifact/Directory.antt =====
-- The directory of the files of `internal/artifact/store.go` as Go's package `os` works on it: any
-- call may fail. `DiskLaws` has what the documentation of the package says of the calls.
pub mod Memory
use cotests.Prelude.{ℕ, ◌≡◌, ◌≢◌, String, Bool, true, false, Option, none, some, List, In}
use cotests.Outcome.{Error, Result, ok, err}
use cotests.Outcome.Action.{Action}
use cotests.Source.{Bytes, Source}
use cotests.Artifact.Keys.{is_upload}

pub record File : Type 0 where
  pub content : Bytes
  pub is_regular : Bool
  pub mod_time : ℕ

-- `look` is what stands under a name.
pub record Disk : Type 1 where
  pub Root : Type 0
  pub look : String → Root → Option File
  pub make_dir : Action Root (Unit {0})
  pub create_temp : Action Root String
  pub write : String → Bytes → Action Root (Unit {0})
  pub sync : String → Action Root (Unit {0})
  pub close : String → Action Root (Unit {0})
  pub chmod : String → Action Root (Unit {0})
  pub rename : String → String → Action Root (Unit {0})
  pub remove : String → Action Root (Unit {0})
  -- the names, and which are directories
  pub read_dir : Root → Result (List (String × Bool))
  pub info : String → Root → Result File
  pub open_file : String → Root → Result Source

module _ (d : Disk) where
  open d use {
    Root, look, make_dir, create_temp, write, sync, close, chmod, rename, remove, read_dir, info,
    open_file,
  }

  -- Only the named file may have changed.
  abbrev pub SameBut : String → Root → Root → Type 0
  SameBut name root root' = (n : String) → n ≢ name → look n root' ≡ look n root

  abbrev pub SameFiles : Root → Root → Type 0
  SameFiles root root' = (n : String) → look n root' ≡ look n root

  pub record DiskLaws : Type 0 where
    pub make_dir_files :
        (x : Result (Unit {0})) (root root' : Root)
        → make_dir root ≡ (x, root')
        → SameFiles root root'
    -- a new empty file, with the prefix that `Save` asks for
    pub create_temp_ok :
        (name : String) (root root' : Root)
        → create_temp root ≡ (ok name, root')
        → (is_upload name ≡ true) × (look name root ≡ none) × SameBut name root root'
    pub create_temp_err :
        (e : Error) (root root' : Root) → create_temp root ≡ (err e, root') → SameFiles root root'
    -- the first write to a new file
    pub write_ok :
        (name : String) (b : Bytes) (root root' : Root)
        → write name b root ≡ (ok tt, root')
        → (file : File) × (look name root' ≡ some file) × (file.content ≡ b)
    pub write_frame :
        (name : String) (b : Bytes) (x : Result (Unit {0})) (root root' : Root)
        → write name b root ≡ (x, root')
        → SameBut name root root'
    pub sync_files :
        (name : String) (x : Result (Unit {0})) (root root' : Root)
        → sync name root ≡ (x, root')
        → SameFiles root root'
    pub close_files :
        (name : String) (x : Result (Unit {0})) (root root' : Root)
        → close name root ≡ (x, root')
        → SameFiles root root'
    pub chmod_files :
        (name : String) (x : Result (Unit {0})) (root root' : Root)
        → chmod name root ≡ (x, root')
        → SameFiles root root'
    -- what stood under the new name is replaced
    pub rename_ok :
        (a b : String) (root root' : Root)
        → rename a b root ≡ (ok tt, root')
        → a ≢ b
        → (look b root' ≡ look a root)
          × (look a root' ≡ none)
          × ((n : String) → n ≢ a → n ≢ b → look n root' ≡ look n root)
    pub rename_err :
        (a b : String) (e : Error) (root root' : Root)
        → rename a b root ≡ (err e, root')
        → SameFiles root root'
    pub remove_ok :
        (name : String) (root root' : Root)
        → remove name root ≡ (ok tt, root')
        → (look name root' ≡ none) × SameBut name root root'
    pub remove_err :
        (name : String) (e : Error) (root root' : Root)
        → remove name root ≡ (err e, root')
        → SameFiles root root'
    pub info_ok :
        (name : String) (root : Root) (file : File)
        → info name root ≡ ok file
        → look name root ≡ some file
    pub open_ok :
        (name : String) (root : Root) (source : Source)
        → open_file name root ≡ ok source
        → (file : File) × (look name root ≡ some file) × (source.content ≡ file.content)

  -- Files can be removed: the only reason for `Remove` to fail is that there is no such file.
  abbrev pub CanRemove : Type 0
  CanRemove =
      (name : String) (e : Error) (root root' : Root)
      → remove name root ≡ (err e, root')
      → look name root ≡ none
