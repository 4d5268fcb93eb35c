-- ===== src/Importer.antt =====
-- `internal/importer/tests.go`: archives of tests. What `archive/zip` finds in an archive,
-- `path.Clean` and `strings.ToLower` are parameters. A map from names to the halves of a test is a
-- list of entries, in any order, since the names are sorted in the end.
pub mod Names
pub mod Halves
pub mod Loop
pub mod Collected
pub mod Archive
use Prim.Native.Char.{code}
use cotests.Prelude.{
  ℕ, ◌+◌, ◌-◌, String, Bool, true, false, not, ◌&&◌, ◌||◌, Option, none, some, List, [], ◌∷◌, map,
  ltb, leb, ◌==◌, if◌then◌else◌, str_eq, is_empty, length,
}
use cotests.Prelude.Int.{ℤ, pos, negsuc, difference}
use cotests.Prelude.Assoc.{lookup, put}
use cotests.Prelude.TextOrder.{sort_strings}
use cotests.Outcome.{Result, ok, err, failure, guard, ◌>>=◌, ◌>>◌}
use cotests.Source.{Bytes, Source, read_beyond}
use Names.{has_byte, path_ext, trim_suffix, is_abs, base_name, contains_parent}

pub record Limits : Type 0 where
  pub max_bytes : ℕ
  pub max_files : ℕ

pub record TestPair : Type 0 where
  pub name : String
  pub input : Bytes
  pub output : Bytes

-- a `zip.File`: its name, whether its mode is that of a regular file, and what `Open` gives
pub record Entry : Type 0 where
  pub name : String
  pub is_regular : Bool
  pub opened : Result Source

-- `map[string]map[string][]byte`
abbrev pub TestHalves : Type 0
TestHalves = List (String × Bytes)

abbrev pub Files : Type 0
Files = List (String × TestHalves)

abbrev pub or_empty : Option TestHalves → TestHalves
or_empty none = []
or_empty (some halves) = halves

-- `files[base]`, which is an empty map for a name that is not there
unfoldable pub halves_of : String → Files → TestHalves
halves_of base files = or_empty (lookup base files)

-- `files[base][ext]`
unfoldable pub half : String → String → Files → Option Bytes
unfolding halves_of
half base ext files = lookup ext (halves_of base files)

unfoldable pub put_half : String → String → Bytes → Files → Files
unfolding halves_of
put_half base ext content files = put base (put ext content (halves_of base files)) files

abbrev pub is_none : Option Bytes → Bool
is_none none = true
is_none (some b) = false

abbrev pub or_nil : Option Bytes → Bytes
or_nil none = []
or_nil (some b) = b

unfoldable pub read_bounded : Entry → ℤ → Result Bytes
read_bounded file (negsuc n) = err (failure "archive contents exceed limit")
read_bounded file (pos remaining) = do
  reader ← file.opened
  content ← read_beyond remaining reader
  guard (leb (length content) remaining) (failure "archive contents exceed limit")
  ok content

-- the loop that checks that both halves of each name are there and lists the names
unfoldable pub complete_names : Files → Result (List String)
complete_names [] = ok []
complete_names ((name, pair) ∷ l) = do
  guard (not (is_none (lookup ".in" pair) || is_none (lookup ".out" pair))) (failure "missing half")
  names ← complete_names l
  ok (name ∷ names)

unfoldable pub pair_of : Files → String → TestPair
unfolding half
pair_of files name = record {
  name = name;
  input = or_nil (half name ".in" files);
  output = or_nil (half name ".out" files);
}

-- the extension in lower case
abbrev pub kind_of : (String → String) → String → String
kind_of to_lower name = to_lower (path_ext name)

module _ (clean : String → String) where
  unfoldable pub valid_name : String → Result (Unit {0})
  unfolding has_byte is_abs base_name contains_parent
  valid_name name =
      guard
        (not (
          is_empty name
          || has_byte 0x5c name
          || is_abs name
          || contains_parent (clean name)
          || not (str_eq (base_name name) name)))
        (failure "unsafe file name")

  module _ (to_lower : String → String) where
    -- the loop over the entries, with the map and the bytes read so far
    unfoldable pub collect : Limits → List Entry → Files → ℕ → Result (Files × ℕ)
    unfolding half
    collect limits [] files total = ok (files, total)
    collect limits (file ∷ entries) files total = do
      valid_name file.name
      guard file.is_regular (failure "only regular files are allowed")
      guard
          (str_eq (kind_of to_lower file.name) ".in" || str_eq (kind_of to_lower file.name) ".out")
          (failure "unsupported file")
      guard
          (is_none
            (half (trim_suffix file.name (path_ext file.name)) (kind_of to_lower file.name) files))
          (failure "duplicate file")
      content ← read_bounded file (difference limits.max_bytes total)
      guard (leb (total + length content) limits.max_bytes)
          (failure "archive contents exceed byte limit")
      collect limits entries
          (put_half (trim_suffix file.name (path_ext file.name)) (kind_of to_lower file.name)
            content files)
          (total + length content)

    unfoldable pub read_entries : Limits → List Entry → Result (List TestPair)
    read_entries limits entries = do
      guard (not (length entries == 0)) (failure "archive must contain tests")
      guard (leb (length entries) limits.max_files) (failure "archive has too many files")
      r ← collect limits entries [] 0
      names ← complete_names r.0
      ok (map (pair_of r.0) (sort_strings names))

    module _ (unzip : Bytes → Result (List Entry)) where
      unfoldable pub read_test_zip : Source → Limits → Result (List TestPair)
      unfolding read_entries
      read_test_zip source limits = do
        guard (not (limits.max_bytes == 0 || limits.max_files == 0))
            (failure "invalid import limits")
        archive ← read_beyond limits.max_bytes source
        guard (leb (length archive) limits.max_bytes) (failure "archive exceeds byte limit")
        entries ← unzip archive
        read_entries limits entries
