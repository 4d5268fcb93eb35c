-- ===== src/Tests/Imports.antt =====
-- Archives of tests at concrete inputs (`internal/importer/tests.go`).
use Prim.Native.String.{String}
use cotests.Prelude.{◌≡◌, refl, true, none, List, [], ◌∷◌, arith}
use cotests.Outcome.{Result, ok, err, failure}
use cotests.Source.{Bytes, Source, read_beyond}
use cotests.Importer.{
  Limits, TestPair, Entry, put_half, pair_of, read_bounded, valid_name, collect, complete_names,
  read_entries, read_test_zip,
}
use cotests.Importer.Names.{path_ext, trim_suffix}
use cotests.Prelude.Int.{difference}
use cotests.Prelude.TextOrder.{text_ltb}
use cotests.Importer.Archive.{Imported, read_test_zip-Imported}

abbrev plain : Bytes → Source
plain content = record { content = content; broken = none }

abbrev entry : String → Bytes → Entry
entry name content = record { name = name; is_regular = true; opened = ok (plain content) }

abbrev two_tests : List Entry
two_tests =
    entry "b.in" (1 ∷ [])
    ∷ entry "a.out" (2 ∷ 3 ∷ [])
    ∷ entry "b.out" []
    ∷ entry "a.in" (4 ∷ [])
    ∷ []

abbrev same_text : String → String
same_text s = s

abbrev unzip_two : Bytes → Result (List Entry)
unzip_two archive = ok two_tests

abbrev pub small : Limits
small = record { max_bytes = 4; max_files = 4 }

abbrev two_pairs : List TestPair
two_pairs =
    record { name = "a"; input = 4 ∷ []; output = 2 ∷ 3 ∷ [] }
    ∷ record { name = "b"; input = 1 ∷ []; output = [] }
    ∷ []

imported : read_test_zip same_text same_text unzip_two (plain (7 ∷ [])) small ≡ ok two_pairs
unfolding read_test_zip read_beyond collect valid_name path_ext read_bounded difference put_half
    trim_suffix complete_names text_ltb pair_of
imported = refl

-- Half of a test is refused.
half_missing :
    read_entries same_text same_text small (entry "a.in" [] ∷ []) ≡ err (failure "missing half")
unfolding read_entries read_beyond collect valid_name path_ext read_bounded difference put_half
    trim_suffix complete_names
half_missing = refl

-- A name with a folder is refused.
unsafe :
    read_entries same_text same_text small (entry "x/a.in" [] ∷ [])
    ≡ err (failure "unsafe file name")
unfolding read_entries collect valid_name
unsafe = refl

-- Limits on the bytes of all files together hold too.
too_many_bytes :
    read_entries same_text same_text small
      (entry "a.in" (1 ∷ 2 ∷ 3 ∷ []) ∷ entry "a.out" (1 ∷ 2 ∷ []) ∷ [])
    ≡ err (failure "archive contents exceed limit")
unfolding read_entries read_beyond collect valid_name path_ext read_bounded difference put_half
    trim_suffix
too_many_bytes = refl

read_test_zip-Imported_example :
    (entries : List Entry) × (unzip_two (7 ∷ []) ≡ ok entries)
    × Imported same_text small entries two_pairs
read_test_zip-Imported_example =
    read_test_zip-Imported same_text same_text unzip_two (plain (7 ∷ [])) small two_pairs
      (omega arith) imported
