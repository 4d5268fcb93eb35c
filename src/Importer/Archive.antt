-- ===== src/Importer/Archive.antt =====
-- What `ReadTestZIP` in `internal/importer/tests.go` makes of an archive.
use Prim.Native.String.{◌++◌}
use cotests.Prelude.{
  ℕ, ◌≤◌, ◌<◌, ◌≡◌, refl, sym, ap, ◌∙◌, subst, ◌⊎◌, inl, inr, String, true, false, not, ◌||◌,
  Option, none, some, List, [], ◌∷◌, ◌==◌, leb, arith, In, map, length, Option-cases,
}
use cotests.Prelude.Assoc.{lookup, keys, keys-lookup, keys-IsDistinct, lookup-keys}
use cotests.Prelude.TextOrder.{
  IsAscending, IsDistinct, sort_strings, sort_strings-IsAscending, In-sort_strings,
}
use cotests.Outcome.{Result, ok, >>=-eq-ok, guard->>-eq-ok, ok-injective}
use cotests.Source.{Bytes, Source, max_int64, read_beyond, read_beyond_whole}
use cotests.Importer.{
  Limits, TestPair, Entry, Files, TestHalves, half, halves_of, or_empty, is_none, or_nil, kind_of,
  complete_names, pair_of, collect, read_entries, read_test_zip,
}
use cotests.Importer.Names.{path_ext, stem-path_ext}
use cotests.Importer.Halves.{HasBoth, complete_names_sound}
use cotests.Importer.Loop.{Reads, IsFlat, Weigh, stem_of}
use cotests.Importer.Collected.{IsHalf, Collected, collect-Collected}

given : (o : Option Bytes) → is_none o ≡ false → o ≡ some (or_nil o)
given none h = cc
given (some b) h = refl

or_nil_given : {o : Option Bytes} {b : Bytes} → o ≡ some b → b ≡ or_nil o
or_nil_given h = sym (ap or_nil h)

module _ (to_lower : String → String) where
  -- A file holds the half `content` of the test `name`: its name is that of the test with the
  -- extension `kind`, in any case.
  abbrev Holds : String → Bytes → String → Entry → Type 0
  Holds name content kind file =
      (ext : String) × (file.name ≡ name ++ ext) × (to_lower ext ≡ kind) × Reads file content

  -- What an archive was imported as.
  pub record Imported (limits : Limits) (entries : List Entry) (pairs : List TestPair)
      : Type 0 where
    pub ascending : IsAscending (map (λ p. p.name) pairs)
    pub from_files :
        (p : TestPair)
        → In p pairs
        → ((file : Entry) × In file entries × Holds p.name p.input ".in" file)
          × ((file : Entry) × In file entries × Holds p.name p.output ".out" file)
    pub all_files :
        (file : Entry)
        → In file entries
        → IsFlat file.name
          × (file.is_regular ≡ true)
          × (p : TestPair) × In p pairs
          × (Holds p.name p.input ".in" file ⊎ Holds p.name p.output ".out" file)
    pub bytes : (n : ℕ) × Weigh entries n × (n ≤ limits.max_bytes)
    pub files : length entries ≤ limits.max_files

  IsHalf-Holds :
      (l : List Entry) (base kind : String) (content : Bytes)
      → IsHalf to_lower l base kind content
      → (file : Entry) × In file l × Holds base content kind file
  IsHalf-Holds l base kind content (file, i, eb, ek, reads) = (
    file,
    i,
    (
      path_ext file.name,
      sym (stem-path_ext file.name) ∙ ap (λ z. z ++ path_ext file.name) eb,
      ek,
      reads,
    ),
  )

  -- The halves of a name that is listed are there.
  half_given :
      (files : Files) (name : String) (pair : TestHalves) (kind : String)
      → lookup name files ≡ some pair
      → is_none (lookup kind pair) ≡ false
      → half name kind files ≡ some (or_nil (half name kind files))
  unfolding half halves_of
  half_given files name pair kind found h =
      given (half name kind files) (ap (λ z. is_none (lookup kind (or_empty z))) found ∙ h)

  half_listed :
      (files : Files) (name kind : String) (content : Bytes)
      → half name kind files ≡ some content
      → In name (keys files)
  unfolding half halves_of
  half_listed files name kind content h = elim (Option-cases (lookup name files)) [
    | inl e ↦ absurd (nothing (sym (ap (λ z. lookup kind (or_empty z)) e) ∙ h))
    | inr (pair, e) ↦ lookup-keys name pair files e
  ]
    where
      nothing : none ≡ some content → ⊥
      nothing k = cc

map-names :
    (files : Files) (names : List String) → map (λ p. p.name) (map (pair_of files) names) ≡ names
unfolding pair_of
map-names files [] = refl
map-names files (x ∷ l) = ap (◌∷◌ x) (map-names files l)

In-map :
    (files : Files) (names : List String) (p : TestPair)
    → In p (map (pair_of files) names)
    → In p.name names × (p ≡ pair_of files p.name)
unfolding pair_of
In-map files [] p m = absurd m
In-map files (x ∷ l) p (inl e) =
    (inl (ap (λ q. q.name) e), e ∙ ap (pair_of files) (sym (ap (λ q. q.name) e)))
In-map files (x ∷ l) p (inr m) = let (i, e) = In-map files l p m in (inr i, e)

map-In :
    (files : Files) (names : List String) (name : String)
    → In name names
    → In (pair_of files name) (map (pair_of files) names)
map-In files [] name m = absurd m
map-In files (x ∷ l) name (inl e) = inl (ap (pair_of files) e)
map-In files (x ∷ l) name (inr m) = inr (map-In files l name m)

module _ (to_lower : String → String) where
  nothing_before : (b e : String) (c : Bytes) → half b e [] ≡ some c → ⊥
  unfolding half halves_of
  nothing_before b e c h = cc

  -- The halves of a test come from files.
  half-from_file :
      (max : ℕ) (l : List Entry) (files : Files) (name kind : String) (content : Bytes)
      → Collected to_lower max l [] 0 files
      → half name kind files ≡ some content
      → (file : Entry) × In file l × Holds to_lower name content kind file
  half-from_file max l files name kind content collected h =
      elim (collected.added name kind content h) [
        | inl before ↦ absurd (nothing_before name kind content before)
        | inr is_half ↦ IsHalf-Holds to_lower l name kind content is_half
      ]

  Collected-Imported :
      (limits : Limits) (l : List Entry) (files : Files) (names : List String)
      → Collected to_lower limits.max_bytes l [] 0 files
      → complete_names files ≡ ok names
      → length l ≤ limits.max_files
      → Imported to_lower limits l (map (pair_of files) (sort_strings names))
  unfolding pair_of
  Collected-Imported limits l files names collected complete few =
      let (is_keys, both) = complete_names_sound files names complete in
      let sorted = sort_strings names in
      let has : (name : String)
          → In name sorted
          → (pair : TestHalves) × (lookup name files ≡ some pair) × HasBoth pair =
        λ name m.
          keys-lookup HasBoth name files both
            (subst (In name) is_keys ((In-sort_strings name names).0 m)) in
      let listed : (name kind : String) (c : Bytes)
          → half name kind files ≡ some c
          → In name sorted =
        λ name kind c h.
          (In-sort_strings name names).1
            (subst (In name) (sym is_keys) (half_listed to_lower files name kind c h)) in
      record {
        ascending = subst IsAscending (sym (map-names files sorted)) (
            sort_strings-IsAscending names
              (subst IsDistinct (sym is_keys) (keys-IsDistinct files collected.unique)));
        from_files = λ p m.
            let (i, e) = In-map files sorted p m in
            let (pair, found, both) = has p.name i in
            let from = λ (kind : String) (h : is_none (lookup kind pair) ≡ false).
              half-from_file limits.max_bytes l files p.name kind (or_nil (half p.name kind files))
                collected (half_given to_lower files p.name pair kind found h) in
            subst
              (λ q.
                ((file : Entry) × In file l × Holds to_lower q.name q.input ".in" file)
                × ((file : Entry) × In file l × Holds to_lower q.name q.output ".out" file))
              (sym e) (from ".in" both.0, from ".out" both.1);
        all_files = λ file m.
            let (flat, regular, known, content, reads, stored) = collected.taken file m in
            let name = stem_of file.name in
            let kind = kind_of to_lower file.name in
            let holds : (k : String)
                → kind ≡ k
                → (half name k files ≡ some content) × Holds to_lower name content k file =
              λ k e. (
                subst (λ z. half name z files ≡ some content) e stored,
                (path_ext file.name, sym (stem-path_ext file.name), e, reads),
              ) in
            (
              flat,
              regular,
              pair_of files name,
              map-In files sorted name (listed name kind content stored),
              elim known [
                | inl e ↦
                    let (h, there) = holds ".in" e in
                    inl (subst (λ c. Holds to_lower name c ".in" file) (or_nil_given h) there)
                | inr e ↦
                    let (h, there) = holds ".out" e in
                    inr (subst (λ c. Holds to_lower name c ".out" file) (or_nil_given h) there)
              ],
            );
        bytes = let (n, weigh, fits) = collected.weight in (n, weigh, ground arith);
        files = few;
      }

module _ (clean to_lower : String → String) where
  read_entries-Imported :
      (limits : Limits) (l : List Entry) (pairs : List TestPair)
      → limits.max_bytes < max_int64
      → read_entries clean to_lower limits l ≡ ok pairs
      → Imported to_lower limits l pairs
  unfolding read_entries
  read_entries-Imported limits l pairs bound h =
      let (_, h₁) = guard->>-eq-ok (not (length l == 0)) _ _ h in
      let (few, h₂) = guard->>-eq-ok (leb (length l) limits.max_files) _ _ h₁ in
      let (r, collected, h₃) = >>=-eq-ok (collect clean to_lower limits l [] 0) _ h₂ in
      let (names, complete, done) = >>=-eq-ok (complete_names r.0) _ h₃ in
      subst (Imported to_lower limits l) (ok-injective done) (
        Collected-Imported to_lower limits l r.0 names
          (collect-Collected clean to_lower limits l [] 0 r bound tt (omega arith) collected)
          complete (ground arith))

  -- An archive that is imported within limits below the greatest int64: the tests are in the order
  -- of their names and no name is there twice, both halves of each are the whole content of a file
  -- of the archive that is named after it with the extension ".in" or ".out", every file of the
  -- archive is regular, has a name without a slash or backslash and is such a half of a test that
  -- was returned, and the files are no more and have together no more bytes than the limits allow.
  pub read_test_zip-Imported :
      (unzip : Bytes → Result (List Entry)) (source : Source) (limits : Limits)
      (pairs : List TestPair)
      → limits.max_bytes < max_int64
      → read_test_zip clean to_lower unzip source limits ≡ ok pairs
      → (entries : List Entry) × (unzip source.content ≡ ok entries)
        × Imported to_lower limits entries pairs
  unfolding read_test_zip
  read_test_zip-Imported unzip source limits pairs bound h =
      let (_, h₁) = guard->>-eq-ok (not (limits.max_bytes == 0 || limits.max_files == 0)) _ _ h in
      let (archive, read, h₂) = >>=-eq-ok (read_beyond limits.max_bytes source) _ h₁ in
      let (small, h₃) = guard->>-eq-ok (leb (length archive) limits.max_bytes) _ _ h₂ in
      let (entries, found, done) = >>=-eq-ok (unzip archive) _ h₃ in
      let (whole, _) =
        read_beyond_whole limits.max_bytes source archive bound read (ground arith) in
      (entries, ap unzip (sym whole) ∙ found, read_entries-Imported limits entries pairs bound done)
