-- ===== src/Importer/Loop.antt =====
-- The loop of `ReadTestZIP` in `internal/importer/tests.go` over the entries of an archive.
use cotests.Prelude.{
  ℕ, ◌+◌, ◌-◌, ◌≤◌, ◌<◌, ◌≡◌, sym, ◌∙◌, subst, ◌⊎◌, inl, inr, String, true, false, ◌||◌, none, List,
  [], ◌∷◌, leb, str_eq, eq_iff, arith, length, Bool-cases,
}
use cotests.Prelude.Int.{pos, difference}
use cotests.Outcome.{Error, ok, err, >>=-eq-ok, guard->>-eq-ok, guard-eq-ok, ok-injective}
use cotests.Source.{Bytes, Source, max_int64, read_beyond, read_beyond_whole}
use cotests.Importer.{
  Limits, Entry, Files, half, put_half, kind_of, read_bounded, valid_name, collect,
}
use cotests.Importer.Names.{has_byte, path_ext, trim_suffix, base_name, base_name_flat}
use cotests.Importer.Halves.{is_none_sound}

-- The file opened, and this is all of its content.
abbrev pub Reads : Entry → Bytes → Type 0
Reads file content =
    (reader : Source) × (file.opened ≡ ok reader)
    × (reader.content ≡ content)
    × (reader.broken ≡ none)

-- A name without a slash or a backslash.
abbrev pub IsFlat : String → Type 0
IsFlat name = (has_byte 0x2f name ≡ false) × (has_byte 0x5c name ≡ false)

-- The contents of the files have so many bytes together.
abbrev pub Weigh : List Entry → ℕ → Type 0
Weigh [] n = n ≡ 0
Weigh (file ∷ l) n =
    (content : Bytes) × Reads file content × (m : ℕ) × Weigh l m × (n ≡ length content + m)

read_within :
    (file : Entry) (remaining : ℕ) (content : Bytes)
    → remaining < max_int64
    → read_bounded file (pos remaining) ≡ ok content
    → Reads file content × (length content ≤ remaining)
unfolding read_bounded
read_within file remaining content bound h =
    let (reader, opened, h₁) = >>=-eq-ok file.opened _ h in
    let (c, read, h₂) = >>=-eq-ok (read_beyond remaining reader) _ h₁ in
    let (small, done) = guard->>-eq-ok (leb (length c) remaining) _ _ h₂ in
    let same : c ≡ content = ok-injective done in
    let fits : length c ≤ remaining = ground arith in
    let (whole, unbroken) = read_beyond_whole remaining reader c bound read fits in
    ((reader, opened, sym whole ∙ same, unbroken), subst (λ z. length z ≤ remaining) same fits)

read_bounded_sound :
    (file : Entry) (max total : ℕ) (content : Bytes)
    → max < max_int64
    → read_bounded file (difference max total) ≡ ok content
    → Reads file content × (total + length content ≤ max)
unfolding difference read_bounded
read_bounded_sound file max total content bound h = elim (Bool-cases (leb total max)) [
  | inl within ↦
      let (reads, fits) = read_within file (max - total) content (omega arith) (rw within at h) in
      (reads, ground arith)
  | inr over ↦ absurd (not_ok (rw over at h))
]
  where
    not_ok : {e : Error} → err e ≡ ok content → ⊥
    not_ok k = cc

valid_name_sound :
    (clean : String → String) (name : String) {u : Unit {0}}
    → valid_name clean name ≡ ok u
    → IsFlat name
unfolding valid_name
valid_name_sound clean name h =
    let t = guard-eq-ok _ _ h in
    let e : str_eq (base_name name) name ≡ true = ground arith in
    (base_name_flat name ((eq_iff (base_name name) name).0 e) (ground arith), ground arith)

known_kind :
    (kind : String)
    → (str_eq kind ".in" || str_eq kind ".out") ≡ true
    → (kind ≡ ".in") ⊎ (kind ≡ ".out")
known_kind kind h = elim (Bool-cases (str_eq kind ".in")) [
  | inl t ↦ inl ((eq_iff kind ".in").0 t)
  | inr f ↦ inr ((eq_iff kind ".out").0 (ground arith))
]

abbrev pub stem_of : String → String
stem_of name = trim_suffix name (path_ext name)

module _ (to_lower : String → String) where
  -- what a round of the loop has checked and read
  pub record Round (limits : Limits) (file : Entry) (files : Files) (total : ℕ) : Type 0 where
    pub content : Bytes
    pub flat : IsFlat file.name
    pub regular : file.is_regular ≡ true
    pub known : (kind_of to_lower file.name ≡ ".in") ⊎ (kind_of to_lower file.name ≡ ".out")
    pub fresh : half (stem_of file.name) (kind_of to_lower file.name) files ≡ none
    pub reads : Reads file content
    pub fits : total + length content ≤ limits.max_bytes

module _ (clean to_lower : String → String) where
  pub collect-Round :
      (limits : Limits) (file : Entry) (l : List Entry) (files : Files) (total : ℕ) (r : Files × ℕ)
      → limits.max_bytes < max_int64
      → collect clean to_lower limits (file ∷ l) files total ≡ ok r
      → (round : Round to_lower limits file files total) × (collect clean to_lower limits l
            (put_half (stem_of file.name) (kind_of to_lower file.name) round.content files)
            (total + length round.content)
          ≡ ok r)
  unfolding collect
  collect-Round limits file l files total r bound h =
      let (u, named, h₁) = >>=-eq-ok (valid_name clean file.name) _ h in
      let (regular, h₂) = guard->>-eq-ok file.is_regular _ _ h₁ in
      let (known, h₃) = guard->>-eq-ok _ _ _ h₂ in
      let (fresh, h₄) = guard->>-eq-ok _ _ _ h₃ in
      let (content, read, h₅) =
        >>=-eq-ok (read_bounded file (difference limits.max_bytes total)) _ h₄ in
      let (fits, rest) = guard->>-eq-ok _ _ _ h₅ in
      let (reads, small) = read_bounded_sound file limits.max_bytes total content bound read in
      (
        record {
          content = content;
          flat = valid_name_sound clean file.name named;
          regular = regular;
          known = known_kind (kind_of to_lower file.name) known;
          fresh = is_none_sound _ fresh;
          reads = reads;
          fits = small;
        },
        rest,
      )
