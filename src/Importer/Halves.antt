-- ===== src/Importer/Halves.antt =====
-- What the loops of `ReadTestZIP` in `internal/importer/tests.go` leave in the map of files.
use cotests.Prelude.{
  ◌≡◌, refl, sym, ap, ◌∙◌, ◌⊎◌, inl, inr, String, true, false, not, ◌&&◌, ◌||◌, Option, none, some,
  List, [], ◌∷◌, if◌then◌else◌, str_eq, eq_iff, eq_refl, arith, All, Bool-cases,
}
use cotests.Prelude.Assoc.{
  lookup, put, lookup-put, UniqueKeys, keys, put-UniqueKeys, lookup-put_same, lookup-put_other,
}
use cotests.Outcome.{ok, >>=-eq-ok, guard->>-eq-ok, ok-injective}
use cotests.Source.{Bytes}
use cotests.Importer.{
  Files, TestHalves, or_empty, halves_of, half, put_half, is_none, complete_names,
}

halves_of-put_half :
    (base ext : String) (content : Bytes) (files : Files)
    → halves_of base (put_half base ext content files) ≡ put ext content (halves_of base files)
unfolding halves_of put_half
halves_of-put_half base ext content files =
    ap or_empty (lookup-put_same base (put ext content (halves_of base files)) files)

halves_of-put_half_other :
    (base b ext : String) (content : Bytes) (files : Files)
    → str_eq b base ≡ false
    → halves_of b (put_half base ext content files) ≡ halves_of b files
unfolding halves_of put_half
halves_of-put_half_other base b ext content files ne =
    ap or_empty (lookup-put_other b base (put ext content (halves_of base files)) files ne)

-- What was put is there, and the other halves are as they were.
half-put_half :
    (base ext b e : String) (content : Bytes) (files : Files)
    → half b e (put_half base ext content files)
      ≡ (if str_eq b base && str_eq e ext then some content else half b e files)
unfolding half
half-put_half base ext b e content files = elim (Bool-cases (str_eq b base)) [
  | inl same ↦
      let e₁ = (eq_iff b base).0 same in
      rw same (
        ap (λ z. lookup e (halves_of z (put_half base ext content files))) e₁
        ∙ ap (lookup e) (halves_of-put_half base ext content files)
        ∙ lookup-put e ext content (halves_of base files)
        ∙ ap (λ z. if str_eq e ext then some content else half z e files) (sym e₁))
  | inr apart ↦ rw apart (ap (lookup e) (halves_of-put_half_other base b ext content files apart))
]

pub put_half-UniqueKeys :
    (base ext : String) (content : Bytes) (files : Files)
    → UniqueKeys files
    → UniqueKeys (put_half base ext content files)
unfolding put_half
put_half-UniqueKeys base ext content files u =
    put-UniqueKeys base (put ext content (halves_of base files)) files u

pub is_none_sound : (o : Option Bytes) → is_none o ≡ true → o ≡ none
is_none_sound none h = refl
is_none_sound (some b) h = cc

is_none_given : (o : Option Bytes) → is_none o ≡ false → (b : Bytes) × (o ≡ some b)
is_none_given none h = cc
is_none_given (some b) h = (b, refl)

-- A half that was not there is added, and the others stay.
pub put_half_new :
    (base ext b e : String) (content c : Bytes) (files : Files)
    → half base ext files ≡ none
    → half b e (put_half base ext content files) ≡ some c
    → ((b ≡ base) × (e ≡ ext) × (c ≡ content)) ⊎ (half b e files ≡ some c)
put_half_new base ext b e content c files fresh h =
    let k = sym (half-put_half base ext b e content files) ∙ h in
    elim (Bool-cases (str_eq b base && str_eq e ext)) [
      | inl here ↦ inl (
        (eq_iff b base).0 (ground arith),
        (eq_iff e ext).0 (ground arith),
        same_bytes (rw here at k),
      )
      | inr there ↦ inr (rw there at k)
    ]
  where
    same_bytes : some content ≡ some c → c ≡ content
    same_bytes q = cc

pub put_half_same :
    (base ext : String) (content : Bytes) (files : Files)
    → half base ext (put_half base ext content files) ≡ some content
put_half_same base ext content files =
    half-put_half base ext base ext content files ∙ rw (eq_refl base, eq_refl ext) refl

pub put_half_old :
    (base ext b e : String) (content c : Bytes) (files : Files)
    → half base ext files ≡ none
    → half b e files ≡ some c
    → half b e (put_half base ext content files) ≡ some c
put_half_old base ext b e content c files fresh h =
    elim (Bool-cases (str_eq b base && str_eq e ext)) [
      | inl here ↦
          let e₁ = (eq_iff b base).0 (ground arith) in
          let e₂ = (eq_iff e ext).0 (ground arith) in
          absurd (
            not_both (sym h ∙ ap (λ z. half z e files) e₁ ∙ ap (λ z. half base z files) e₂ ∙ fresh))
      | inr there ↦ half-put_half base ext b e content files ∙ rw there h
    ]
  where
    not_both : some c ≡ none → ⊥
    not_both q = cc

-- Both halves of a test are there.
abbrev pub HasBoth : TestHalves → Type 0
HasBoth pair = (is_none (lookup ".in" pair) ≡ false) × (is_none (lookup ".out" pair) ≡ false)

-- When `complete_names` returns, it lists the keys, and all of them have both halves.
pub complete_names_sound :
    (l : Files) (names : List String)
    → complete_names l ≡ ok names
    → (names ≡ keys l) × All (λ entry. HasBoth entry.1) l
unfolding complete_names
complete_names_sound [] names h = (sym (ok-injective h), tt)
complete_names_sound ((k, v) ∷ l) names h =
    let (both, rest) =
      guard->>-eq-ok (not (is_none (lookup ".in" v) || is_none (lookup ".out" v))) _ _ h in
    let (names', e, k') = >>=-eq-ok (complete_names l) _ rest in
    let (same, all) = complete_names_sound l names' e in
    (sym (ok-injective k') ∙ ap (◌∷◌ k) same, ((ground arith, ground arith), all))
