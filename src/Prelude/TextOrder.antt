-- ===== src/Prelude/TextOrder.antt =====
-- `sort.Strings`: the order of Go's strings, which is that of the characters' numbers for UTF-8, and
-- the list in that order.
use Prim.Native.Char.{code}
use Prim.Native.String.{String}
use mathlib.Core.Path.{◌≡◌, ◌∙◌, refl, ap}
use mathlib.Core.Logic.{◌≢◌, inl, inr}
use mathlib.Core.Bool.{Bool, true, false, ◌&&◌, ◌||◌}
use mathlib.Core.List.{List, [], ◌∷◌}
use native.Mathlib.Omega.{arith}
use text.Mathlib.TextEquality.{Char-path}
use cotests.Prelude.Tests.{ltb, ◌==◌, if◌then◌else◌, Bool-cases}
use cotests.Prelude.Lists.{In, All}

-- s < t
unfoldable pub text_ltb : String → String → Bool
text_ltb String.[] String.[] = false
text_ltb String.[] (String.◌∷◌ d t) = true
text_ltb (String.◌∷◌ c s) String.[] = false
text_ltb (String.◌∷◌ c s) (String.◌∷◌ d t) =
    ltb (code c) (code d) || (code c == code d) && text_ltb s t

abbrev insert_text : String → List String → List String
insert_text name [] = name ∷ []
insert_text name (x ∷ l) =
    let rest = insert_text name l in if text_ltb name x then name ∷ x ∷ l else x ∷ rest

abbrev pub sort_strings : List String → List String
sort_strings [] = []
sort_strings (x ∷ l) = insert_text x (sort_strings l)

text_ltb_trans : (a b c : String) → text_ltb a b ≡ true → text_ltb b c ≡ true → text_ltb a c ≡ true
unfolding text_ltb
text_ltb_trans String.[] String.[] c h k = cc
text_ltb_trans String.[] (String.◌∷◌ y b) String.[] h k = cc
text_ltb_trans String.[] (String.◌∷◌ y b) (String.◌∷◌ z c) h k = refl
text_ltb_trans (String.◌∷◌ x a) String.[] c h k = cc
text_ltb_trans (String.◌∷◌ x a) (String.◌∷◌ y b) String.[] h k = cc
text_ltb_trans (String.◌∷◌ x a) (String.◌∷◌ y b) (String.◌∷◌ z c) h k =
    ground (arith, text_ltb_trans a b c)

-- Of two different texts one is the smaller.
text_ltb_total : (a b : String) → a ≢ b → text_ltb a b ≡ false → text_ltb b a ≡ true
unfolding text_ltb
text_ltb_total String.[] String.[] ne h = absurd (ne refl)
text_ltb_total String.[] (String.◌∷◌ y b) ne h = cc
text_ltb_total (String.◌∷◌ x a) String.[] ne h = refl
text_ltb_total (String.◌∷◌ x a) (String.◌∷◌ y b) ne h = elim (Bool-cases (code x == code y)) [
  | inl same ↦
      let e = Char-path x y (ground arith) in
      let ne' : a ≢ b = λ f. ne (ap (λ c. String.◌∷◌ c a) e ∙ ap (String.◌∷◌ y) f) in
      ground (arith, text_ltb_total a b ne')
  | inr apart ↦ ground arith
]

-- Each text is smaller than all that follow it.
abbrev pub IsAscending : List String → Type 0
IsAscending [] = Unit
IsAscending (x ∷ l) = All (λ y. text_ltb x y ≡ true) l × IsAscending l

-- No text stands twice.
abbrev pub IsDistinct : List String → Type 0
IsDistinct [] = Unit
IsDistinct (x ∷ l) = All (λ y. x ≢ y) l × IsDistinct l

All-insert_text :
    (P : String → Type 0) (x : String) (l : List String) → P x → All P l → All P (insert_text x l)
All-insert_text P x [] p h = (p, tt)
All-insert_text P x (y ∷ l) p h = elim (Bool-cases (text_ltb x y)) [
  | inl less ↦ rw less (p, h)
  | inr more ↦ rw more (h.0, All-insert_text P x l p h.1)
]

All-below :
    (x y : String) (l : List String)
    → text_ltb x y ≡ true
    → All (λ z. text_ltb y z ≡ true) l
    → All (λ z. text_ltb x z ≡ true) l
All-below x y [] h a = tt
All-below x y (z ∷ l) h a = (text_ltb_trans x y z h a.0, All-below x y l h a.1)

insert_text-IsAscending :
    (x : String) (l : List String)
    → All (λ y. x ≢ y) l
    → IsAscending l
    → IsAscending (insert_text x l)
insert_text-IsAscending x [] ne h = (tt, tt)
insert_text-IsAscending x (y ∷ l) ne h = elim (Bool-cases (text_ltb x y)) [
  | inl less ↦ rw less ((less, All-below x y l less h.0), h)
  | inr more ↦ rw more (
    All-insert_text (λ z. text_ltb y z ≡ true) x l (text_ltb_total x y ne.0 more) h.0,
    insert_text-IsAscending x l ne.1 h.1,
  )
]

All-sort_strings : (P : String → Type 0) (l : List String) → All P l → All P (sort_strings l)
All-sort_strings P [] h = tt
All-sort_strings P (x ∷ l) h = All-insert_text P x (sort_strings l) h.0 (All-sort_strings P l h.1)

pub sort_strings-IsAscending : (l : List String) → IsDistinct l → IsAscending (sort_strings l)
sort_strings-IsAscending [] d = tt
sort_strings-IsAscending (x ∷ l) d =
    insert_text-IsAscending x (sort_strings l) (All-sort_strings (λ y. x ≢ y) l d.0)
      (sort_strings-IsAscending l d.1)

In-insert_text :
    (x a : String) (l : List String)
    → (In a (insert_text x l) → In a (x ∷ l)) × (In a (x ∷ l) → In a (insert_text x l))
In-insert_text x a [] = (λ m. m, λ m. m)
In-insert_text x a (y ∷ l) =
    let (there, back) = In-insert_text x a l in
    elim (Bool-cases (text_ltb x y)) [
      | inl less ↦ rw less (λ m. m, λ m. m)
      | inr more ↦ rw more (
        elim [
          | inl e ↦ inr (inl e)
          | inr m ↦ elim (there m) [ inl e ↦ inl e | inr k ↦ inr (inr k) ]
        ],
        elim [
          | inl e ↦ inr (back (inl e))
          | inr m ↦ elim m [ inl e ↦ inl e | inr k ↦ inr (back (inr k)) ]
        ],
      )
    ]

-- Sorting keeps the texts.
pub In-sort_strings :
    (a : String) (l : List String)
    → (In a (sort_strings l) → In a l) × (In a l → In a (sort_strings l))
In-sort_strings a [] = (λ m. m, λ m. m)
In-sort_strings a (x ∷ l) =
    let (there, back) = In-sort_strings a l in
    let (out, into) = In-insert_text x a (sort_strings l) in
    (
      λ m. elim (out m) [ inl e ↦ inl e | inr k ↦ inr (there k) ],
      elim [ inl e ↦ into (inl e) | inr k ↦ into (inr (back k)) ],
    )
