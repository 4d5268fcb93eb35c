-- ===== src/Prelude/Text.antt =====
-- Go strings that hold valid UTF-8, as native texts: `strings.TrimSpace`, and the byte length that
-- Go's `len` counts.
use Prim.Native.Nat.{ℕ}
use Prim.Native.Char.{code}
use Prim.Native.String.{String}
use mathlib.Core.Path.{◌≡◌, refl, ◌∙◌, ap}
use mathlib.Core.Bool.{Bool, true, false, ◌&&◌, ◌||◌}
use cotests.Prelude.Tests.{leb, ◌==◌, if◌then◌else◌, Bool-cases}
use mathlib.Core.Logic.{inl, inr}

abbrev pub is_empty : String → Bool
is_empty String.[] = true
is_empty (String.◌∷◌ c s) = false

pub is_empty_sound : (s : String) → is_empty s ≡ true → s ≡ ""
is_empty_sound String.[] h = refl
is_empty_sound (String.◌∷◌ c s) h = cc

-- unicode.IsSpace: the code points with the property White_Space.
unfoldable pub is_space : ℕ → Bool
is_space c =
    leb 9 c && leb c 13
    || c == 32
    || c == 0x85
    || c == 0xa0
    || c == 0x1680
    || leb 0x2000 c && leb c 0x200a
    || c == 0x2028
    || c == 0x2029
    || c == 0x202f
    || c == 0x205f
    || c == 0x3000

unfoldable pub trim_left : String → String
trim_left String.[] = ""
trim_left (String.◌∷◌ c s) = if is_space (code c) then trim_left s else String.◌∷◌ c s

unfoldable pub trim_right : String → String
trim_right String.[] = ""
trim_right (String.◌∷◌ c s) =
    let rest = trim_right s in if is_space (code c) && is_empty rest then "" else String.◌∷◌ c rest

-- strings.TrimSpace
unfoldable pub trim_space : String → String
unfolding trim_left trim_right is_space
trim_space s = trim_right (trim_left s)

-- A text that `trim_left` leaves alone stays one when its end is trimmed.
trim_left-trim_right :
    (s : String) → trim_left (trim_right (trim_left s)) ≡ trim_right (trim_left s)
unfolding trim_left trim_right
trim_left-trim_right String.[] = refl
trim_left-trim_right (String.◌∷◌ c s) = elim (Bool-cases (is_space (code c))) [
  | inl space ↦ rw space (trim_left-trim_right s)
  | inr solid ↦ simp solid
]

trim_right_idem : (s : String) → trim_right (trim_right s) ≡ trim_right s
unfolding trim_right
trim_right_idem String.[] = refl
trim_right_idem (String.◌∷◌ c s) =
    elim (Bool-cases (is_space (code c) && is_empty (trim_right s))) [
      | inl gone ↦ rw gone
      | inr kept ↦ rw kept (rw (trim_right_idem s, kept))
    ]

-- Trimming twice is trimming once.
pub trim_space_idem : (s : String) → trim_space (trim_space s) ≡ trim_space s
unfolding trim_space
trim_space_idem s = ap trim_right (trim_left-trim_right s) ∙ trim_right_idem (trim_left s)

trim_space_test : trim_space "\t a b \n" ≡ "a b"
unfolding trim_space
trim_space_test = refl
