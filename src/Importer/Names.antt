-- ===== src/Importer/Names.antt =====
-- The functions of Go's packages `path` and `strings` that `internal/importer/tests.go` calls on
-- file names.
use Prim.Native.Char.{code}
use Prim.Native.String.{String, ◌++◌}
use text.Mathlib.TextLemmas.{nil-append, cons-append}
use cotests.Prelude.{
  ℕ, ◌≡◌, ◌⊎◌, inl, inr, refl, sym, ap, ◌∙◌, Bool, false, not, ◌&&◌, ◌||◌, ◌==◌, if◌then◌else◌,
  str_eq, eq_iff, is_empty, is_empty_sound, Bool-cases, arith, subst,
}

-- strings.Contains with a single byte
unfoldable pub has_byte : ℕ → String → Bool
has_byte b String.[] = false
has_byte b (String.◌∷◌ c s) = code c == b || has_byte b s

-- path.Ext: from the last dot of the last element on
unfoldable pub path_ext : String → String
unfolding has_byte
path_ext String.[] = ""
path_ext (String.◌∷◌ c s) =
    let rest = path_ext s in
    if is_empty rest && code c == 0x2e && not (has_byte 0x2f s) then String.◌∷◌ c s else rest

-- strings.TrimSuffix
unfoldable pub trim_suffix : String → String → String
trim_suffix String.[] suffix = ""
trim_suffix (String.◌∷◌ c s) suffix =
    let rest = trim_suffix s suffix in
    if str_eq (String.◌∷◌ c s) suffix then "" else String.◌∷◌ c rest

-- path.IsAbs
unfoldable pub is_abs : String → Bool
is_abs String.[] = false
is_abs (String.◌∷◌ c s) = code c == 0x2f

unfoldable strip_slashes : String → String
strip_slashes String.[] = ""
strip_slashes (String.◌∷◌ c s) =
    let rest = strip_slashes s in if code c == 0x2f && is_empty rest then "" else String.◌∷◌ c rest

-- what stands after the last slash
unfoldable last_element : String → String
unfolding has_byte
last_element String.[] = ""
last_element (String.◌∷◌ c s) =
    let rest = last_element s in
    if has_byte 0x2f s then rest else if code c == 0x2f then s else String.◌∷◌ c s

-- path.Base
unfoldable pub base_name : String → String
unfolding strip_slashes last_element
base_name s =
    if is_empty s
    then "."
    else if is_empty (last_element (strip_slashes s))
    then "/"
    else last_element (strip_slashes s)

unfoldable begins_parent : String → Bool
begins_parent (String.◌∷◌ a (String.◌∷◌ b (String.◌∷◌ c s))) =
    code a == 0x2e && code b == 0x2e && code c == 0x2f
begins_parent s = false

-- strings.Contains(s, "../")
unfoldable pub contains_parent : String → Bool
unfolding begins_parent
contains_parent String.[] = false
contains_parent (String.◌∷◌ c s) = begins_parent (String.◌∷◌ c s) || contains_parent s

-- An extension ends its name.
abbrev Ends : String → String → Type 0
Ends e String.[] = String.[] ≡ e
Ends e (String.◌∷◌ c s) = (String.◌∷◌ c s ≡ e) ⊎ Ends e s

path_ext-Ends : (s : String) → Ends (path_ext s) s
unfolding path_ext
path_ext-Ends String.[] = refl
path_ext-Ends (String.◌∷◌ c s) =
    elim (Bool-cases (is_empty (path_ext s) && code c == 0x2e && not (has_byte 0x2f s))) [
      | inl here ↦ inl (rw here refl)
      | inr later ↦
          let e : path_ext (String.◌∷◌ c s) ≡ path_ext s = rw later refl in
          inr (subst (λ z. Ends z s) (sym e) (path_ext-Ends s))
    ]

trim_suffix-append : (s e : String) → Ends e s → trim_suffix s e ++ e ≡ s
unfolding trim_suffix
trim_suffix-append String.[] e h = nil-append e ∙ sym h
trim_suffix-append (String.◌∷◌ c s) e h = elim (Bool-cases (str_eq (String.◌∷◌ c s) e)) [
  | inl whole ↦ rw whole (nil-append e ∙ sym ((eq_iff (String.◌∷◌ c s) e).0 whole))
  | inr part ↦ elim h [
    | inl e' ↦ absurd (ground (arith, eq_iff (String.◌∷◌ c s) e))
    | inr later ↦
        rw part
          (cons-append c (trim_suffix s e) e ∙ ap (String.◌∷◌ c) (trim_suffix-append s e later))
  ]
]

-- A name is its stem and its extension.
pub stem-path_ext : (s : String) → trim_suffix s (path_ext s) ++ path_ext s ≡ s
stem-path_ext s = trim_suffix-append s (path_ext s) (path_ext-Ends s)

-- The last element has no slash.
last_element_flat : (s : String) → has_byte 0x2f (last_element s) ≡ false
unfolding has_byte last_element
last_element_flat String.[] = refl
last_element_flat (String.◌∷◌ c s) = ground (arith, last_element_flat s)

-- A name that is its own base has no slash, or is the root.
pub base_name_flat : (s : String) → base_name s ≡ s → is_abs s ≡ false → has_byte 0x2f s ≡ false
unfolding base_name is_abs has_byte
base_name_flat s e a = elim (Bool-cases (is_empty s)) [
  | inl empty ↦ rw (is_empty_sound s empty) refl
  | inr full ↦ elim (Bool-cases (is_empty (last_element (strip_slashes s)))) [
    | inl root ↦
        let r : "/" ≡ s = rw (full, root) at e in
        absurd (slash (subst (λ z. is_abs z ≡ false) (sym r) a))
    | inr flat ↦
        let r : last_element (strip_slashes s) ≡ s = rw (full, flat) at e in
        subst (λ z. has_byte 0x2f z ≡ false) r (last_element_flat (strip_slashes s))
  ]
]
  where
    slash : is_abs "/" ≡ false → ⊥
    slash h = cc

strip_slashes_same : (s : String) → has_byte 0x2f s ≡ false → strip_slashes s ≡ s
unfolding strip_slashes has_byte
strip_slashes_same String.[] h = refl
strip_slashes_same (String.◌∷◌ c s) h =
    elim (Bool-cases (code c == 0x2f && is_empty (strip_slashes s))) [
      | inl gone ↦ absurd (ground arith)
      | inr kept ↦ rw kept (ap (String.◌∷◌ c) (strip_slashes_same s (ground arith)))
    ]

last_element_same : (s : String) → has_byte 0x2f s ≡ false → last_element s ≡ s
unfolding last_element has_byte
last_element_same String.[] h = refl
last_element_same (String.◌∷◌ c s) h = ground arith

-- A name without a slash is its own base.
pub flat-base_name : (s : String) → is_empty s ≡ false → has_byte 0x2f s ≡ false → base_name s ≡ s
unfolding base_name
flat-base_name s full flat =
    let e : last_element (strip_slashes s) ≡ s =
      ap last_element (strip_slashes_same s flat) ∙ last_element_same s flat in
    rw (full, e, full) refl
