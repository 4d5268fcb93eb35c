-- ===== src/Prelude/Trim.antt =====
-- What `strings.TrimSpace` promises, stated without the way it is computed.
use Prim.Native.Char.{Char, code}
use Prim.Native.String.{String, ◌++◌}
use mathlib.Core.Path.{◌≡◌, refl, sym, ◌∙◌, ap, subst}
use mathlib.Core.Bool.{Bool, true, false, ◌&&◌}
use mathlib.Core.Logic.{inl, inr, ◌↔◌}
use native.Mathlib.Omega.{arith}
use text.Mathlib.TextLemmas.{nil-append, cons-append}
use cotests.Prelude.Tests.{Bool-cases}
use cotests.Prelude.Text.{is_space, is_empty, is_empty_sound, trim_left, trim_right, trim_space}

-- All characters are white space.
abbrev pub Blank : String → Type 0
Blank String.[] = Unit
Blank (String.◌∷◌ c s) = (is_space (code c) ≡ true) × Blank s

abbrev pub StartsSolid : String → Type 0
StartsSolid String.[] = Unit
StartsSolid (String.◌∷◌ c s) = is_space (code c) ≡ false

abbrev pub EndsSolid : String → Type 0
EndsSolid String.[] = Unit
EndsSolid (String.◌∷◌ c String.[]) = is_space (code c) ≡ false
EndsSolid (String.◌∷◌ c (String.◌∷◌ d s)) = EndsSolid (String.◌∷◌ d s)

-- `t` is `s` without the white space at its ends.
pub record Trims (s t : String) : Type 0 where
  pub before : String
  pub after : String
  pub whole : s ≡ before ++ (t ++ after)
  pub blank_before : Blank before
  pub blank_after : Blank after
  pub starts : StartsSolid t
  pub ends : EndsSolid t

both : (a b : Bool) → (a && b) ≡ true → (a ≡ true) × (b ≡ true)
both a b h = ground arith

trim_left_whole : (s : String) → (a : String) × Blank a × (s ≡ a ++ trim_left s)
unfolding trim_left
trim_left_whole String.[] = ("", tt, sym (nil-append ""))
trim_left_whole (String.◌∷◌ c s) = elim (Bool-cases (is_space (code c))) [
  | inl space ↦
      let (a, blank, e) = trim_left_whole s in
      (
        String.◌∷◌ c a,
        (space, blank),
        rw space (ap (String.◌∷◌ c) e ∙ sym (cons-append c a (trim_left s))),
      )
  | inr solid ↦ ("", tt, rw solid (sym (nil-append (String.◌∷◌ c s))))
]

trim_left-StartsSolid : (s : String) → StartsSolid (trim_left s)
unfolding trim_left
trim_left-StartsSolid String.[] = tt
trim_left-StartsSolid (String.◌∷◌ c s) = elim (Bool-cases (is_space (code c))) [
  | inl space ↦ rw space (trim_left-StartsSolid s)
  | inr solid ↦ rw solid solid
]

trim_right_whole : (s : String) → (b : String) × Blank b × (s ≡ trim_right s ++ b)
unfolding trim_right
trim_right_whole String.[] = ("", tt, sym (nil-append ""))
trim_right_whole (String.◌∷◌ c s) =
    let (b, blank, e) = trim_right_whole s in
    elim (Bool-cases (is_space (code c) && is_empty (trim_right s))) [
      | inl gone ↦
          let (space, empty) = both (is_space (code c)) (is_empty (trim_right s)) gone in
          let same : b ≡ s =
            sym (e ∙ ap (λ z. z ++ b) (is_empty_sound (trim_right s) empty) ∙ nil-append b) in
          (
            String.◌∷◌ c s,
            (space, subst Blank same blank),
            rw gone (sym (nil-append (String.◌∷◌ c s))),
          )
      | inr kept ↦ (b, blank, rw kept (ap (String.◌∷◌ c) e ∙ sym (cons-append c (trim_right s) b)))
    ]

-- A character stands last when what follows it is trimmed away.
solid_or_more :
    (c : Char) (t : String)
    → (is_space (code c) && is_empty t) ≡ false
    → EndsSolid t
    → EndsSolid (String.◌∷◌ c t)
solid_or_more c String.[] h e = ground arith
solid_or_more c (String.◌∷◌ d t) h e = e

trim_right-EndsSolid : (s : String) → EndsSolid (trim_right s)
unfolding trim_right
trim_right-EndsSolid String.[] = tt
trim_right-EndsSolid (String.◌∷◌ c s) =
    elim (Bool-cases (is_space (code c) && is_empty (trim_right s))) [
      | inl gone ↦ rw gone tt
      | inr kept ↦ rw kept (solid_or_more c (trim_right s) kept (trim_right-EndsSolid s))
    ]

trim_right-StartsSolid : (s : String) → StartsSolid s → StartsSolid (trim_right s)
unfolding trim_right
trim_right-StartsSolid String.[] h = tt
trim_right-StartsSolid (String.◌∷◌ c s) h = rw h h

trim_space-Trims : (s : String) → Trims s (trim_space s)
unfolding trim_space
trim_space-Trims s =
    let (a, blank_a, left) = trim_left_whole s in
    let (b, blank_b, right) = trim_right_whole (trim_left s) in
    record {
      before = a;
      after = b;
      whole = left ∙ ap (λ z. a ++ z) right;
      blank_before = blank_a;
      blank_after = blank_b;
      starts = trim_right-StartsSolid (trim_left s) (trim_left-StartsSolid s);
      ends = trim_right-EndsSolid (trim_left s);
    }

trim_left-append : (a s : String) → Blank a → trim_left (a ++ s) ≡ trim_left s
unfolding trim_left
trim_left-append String.[] s h = ap trim_left (nil-append s)
trim_left-append (String.◌∷◌ c a) s h =
    ap trim_left (cons-append c a s) ∙ rw h.0 (trim_left-append a s h.1)

trim_left_solid : (s : String) → StartsSolid s → trim_left s ≡ s
unfolding trim_left
trim_left_solid String.[] h = refl
trim_left_solid (String.◌∷◌ c s) h = rw h refl

trim_left-Blank : (s : String) → Blank s → trim_left s ≡ ""
unfolding trim_left
trim_left-Blank String.[] h = refl
trim_left-Blank (String.◌∷◌ c s) h = rw h.0 (trim_left-Blank s h.1)

trim_right-Blank : (s : String) → Blank s → trim_right s ≡ ""
unfolding trim_right
trim_right-Blank String.[] h = refl
trim_right-Blank (String.◌∷◌ c s) h = rw (trim_right-Blank s h.1, h.0) refl

ends_later : (c : Char) (t : String) → EndsSolid (String.◌∷◌ c t) → EndsSolid t
ends_later c String.[] h = tt
ends_later c (String.◌∷◌ d t) h = h

ends_here :
    (c : Char) (t : String) → EndsSolid (String.◌∷◌ c t) → (is_space (code c) && is_empty t) ≡ false
ends_here c String.[] h = ground arith
ends_here c (String.◌∷◌ d t) h = ground arith

trim_right-append : (t b : String) → EndsSolid t → Blank b → trim_right (t ++ b) ≡ t
unfolding trim_right
trim_right-append String.[] b h blank = ap trim_right (nil-append b) ∙ trim_right-Blank b blank
trim_right-append (String.◌∷◌ c t) b h blank =
    let rest = trim_right-append t b (ends_later c t h) blank in
    let solid = ends_here c t h in ap trim_right (cons-append c t b) ∙ rw (rest, solid) refl

trim_left_keeps :
    (t b : String) → StartsSolid t → Blank b → trim_right (trim_left (t ++ b)) ≡ trim_right (t ++ b)
trim_left_keeps String.[] b h blank =
    ap (λ z. trim_right (trim_left z)) (nil-append b)
    ∙ ap trim_right (trim_left-Blank b blank)
    ∙ trim_right-Blank "" tt
    ∙ sym (ap trim_right (nil-append b) ∙ trim_right-Blank b blank)
trim_left_keeps (String.◌∷◌ c t) b h blank =
    ap (λ z. trim_right (trim_left z)) (cons-append c t b)
    ∙ ap trim_right (trim_left_solid (String.◌∷◌ c (t ++ b)) h)
    ∙ sym (ap trim_right (cons-append c t b))

-- `TrimSpace` takes the white space off both ends of a text, and nothing else.
pub trim_space_iff : (s t : String) → (t ≡ trim_space s) ↔ Trims s t
unfolding trim_space
trim_space_iff s t = (
  λ e. subst (Trims s) (sym e) (trim_space-Trims s),
  λ r. sym (
      ap (λ z. trim_right (trim_left z)) r.whole
      ∙ ap trim_right (trim_left-append r.before (t ++ r.after) r.blank_before)
      ∙ trim_left_keeps t r.after r.starts r.blank_after
      ∙ trim_right-append t r.after r.ends r.blank_after),
)
