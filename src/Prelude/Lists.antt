-- ===== src/Prelude/Lists.antt =====
-- Lists as the rows of a table: measured by native numbers, filtered, searched and rewritten by
-- Boolean conditions.
use Prim.Native.Nat.{ℕ, zero, suc, ◌<◌, ◌≤◌}
use mathlib.Core.Path.{◌≡◌, refl, sym, subst, ap}
use mathlib.Core.Logic.{◌⊎◌, inl, inr}
use mathlib.Core.Bool.{Bool, true, false, ◌||◌}
use mathlib.Core.List.{List, [], ◌∷◌}
use mathlib.Core.Option.{Option, none, some}
use native.Mathlib.Omega.{arith}
use cotests.Prelude.Tests.{if◌then◌else◌, Bool-cases}

module _ {ℓ} {A : Type ℓ} where
  abbrev pub length : List A → ℕ
  length [] = 0
  length (x ∷ xs) = suc (length xs)

  -- The first element that meets the condition.
  abbrev pub find? : (A → Bool) → List A → Option A
  find? p [] = none
  find? p (x ∷ xs) = if p x then some x else find? p xs

  -- Those that meet the condition (the library's `filter` takes a decision).
  abbrev pub keep : (A → Bool) → List A → List A
  keep p [] = []
  keep p (x ∷ xs) = let rest = keep p xs in if p x then x ∷ rest else rest

  abbrev pub count_where : (A → Bool) → List A → ℕ
  count_where p [] = 0
  count_where p (x ∷ xs) = let n = count_where p xs in if p x then suc n else n

  -- An update of the elements that meet the condition.
  abbrev pub map_where : (A → Bool) → (A → A) → List A → List A
  map_where p f [] = []
  map_where p f (x ∷ xs) = (if p x then f x else x) ∷ map_where p f xs

  abbrev pub any : (A → Bool) → List A → Bool
  any p [] = false
  any p (x ∷ xs) = p x || any p xs

module _ {ℓ} {A : Type ℓ} where
  abbrev pub get_elem? : List A → ℕ → Option A
  get_elem? [] i = none
  get_elem? (x ∷ xs) zero = some x
  get_elem? (x ∷ xs) (suc i) = get_elem? xs i

  abbrev pub take : ℕ → List A → List A
  take zero xs = []
  take (suc n) [] = []
  take (suc n) (x ∷ xs) = x ∷ take n xs

  pub length-take : (n : ℕ) (xs : List A) → n ≤ length xs → length (take n xs) ≡ n
  length-take zero xs h = refl
  length-take (suc n) [] h = absurd (omega arith)
  length-take (suc n) (x ∷ xs) h = omega (arith, length-take n xs)

  pub take_all : (n : ℕ) (xs : List A) → length xs ≤ n → take n xs ≡ xs
  take_all zero [] h = refl
  take_all zero (x ∷ xs) h = absurd (omega arith)
  take_all (suc n) [] h = refl
  take_all (suc n) (x ∷ xs) h = ap (◌∷◌ x) (take_all n xs (omega arith))

module _ {A : Type 0} where
  -- Membership that tactics and clauses take apart.
  abbrev pub In : A → List A → Type 0
  In a [] = ⊥
  In a (x ∷ xs) = (a ≡ x) ⊎ In a xs

  -- Every element has the property.
  abbrev pub All : (A → Type 0) → List A → Type 0
  All P [] = Unit
  All P (x ∷ xs) = P x × All P xs

  All-In : (P : A → Type 0) (xs : List A) {a : A} → All P xs → In a xs → P a
  All-In P [] h m = absurd m
  All-In P (x ∷ xs) h (inl e) = rw e h.0
  All-In P (x ∷ xs) h (inr m) = All-In P xs h.1 m

  pub find?-some :
      (p : A → Bool) (xs : List A) {a : A} → find? p xs ≡ some a → (p a ≡ true) × In a xs
  find?-some p [] h = cc
  find?-some p (x ∷ xs) {a} h = elim (Bool-cases (p x)) [
    | inl t ↦ let e : x ≡ a = ground arith in (rw (← e) t, inl (sym e))
    | inr f ↦ let r = find?-some p xs (ground arith) in (r.0, inr r.1)
  ]

  pub find?-none : (p : A → Bool) (xs : List A) {a : A} → find? p xs ≡ none → In a xs → p a ≡ false
  find?-none p [] h m = absurd m
  find?-none p (x ∷ xs) h (inl e) = rw e (ground arith)
  find?-none p (x ∷ xs) {a} h (inr m) = find?-none p xs (ground arith) m

  pub count_where-pos :
      (p : A → Bool) (xs : List A) → 0 < count_where p xs → (a : A) × (p a ≡ true) × In a xs
  count_where-pos p [] h = absurd (omega arith)
  count_where-pos p (x ∷ xs) h = elim (Bool-cases (p x)) [
    | inl t ↦ (x, t, inl refl)
    | inr f ↦ let r = count_where-pos p xs (ground arith) in (r.0, r.1, inr r.2)
  ]

  pub count_where-zero :
      (p : A → Bool) (xs : List A) {a : A} → count_where p xs ≡ 0 → In a xs → p a ≡ false
  count_where-zero p [] h m = absurd m
  count_where-zero p (x ∷ xs) h (inl e) = rw e (ground arith)
  count_where-zero p (x ∷ xs) {a} h (inr m) = count_where-zero p xs (ground arith) m

  keep_yes : (p : A → Bool) (x : A) (xs : List A) → p x ≡ true → keep p (x ∷ xs) ≡ x ∷ keep p xs
  keep_yes p x xs h = rw h

  keep_no : (p : A → Bool) (x : A) (xs : List A) → p x ≡ false → keep p (x ∷ xs) ≡ keep p xs
  keep_no p x xs h = rw h

  In-keep_head :
      (p : A → Bool) (x : A) (xs : List A) {a : A}
      → p x ≡ true
      → In a (x ∷ keep p xs)
      → (In a (keep p xs) → (p a ≡ true) × In a xs)
      → (p a ≡ true) × In a (x ∷ xs)
  In-keep_head p x xs t (inl e) ih = (rw e t, inl e)
  In-keep_head p x xs t (inr m) ih = let r = ih m in (r.0, inr r.1)

  pub In-keep : (p : A → Bool) (xs : List A) {a : A} → In a (keep p xs) → (p a ≡ true) × In a xs
  In-keep p [] m = absurd m
  In-keep p (x ∷ xs) {a} m = elim (Bool-cases (p x)) [
    | inl t ↦ In-keep_head p x xs t (subst (In a) (keep_yes p x xs t) m) (In-keep p xs)
    | inr f ↦ let r = In-keep p xs (subst (In a) (keep_no p x xs f) m) in (r.0, inr r.1)
  ]

  pub In-count_where :
      (p : A → Bool) (xs : List A) {a : A} → In a xs → p a ≡ true → 0 < count_where p xs
  In-count_where p [] m t = absurd m
  In-count_where p (x ∷ xs) (inl e) t = rw (rw e at t) (ground arith)
  In-count_where p (x ∷ xs) (inr m) t = ground (arith, In-count_where p xs m t)

  pub keep-In : (p : A → Bool) (xs : List A) {a : A} → In a xs → p a ≡ true → In a (keep p xs)
  keep-In p [] m t = absurd m
  keep-In p (x ∷ xs) (inl e) t = rw (keep_yes p x xs (rw e at t)) (inl e)
  keep-In p (x ∷ xs) {a} (inr m) t = elim (Bool-cases (p x)) [
    | inl yes_x ↦ rw (keep_yes p x xs yes_x) (inr (keep-In p xs m t))
    | inr no_x ↦ rw (keep_no p x xs no_x) (keep-In p xs m t)
  ]
