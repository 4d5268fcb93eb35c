-- ===== src/Prelude/Assoc.antt =====
-- Go maps with string keys, as lists of entries with distinct keys.
use mathlib.Core.Path.{◌≡◌, refl}
use mathlib.Core.Logic.{◌≢◌, inl, inr}
use mathlib.Core.Bool.{Bool, false, not}
use mathlib.Core.List.{List, [], ◌∷◌}
use mathlib.Core.Option.{Option, none, some}
use Prim.Native.String.{String}
use native.Mathlib.Omega.{arith}
use text.Mathlib.Text.{◌==◌ as str_eq}
use text.Mathlib.TextEquality.{eq_iff}
use text.Mathlib.TextPositions.{eq_refl}
use cotests.Prelude.Tests.{if◌then◌else◌, Bool-cases}
use cotests.Prelude.Lists.{keep, In, All}
use cotests.Prelude.TextOrder.{IsDistinct}

module _ {V : Type 0} where
  -- `value, ok := entries[key]`
  abbrev pub lookup : String → List (String × V) → Option V
  lookup key [] = none
  lookup key ((k, v) ∷ l) = if str_eq key k then some v else lookup key l

  abbrev pub other_key : String → String × V → Bool
  other_key key entry = not (str_eq key entry.0)

  -- `entries[key] = value`
  abbrev pub put : String → V → List (String × V) → List (String × V)
  put key value l = (key, value) ∷ keep (other_key key) l

  -- No key has two entries.
  abbrev pub UniqueKeys : List (String × V) → Type 0
  UniqueKeys [] = Unit
  UniqueKeys ((k, v) ∷ l) = (lookup k l ≡ none) × UniqueKeys l

  -- What a filter on the values leaves of an entry.
  abbrev pub only_if : (V → Bool) → Option V → Option V
  only_if p none = none
  only_if p (some v) = if p v then some v else none

  pub lookup-keep_other :
      (a b : String) (l : List (String × V))
      → str_eq a b ≡ false
      → lookup a (keep (other_key b) l) ≡ lookup a l
  lookup-keep_other a b [] h = refl
  lookup-keep_other a b ((k, v) ∷ l) h =
      ground (arith, lookup-keep_other a b l h, eq_iff a k, eq_iff b k, eq_iff a b)

  pub lookup-keep_same :
      (a : String) (l : List (String × V)) → lookup a (keep (other_key a) l) ≡ none
  lookup-keep_same a [] = refl
  lookup-keep_same a ((k, v) ∷ l) = ground (arith, lookup-keep_same a l)

  pub lookup-put_same : (a : String) (v : V) (l : List (String × V)) → lookup a (put a v l) ≡ some v
  lookup-put_same a v l = rw (eq_refl a)

  pub lookup-put_other :
      (a b : String) (v : V) (l : List (String × V))
      → str_eq a b ≡ false
      → lookup a (put b v l) ≡ lookup a l
  lookup-put_other a b v l h = rw h (lookup-keep_other a b l h)

  pub lookup-put :
      (a b : String) (v : V) (l : List (String × V))
      → lookup a (put b v l) ≡ (if str_eq a b then some v else lookup a l)
  lookup-put a b v l = elim (Bool-cases (str_eq a b)) [
    | inl same ↦ rw same refl
    | inr apart ↦ rw apart (lookup-keep_other a b l apart)
  ]

  keep-lookup-none :
      (p : String × V → Bool) (a : String) (l : List (String × V))
      → lookup a l ≡ none
      → lookup a (keep p l) ≡ none
  keep-lookup-none p a [] h = refl
  keep-lookup-none p a ((k, v) ∷ l) h = ground (arith, keep-lookup-none p a l)

  pub keep-UniqueKeys :
      (p : String × V → Bool) (l : List (String × V)) → UniqueKeys l → UniqueKeys (keep p l)
  keep-UniqueKeys p [] u = tt
  keep-UniqueKeys p ((k, v) ∷ l) u = elim (Bool-cases (p (k, v))) [
    | inl yes_k ↦ rw yes_k (keep-lookup-none p k l u.0, keep-UniqueKeys p l u.1)
    | inr no_k ↦ rw no_k (keep-UniqueKeys p l u.1)
  ]

  pub put-UniqueKeys :
      (a : String) (v : V) (l : List (String × V)) → UniqueKeys l → UniqueKeys (put a v l)
  put-UniqueKeys a v l u = (lookup-keep_same a l, keep-UniqueKeys (other_key a) l u)

  -- Deleting entries by their values, in any order.
  pub lookup-keep_values :
      (p : V → Bool) (a : String) (l : List (String × V))
      → UniqueKeys l
      → lookup a (keep (λ entry. p entry.1) l) ≡ only_if p (lookup a l)
  lookup-keep_values p a [] u = refl
  lookup-keep_values p a ((k, v) ∷ l) u =
      ground (arith, lookup-keep_values p a l u.1, eq_iff a k, u.0)

  abbrev pub keys : List (String × V) → List String
  keys [] = []
  keys ((k, v) ∷ l) = k ∷ keys l

  pub lookup-keys :
      (a : String) (v : V) (l : List (String × V)) → lookup a l ≡ some v → In a (keys l)
  lookup-keys a v [] h = cc
  lookup-keys a v ((k, w) ∷ l) h = elim (Bool-cases (str_eq a k)) [
    | inl same ↦ inl ((eq_iff a k).0 same)
    | inr apart ↦ inr (lookup-keys a v l (rw apart at h))
  ]

  -- A key has an entry, and the entry has what all entries have.
  pub keys-lookup :
      (P : V → Type 0) (a : String) (l : List (String × V))
      → All (λ entry. P entry.1) l
      → In a (keys l)
      → (v : V) × (lookup a l ≡ some v) × P v
  keys-lookup P a [] h m = absurd m
  keys-lookup P a ((k, w) ∷ l) h m = elim (Bool-cases (str_eq a k)) [
    | inl same ↦ (w, rw same refl, h.0)
    | inr apart ↦ elim m [
      | inl e ↦ absurd (ground (arith, eq_iff a k))
      | inr m' ↦ let (v, found, p) = keys-lookup P a l h.1 m' in (v, rw apart found, p)
    ]
  ]

  keys_missing :
      (a : String) (l : List (String × V)) → lookup a l ≡ none → All (λ k. a ≢ k) (keys l)
  keys_missing a [] h = tt
  keys_missing a ((k, v) ∷ l) h = elim (Bool-cases (str_eq a k)) [
    | inl same ↦ absurd (ground arith)
    | inr apart ↦ (λ e. ground (arith, eq_iff a k), keys_missing a l (rw apart at h))
  ]

  pub keys-IsDistinct : (l : List (String × V)) → UniqueKeys l → IsDistinct (keys l)
  keys-IsDistinct [] u = tt
  keys-IsDistinct ((k, v) ∷ l) u = (keys_missing k l u.0, keys-IsDistinct l u.1)
