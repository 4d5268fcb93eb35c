-- ===== src/Content/Reorder/Picks.antt =====
-- The identifiers of an order, checked off one by one in the first loop of `reorder` in
-- `internal/content/service.go`.
use cotests.Prelude.{
  ℕ, suc, ◌≤◌, ◌≡◌, sym, subst, inl, inr, Bool, true, not, List, [], ◌∷◌, arith, Bool-cases, ◌==◌,
  keep, any, length, In, In-keep, keep-In,
}
use cotests.Content.Reorder.{without}

-- No identifier stands twice.
abbrev pub Distinct : List ℕ → Type 0
Distinct [] = Unit
Distinct (x ∷ l) = (¬ In x l) × Distinct l

-- Each of the identifiers is among the given ones, which it then leaves.
abbrev pub Picks : List ℕ → List ℕ → Type 0
Picks seen [] = Unit
Picks seen (x ∷ l) = In x seen × Picks (without x seen) l

pub any-In : (x : ℕ) (l : List ℕ) → any (λ y. y == x) l ≡ true → In x l
any-In x [] h = cc
any-In x (y ∷ l) h = elim (Bool-cases (y == x)) [
  | inl e ↦ inl (ground arith)
  | inr ne ↦ inr (any-In x l (ground arith))
]

pub Picks-In : (seen l : List ℕ) (x : ℕ) → Picks seen l → In x l → In x seen
Picks-In seen [] x p m = absurd m
Picks-In seen (y ∷ l) x p (inl e) = subst (λ z. In z seen) (sym e) p.0
Picks-In seen (y ∷ l) x p (inr m) =
    (In-keep (λ k. not (k == y)) seen (Picks-In (without y seen) l x p.1 m)).1

pub Picks-Distinct : (seen l : List ℕ) → Picks seen l → Distinct l
Picks-Distinct seen [] p = tt
Picks-Distinct seen (x ∷ l) p = (
  λ m.
      let (t, _) = In-keep (λ k. not (k == x)) seen (Picks-In (without x seen) l x p.1 m) in
      ground arith,
  Picks-Distinct (without x seen) l p.1,
)

length-keep : (p : ℕ → Bool) (l : List ℕ) → length (keep p l) ≤ length l
length-keep p [] = omega arith
length-keep p (x ∷ l) = ground (arith, length-keep p l)

length-without : (x : ℕ) (l : List ℕ) → In x l → suc (length (without x l)) ≤ length l
length-without x [] m = absurd m
length-without x (y ∷ l) (inl e) = ground (arith, length-keep (λ k. not (k == x)) l)
length-without x (y ∷ l) (inr m) = ground (arith, length-without x l m)

-- As many picks as there are identifiers pick all of them.
pub Picks-complete :
    (seen l : List ℕ) (x : ℕ) → Picks seen l → length seen ≤ length l → In x seen → In x l
Picks-complete [] [] x p h m = m
Picks-complete (y ∷ seen) [] x p h m = absurd (omega arith)
Picks-complete seen (y ∷ l) x p h m = elim (Bool-cases (x == y)) [
  | inl e ↦ inl (ground arith)
  | inr ne ↦
      let shorter = length-without y seen p.0 in
      inr (
        Picks-complete (without y seen) l x p.1 (omega arith)
          (keep-In (λ k. not (k == y)) seen m (ground arith)))
]
