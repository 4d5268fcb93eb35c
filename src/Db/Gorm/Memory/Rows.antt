-- ===== src/Db/Gorm/Memory/Rows.antt =====
-- The tables of the database in memory after a table is replaced, and the row with the greatest key.
use cotests.Prelude.{
  ℕ, ◌≤◌, ◌≡◌, ◌≢◌, refl, ap, sym, subst, ◌∙◌, none, some, List, [], ◌∷◌, In, Option-cases,
  Bool-cases, ltb, inl, inr, arith,
}
use cotests.Db.Models.{Table, Row}
use cotests.Db.Gorm.Memory.{Tables, rows_of, with_rows, better, top?}

pub rows-with_rows : (t : Table) (l : List (Row t)) (s : Tables) → rows_of t (with_rows t l s) ≡ l
rows-with_rows Table.users l s = refl
rows-with_rows Table.sessions l s = refl
rows-with_rows Table.contests l s = refl
rows-with_rows Table.series l s = refl
rows-with_rows Table.memberships l s = refl
rows-with_rows Table.previews l s = refl
rows-with_rows Table.artifacts l s = refl
rows-with_rows Table.problems l s = refl
rows-with_rows Table.revisions l s = refl
rows-with_rows Table.series_problems l s = refl
rows-with_rows Table.test_cases l s = refl

pub rows-with_rows_ne :
    (t u : Table) (l : List (Row t)) (s : Tables)
    → u ≢ t
    → rows_of u (with_rows t l s) ≡ rows_of u s
rows-with_rows_ne Table.users Table.users l s h = absurd (h refl)
rows-with_rows_ne Table.users _ l s h = refl
rows-with_rows_ne Table.sessions Table.sessions l s h = absurd (h refl)
rows-with_rows_ne Table.sessions _ l s h = refl
rows-with_rows_ne Table.contests Table.contests l s h = absurd (h refl)
rows-with_rows_ne Table.contests _ l s h = refl
rows-with_rows_ne Table.series Table.series l s h = absurd (h refl)
rows-with_rows_ne Table.series _ l s h = refl
rows-with_rows_ne Table.memberships Table.memberships l s h = absurd (h refl)
rows-with_rows_ne Table.memberships _ l s h = refl
rows-with_rows_ne Table.previews Table.previews l s h = absurd (h refl)
rows-with_rows_ne Table.previews _ l s h = refl
rows-with_rows_ne Table.artifacts Table.artifacts l s h = absurd (h refl)
rows-with_rows_ne Table.artifacts _ l s h = refl
rows-with_rows_ne Table.problems Table.problems l s h = absurd (h refl)
rows-with_rows_ne Table.problems _ l s h = refl
rows-with_rows_ne Table.revisions Table.revisions l s h = absurd (h refl)
rows-with_rows_ne Table.revisions _ l s h = refl
rows-with_rows_ne Table.series_problems Table.series_problems l s h = absurd (h refl)
rows-with_rows_ne Table.series_problems _ l s h = refl
rows-with_rows_ne Table.test_cases Table.test_cases l s h = absurd (h refl)
rows-with_rows_ne Table.test_cases _ l s h = refl

pub some_injective : {A : Type 0} {a b : A} → some a ≡ some b → a ≡ b
some_injective h = cc

pub top?-none : {A : Type 0} (key : A → ℕ) (l : List A) (q : A) → top? key l ≡ none → In q l → ⊥
top?-none key [] q h m = m
top?-none key (x ∷ l) q h m = elim (Option-cases (top? key l)) [
  | inl e ↦ ground arith
  | inr (y, e) ↦ ground arith
]

abbrev pub Greatest : {A : Type 0} → (A → ℕ) → List A → A → Type 0
Greatest {A} key l r = In r l × ((q : A) → In q l → key q ≤ key r)

pub Greatest-cons_top :
    {A : Type 0} (key : A → ℕ) (x : A) (l : List A)
    → ((q : A) → In q l → key q ≤ key x)
    → Greatest key (x ∷ l) x
Greatest-cons_top key x l h = (inl refl, λ q. elim [ inl e ↦ rw e (omega arith) | inr m ↦ h q m ])

pub Greatest-cons :
    {A : Type 0} (key : A → ℕ) (x y : A) (l : List A)
    → key x ≤ key y
    → Greatest key l y
    → Greatest key (x ∷ l) y
Greatest-cons key x y l h (m, g) = (inr m, λ q. elim [ inl e ↦ rw e h | inr k ↦ g q k ])

pub top?-Greatest :
    {A : Type 0} (key : A → ℕ) (l : List A) (r : A) → top? key l ≡ some r → Greatest key l r
top?-Greatest key [] r h = cc
top?-Greatest key (x ∷ l) r h = elim (Option-cases (top? key l)) [
  | inl e ↦
      let same : x ≡ r = some_injective (sym (ap (better key x) e) ∙ h) in
      subst (Greatest key (x ∷ l)) same
        (Greatest-cons_top key x l (λ q m. absurd (top?-none key l q e m)))
  | inr (y, e) ↦
      let great = top?-Greatest key l y e in
      let k : better key x (some y) ≡ some r = sym (ap (better key x) e) ∙ h in
      elim (Bool-cases (ltb (key x) (key y))) [
        | inl less ↦
            let same : y ≡ r = ground arith in
            subst (Greatest key (x ∷ l)) same (Greatest-cons key x y l (ground arith) great)
        | inr top ↦
            let same : x ≡ r = ground arith in
            subst (Greatest key (x ∷ l)) same
              (Greatest-cons_top key x l (λ q m. let b = great.1 q m in ground arith))
      ]
]

-- A primary key above all others.
