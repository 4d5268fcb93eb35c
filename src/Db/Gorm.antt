-- ===== src/Db/Gorm.antt =====
-- The database as the program sees it through GORM (`gorm.io/gorm`, not part of the repository):
-- statements on tables, each with the condition of its `Where`, and transactions. The engine is a
-- parameter: `Gorm` has its operations and `GormLaws` what the program relies on, as documented.
-- A statement may always fail (a constraint, the connection, a cancelled context).
pub mod Memory
use cotests.Prelude.{
  ℕ, ◌≤◌, ◌≡◌, ◌≢◌, ◌⊎◌, refl, sym, subst, ap, ◌∙◌, arith, Bool, true, Option, none, some, List, [],
  ◌∷◌, ◌++◌, find?, keep, count_where, map_where, In,
}
use mathlib.Core.Bool.{false, not}
use cotests.Outcome.{Error, Result, ok, err, not_found}
use cotests.Outcome.Action.{Action}
use cotests.Db.Models.{Table, Row, row_id, with_id, has_id, row_id-with_id, with_id_self}

pub Table-discrete : Discrete Table
Table-discrete = hlevel

-- `rows` lists a table in the order of its primary keys.
pub record Gorm : Type 1 where
  pub State : Type 0
  pub rows : (t : Table) → State → List (Row t)
  pub first : (t : Table) → (Row t → Bool) → State → Result (Row t)
  -- the first in descending order of a column (`Order("number DESC").First`)
  pub first_desc : (t : Table) → (Row t → ℕ) → (Row t → Bool) → State → Result (Row t)
  pub find : (t : Table) → (Row t → Bool) → State → Result (List (Row t))
  pub count : (t : Table) → (Row t → Bool) → State → Result ℕ
  pub create : (t : Table) → Row t → Action State (Row t)
  -- an insert that updates the rows that it conflicts with (`clause.OnConflict`)
  pub upsert : (t : Table) → (Row t → Bool) → (Row t → Row t) → Row t → Action State (Row t)
  pub update : (t : Table) → (Row t → Bool) → (Row t → Row t) → Action State ℕ
  pub delete : (t : Table) → (Row t → Bool) → Action State ℕ
  pub transaction : {A : Type 0} → Action State A → Action State A
  -- a transaction whose function also changes a state outside of the database, which no rollback
  -- takes back
  pub transaction_with : {A W : Type 0} → Action (State × W) A → Action (State × W) A

-- The tables whose rows go when a row of the first one is deleted (`OnDelete:CASCADE` in
-- `internal/db/models.go`, and what these take with them).
abbrev pub cascades : Table → Table → Bool
cascades Table.users Table.sessions = true
cascades Table.users Table.memberships = true
cascades Table.users Table.previews = true
cascades Table.contests Table.series = true
cascades Table.contests Table.memberships = true
cascades Table.contests Table.series_problems = true
cascades Table.series Table.series_problems = true
cascades Table.problems Table.revisions = true
cascades Table.problems Table.test_cases = true
cascades Table.problems Table.previews = true
cascades Table.revisions Table.test_cases = true
cascades Table.revisions Table.previews = true
cascades t u = false

module _ (g : Gorm) where
  open g use {
    State, rows, first, first_desc, find, count, create, upsert, update, delete, transaction,
    transaction_with,
  }

  -- No other table changes.
  abbrev pub SameElsewhere : Table → State → State → Type 0
  SameElsewhere t s s' = (u : Table) → u ≢ t → rows u s' ≡ rows u s

  abbrev pub Unchanged : State → State → Type 0
  Unchanged s s' = (t : Table) → rows t s' ≡ rows t s

  -- `r` was inserted as `r'`, under a primary key that no row had.
  abbrev pub Created : (t : Table) → Row t → Row t → State → State → Type 0
  Created t r r' s s' =
      (r' ≡ with_id t (row_id t r') r)
      × (row_id t r' ≢ 0)
      × (find? (has_id t (row_id t r')) (rows t s) ≡ none)
      × (rows t s' ≡ rows t s ++ r' ∷ [])
      × SameElsewhere t s s'

  pub record GormLaws : Type 1 where
    -- SELECT … WHERE … ORDER BY id LIMIT 1
    pub first_ok :
        (t : Table) (p : Row t → Bool) (s : State) (r : Row t)
        → first t p s ≡ ok r
        → find? p (rows t s) ≡ some r
    pub first_not_found :
        (t : Table) (p : Row t → Bool) (s : State)
        → first t p s ≡ err not_found
        → find? p (rows t s) ≡ none
    -- SELECT … WHERE … ORDER BY … DESC LIMIT 1
    pub first_desc_ok :
        (t : Table) (key : Row t → ℕ) (p : Row t → Bool) (s : State) (r : Row t)
        → first_desc t key p s ≡ ok r
        → (p r ≡ true)
          × In r (rows t s)
          × ((q : Row t) → In q (rows t s) → p q ≡ true → key q ≤ key r)
    -- SELECT … WHERE …, in an order that the statement may fix
    pub find_ok :
        (t : Table) (p : Row t → Bool) (s : State) (l : List (Row t))
        → find t p s ≡ ok l
        → (r : Row t) → (In r l → In r (keep p (rows t s))) × (In r (keep p (rows t s)) → In r l)
    pub find_count :
        (t : Table) (p : Row t → Bool) (s : State) (l : List (Row t))
        → find t p s ≡ ok l
        → (q : Row t → Bool) → count_where q l ≡ count_where q (keep p (rows t s))
    pub count_ok :
        (t : Table) (p : Row t → Bool) (s : State) (n : ℕ)
        → count t p s ≡ ok n
        → n ≡ count_where p (rows t s)
    -- INSERT: the row gets a new primary key
    pub create_ok :
        (t : Table) (r r' : Row t) (s s' : State) → create t r s ≡ (ok r', s') → Created t r r' s s'
    pub create_err :
        (t : Table) (r : Row t) (e : Error) (s s' : State)
        → create t r s ≡ (err e, s')
        → Unchanged s s'
    pub upsert_new :
        (t : Table) (p : Row t → Bool) (f : Row t → Row t) (r r' : Row t) (s s' : State)
        → upsert t p f r s ≡ (ok r', s')
        → find? p (rows t s) ≡ none
        → Created t r r' s s'
    pub upsert_old :
        (t : Table) (p : Row t → Bool) (f : Row t → Row t) (r r' q : Row t) (s s' : State)
        → upsert t p f r s ≡ (ok r', s')
        → find? p (rows t s) ≡ some q
        → (rows t s' ≡ map_where p f (rows t s)) × SameElsewhere t s s'
    pub upsert_err :
        (t : Table) (p : Row t → Bool) (f : Row t → Row t) (r : Row t) (e : Error) (s s' : State)
        → upsert t p f r s ≡ (err e, s')
        → Unchanged s s'
    -- UPDATE … SET … WHERE …, of columns other than the primary key
    pub update_ok :
        (t : Table) (p : Row t → Bool) (f : Row t → Row t) (n : ℕ) (s s' : State)
        → update t p f s ≡ (ok n, s')
        → ((r : Row t) → p r ≡ true → row_id t (f r) ≡ row_id t r)
        → (n ≡ count_where p (rows t s))
          × (rows t s' ≡ map_where p f (rows t s))
          × SameElsewhere t s s'
    pub update_err :
        (t : Table) (p : Row t → Bool) (f : Row t → Row t) (e : Error) (s s' : State)
        → update t p f s ≡ (err e, s')
        → Unchanged s s'
    -- DELETE FROM … WHERE …
    pub delete_ok :
        (t : Table) (p : Row t → Bool) (n : ℕ) (s s' : State)
        → delete t p s ≡ (ok n, s')
        → (n ≡ count_where p (rows t s))
          × (rows t s' ≡ keep (λ r. not (p r)) (rows t s))
          × ((u : Table) → u ≢ t → cascades t u ≡ false → rows u s' ≡ rows u s)
    pub delete_shrinks :
        (t : Table) (p : Row t → Bool) (n : ℕ) (s s' : State)
        → delete t p s ≡ (ok n, s')
        → (u : Table) (r : Row u) → In r (rows u s')
        → In r (rows u s)
    pub delete_err :
        (t : Table) (p : Row t → Bool) (e : Error) (s s' : State)
        → delete t p s ≡ (err e, s')
        → Unchanged s s'
    -- COMMIT, or ROLLBACK when the function or the commit fails
    pub transaction_ok :
        {A : Type 0} (m : Action State A) (a : A) (s s' : State)
        → transaction m s ≡ (ok a, s')
        → m s ≡ (ok a, s')
    pub transaction_err :
        {A : Type 0} (m : Action State A) (e : Error) (s s' : State)
        → transaction m s ≡ (err e, s')
        → Unchanged s s'
    pub transaction_with_ok :
        {A W : Type 0} (m : Action (State × W) A) (a : A) (s s' : State × W)
        → transaction_with m s ≡ (ok a, s')
        → m s ≡ (ok a, s')
    -- the function was not called, or what it did outside stays
    pub transaction_with_err :
        {A W : Type 0} (m : Action (State × W) A) (e : Error) (s s' : State × W)
        → transaction_with m s ≡ (err e, s')
        → Unchanged s.0 s'.0 × ((s'.1 ≡ s.1) ⊎ (s'.1 ≡ (m s).1.1))

  -- No statement is broken off: what the statements documented above can answer, they do answer.
  pub record IsReliable : Type 0 where
    pub first_found :
        (t : Table) (p : Row t → Bool) (s : State) (r : Row t)
        → find? p (rows t s) ≡ some r
        → first t p s ≡ ok r
    pub first_missing :
        (t : Table) (p : Row t → Bool) (s : State)
        → find? p (rows t s) ≡ none
        → first t p s ≡ err not_found
    pub count_answers :
        (t : Table) (p : Row t → Bool) (s : State) → count t p s ≡ ok (count_where p (rows t s))

  -- A statement that wrote what was there changes nothing.
  pub Unchanged-of :
      (t : Table) (s s' : State) → rows t s' ≡ rows t s → SameElsewhere t s s' → Unchanged s s'
  Unchanged-of t s s' same frame u = elim (Table-discrete u t) [
    | yes e ↦ subst (λ v. rows v s' ≡ rows v s) (sym e) same
    | no ne ↦ frame u ne
  ]

  pub Unchanged-refl : {s s' : State} → s' ≡ s → Unchanged s s'
  Unchanged-refl e t = ap (rows t) e

  pub Unchanged-trans : {s s₁ s' : State} → Unchanged s s₁ → Unchanged s₁ s' → Unchanged s s'
  Unchanged-trans h k t = k t ∙ h t

module _ (g : Gorm) (laws : GormLaws g) where
  open g use {State, rows, update}

  relabel_same : (t : Table) (n : ℕ) (l : List (Row t)) → map_where (has_id t n) (with_id t n) l ≡ l
  relabel_same t n [] = refl
  relabel_same t n (r ∷ l) = ground (arith, relabel_same t n l, with_id_self t n r)

  -- `UpdateColumn("id", id)` locks the row and changes none.
  pub lock_row :
      (t : Table) (n k : ℕ) (s s' : State)
      → update t (has_id t n) (with_id t n) s ≡ (ok k, s')
      → Unchanged g s s'
  lock_row t n k s s' h =
      let keeps : (r : Row t) → has_id t n r ≡ true → row_id t (with_id t n r) ≡ row_id t r =
        λ r p. row_id-with_id t n r ∙ ground arith in
      let (_, changed, frame) = laws.update_ok t (has_id t n) (with_id t n) k s s' h keeps in
      Unchanged-of g t s s' (changed ∙ relabel_same t n (rows t s)) frame
