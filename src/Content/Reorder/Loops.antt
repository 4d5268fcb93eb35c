-- ===== src/Content/Reorder/Loops.antt =====
-- Where the two loops of `reorder` of `internal/content/service.go` put the rows.
use mathlib.Core.Option
use cotests.Prelude.{
  ℕ, zero, suc, ◌+◌, ◌≡◌, ◌≢◌, refl, ap, subst, ◌∙◌, inl, inr, Option, none, some, List, [], ◌∷◌,
  arith, Bool-cases, ◌==◌, ==_iff, if◌then◌else◌, find?, any, map_where, get_elem?, In,
}
use cotests.Prelude.Int.{ℤ, pos}
use cotests.Outcome.{ok, validation, guard, guard-eq-ok}
use cotests.Outcome.Action.{lift, >>-eq-ok, same_state}
use cotests.Db.Models.{Table, Row, row_id, has_id}
use cotests.Db.Gorm.{Gorm, GormLaws, SameElsewhere}
use cotests.Content.Reorder.{without, write_position, move_away, put_in_order}
use cotests.Content.Reorder.Picks.{Distinct, Picks, any-In}

find?-map_where :
    (t : Table) (a b : ℕ) (f : Row t → Row t) (l : List (Row t))
    → ((r : Row t) → row_id t (f r) ≡ row_id t r)
    → find? (has_id t a) (map_where (has_id t b) f l)
      ≡ (if a == b then Option.map f (find? (has_id t a) l) else find? (has_id t a) l)
find?-map_where t a b f [] same = ground arith
find?-map_where t a b f (r ∷ l) same = ground (arith, same r, find?-map_where t a b f l same)

Option-map-map :
    {A : Type 0} (f h k : A → A) (o : Option A)
    → ((a : A) → f (h a) ≡ k a)
    → Option.map f (Option.map h o) ≡ Option.map k o
Option-map-map f h k none e = refl
Option-map-map f h k (some a) e = ap some (e a)

In-get_elem? : (l : List ℕ) (i : ℕ) (x : ℕ) → get_elem? l i ≡ some x → In x l
In-get_elem? [] i x h = cc
In-get_elem? (y ∷ l) zero x h = inl (ground arith)
In-get_elem? (y ∷ l) (suc i) x h = inr (In-get_elem? l i x h)

-- The columns of a model that has positions.
pub record HasPosition (t : Table) (parent_of : Row t → ℕ) (position : Row t → ℤ)
    (with_position : ℤ → Row t → Row t) : Type 0 where
  pub id_kept : (k : ℤ) (r : Row t) → row_id t (with_position k r) ≡ row_id t r
  pub parent_kept : (k : ℤ) (r : Row t) → parent_of (with_position k r) ≡ parent_of r
  pub placed : (k : ℤ) (r : Row t) → position (with_position k r) ≡ k
  pub overwritten : (k j : ℤ) (r : Row t) → with_position k (with_position j r) ≡ with_position k r

abbrev pub row_at : (g : Gorm) (t : Table) → ℕ → g.State → Option (Row t)
row_at g t id s = find? (has_id t id) (g.rows t s)

module _ (g : Gorm) (laws : GormLaws g) (t parent_table : Table) (parent_of : Row t → ℕ)
    (position : Row t → ℤ) (with_position : ℤ → Row t → Row t)
    (columns : HasPosition t parent_of position with_position) where
  open g use {State, rows, find, update, transaction}

  write_position-row_at :
      (id k n : ℕ) (s s' : State)
      → write_position g t parent_table parent_of position with_position id k s ≡ (ok n, s')
      → ((x : ℕ)
          → row_at g t x s' ≡ (
              if x == id
              then Option.map (with_position (pos k)) (row_at g t x s)
              else row_at g t x s))
        × SameElsewhere g t s s'
  unfolding write_position
  write_position-row_at id k n s s' h =
      let same = columns.id_kept (pos k) in
      let (_, changed, frame) =
        laws.update_ok t (has_id t id) (with_position (pos k)) n s s' h (λ r p. same r) in
      (
        λ x.
            ap (find? (has_id t x)) changed
            ∙ find?-map_where t x id (with_position (pos k)) (rows t s) same,
        frame,
      )

  -- The rows after the first loop: picked, and with some position that the second overwrites.
  pub move_away-row_at :
      (seen : List ℕ) (k : ℕ) (ids : List ℕ) (s s' : State)
      → move_away g t parent_table parent_of position with_position seen k ids s ≡ (ok tt, s')
      → Picks seen ids
        × ((x : ℕ) → ¬ In x ids → row_at g t x s' ≡ row_at g t x s)
        × ((x : ℕ) (j : ℤ)
            → Option.map (with_position j) (row_at g t x s')
              ≡ Option.map (with_position j) (row_at g t x s))
        × SameElsewhere g t s s'
  unfolding move_away
  move_away-row_at seen k [] s s' h =
      let e = (same_state h).1 in
      (
        tt,
        λ x ne. ap (row_at g t x) e,
        λ x j. ap (λ z. Option.map (with_position j) (row_at g t x z)) e,
        λ u ne. ap (rows u) e,
      )
  move_away-row_at seen k (id ∷ ids) s s' h =
      let (_, s₁, check, h₁) =
        >>-eq-ok
          (lift (guard (any (λ x. x == id) seen) (validation "invalid or duplicate order ID"))) _ s
          s' h in
      let (passed, e₁) = same_state check in
      let found = any-In id seen (
        guard-eq-ok (any (λ x. x == id) seen) (validation "invalid or duplicate order ID")
          passed) in
      let (n, s₂, write, h₂) =
        >>-eq-ok (write_position g t parent_table parent_of position with_position id k) _ s₁ s'
          h₁ in
      let (at, frame) = write_position-row_at id k n s s₂ (
        subst
          (λ z.
            write_position g t parent_table parent_of position with_position id k z ≡ (ok n, s₂))
          e₁ write) in
      let (picks, others, over, frame') = move_away-row_at (without id seen) (k + 1) ids s₂ s' h₂ in
      (
        (found, picks),
        λ x out.
            others x (λ m. out (inr m)) ∙ at x ∙ if_other x id (row_at g t x s) (λ e. out (inl e)),
        λ x j.
            over x j
            ∙ ap (Option.map (with_position j)) (at x)
            ∙ overwrite x id k j (row_at g t x s),
        λ u ne. frame' u ne ∙ frame u ne,
      )
    where
      if_other :
          (x y : ℕ) (o : Option (Row t))
          → x ≢ y
          → (if x == y then Option.map (with_position (pos k)) o else o) ≡ o
      if_other x y o ne = ground arith

      overwrite :
          (x y k : ℕ) (j : ℤ) (o : Option (Row t))
          → Option.map
              (with_position j)
              (if x == y then Option.map (with_position (pos k)) o else o)
            ≡ Option.map (with_position j) o
      overwrite x y k j o = elim (Bool-cases (x == y)) [
        | inl same ↦ rw same (
            Option-map-map (with_position j) (with_position (pos k)) (with_position j) o
              (columns.overwritten j (pos k)))
        | inr other ↦ rw other
      ]

  pub put_in_order-row_at :
      (k : ℕ) (ids : List ℕ) (s s' : State)
      → put_in_order g t parent_table parent_of position with_position k ids s ≡ (ok tt, s')
      → Distinct ids
      → ((i x : ℕ)
          → get_elem? ids i ≡ some x
          → row_at g t x s' ≡ Option.map (with_position (pos (k + i))) (row_at g t x s))
        × ((x : ℕ) → ¬ In x ids → row_at g t x s' ≡ row_at g t x s)
        × SameElsewhere g t s s'
  unfolding put_in_order
  put_in_order-row_at k [] s s' h distinct =
      let e = (same_state h).1 in
      (λ i x m. absurd (cc), λ x ne. ap (row_at g t x) e, λ u ne. ap (rows u) e)
  put_in_order-row_at k (id ∷ ids) s s' h distinct =
      let (n, s₁, write, h₁) =
        >>-eq-ok (write_position g t parent_table parent_of position with_position id k) _ s s' h in
      let (at, frame) = write_position-row_at id k n s s₁ write in
      let (placed, others, frame') = put_in_order-row_at (k + 1) ids s₁ s' h₁ distinct.1 in
      (
        λ i x m. place id k ids distinct.0 s s₁ s' at placed others i x m,
        λ x out.
            others x (λ m. out (inr m))
            ∙ at x
            ∙ if_other x id k (row_at g t x s) (λ e. out (inl e)),
        λ u ne. frame' u ne ∙ frame u ne,
      )
    where
      if_other :
          (x y k : ℕ) (o : Option (Row t))
          → x ≢ y
          → (if x == y then Option.map (with_position (pos k)) o else o) ≡ o
      if_other x y k o ne = ground arith

      if_same :
          (x y k : ℕ) (o : Option (Row t))
          → x ≡ y
          → (if x == y then Option.map (with_position (pos k)) o else o)
            ≡ Option.map (with_position (pos (k + 0))) o
      if_same x y k o e =
          let z : k ≡ k + 0 = omega arith in
          rw ((==_iff x y).1 e) (ap (λ j. Option.map (with_position (pos j)) o) z)

      place :
          (id k : ℕ) (ids : List ℕ)
          → ¬ In id ids
          → (s s₁ s' : State)
          → ((x : ℕ)
              → row_at g t x s₁ ≡ (
                  if x == id
                  then Option.map (with_position (pos k)) (row_at g t x s)
                  else row_at g t x s))
          → ((i x : ℕ)
              → get_elem? ids i ≡ some x
              → row_at g t x s' ≡ Option.map (with_position (pos (k + 1 + i))) (row_at g t x s₁))
          → ((x : ℕ) → ¬ In x ids → row_at g t x s' ≡ row_at g t x s₁)
          → (i x : ℕ) → get_elem? (id ∷ ids) i ≡ some x
          → row_at g t x s' ≡ Option.map (with_position (pos (k + i))) (row_at g t x s)
      place id k ids new s s₁ s' at placed others zero x m =
          let e : x ≡ id = ground arith in
          others x (λ i. new (subst (λ z. In z ids) e i)) ∙ at x ∙ if_same x id k (row_at g t x s) e
      place id k ids new s s₁ s' at placed others (suc i) x m =
          let ne : x ≢ id = λ e. new (subst (λ z. In z ids) e (In-get_elem? ids i x m)) in
          let shift : k + 1 + i ≡ k + suc i = omega arith in
          placed i x m
          ∙ ap (Option.map (with_position (pos (k + 1 + i))))
              (at x ∙ if_other x id k (row_at g t x s) ne)
          ∙ ap (λ j. Option.map (with_position (pos j)) (row_at g t x s)) shift
