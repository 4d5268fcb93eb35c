-- ===== src/Content/Reorder/Laws.antt =====
-- What a new order does to the rows (`reorder` of `internal/content/service.go`).
use mathlib.Core.Option
use cotests.Prelude.{
  ℕ, suc, ◌+◌, ◌^◌, ltb, ◌≤◌, ◌≡◌, refl, ap, sym, subst, ◌∙◌, inl, inr, Bool, not, ◌||◌, some, List,
  [], ◌∷◌, map, arith, ◌==◌, ==_iff, find?, length, get_elem?, In, In-keep, keep-In,
}
use cotests.Prelude.Int.{ℤ, pos}
use cotests.Outcome.{ok, validation, guard, guard-eq-ok}
use cotests.Outcome.Action.{ask, lift, >>=-eq-ok, >>-eq-ok, same_state}
use cotests.Db.Models.{Table, Row, row_id, with_id, has_id}
use cotests.Db.Gorm.{Gorm, GormLaws, SameElsewhere, Unchanged, lock_row}
use cotests.Content.Reorder.{max_position, move_away, put_in_order, reorder_transaction, reorder}
use cotests.Content.Reorder.Picks.{Distinct, Picks-In, Picks-Distinct, Picks-complete}
use cotests.Content.Reorder.Loops.{HasPosition, row_at, move_away-row_at, put_in_order-row_at}

module _ (g : Gorm) (laws : GormLaws g) (t parent_table : Table) (parent_of : Row t → ℕ)
    (position : Row t → ℤ) (with_position : ℤ → Row t → Row t)
    (columns : HasPosition t parent_of position with_position) where
  open g use {State, rows, find, update, transaction}

  -- The rows of the parent are the ones that were named, each once, and the i-th stands at
  -- position i; nothing else of them and nothing of any other row has changed.
  pub record Reordered (parent : ℕ) (ids : List ℕ) (s s' : State) : Type 0 where
    pub distinct : Distinct ids
    pub all_named : (r : Row t) → In r (rows t s) → parent_of r ≡ parent → In (row_id t r) ids
    pub only_named :
        (id : ℕ)
        → In id ids
        → (r : Row t) × In r (rows t s) × (parent_of r ≡ parent) × (row_id t r ≡ id)
    pub in_place :
        (i id : ℕ)
        → get_elem? ids i ≡ some id
        → row_at g t id s' ≡ Option.map (with_position (pos i)) (row_at g t id s)
    pub others_kept : (id : ℕ) → ¬ In id ids → row_at g t id s' ≡ row_at g t id s
    pub elsewhere : SameElsewhere g t s s'

  In-map :
      (l : List (Row t)) (id : ℕ)
      → In id (map (row_id t) l)
      → (r : Row t) × In r l × (row_id t r ≡ id)
  In-map [] id m = absurd m
  In-map (r ∷ l) id (inl e) = (r, inl refl, sym e)
  In-map (r ∷ l) id (inr m) = let (q, i, e) = In-map l id m in (q, inr i, e)

  map-In : (l : List (Row t)) (r : Row t) → In r l → In (row_id t r) (map (row_id t) l)
  map-In [] r m = absurd m
  map-In (q ∷ l) r (inl e) = inl (ap (row_id t) e)
  map-In (q ∷ l) r (inr m) = inr (map-In l r m)

  length-map : (l : List (Row t)) → length (map (row_id t) l) ≡ length l
  length-map [] = refl
  length-map (r ∷ l) = ap suc (length-map l)

  -- The two loops, over the rows `l` that were found.
  loops-Reordered :
      (parent top : ℕ) (l : List (Row t)) (ids : List ℕ) (s s₁ s' : State)
      → find t (λ r. parent_of r == parent) s ≡ ok l
      → length l ≡ length ids
      → move_away g t parent_table parent_of position with_position (map (row_id t) l) top ids s
        ≡ (ok tt, s₁)
      → put_in_order g t parent_table parent_of position with_position 0 ids s₁ ≡ (ok tt, s')
      → Reordered parent ids s s'
  loops-Reordered parent top l ids s s₁ s' found fits away back =
      let seen = map (row_id t) l in
      let of_parent : Row t → Bool = λ r. parent_of r == parent in
      let (picks, others, over, frame) =
        move_away-row_at g laws t parent_table parent_of position with_position columns seen top ids
          s s₁ away in
      let distinct = Picks-Distinct seen ids picks in
      let (placed, others', frame') =
        put_in_order-row_at g laws t parent_table parent_of position with_position columns 0 ids s₁
          s' back distinct in
      let enough : length seen ≤ length ids = omega (arith, length-map l, fits) in
      let listed = laws.find_ok t of_parent s l found in
      record {
        distinct = distinct;
        all_named = λ r i e.
            let there =
              (listed r).1 (keep-In of_parent (rows t s) i ((==_iff (parent_of r) parent).1 e)) in
            Picks-complete seen ids (row_id t r) picks enough (map-In l r there);
        only_named = λ id m.
            let (r, i, e) = In-map l id (Picks-In seen ids id picks m) in
            let (mine, stored) = In-keep of_parent (rows t s) ((listed r).0 i) in
            (r, stored, (==_iff (parent_of r) parent).0 mine, e);
        in_place = λ i id m.
            let z : 0 + i ≡ i = omega arith in
            placed i id m
            ∙ over id (pos (0 + i))
            ∙ ap (λ j. Option.map (with_position (pos j)) (row_at g t id s)) z;
        others_kept = λ id out. others' id out ∙ others id out;
        elsewhere = λ u ne. frame' u ne ∙ frame u ne;
      }

  Reordered-before :
      (parent : ℕ) (ids : List ℕ) (s s₁ s' : State)
      → Unchanged g s s₁
      → Reordered parent ids s₁ s'
      → Reordered parent ids s s'
  Reordered-before parent ids s s₁ s' same r = record {
    distinct = r.distinct;
    all_named = λ q i. r.all_named q (subst (In q) (sym (same t)) i);
    only_named = λ id m. let (q, i, p, e) = r.only_named id m in (q, subst (In q) (same t) i, p, e);
    in_place = λ i id m.
        r.in_place i id m
        ∙ ap (λ l. Option.map (with_position (pos i)) (find? (has_id t id) l)) (same t);
    others_kept = λ id out. r.others_kept id out ∙ ap (find? (has_id t id)) (same t);
    elsewhere = λ u ne. r.elsewhere u ne ∙ same u;
  }

  reorder_transaction-Reordered :
      (parent : ℕ) (ids : List ℕ) (s s' : State)
      → reorder_transaction g t parent_table parent_of position with_position parent ids s
        ≡ (ok tt, s')
      → Reordered parent ids s s'
  unfolding reorder_transaction
  reorder_transaction-Reordered parent ids s s' h =
      let incomplete = validation "order must contain every resource exactly once" in
      let lock_action =
        update parent_table (has_id parent_table parent) (with_id parent_table parent) in
      let (k, s₁, lock, h₁) = >>-eq-ok lock_action _ s s' h in
      let (l, s₂, read, h₂) = >>=-eq-ok (ask (find t (λ r. parent_of r == parent))) _ s₁ s' h₁ in
      let (found, e₂) = same_state read in
      let (_, s₃, count_check, h₃) =
        >>-eq-ok (lift (guard (length l == length ids) incomplete)) _ s₂ s' h₂ in
      let (counted, e₃) = same_state count_check in
      let top = max_position position 0 l in
      let large =
        guard (not (ltb (2 ^ 30) top || ltb 10000 (length ids)))
          (validation "order is too large") in
      let (_, s₄, size_check, h₄) = >>-eq-ok (lift large) _ s₃ s' h₃ in
      let loop =
        move_away g t parent_table parent_of position with_position (map (row_id t) l) (top + 1)
          ids in
      let (_, s₅, away, back) = >>-eq-ok loop _ s₄ s' h₄ in
      let start : s₄ ≡ s₁ = (same_state size_check).1 ∙ e₃ ∙ e₂ in
      Reordered-before parent ids s s₁ s' (lock_row g laws parent_table parent k s s₁ lock) (
        loops-Reordered parent (top + 1) l ids s₁ s₅ s' found
          ((==_iff (length l) (length ids)).0
            (guard-eq-ok (length l == length ids) incomplete counted))
          (subst (λ z. loop z ≡ (ok tt, s₅)) start away) back)

  -- A new order that is accepted names exactly the rows of the parent, each once; the i-th row
  -- named gets position i, and nothing else of these rows and nothing of any other row changes.
  pub reorder-Reordered :
      (parent : ℕ) (ids : List ℕ) (s s' : State)
      → reorder g t parent_table parent_of position with_position parent ids s ≡ (ok tt, s')
      → Reordered parent ids s s'
  unfolding reorder
  reorder-Reordered parent ids s s' h =
      let m = reorder_transaction g t parent_table parent_of position with_position parent ids in
      reorder_transaction-Reordered parent ids s s' (laws.transaction_ok m tt s s' h)
