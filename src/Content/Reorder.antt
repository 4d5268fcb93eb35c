-- ===== src/Content/Reorder.antt =====
-- `reorder` of `internal/content/service.go`, and `ReorderSeries` and `ReorderProblems` on it: the
-- positions of all series of a contest, or of all assignments of a series, are written anew. The
-- section's parameters are the arguments `model`, `parentModel` and `column` of the Go function,
-- with the columns `position` and the parent's key of the model.
pub mod Picks
pub mod Loops
pub mod Laws
pub mod Orders
use cotests.Prelude.{
  ℕ, ◌+◌, ◌^◌, ◌≡◌, String, Bool, true, false, not, ◌&&◌, ◌||◌, Option, none, some, List, [], ◌∷◌,
  ltb, ◌==◌, if◌then◌else◌, length, any, keep, map,
}
use cotests.Prelude.Int.{ℤ, pos, negsuc}
use cotests.Outcome.{Result, ok, err, validation, guard}
use cotests.Outcome.Action.{Action, pure, ask, lift, ◌>>=◌, ◌>>◌}
use cotests.Db.Models.{User, Contest, Series, SeriesProblem, Table, Row, row_id, with_id, has_id}
use cotests.Db.Gorm.{Gorm}
use cotests.Content.Access.{manage_contest, managed_series}

-- `if row.Position > max { max = row.Position }`
abbrev pub raise : ℕ → ℤ → ℕ
raise top (pos n) = if ltb top n then n else top
raise top (negsuc n) = top

module _ {R : Type 0} (position : R → ℤ) where
  unfoldable pub max_position : ℕ → List R → ℕ
  max_position top [] = top
  max_position top (r ∷ l) = max_position (raise top (position r)) l

abbrev pub without : ℕ → List ℕ → List ℕ
without id = keep (λ k. not (k == id))

module _ (g : Gorm) (t parent_table : Table) (parent_of : Row t → ℕ) where
  open g use {State, rows, find, update, transaction}

  module _ (position : Row t → ℤ) (with_position : ℤ → Row t → Row t) where
    write_position : ℕ → ℕ → Action State ℕ
    write_position id k = update t (has_id t id) (with_position (pos k))

    -- the first loop: the identifiers must be those seen, each once, and the rows move to the
    -- positions from `k` on
    unfoldable pub move_away : List ℕ → ℕ → List ℕ → Action State (Unit {0})
    unfolding write_position
    move_away seen k [] = pure tt
    move_away seen k (id ∷ ids) = do
      lift (guard (any (λ x. x == id) seen) (validation "invalid or duplicate order ID"))
      write_position id k
      move_away (without id seen) (k + 1) ids

    -- the second loop: the positions from `k` on in the order asked for
    unfoldable pub put_in_order : ℕ → List ℕ → Action State (Unit {0})
    unfolding write_position
    put_in_order k [] = pure tt
    put_in_order k (id ∷ ids) = do write_position id k; put_in_order (k + 1) ids

    unfoldable pub reorder_transaction : ℕ → List ℕ → Action State (Unit {0})
    unfolding move_away put_in_order max_position
    reorder_transaction parent ids = do
      update parent_table (has_id parent_table parent) (with_id parent_table parent)
      found ← ask (find t (λ r. parent_of r == parent))
      lift (
          guard (length found == length ids)
            (validation "order must contain every resource exactly once"))
      lift (
          guard (not (ltb (2 ^ 30) (max_position position 0 found) || ltb 10000 (length ids)))
            (validation "order is too large"))
      move_away (map (row_id t) found) (max_position position 0 found + 1) ids
      put_in_order 0 ids

    unfoldable pub reorder : ℕ → List ℕ → Action State (Unit {0})
    reorder parent ids = transaction (reorder_transaction parent ids)

module _ (g : Gorm) where
  open g use {State}

  unfoldable pub reorder_series : Option User → ℕ → List ℕ → Action State (Unit {0})
  reorder_series actor contest ids = do
    ask (manage_contest g actor contest)
    reorder g Table.series Table.contests (λ r. r.contest_id) (λ r. r.position)
        (λ k r. record r { position = k }) contest ids

  unfoldable pub reorder_problems : Option User → ℕ → List ℕ → Action State (Unit {0})
  reorder_problems actor series_id ids = do
    ask (managed_series g actor series_id)
    reorder g Table.series_problems Table.series (λ r. r.series_id) (λ r. r.position)
        (λ k r. record r { position = k }) series_id ids
