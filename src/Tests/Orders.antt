-- ===== src/Tests/Orders.antt =====
-- New orders in the small installation.
use cotests.Prelude.{◌≡◌, refl, some, [], ◌∷◌, map}
use cotests.Prelude.Int.{pos}
use cotests.Outcome.{ok, err, validation}
use cotests.Db.Models.{Series, Table}
use cotests.Db.Gorm.{Unchanged}
use cotests.Db.Gorm.Memory.{Tables, memory}
use cotests.Db.Gorm.Memory.Laws.{memory-GormLaws}
use cotests.Content.Access.{manage_contest, managed_series}
use cotests.Content.Access.Spec.{Stored, Manages}
use cotests.Content.Reorder.{reorder, reorder_transaction, reorder_series, reorder_problems}
use cotests.Content.Reorder.Orders.{
  SeriesReordered, AssignmentsReordered, reorder_series-Reordered, reorder_problems-Reordered,
  reorder_series-Unchanged,
}
use cotests.Tests.World.{olga, world}

abbrev swapped : Tables
swapped = (reorder_series memory (some olga) 1 (2 ∷ 1 ∷ []) world).1

series_swapped : reorder_series memory (some olga) 1 (2 ∷ 1 ∷ []) world ≡ (ok tt, swapped)
unfolding reorder_series reorder reorder_transaction manage_contest
series_swapped = refl

positions_swapped : map (λ (r : Series). r.position) swapped.series ≡ pos 1 ∷ pos 0 ∷ []
unfolding reorder_series reorder reorder_transaction manage_contest
positions_swapped = refl

abbrev tasks_swapped : Tables
tasks_swapped = (reorder_problems memory (some olga) 1 (2 ∷ 1 ∷ []) world).1

problems_swapped : reorder_problems memory (some olga) 1 (2 ∷ 1 ∷ []) world ≡ (ok tt, tasks_swapped)
unfolding reorder_problems reorder reorder_transaction managed_series manage_contest
problems_swapped = refl

duplicate_refused :
    reorder_series memory (some olga) 1 (1 ∷ 1 ∷ []) world
    ≡ (err (validation "invalid or duplicate order ID"), world)
unfolding reorder_series reorder reorder_transaction manage_contest
duplicate_refused = refl

reorder_series-Reordered_example :
    Manages memory (some olga) 1 world
    × SeriesReordered memory memory-GormLaws 1 (2 ∷ 1 ∷ []) world swapped
reorder_series-Reordered_example =
    reorder_series-Reordered memory memory-GormLaws (some olga) 1 (2 ∷ 1 ∷ []) world swapped
      series_swapped

reorder_problems-Reordered_example :
    ((x : Series) × Stored memory Table.series 1 x world
      × Manages memory (some olga) x.contest_id world)
    × AssignmentsReordered memory memory-GormLaws 1 (2 ∷ 1 ∷ []) world tasks_swapped
reorder_problems-Reordered_example =
    reorder_problems-Reordered memory memory-GormLaws (some olga) 1 (2 ∷ 1 ∷ []) world tasks_swapped
      problems_swapped

reorder_series-Unchanged_example : Unchanged memory world world
reorder_series-Unchanged_example =
    reorder_series-Unchanged memory memory-GormLaws (some olga) 1 (1 ∷ 1 ∷ [])
      (validation "invalid or duplicate order ID") world world duplicate_refused
