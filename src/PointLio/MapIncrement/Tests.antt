-- ===== src/PointLio/MapIncrement/Tests.antt =====
-- A test and a witness of the points that a scan adds to the map.
use sentry25navi.Prelude.{ℕ, ◌+◌, ◌-◌, ◌*◌, ◌/◌, ◌≡◌, refl, some, List, [], ◌∷◌, map, length, ltb}
use sentry25navi.Livox.Messages.{PointXyzi}
use sentry25navi.PointLio.MapIncrement.{
  Cells, need_add, increment_round, increment_loop, map_incremental,
}
use sentry25navi.PointLio.MapIncrement.Places.{Placed}
use sentry25navi.PointLio.MapIncrement.Placing.{map_incremental_lem}

-- Cells of size 10, on whole numbers.
abbrev apart_by : ℕ → ℕ → ℕ
apart_by a b = (a - b) + (b - a)

abbrev cells : Cells ℕ
cells = record {
  mid = λ a. a / 10 * 10 + 5;
  far_off = λ a b. ltb 8 (apart_by a b);
  close = λ a b. ltb (apart_by a b) 5;
}

abbrev on_line : ℕ → PointXyzi ℕ
on_line a = record { x = a; y = 5; z = 5; intensity = 0 }

-- Alone, with a neighbour far off, with one in the next cell only, and with one in the cell.
abbrev pairs : List (PointXyzi ℕ × List (PointXyzi ℕ))
pairs =
    (on_line 1, [])
    ∷ (on_line 2, on_line 25 ∷ [])
    ∷ (on_line 3, on_line 11 ∷ [])
    ∷ (on_line 4, on_line 11 ∷ on_line 6 ∷ [])
    ∷ []

sorted_out :
    map_incremental cells 4 (map (λ x. x.0) pairs) (map (λ x. x.1) pairs)
    ≡ some (record {
      point_to_add = on_line 3 ∷ [];
      point_no_need_downsample = on_line 1 ∷ on_line 2 ∷ [];
    })
unfolding map_incremental increment_loop increment_round need_add
sorted_out = refl

map_incremental_lem_example :
    (thin : List (PointXyzi ℕ)) × (free : List (PointXyzi ℕ)) × (map_incremental cells
        (length pairs)
        (map (λ x. x.0) pairs)
        (map (λ x. x.1) pairs)
      ≡ some (record { point_to_add = thin; point_no_need_downsample = free }))
    × Placed cells pairs thin free
map_incremental_lem_example = map_incremental_lem cells pairs
