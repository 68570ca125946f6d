-- ===== src/PointLio/MapIncrement.antt =====
-- The points that a scan adds to the map, `map_incremental` of src/Point-LIO-master/src/laserMapping.cpp. The cells
-- of the map and the neighbours that the filter found are parameters; the two calls of the tree are an output,
-- the points that it thins out and those that it takes as they are. `none` is an index out of range.
mod Places
mod Placing
mod Tests
use sentry25navi.Prelude.{
  ℕ, zero, suc, ◌+◌, Bool, true, false, ◌&&◌, ◌||◌, Option, none, some, List, [], ◌∷◌, ◌++◌,
  if◌then◌else◌, get_elem?,
}
use sentry25navi.Livox.Lds.{◌>>=◌}
use sentry25navi.Livox.Messages.{PointXyzi}

pub record Cells (F : Type 0) : Type 0 where
  pub mid : F → F  -- floor(a / size) * size + 0.5 * size
  pub far_off : F → F → Bool  -- further apart than 0.866 * size
  pub close : F → F → Bool  -- less than 0.5 * size apart

pub record Added (F : Type 0) : Type 0 where
  pub point_to_add : List (PointXyzi F)
  pub point_no_need_downsample : List (PointXyzi F)

module _ {F : Type 0} (c : Cells F) where
  abbrev pub outside : PointXyzi F → PointXyzi F → Bool
  outside p q = c.far_off q.x (c.mid p.x) || c.far_off q.y (c.mid p.y) || c.far_off q.z (c.mid p.z)

  abbrev pub in_cell : PointXyzi F → PointXyzi F → Bool
  in_cell p q = c.close q.x (c.mid p.x) && c.close q.y (c.mid p.y) && c.close q.z (c.mid p.z)

  -- The inner loop: whether no neighbour is in the cell of `p`.
  unfoldable pub need_add : PointXyzi F → List (PointXyzi F) → Bool
  need_add p [] = true
  need_add p (q ∷ near) = if in_cell p q then false else need_add p near

  unfoldable pub increment_round : PointXyzi F → List (PointXyzi F) → Added F → Added F
  unfolding need_add
  increment_round p [] s = record s {
    point_no_need_downsample = s.point_no_need_downsample ++ p ∷ [];
  }
  increment_round p (q ∷ near) s =
      if outside p q
      then record s { point_no_need_downsample = s.point_no_need_downsample ++ p ∷ [] }
      else if need_add p (q ∷ near)
      then record s { point_to_add = s.point_to_add ++ p ∷ [] }
      else s

  unfoldable pub increment_loop :
      ℕ → ℕ → List (PointXyzi F) → List (List (PointXyzi F)) → Added F → Option (Added F)
  increment_loop zero i world nearest s = some s
  increment_loop (suc rounds) i world nearest s = do
    near ← get_elem? nearest i
    p ← get_elem? world i
    increment_loop rounds (i + 1) world nearest (increment_round p near s)

  unfoldable pub map_incremental :
      ℕ → List (PointXyzi F) → List (List (PointXyzi F)) → Option (Added F)
  unfolding increment_loop increment_round
  map_incremental feats_down_size world nearest =
      increment_loop feats_down_size 0 world nearest
        (record { point_to_add = []; point_no_need_downsample = [] })
