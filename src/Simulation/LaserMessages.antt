-- ===== src/Simulation/LaserMessages.antt =====
-- What the simulated lidar publishes, src/livox_laser_simulation/src/livox_points_plugin.cpp: the scan of the simulator,
-- and of the messages the cloud, the cloud with times and lines and the message of the driver. The angles as
-- indices, the answers of the simulator for a ray and floating point are parameters. `none` is a fault: an
-- entry of the scan that it does not have, or a time that no 32 bits hold.
mod Visible
mod Tests
use sentry25navi.Prelude.{
  ℕ, zero, suc, ◌+◌, ◌-◌, ◌*◌, ◌^◌, Bool, true, false, not, ◌&&◌, ◌||◌, Option, none, some, List,
  [], ◌∷◌, ◌++◌, ltb, if◌then◌else◌, length, get_elem?, set, replicate,
}
use sentry25navi.Prelude.Int.{ℤ, pos, negsuc}
use sentry25navi.Livox.Lds.{◌>>=◌}
use sentry25navi.Livox.Messages.{CustomPoint}
use sentry25navi.Perception.Clouds.{PointXyz}
use sentry25navi.Simulation.LaserPlugin.{AviaRotateInfo}

-- `row_of` and `column_of` are the rounded quotients of the angles by their steps, `range_of` and `retro_of` the
-- answers for a ray, `is_out` the test of a range against the limits and `range <= 1e-5`,
-- `is_out_abs` the one with `abs(range) <= 1e-5`, and `place` the range times the axis.
pub record Sensor (F : Type 0) : Type 0 where
  pub ray_count : ℕ
  pub vertical_ray_count : ℕ
  pub range_count : ℕ
  pub vertical_range_count : ℕ
  pub row_of : F → ℤ
  pub column_of : F → ℤ
  pub range_of : ℕ → F
  pub retro_of : ℕ → F
  pub is_out : F → Bool
  pub is_out_abs : F → Bool
  pub zero_f : F
  pub place : F → AviaRotateInfo F → PointXyz F

pub record LaserScan (F : Type 0) : Type 0 where
  pub ranges : List F
  pub intensities : List F

-- A point of `LivoxPointXyzrtlt`; `at_ns` is its time after the stamp of the cloud.
pub record PointXyzrtlt (F : Type 0) : Type 0 where
  pub at : PointXyz F
  pub intensity : F
  pub line : ℕ
  pub at_ns : ℕ

-- The message of the simulation, of which the driver's has the points and their number.
pub record SimulatedMsg (F : Type 0) : Type 0 where
  pub point_num : ℕ
  pub points : List (CustomPoint F)

module _ {F : Type 0} (s : Sensor F) where
  -- The entry of the scan for the angles of a row of the table, if they lie in the grid.
  unfoldable pub grid_cell : ℤ → ℤ → Option ℕ
  grid_cell (negsuc r) c = none
  grid_cell (pos r) (negsuc c) = none
  grid_cell (pos r) (pos c) =
      if ltb r s.vertical_ray_count && ltb c s.ray_count
      then some ((s.vertical_ray_count - r - 1) * s.ray_count + c)
      else none

  abbrev pub cell_of : AviaRotateInfo F → Option ℕ
  cell_of info = grid_cell (s.row_of info.zenith) (s.column_of info.azimuth)

  -- The range of a ray, 0 if the test of the publisher finds it out of the limits.
  abbrev pub seen_range : (F → Bool) → ℕ → F
  seen_range out ray = if out (s.range_of ray) then s.zero_f else s.range_of ray

  -- The ranges and intensities set to 0.
  unfoldable pub initialize_scan : LaserScan F
  initialize_scan = record {
    ranges = replicate (s.range_count * s.vertical_range_count) s.zero_f;
    intensities = replicate (s.range_count * s.vertical_range_count) s.zero_f;
  }

  module _ {A : Type 0} (out : F → Bool) (make : ℕ → ℕ → AviaRotateInfo F → Option A) where
    -- The loop of the publishers over the pairs from pair `i` on. `out` is the test of the publisher, and `make`
    -- gives the point, from its number, its ray and its row.
    unfoldable pub publish_loop :
        ℕ → List (ℕ × AviaRotateInfo F) → LaserScan F → List A → Option (LaserScan F × List A)
    publish_loop i [] scan points = some (scan, points)
    publish_loop i ((ray, info) ∷ pairs) scan points = elim (cell_of info) [
      | none ↦ publish_loop (i + 1) pairs scan points
      | some index ↦ elim (ltb index (length scan.ranges)) [
        | false ↦ none
        | true ↦ elim (make i ray info) [
          | none ↦ none
          | some p ↦
              publish_loop (i + 1) pairs
                (record {
                  ranges = set scan.ranges index (seen_range out ray);
                  intensities = set scan.intensities index (s.retro_of ray);
                })
                (points ++ p ∷ [])
        ]
      ]
    ]

  abbrev pub cloud_point : ℕ → ℕ → AviaRotateInfo F → Option (PointXyz F)
  cloud_point i ray info = some (s.place (seen_range s.is_out ray) info)

  abbrev pub timed_point : ℕ → ℕ → AviaRotateInfo F → Option (PointXyzrtlt F)
  timed_point i ray info = some (record {
    at = s.place (seen_range s.is_out_abs ray) info;
    intensity = s.retro_of ray;
    line = info.line;
    at_ns = 5000 * i;
  })

  -- The time is 1e9/200000 for each point before it.
  abbrev pub custom_of : ℕ → ℕ → AviaRotateInfo F → CustomPoint F
  custom_of i ray info =
      let p = s.place (seen_range s.is_out_abs ray) info in
      record {
        offset_time = 5000 * i;
        x = p.x;
        y = p.y;
        z = p.z;
        reflectivity = 100;
        tag = 0x10;
        line = info.line;
      }

  abbrev pub custom_point : ℕ → ℕ → AviaRotateInfo F → Option (CustomPoint F)
  custom_point i ray info = if ltb (5000 * i) (2 ^ 32) then some (custom_of i ray info) else none

  unfoldable pub publish_point_cloud :
      List (ℕ × AviaRotateInfo F) → Option (LaserScan F × List (PointXyz F))
  unfolding publish_loop initialize_scan
  publish_point_cloud pairs = publish_loop s.is_out cloud_point 0 pairs initialize_scan []

  unfoldable pub publish_point_cloud2_xyzrtlt :
      List (ℕ × AviaRotateInfo F) → Option (LaserScan F × List (PointXyzrtlt F))
  unfolding publish_loop initialize_scan
  publish_point_cloud2_xyzrtlt pairs =
      publish_loop s.is_out_abs timed_point 0 pairs initialize_scan []

  unfoldable pub publish_livox_ros_driver_custom_msg :
      List (ℕ × AviaRotateInfo F) → Option (LaserScan F × SimulatedMsg F)
  unfolding publish_loop initialize_scan
  publish_livox_ros_driver_custom_msg pairs =
      publish_loop s.is_out_abs custom_point 0 pairs initialize_scan [] >>= λ r.
      some (r.0, record { point_num = length r.1; points = r.1 })
