-- ===== src/Simulation/LaserMessages/Tests.antt =====
-- Tests and a witness of the publishers of the simulated lidar.
use sentry25navi.Prelude.{
  ℕ, ◌+◌, ◌≡◌, refl, Option, none, some, List, [], ◌∷◌, length, ltb, if◌then◌else◌, arith,
}
use sentry25navi.Prelude.Int.{ℤ, pos, negsuc}
use sentry25navi.Simulation.LaserPlugin.{AviaRotateInfo}
use sentry25navi.Simulation.LaserMessages.{
  Sensor, LaserScan, grid_cell, cloud_point, timed_point, custom_point, publish_point_cloud,
  publish_point_cloud2_xyzrtlt, publish_livox_ros_driver_custom_msg,
}
use sentry25navi.Simulation.LaserMessages.Visible.{visible, publish_livox_ros_driver_custom_msg_lem}

abbrev if_low : ℕ → ℤ
if_low zenith = if ltb zenith 9 then pos zenith else negsuc 0

-- A grid of two rows of three columns; the angles are their indices, and a zenith of 9 is below the first row.
abbrev sensor : Sensor ℕ
sensor = record {
  ray_count = 3;
  vertical_ray_count = 2;
  range_count = 3;
  vertical_range_count = 2;
  row_of = λ zenith. if_low zenith;
  column_of = λ azimuth. pos azimuth;
  range_of = λ ray. ray + 7;
  retro_of = λ ray. 1;
  is_out = λ range. ltb 8 range;
  is_out_abs = λ range. ltb 8 range;
  zero_f = 0;
  place = λ range info. record { x = range; y = info.azimuth; z = info.zenith };
}

abbrev row_at : ℕ → ℕ → AviaRotateInfo ℕ
row_at zenith azimuth = record { time = 0; azimuth = azimuth; zenith = zenith; line = 2 }

abbrev pairs : List (ℕ × AviaRotateInfo ℕ)
pairs = (0, row_at 0 1) ∷ (1, row_at 9 1) ∷ (2, row_at 1 2) ∷ []

abbrev ranges_of {ℓ} : {A : Type ℓ} → Option (LaserScan ℕ × A) → List ℕ
ranges_of none = []
ranges_of (some r) = (r.0).ranges

-- The pair below the grid is left out, and a range out of the limits is 0.
grid_filled : ranges_of (publish_point_cloud sensor pairs) ≡ 0 ∷ 0 ∷ 0 ∷ 0 ∷ 7 ∷ 0 ∷ []
unfolding publish_point_cloud grid_cell
grid_filled = refl

publish_livox_ros_driver_custom_msg_lem_example :
    ((scan : LaserScan ℕ) × (publish_point_cloud sensor pairs
        ≡ some (scan, visible sensor (cloud_point sensor) 0 pairs)))
    × ((scan : LaserScan ℕ) × (publish_point_cloud2_xyzrtlt sensor pairs
          ≡ some (scan, visible sensor (timed_point sensor) 0 pairs)))
    × ((scan : LaserScan ℕ) × (publish_livox_ros_driver_custom_msg sensor pairs
          ≡ some (
            scan,
            record {
              point_num = length (visible sensor (custom_point sensor) 0 pairs);
              points = visible sensor (custom_point sensor) 0 pairs;
            },
          )))
publish_livox_ros_driver_custom_msg_lem_example =
    publish_livox_ros_driver_custom_msg_lem sensor pairs
      (record { columns = omega arith; rows = omega arith }) (omega arith)
