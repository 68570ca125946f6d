-- ===== src/PointLio/LocalMap/Tests.antt =====
-- Tests and a witness of the cube of the map.
use sentry25navi.Prelude.{
  ℕ, ◌+◌, ◌-◌, ◌*◌, ◌/◌, ◌≡◌, refl, true, List, [], leb, if◌then◌else◌, length, arith,
}
use sentry25navi.PointLio.LocalMap.{
  Axis, axis_x, axis_y, axis_z, Lengths, MapParameters, BoxPointType, LocalMap, move_round,
  lasermap_fov_segment,
}
use sentry25navi.PointLio.LocalMap.Boxes.{IsOrdered}
use sentry25navi.PointLio.LocalMap.Deleting.{Deletes, lasermap_fov_segment_lem}

-- Whole numbers from 0 on; the literals 0.5 and 0.9 are left out.
abbrev lengths : Lengths ℕ
lengths = record {
  add = λ a b. a + b;
  sub = λ a b. a - b;
  mul = λ a b. a * b;
  div = λ a b. a / b;
  abs = λ a. a;
  le = λ a b. leb a b;
  max = λ a b. if leb a b then b else a;
  one = 1;
  two = 2;
  half = 1;
  nine_tenths = 1;
}

abbrev parameters : MapParameters ℕ
parameters = record { cube_len = 100; det_range = 10; mov_threshold = 2 }

abbrev at : ℕ → ℕ → ℕ → Axis → ℕ
at x y z axis_x = x
at x y z axis_y = y
at x y z axis_z = z

abbrev placed_map : LocalMap ℕ
placed_map = record {
  local_map_points = record { vertex_min = at 100 100 100; vertex_max = at 200 200 200 };
  localmap_initialized = true;
  cub_needrm = [];
}

abbrev corner : LocalMap ℕ × List (BoxPointType ℕ) → ℕ × ℕ × ℕ
corner r =
    ((r.0).local_map_points.vertex_min axis_x, (r.0).local_map_points.vertex_min axis_y, length r.1)

-- Near the low side of x the cube moves by 60 along x alone.
moved_low :
    corner (lasermap_fov_segment lengths parameters (at 115 300 300) placed_map) ≡ (40, 100, 1)
unfolding lasermap_fov_segment move_round
moved_low = refl

lengths-IsOrdered : IsOrdered lengths 60
lengths-IsOrdered = record {
  total = λ a b h. ground arith;
  trans = λ a b c h h'. ground arith;
  sub_le = λ a. ground arith;
  le_add = λ a. ground arith;
}

lasermap_fov_segment_lem_example :
    (cubes : List (BoxPointType ℕ)) × Deletes lengths parameters placed_map
      (lasermap_fov_segment lengths parameters (at 115 300 300) placed_map)
      cubes
lasermap_fov_segment_lem_example =
    lasermap_fov_segment_lem lengths parameters lengths-IsOrdered (at 115 300 300) placed_map refl
