-- ===== src/PointLio/Preprocess/Tests.antt =====
-- Tests and witnesses of the preprocessing. A float is a natural number, and a time is in microseconds.
use sentry25navi.Prelude.{
  ℕ, ◌+◌, ◌-◌, ◌*◌, ◌/◌, ◌≡◌, refl, false, not, ◌||◌, none, some, Option, List, [], ◌∷◌, map, take,
  drop, ltb, leb, if◌then◌else◌, arith,
}
use sentry25navi.Livox.Ldq.{StoragePacket}
use sentry25navi.Livox.Comm.{PointXyzlt}
use sentry25navi.Livox.Messages.{
  Host, CustomPoint, CustomMsg, PointXyzi, init_custom_msg, point_to_custom,
  fill_points_to_custom_msg,
}
use sentry25navi.Livox.Samples.{device}
use sentry25navi.Perception.Clouds.{Numbers}
use sentry25navi.PointLio.Records.{PointType}
use sentry25navi.PointLio.Scans.{Literals, Preprocess, SpinPoint, avia, us}
use sentry25navi.PointLio.Spin.{
  last_of, layer_after, layer_round, spin_round, spin_loop, velodyne_handler, hesai_handler,
}
use sentry25navi.PointLio.Preprocess.{avia_handler, process_custom}
use sentry25navi.PointLio.Preprocess.Round.{IsOf}
use sentry25navi.Prelude.Picks.{Picks}
use sentry25navi.PointLio.Preprocess.Avia.{avia_handler_lem}
use sentry25navi.PointLio.Preprocess.FromDriver.{process_custom-fill_points_to_custom_msg}
use sentry25navi.PointLio.Preprocess.Spinning.{is_none, rings_fit, velodyne_handler-eq-none}

abbrev naturals : Numbers ℕ
naturals = record {
  zero_f = 0;
  add = λ a b. a + b;
  sub = λ a b. if ltb a b then b - a else a - b;
  mul = λ a b. a * b;
  abs = λ a. a;
  lt = ltb;
}

abbrev literals : Literals ℕ
literals = record {
  resolution = 0;
  one_ms = 1000;
  line_step = 4;
  of_byte = λ b. b;
  offset_ms = λ t. t / 1000;
  of_count = λ t. t;
  scale_of = λ unit. 1;
  yaw_of = λ y x. y;
  le = leb;
  div = λ a b. a / b;
  turn = 360;
  turn_speed = λ rate. rate;
  seconds_to_ms = λ t. t * 1000;
}

abbrev settings : Preprocess ℕ
settings = record {
  lidar_type = avia;
  time_unit = us;
  time_unit_scale = 1;
  point_filter_num = 1;
  n_scans = 4;
  scan_rate = 10;
  blind = 1;
  given_offset_time = false;
  pl_surf = [];
}

abbrev thinning : Preprocess ℕ
thinning = record settings { point_filter_num = 2 }

-- A point at the given place and time in nanoseconds.
abbrev point_at : ℕ → ℕ → CustomPoint ℕ
point_at x t = record { offset_time = t; x = x; y = 5; z = 5; reflectivity = 9; tag = 16; line = 1 }

abbrev message : CustomMsg ℕ
message = record {
  frame_id = [];
  seq = 0;
  stamp = 0;
  timebase = 0;
  point_num = 5;
  lidar_id = 0;
  points =
      point_at 1 0
      ∷ point_at 2 500_000
      ∷ point_at 3 1_000_000
      ∷ point_at 4 1_500_000
      ∷ point_at 5 2_000_000
      ∷ [];
}

abbrev times : List (PointType ℕ (PointXyzi ℕ)) → List ℕ
times q = map (λ (p : PointType ℕ (PointXyzi ℕ)). p.curvature) q

abbrev times_of : Option (Preprocess ℕ) → List ℕ
times_of none = []
times_of (some s) = times s.pl_surf

-- Without thinning each point has its time.
whole_times :
    times_of (avia_handler naturals literals message settings) ≡ 500 ∷ 1000 ∷ 1500 ∷ 2000 ∷ []
unfolding avia_handler
whole_times = refl

-- With thinning the points at 1 and 2 milliseconds have the time of a step.
thinned_times : times_of (avia_handler naturals literals message thinning) ≡ 4 ∷ 4 ∷ []
unfolding avia_handler
thinned_times = refl

avia_handler_lem_example :
    (surf : List (PointType ℕ (PointXyzi ℕ))) × (avia_handler naturals literals message thinning
      ≡ some (record thinning { pl_surf = surf }))
    × Picks (IsOf naturals literals thinning) (take 4 (drop 1 message.points)) surf
avia_handler_lem_example =
    avia_handler_lem naturals literals thinning message (omega arith) (omega arith) (omega arith)

abbrev host : Host ℕ
host = record {
  seconds = λ t. t;
  microseconds = λ t. t;
  to_double = λ t. t;
  to_uint8 = λ f. f;
  inet_ntoa = λ ip. [];
}

abbrev driver_point : ℕ → PointXyzlt ℕ
driver_point t = record { x = t; y = 2; z = 3; intensity = 4; tag = 0; line = 1; offset_time = t }

abbrev driver_packet : StoragePacket (PointXyzlt ℕ)
driver_packet = record {
  lidar_type = 8;
  handle = 77;
  base_time = 1000;
  points_num = 2;
  points = driver_point 1000 ∷ driver_point 2000 ∷ [];
}

process_custom-fill_points_to_custom_msg_example :
    (msg : CustomMsg ℕ) × (surf : List (PointType ℕ (PointXyzi ℕ))) × (fill_points_to_custom_msg
        host
        (init_custom_msg host [] 3 driver_packet device)
        driver_packet
      ≡ some msg)
    × (process_custom naturals literals msg settings ≡ some (record settings { pl_surf = surf }))
    × Picks
        (IsOf naturals literals settings)
        (take 1 (drop 1 (map (point_to_custom host 1000) driver_packet.points)))
        surf
process_custom-fill_points_to_custom_msg_example =
    process_custom-fill_points_to_custom_msg host naturals literals settings [] 3 driver_packet
      device refl (omega arith) (omega arith)

abbrev spin_at : ℕ → SpinPoint ℕ
spin_at ring = record { at = record { x = 1; y = 2; z = 3; intensity = 4 }; time = 0; ring = ring }

-- A layer that the settings do not count, in a scan without times.
ring_outside : velodyne_handler naturals literals (spin_at 1 ∷ spin_at 4 ∷ []) settings ≡ none
unfolding velodyne_handler spin_loop spin_round layer_round layer_after
ring_outside = refl

velodyne_handler-eq-none_example :
    (is_none (velodyne_handler naturals literals (spin_at 1 ∷ spin_at 4 ∷ []) settings)
      ≡ not (
          ltb 0 (last_of (spin_at 1) (spin_at 4 ∷ [])).time
          || rings_fit 4 (spin_at 1 ∷ spin_at 4 ∷ [])))
    × (is_none (hesai_handler naturals literals (spin_at 1 ∷ spin_at 4 ∷ []) settings)
        ≡ not (
            ltb 0 (last_of (spin_at 1) (spin_at 4 ∷ [])).time
            || rings_fit 4 (spin_at 1 ∷ spin_at 4 ∷ [])))
velodyne_handler-eq-none_example =
    velodyne_handler-eq-none naturals literals settings (spin_at 1) (spin_at 4 ∷ []) (omega arith)
