-- ===== src/PointLio/LaserMapping/Tests.antt =====
-- Tests and witnesses of the buffers of laserMapping.cpp. Times are whole milliseconds.
use sentry25navi.Prelude.{
  ℕ, ◌+◌, ◌-◌, ◌≡◌, refl, true, false, Option, none, some, List, [], ◌∷◌, ltb, arith,
}
use sentry25navi.PointLio.LaserMapping.{
  cut_loop, push_imu, standard_pcl_cbk, livox_pcl_cbk, imu_cbk, sync_packages,
}
use sentry25navi.PointLio.Records.{Seconds, PointType, Imu, Parameters, LaserMapping}
use sentry25navi.PointLio.LaserMapping.Buffers.{filled, Holds}
use sentry25navi.PointLio.LaserMapping.Cutting.{joined, cut_loop_lem}
use sentry25navi.PointLio.LaserMapping.Samples.{IsOrder, Splits, push_imu_lem}
use sentry25navi.PointLio.LaserMapping.Flow.{Event, Flows, arrivals, run, run_lem}

abbrev clock : Seconds ℕ
clock = record {
  add = λ a b. a + b;
  sub = λ a b. a - b;
  lt = ltb;
  of_ms = λ a. a;
  to_ms = λ a. a;
  to_float = λ a. a;
  of_sec = λ a. a;
}

abbrev settings : Parameters ℕ
settings = record {
  imu_en = true;
  cut_frame = false;
  con_frame = false;
  con_frame_num = 1;
  cut_frame_time_interval = 30;
  time_lag_imu_to_lidar = 0;
}

abbrev gathering : Parameters ℕ
gathering = record settings { con_frame = true }

abbrev point_at : ℕ → PointType ℕ ℕ
point_at t = record { point = t; curvature = t }

abbrev sample_at : ℕ → Imu ℕ ℕ
sample_at t = record { stamp = t; sample = t }

abbrev as_is : List (PointType ℕ ℕ) → List (PointType ℕ ℕ)
as_is points = points

abbrev at_start : LaserMapping ℕ ℕ ℕ
at_start = record {
  scan_count = 0;
  publish_count = 0;
  frame_ct = 0;
  time_con = 0;
  ptr_con = [];
  last_timestamp_lidar = 0;
  last_timestamp_imu = 0;
  lidar_buffer = [];
  time_buffer = [];
  imu_deque = [];
  imu_last = sample_at 0;
  imu_next = sample_at 0;
  imu_last_ptr = none;
  lidar_pushed = false;
  lidar_end_time = 0;
  init_map = false;
  imu_need_init = true;
  measures = record { lidar_beg_time = 0; lidar_last_time = 0; lidar = []; imu = [] };
}

-- Two scans, the first without a point, and samples up to the end of the second.
abbrev events : List (Event ℕ ℕ ℕ)
events =
    Event.standard_scan 100 []
    ∷ Event.imu_arrives (sample_at 100)
    ∷ Event.livox_scan 200 (point_at 0 ∷ point_at 50 ∷ [])
    ∷ Event.livox_scan 150 (point_at 0 ∷ [])
    ∷ Event.synced
    ∷ Event.imu_arrives (sample_at 240)
    ∷ Event.synced
    ∷ Event.imu_arrives (sample_at 260)
    ∷ Event.synced
    ∷ []

abbrev outs {ℓ κ} : {A : Type ℓ} {B : Type κ} → Option (A × B) → Option A
outs none = none
outs (some r) = some r.0

one_handed_on :
    outs (run clock settings as_is events at_start)
    ≡ some ((200, point_at 0 ∷ point_at 50 ∷ []) ∷ [])
unfolding standard_pcl_cbk livox_pcl_cbk imu_cbk sync_packages
one_handed_on = refl

abbrev gathered_two : List (Event ℕ ℕ ℕ)
gathered_two =
    Event.standard_scan 100 (point_at 0 ∷ [])
    ∷ Event.imu_arrives (sample_at 300)
    ∷ Event.standard_scan 200 (point_at 0 ∷ [])
    ∷ Event.synced
    ∷ []

-- Of two scans that are gathered one by one, the second is lost.
second_lost :
    outs (run clock gathering as_is gathered_two at_start) ≡ some ((100, point_at 0 ∷ []) ∷ [])
unfolding standard_pcl_cbk imu_cbk sync_packages
second_lost = refl

at_start-Holds : Holds settings at_start []
at_start-Holds = record { scans = refl; times = refl; pushed = λ e. ground arith }

run_lem_example :
    (out : List (ℕ × List (PointType ℕ ℕ))) × (s' : LaserMapping ℕ ℕ ℕ) × (q' : List
      (ℕ × List (PointType ℕ ℕ)))
    × Flows clock settings as_is at_start []
        (arrivals clock settings as_is 0 events)
        (run clock settings as_is events at_start)
        out
        s'
        q'
run_lem_example = run_lem clock settings as_is events at_start [] at_start-Holds refl (omega arith)

cut_loop_lem_example :
    (joined (cut_loop clock 30 200 200 [] (point_at 0 ∷ point_at 40 ∷ point_at 60 ∷ []))
      ≡ point_at 0 ∷ point_at 40 ∷ point_at 60 ∷ [])
    × (filled (cut_loop clock 30 200 200 [] (point_at 0 ∷ point_at 40 ∷ point_at 60 ∷ []))
        ≡ cut_loop clock 30 200 200 [] (point_at 0 ∷ point_at 40 ∷ point_at 60 ∷ []))
cut_loop_lem_example =
    cut_loop_lem clock 30 200 200 [] (point_at 0 ∷ point_at 40 ∷ point_at 60 ∷ [])

clock-IsOrder : IsOrder clock
clock-IsOrder = record { asym = λ a b h. ground arith; trans = λ a b c h g. ground arith }

abbrev with_samples : LaserMapping ℕ ℕ ℕ
with_samples = record at_start {
  imu_deque = sample_at 210 ∷ sample_at 240 ∷ sample_at 260 ∷ [];
  lidar_end_time = 250;
}

push_imu_lem_example :
    (ts : List (Imu ℕ ℕ)) × Splits clock with_samples
      (push_imu clock (sample_at 210) with_samples)
      ts
push_imu_lem_example =
    push_imu_lem clock with_samples (sample_at 210) (sample_at 240 ∷ sample_at 260 ∷ [])
      clock-IsOrder refl refl (refl, (refl, (refl, tt)))
