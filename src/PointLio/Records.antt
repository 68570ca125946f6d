-- ===== src/PointLio/Records.antt =====
-- The data of the odometry, src/Point-LIO-master: the globals of src/laserMapping.cpp and the measures of
-- include/common_lib.h. `F` is `double` and a time in seconds, `P` what a point holds besides its time and
-- `S` what a sample holds besides its stamp.
use sentry25navi.Prelude.{ℕ, Bool, Option, List}

pub record Seconds (F : Type 0) : Type 0 where
  pub add : F → F → F
  pub sub : F → F → F
  pub lt : F → F → Bool
  pub of_ms : F → F  -- the quotient by 1000
  pub to_ms : F → F  -- the product with 1000
  pub to_float : F → F  -- the value that a `float` keeps of it
  pub of_sec : F → F  -- the time that a stamp made of it gives back

pub record PointType (F : Type 0) (P : Type 0) : Type 0 where
  pub point : P
  pub curvature : F

pub record Imu (F : Type 0) (S : Type 0) : Type 0 where
  pub stamp : F
  pub sample : S

-- A sample is the target of a shared pointer, which can be null.
pub record MeasureGroup (F : Type 0) (P : Type 0) (S : Type 0) : Type 0 where
  pub lidar_beg_time : F
  pub lidar_last_time : F
  pub lidar : List (PointType F P)
  pub imu : List (Option (Imu F S))

pub record Parameters (F : Type 0) : Type 0 where
  pub imu_en : Bool
  pub cut_frame : Bool
  pub con_frame : Bool
  pub con_frame_num : ℕ
  pub cut_frame_time_interval : F
  pub time_lag_imu_to_lidar : F

pub record LaserMapping (F : Type 0) (P : Type 0) (S : Type 0) : Type 0 where
  pub scan_count : ℕ
  pub publish_count : ℕ
  pub frame_ct : ℕ
  pub time_con : F
  pub ptr_con : List (PointType F P)
  pub last_timestamp_lidar : F
  pub last_timestamp_imu : F
  pub lidar_buffer : List (List (PointType F P))
  pub time_buffer : List F
  pub imu_deque : List (Imu F S)
  pub imu_last : Imu F S
  pub imu_next : Imu F S
  pub imu_last_ptr : Option (Imu F S)
  pub lidar_pushed : Bool
  pub lidar_end_time : F
  pub init_map : Bool
  pub imu_need_init : Bool  -- a field of the IMU processing
  pub measures : MeasureGroup F P S

abbrev pub maxn : ℕ
maxn = 720_000
