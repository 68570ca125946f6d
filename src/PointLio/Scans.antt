-- ===== src/PointLio/Scans.antt =====
-- The data of the preprocessing, src/Point-LIO-master/src/preprocess.h: the settings, the points of the kinds of
-- lidar, and as parameters the literals and what `pcl::fromROSMsg` makes of a message.
use sentry25navi.Prelude.{ℕ, Bool, List}
use sentry25navi.Livox.Messages.{PointXyzi}
use sentry25navi.Perception.Clouds.{Numbers}
use sentry25navi.PointLio.Records.{PointType}

pub data LidType : Type 0 where
  avia : LidType
  velo16 : LidType
  oust64 : LidType
  hesai_xt32 : LidType
  other_type : LidType

pub data TimeUnit : Type 0 where
  sec : TimeUnit
  ms : TimeUnit
  us : TimeUnit
  ns : TimeUnit
  other_unit : TimeUnit

-- The literals, and the functions besides those of `Numbers`.
pub record Literals (F : Type 0) : Type 0 where
  pub resolution : F  -- 1e-7
  pub one_ms : F  -- 1.0
  pub line_step : F  -- 0.004166667f
  pub of_byte : ℕ → F
  pub offset_ms : ℕ → F  -- the quotient by 1000000 as a float
  pub of_count : ℕ → F
  pub scale_of : TimeUnit → F  -- 1.e3f, 1.f, 1.e-3f, 1.e-6f and 1.f
  pub yaw_of : F → F → F  -- atan2 times 57.2957
  pub le : F → F → Bool
  pub div : F → F → F
  pub turn : F  -- 360.0
  pub turn_speed : ℕ → F  -- 0.361 times the scan rate
  pub seconds_to_ms : F → F  -- the product with 1000.f

-- A point of a velodyne or hesai lidar; `time` is the field `time` or `timestamp`.
pub record SpinPoint (F : Type 0) : Type 0 where
  pub at : PointXyzi F
  pub time : F
  pub ring : ℕ

pub record OusterPoint (F : Type 0) : Type 0 where
  pub at : PointXyzi F
  pub t : ℕ

-- What `pcl::fromROSMsg` makes of a message for each type of point.
pub record Decoded (F : Type 0) : Type 0 where
  pub ouster : List (OusterPoint F)
  pub velodyne : List (SpinPoint F)
  pub hesai : List (SpinPoint F)

pub record Preprocess (F : Type 0) : Type 0 where
  pub lidar_type : LidType
  pub time_unit : TimeUnit
  pub time_unit_scale : F
  pub point_filter_num : ℕ
  pub n_scans : ℕ
  pub scan_rate : ℕ
  pub blind : F
  pub given_offset_time : Bool
  pub pl_surf : List (PointType F (PointXyzi F))

-- What is kept of each layer while a scan is read. Each list has an entry for each layer.
pub record Layers (F : Type 0) : Type 0 where
  pub is_first : List Bool
  pub yaw_fp : List F
  pub yaw_last : List F
  pub time_last : List F

module _ {F : Type 0} (n : Numbers F) where
  open n use {add, mul, lt}

  unfoldable pub square_norm : PointXyzi F → F
  square_norm p = add (add (mul p.x p.x) (mul p.y p.y)) (mul p.z p.z)

  abbrev pub is_far : F → PointXyzi F → Bool
  is_far blind p = lt (mul blind blind) (square_norm p)
