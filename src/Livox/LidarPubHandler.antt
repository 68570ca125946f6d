-- ===== src/Livox/LidarPubHandler.antt =====
-- What the packet handler keeps for each lidar, comm/pub_handler.h and comm/pub_handler.cpp. `none` is a fault,
-- a read past the bytes of a packet or a division by zero.
pub mod Points
use sentry25navi.Prelude.{
  ℕ, zero, suc, ◌+◌, ◌*◌, ◌%◌, Bool, true, false, Option, none, some, List, [], ◌∷◌, ◌++◌, ◌==◌,
  if◌then◌else◌, length,
}
use sentry25navi.Prelude.Int.{ℤ}
use sentry25navi.Prelude.Word.{u32_mod, u64_mod}
use sentry25navi.Livox.RawPoints.{
  CartesianPoint, ExtParameterDetailed, Floats, RawPacket, Sdk, SpherPoint, Vector, cartesian_point,
  rotation_rows, spherical_point, stamped,
}
use sentry25navi.Livox.Comm.{PointXyzlt, livox_lidar_type}
use sentry25navi.Livox.Lds.{◌>>=◌}
use sentry25navi.Livox.LdsLidar.{LidarExtParameter}

pub record LidarPubHandler (F : Type 0) : Type 0 where
  pub points_clouds : List (PointXyzlt F)
  pub extrinsic : ExtParameterDetailed F
  pub is_set_extrinsic_params : Bool

module _ {F : Type 0} where
  unfoldable pub get_lidar_base_time : LidarPubHandler F → ℕ
  get_lidar_base_time h = elim h.points_clouds [ [] ↦ 0 | p ∷ _ ↦ p.offset_time ]

  abbrev pub last_time : List (PointXyzlt F) → ℕ
  last_time [] = 0
  last_time (p ∷ []) = p.offset_time
  last_time (p ∷ q ∷ ps) = last_time (q ∷ ps)

  unfoldable pub get_recent_time_stamp : LidarPubHandler F → ℕ
  get_recent_time_stamp h = last_time h.points_clouds

  unfoldable pub get_lidar_point_clouds_size : LidarPubHandler F → ℕ
  get_lidar_point_clouds_size h = length h.points_clouds % u32_mod

  -- The swap with the caller's vector `points_clouds`, the first result.
  unfoldable pub get_lidar_point_clouds :
      LidarPubHandler F → List (PointXyzlt F) → List (PointXyzlt F) × LidarPubHandler F
  get_lidar_point_clouds h points_clouds =
      (h.points_clouds, record h { points_clouds = points_clouds })

  -- The loop of the three functions: `rounds` rounds are left, from point `i` on, and each appends a point.
  unfoldable pub push_points :
      {R : Type 0}
      → (ℕ → Option R)
      → (ℕ → R → PointXyzlt F)
      → ℕ
      → ℕ
      → ℕ
      → List (PointXyzlt F)
      → Option (List (PointXyzlt F))
  push_points raw convert line_num zero i cloud = some cloud
  push_points raw convert line_num (suc rounds) i cloud =
      (raw i >>= λ r.
      if line_num == 0
      then none
      else push_points raw convert line_num rounds (i + 1) (cloud ++ convert i r ∷ []))

module _ {F : Type 0} (f : Floats F) where
  open f use {of_nat, of_int, round, add_f, mul_f, add, sub, mul, div, neg, sin, cos, pi}

  unfoldable pub new_handler : LidarPubHandler F
  new_handler = record {
    points_clouds = [];
    extrinsic = record {
      trans = record { x = of_nat 0; y = of_nat 0; z = of_nat 0 };
      row_0 = record { x = of_nat 1; y = of_nat 0; z = of_nat 0 };
      row_1 = record { x = of_nat 0; y = of_nat 1; z = of_nat 1 };
      row_2 = record { x = of_nat 0; y = of_nat 0; z = of_nat 1 };
    };
    is_set_extrinsic_params = false;
  }

  abbrev radians : F → F
  radians degrees = div (mul degrees pi) (of_nat 180)

  unfoldable pub set_lidars_ext_param : LidarPubHandler F → LidarExtParameter F → LidarPubHandler F
  unfolding rotation_rows
  set_lidars_ext_param h lidar_param = if h.is_set_extrinsic_params then h else (record h {
    extrinsic =
        rotation_rows f (radians lidar_param.param.roll) (radians lidar_param.param.pitch)
          (radians lidar_param.param.yaw)
          (record {
            x = of_int lidar_param.param.x;
            y = of_int lidar_param.param.y;
            z = of_int lidar_param.param.z;
          });
    is_set_extrinsic_params = true;
  })

  module _ (sdk : Sdk) (h : LidarPubHandler F) (pkt : RawPacket) where
    abbrev with_cloud : Option (List (PointXyzlt F)) → Option (LidarPubHandler F)
    with_cloud none = none
    with_cloud (some cloud) = some (record h { points_clouds = cloud })

    unfoldable pub process_cartesian_high_point : Option (LidarPubHandler F)
    unfolding push_points cartesian_point
    process_cartesian_high_point = with_cloud (
        push_points (sdk.high_at pkt.raw_data) (cartesian_point f h.extrinsic pkt 1000) pkt.line_num
          pkt.point_num 0 h.points_clouds)

    unfoldable pub process_cartesian_low_point : Option (LidarPubHandler F)
    unfolding push_points cartesian_point
    process_cartesian_low_point = with_cloud (
        push_points (sdk.low_at pkt.raw_data) (cartesian_point f h.extrinsic pkt 100) pkt.line_num
          pkt.point_num 0 h.points_clouds)

    unfoldable pub process_spherical_point : Option (LidarPubHandler F)
    unfolding push_points spherical_point
    process_spherical_point = with_cloud (
        push_points (sdk.spherical_at pkt.raw_data) (spherical_point f h.extrinsic pkt) pkt.line_num
          pkt.point_num 0 h.points_clouds)

    -- A packet of another type is only reported.
    unfoldable pub livox_lidar_point_cloud_process : Option (LidarPubHandler F)
    unfolding process_cartesian_high_point process_cartesian_low_point process_spherical_point
    livox_lidar_point_cloud_process =
        if pkt.data_type == sdk.high_data
        then process_cartesian_high_point
        else if pkt.data_type == sdk.low_data
        then process_cartesian_low_point
        else if pkt.data_type == sdk.spherical_data
        then process_spherical_point
        else some h

    unfoldable pub point_cloud_process : Option (LidarPubHandler F)
    unfolding livox_lidar_point_cloud_process
    point_cloud_process =
        if pkt.lidar_type == livox_lidar_type then livox_lidar_point_cloud_process else some h
