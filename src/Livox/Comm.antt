-- ===== src/Livox/Comm.antt =====
-- The shared types and functions of the driver, comm/comm.h and comm/comm.cpp. A float is an element of
-- the parameter `F`. A `volatile` or mutex-guarded
-- member is a plain field: a call here is one critical section.
pub mod Names
mod Tests
use sentry25navi.Prelude.{
  ℕ, zero, suc, ◌+◌, ◌-◌, ◌%◌, Bool, true, false, ◌&&◌, Option, none, some, List, [], ◌∷◌, ◌++◌,
  ltb, length, if◌then◌else◌,
}
use sentry25navi.Prelude.Int.{ℤ}
use sentry25navi.Livox.Ldq.{LidarDataQueue}
use sentry25navi.Prelude.Word.{◌+u32◌}

abbrev pub max_source_lidar : ℕ
max_source_lidar = 32

-- `kLivoxLidarType`; `lidar_type` holds one of the bits of `LidarProtoType`.
abbrev pub livox_lidar_type : ℕ
livox_lidar_type = 8

pub data LidarConnectState : Type 0 where
  off on config sampling : LidarConnectState

-- `LivoxLidarConfigCodeBit`
abbrev pub config_data_type : ℕ
config_data_type = 1

abbrev pub config_scan_pattern : ℕ
config_scan_pattern = 2

abbrev pub config_blind_spot : ℕ
config_blind_spot = 4

abbrev pub config_dual_emit : ℕ
config_dual_emit = 8

pub record PointXyzlt (F : Type 0) : Type 0 where
  pub x : F
  pub y : F
  pub z : F
  pub intensity : F
  pub tag : ℕ
  pub line : ℕ
  pub offset_time : ℕ

pub record ImuData (F : Type 0) : Type 0 where
  pub lidar_type : ℕ
  pub handle : ℕ
  pub time_stamp : ℕ
  pub gyro_x : F
  pub gyro_y : F
  pub gyro_z : F
  pub acc_x : F
  pub acc_y : F
  pub acc_z : F

pub record ExtParameter (F : Type 0) : Type 0 where
  pub roll : F
  pub pitch : F
  pub yaw : F
  pub x : ℤ
  pub y : ℤ
  pub z : ℤ

pub record UserLivoxLidarConfig (F : Type 0) : Type 0 where
  pub handle : ℕ
  pub pcl_data_type : ℤ
  pub pattern_mode : ℤ
  pub blind_spot_set : ℤ
  pub dual_emit_en : ℤ
  pub extrinsic_param : ExtParameter F
  pub set_bits : ℕ
  pub get_bits : ℕ

pub record LidarDevice (F : Type 0) : Type 0 where
  pub lidar_type : ℕ
  pub handle : ℕ
  pub data_src : ℕ
  pub connect_state : LidarConnectState
  pub queue : LidarDataQueue (PointXyzlt F)
  pub imu_data : List (ImuData F)
  pub firmware_ver : ℕ
  pub livox_config : UserLivoxLidarConfig F

-- The path's length lies strictly between 4 and 256.
unfoldable pub is_file_path_valid : List ℕ → Bool
is_file_path_valid path_str = ltb 4 (length path_str) && ltb (length path_str) 256

-- What the driver asks of a `double` frequency: `publish_freq > 10.0` and its conversion to `uint32_t`.
pub record Frequency (F : Type 0) : Type 0 where
  pub above_10 : F → Bool
  pub truncate : F → ℕ

unfoldable pub calculate_packet_queue_size : {F : Type 0} → Frequency F → F → ℕ
calculate_packet_queue_size n publish_freq =
    if n.above_10 publish_freq then n.truncate publish_freq +u32 1 else 10
