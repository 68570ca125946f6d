-- ===== src/Livox/Messages.antt =====
-- The messages that the publisher makes of packets and samples, lddc.cpp, in the ROS 1 build.
use sentry25navi.Prelude.{
  ℕ, zero, suc, ◌+◌, ◌*◌, ◌%◌, ◌^◌, Bool, true, false, Option, some, List, [], ◌∷◌, ◌++◌, ◌==◌,
  if◌then◌else◌, get_elem?,
}
use sentry25navi.Prelude.Word.{◌-u64◌}
use sentry25navi.Livox.Ldq.{StoragePacket}
use sentry25navi.Livox.Comm.{PointXyzlt, ImuData, LidarDevice, livox_lidar_type}
use sentry25navi.Livox.Lds.{◌>>=◌}

-- What the code asks of the host: conversions of numbers, and `inet_ntoa`.
pub record Host (F : Type 0) : Type 0 where
  -- `t / 1000000000.0`, the argument of `ros::Time`
  pub seconds : ℕ → F
  -- `t / 1000.0` in the header of a PCL cloud
  pub microseconds : ℕ → ℕ
  pub to_double : ℕ → F
  -- a float in a `uint8` field
  pub to_uint8 : F → ℕ
  pub inet_ntoa : ℕ → List ℕ

pub record LivoxPointXyzrtlt (F : Type 0) : Type 0 where
  pub x : F
  pub y : F
  pub z : F
  pub reflectivity : F
  pub tag : ℕ
  pub line : ℕ
  pub timestamp : F

-- `sizeof` of the packed struct above.
abbrev pub point_step : ℕ
point_step = 26

pub data FieldType : Type 0 where
  float32 uint8 float64 : FieldType

pub record PointField : Type 0 where
  pub name : List ℕ
  pub offset : ℕ
  pub datatype : FieldType
  pub count : ℕ

-- `points` is what the bytes of `data` hold: `width` points of `point_step` bytes.
pub record PointCloud2 (F : Type 0) : Type 0 where
  pub frame_id : List ℕ
  pub stamp : F
  pub height : ℕ
  pub width : ℕ
  pub fields : List PointField
  pub is_bigendian : Bool
  pub point_step : ℕ
  pub row_step : ℕ
  pub points : List (LivoxPointXyzrtlt F)
  pub is_dense : Bool

pub record CustomPoint (F : Type 0) : Type 0 where
  pub offset_time : ℕ
  pub x : F
  pub y : F
  pub z : F
  pub reflectivity : ℕ
  pub tag : ℕ
  pub line : ℕ

pub record CustomMsg (F : Type 0) : Type 0 where
  pub frame_id : List ℕ
  pub seq : ℕ
  pub stamp : F
  pub timebase : ℕ
  pub point_num : ℕ
  pub lidar_id : ℕ
  pub points : List (CustomPoint F)

pub record PointXyzi (F : Type 0) : Type 0 where
  pub x : F
  pub y : F
  pub z : F
  pub intensity : F

pub record PointCloud (F : Type 0) : Type 0 where
  pub frame_id : List ℕ
  pub stamp : ℕ
  pub height : ℕ
  pub width : ℕ
  pub points : List (PointXyzi F)

pub record ImuMsg (F : Type 0) : Type 0 where
  pub frame_id : List ℕ
  pub stamp : F
  pub angular_velocity_x : F
  pub angular_velocity_y : F
  pub angular_velocity_z : F
  pub linear_acceleration_x : F
  pub linear_acceleration_y : F
  pub linear_acceleration_z : F

-- A loop that reads `points[i]` and pushes what `f` makes of it: `rounds` rounds are left, from `i` on.
unfoldable pub points_loop : {A B : Type 0} → (A → B) → ℕ → ℕ → List A → Option (List B)
points_loop f zero i points = some []
points_loop f (suc rounds) i points = do
  p ← get_elem? points i
  rest ← points_loop f rounds (i + 1) points
  some (f p ∷ rest)

abbrev pub is_nil {ℓ} : {A : Type ℓ} → List A → Bool
is_nil [] = true
is_nil (x ∷ xs) = false

module _ {F : Type 0} where
  -- The time of a packet, 0 for one without points.
  abbrev pub timestamp : StoragePacket (PointXyzlt F) → ℕ
  timestamp pkg = if is_nil pkg.points then 0 else pkg.base_time

-- The layout of one point.
abbrev pub cloud_fields : List PointField
cloud_fields =
    record { name = b'x' ∷ []; offset = 0; datatype = float32; count = 1 }
    ∷ record { name = b'y' ∷ []; offset = 4; datatype = float32; count = 1 }
    ∷ record { name = b'z' ∷ []; offset = 8; datatype = float32; count = 1 }
    ∷ record {
      name = b'i' ∷ b'n' ∷ b't' ∷ b'e' ∷ b'n' ∷ b's' ∷ b'i' ∷ b't' ∷ b'y' ∷ [];
      offset = 12;
      datatype = float32;
      count = 1;
    }
    ∷ record { name = b't' ∷ b'a' ∷ b'g' ∷ []; offset = 16; datatype = uint8; count = 1 }
    ∷ record { name = b'l' ∷ b'i' ∷ b'n' ∷ b'e' ∷ []; offset = 17; datatype = uint8; count = 1 }
    ∷ record {
      name = b't' ∷ b'i' ∷ b'm' ∷ b'e' ∷ b's' ∷ b't' ∷ b'a' ∷ b'm' ∷ b'p' ∷ [];
      offset = 18;
      datatype = float64;
      count = 1;
    }
    ∷ []

-- "livox_frame"
abbrev pub imu_frame : List ℕ
imu_frame = b'l' ∷ b'i' ∷ b'v' ∷ b'o' ∷ b'x' ∷ b'_' ∷ b'f' ∷ b'r' ∷ b'a' ∷ b'm' ∷ b'e' ∷ []

module _ {F : Type 0} (host : Host F) where
  abbrev pub point_to_cloud2 : PointXyzlt F → LivoxPointXyzrtlt F
  point_to_cloud2 p = record {
    x = p.x;
    y = p.y;
    z = p.z;
    reflectivity = p.intensity;
    tag = p.tag;
    line = p.line;
    timestamp = host.to_double p.offset_time;
  }

  -- The cloud with the points that are copied into it.
  abbrev pub cloud_with :
      List ℕ → StoragePacket (PointXyzlt F) → List (LivoxPointXyzrtlt F) → PointCloud2 F
  cloud_with frame_id pkg points = record {
    frame_id = frame_id;
    stamp = host.seconds (timestamp pkg);
    height = 1;
    width = pkg.points_num;
    fields = cloud_fields;
    is_bigendian = false;
    point_step = point_step;
    row_step = pkg.points_num * point_step % 2 ^ 32;
    points = points;
    is_dense = true;
  }

  unfoldable pub init_pointcloud2_msg :
      List ℕ → StoragePacket (PointXyzlt F) → Option (PointCloud2 F)
  unfolding points_loop
  init_pointcloud2_msg frame_id pkg =
      points_loop point_to_cloud2 pkg.points_num 0 pkg.points >>= λ points.
      some (cloud_with frame_id pkg points)

  -- `msg_seq` is the counter that the function keeps.
  unfoldable pub init_custom_msg :
      List ℕ → ℕ → StoragePacket (PointXyzlt F) → LidarDevice F → CustomMsg F
  init_custom_msg frame_id msg_seq pkg lidar = record {
    frame_id = frame_id;
    seq = msg_seq;
    stamp = host.seconds (timestamp pkg);
    timebase = timestamp pkg;
    point_num = pkg.points_num;
    lidar_id = if lidar.lidar_type == livox_lidar_type then lidar.handle else 0;
    points = [];
  }

  abbrev pub point_to_custom : ℕ → PointXyzlt F → CustomPoint F
  point_to_custom base_time p = record {
    offset_time = (p.offset_time -u64 base_time) % 2 ^ 32;
    x = p.x;
    y = p.y;
    z = p.z;
    reflectivity = host.to_uint8 p.intensity;
    tag = p.tag;
    line = p.line;
  }

  unfoldable pub fill_points_to_custom_msg :
      CustomMsg F → StoragePacket (PointXyzlt F) → Option (CustomMsg F)
  unfolding points_loop
  fill_points_to_custom_msg livox_msg pkg =
      points_loop (point_to_custom pkg.base_time) pkg.points_num 0 pkg.points >>= λ ps.
      some (record livox_msg { points = livox_msg.points ++ ps })

  unfoldable pub init_pcl_msg : List ℕ → StoragePacket (PointXyzlt F) → PointCloud F
  init_pcl_msg frame_id pkg = record {
    frame_id = frame_id;
    stamp = host.microseconds (timestamp pkg);
    height = 1;
    width = pkg.points_num;
    points = [];
  }

  abbrev pub point_to_pcl : PointXyzlt F → PointXyzi F
  point_to_pcl p = record { x = p.x; y = p.y; z = p.z; intensity = p.intensity }

  unfoldable pub fill_points_to_pcl_msg :
      StoragePacket (PointXyzlt F) → PointCloud F → Option (PointCloud F)
  unfolding points_loop
  fill_points_to_pcl_msg pkg pcl_msg =
      if is_nil pkg.points
      then some pcl_msg
      else (points_loop point_to_pcl pkg.points_num 0 pkg.points >>= λ ps.
          some (record pcl_msg { points = pcl_msg.points ++ ps }))

  unfoldable pub init_imu_msg : ImuData F → ImuMsg F
  init_imu_msg imu_data = record {
    frame_id = imu_frame;
    stamp = host.seconds imu_data.time_stamp;
    angular_velocity_x = imu_data.gyro_x;
    angular_velocity_y = imu_data.gyro_y;
    angular_velocity_z = imu_data.gyro_z;
    linear_acceleration_x = imu_data.acc_x;
    linear_acceleration_y = imu_data.acc_y;
    linear_acceleration_z = imu_data.acc_z;
  }
