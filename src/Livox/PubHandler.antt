-- ===== src/Livox/PubHandler.antt =====
-- The packet handler, comm/pub_handler.h and comm/pub_handler.cpp: packets go into a queue, the thread takes
-- them out one by one and adds their points to those of their lidar, and a timer hands the points on as a
-- frame. A frame holds the points themselves, where the code's points to the vectors of `points_`: the
-- callback is called before these change. What is handed to the callbacks is the result of a call. The time
-- of the clock, in nanoseconds, is an argument. `none` is a fault, as in `LidarPubHandler`.
pub mod Maps
pub mod Stamp
pub mod CheckTimer
pub mod Thread
pub mod Frames
pub mod Timer
pub mod SyncTimer
pub mod Flow
pub mod Arrival
pub mod Loop
pub mod Delivery
mod Tests
use sentry25navi.Prelude.{
  ℕ, zero, suc, ◌+◌, ◌*◌, ◌/◌, ◌%◌, Bool, true, false, not, ◌&&◌, ◌||◌, Option, none, some, List,
  [], ◌∷◌, ◌++◌, map, ◌==◌, ltb, if◌then◌else◌, length, set, take,
}
use sentry25navi.Prelude.Word.{u32_mod, ◌+u32◌, ◌-u32◌, ◌-u64◌}
use sentry25navi.Livox.Comm.{PointXyzlt, ImuData, livox_lidar_type, max_source_lidar}
use sentry25navi.Livox.Ldq.{PointPacket}
use sentry25navi.Livox.Lds.{◌>>=◌, PointFrame}
use sentry25navi.Livox.LdsLidar.{LidarExtParameter}
use sentry25navi.Livox.LidarPubHandler.{
  LidarPubHandler, new_handler, get_lidar_base_time, get_recent_time_stamp, get_lidar_point_clouds,
  set_lidars_ext_param, point_cloud_process,
}
use sentry25navi.Livox.RawPoints.{Floats, Sdk, RawPacket}
use sentry25navi.Livox.PubHandler.Maps.{find, insert}
use sentry25navi.Livox.PubHandler.Stamp.{get_eth_packet_timestamp}

-- `LivoxLidarEthernetPacket`: what the code reads of it. `payload` is the memory from `data` on.
pub record EthernetPacket : Type 0 where
  pub time_type : ℕ
  pub data_type : ℕ
  pub dot_num : ℕ
  pub time_interval : ℕ
  pub length : ℕ
  pub timestamp : List ℕ
  pub payload : List ℕ

-- `RawImuPoint`
pub record RawImuPoint (F : Type 0) : Type 0 where
  pub gyro_x : F
  pub gyro_y : F
  pub gyro_z : F
  pub acc_x : F
  pub acc_y : F
  pub acc_z : F

-- The SDK's codes of its devices and data, the size of `LivoxLidarEthernetPacket`, and how a sample is read.
pub record Protocol (F : Type 0) : Type 0 where
  pub imu_data : ℕ
  pub industrial_hap : ℕ
  pub mid_360 : ℕ
  pub header_size : ℕ
  pub imu_of : List ℕ → Option (RawImuPoint F)

pub record PubHandler (F : Type 0) : Type 0 where
  pub lidar_listen_id : ℕ
  pub is_quit : Bool
  pub thread_started : Bool
  pub points_callback : Bool
  pub imu_callback : Bool
  pub frame : PointFrame F
  pub raw_packet_queue : List RawPacket
  pub publish_interval : ℕ
  pub publish_interval_tolerance : ℕ
  pub publish_interval_ms : ℕ
  pub first : Bool
  pub last_pub_time : ℕ
  pub handlers : List (ℕ × LidarPubHandler F)
  pub points : List (ℕ × List (PointXyzlt F))
  pub lidar_extrinsics : List (ℕ × LidarExtParameter F)
  pub is_timestamp_sync : Bool

abbrev pub ns_per_second : ℕ
ns_per_second = 1_000_000_000

-- `kNsTolerantFrameTimeDeviation` and `kRatioOfMsToNs`
abbrev pub ns_per_ms : ℕ
ns_per_ms = 1_000_000

-- `id` keeps its initial 0 for another type.
unfoldable pub get_lidar_id : ℕ → ℕ → ℕ
get_lidar_id lidar_type handle = if lidar_type == livox_lidar_type then handle else 0

module _ {F : Type 0} where
  unfoldable pub request_exit : PubHandler F → PubHandler F
  request_exit s = record s { is_quit = true }

  -- The observer is removed, and the thread joined.
  unfoldable pub uninit : PubHandler F → PubHandler F
  unfolding request_exit
  uninit s = record (request_exit s) { lidar_listen_id = 0; thread_started = false }

  unfoldable pub set_imu_data_callback : PubHandler F → Bool → PubHandler F
  set_imu_data_callback s cb = record s { imu_callback = cb }

  -- The SDK gives the observer's id.
  unfoldable pub set_point_clouds_callback : PubHandler F → Bool → ℕ → PubHandler F
  set_point_clouds_callback s cb id = record s { points_callback = cb; lidar_listen_id = id }

  unfoldable pub add_lidars_ext_param : PubHandler F → LidarExtParameter F → PubHandler F
  unfolding get_lidar_id
  add_lidars_ext_param s lidar_param = record s {
    lidar_extrinsics =
        insert (get_lidar_id lidar_param.lidar_type lidar_param.handle) lidar_param
          s.lidar_extrinsics;
  }

  unfoldable pub clear_all_lidars_extrinsic_params : PubHandler F → PubHandler F
  clear_all_lidars_extrinsic_params s = record s { lidar_extrinsics = [] }

  unfoldable pub set_point_cloud_config : Floats F → PubHandler F → F → PubHandler F
  set_point_cloud_config f s publish_freq =
      let interval =
        f.truncate (
          f.mul (f.div (f.of_nat ns_per_second) (f.mul publish_freq (f.of_nat 10)))
            (f.of_nat 10)) in
      record s {
        publish_interval = interval;
        publish_interval_tolerance = interval -u64 ns_per_ms;
        publish_interval_ms = interval / ns_per_ms;
        thread_started = true;
      }

  abbrev line_num_of : Protocol F → ℕ → ℕ
  line_num_of p dev_type =
      if dev_type == p.industrial_hap then 6 else if dev_type == p.mid_360 then 4 else 1

  -- The bytes that are copied: a read past the payload is a fault.
  abbrev pub packet_bytes : Protocol F → EthernetPacket → Option (List ℕ)
  packet_bytes p packet =
      let size = (packet.length -u32 p.header_size) +u32 1 in
      if ltb (length packet.payload) size then none else some (take size packet.payload)

  unfoldable pub raw_packet_of : Protocol F → ℕ → ℕ → ℕ → EthernetPacket → List ℕ → RawPacket
  raw_packet_of p time_stamp handle dev_type packet bytes = record {
    lidar_type = livox_lidar_type;
    handle = handle;
    extrinsic_enable = false;
    point_num = packet.dot_num;
    data_type = packet.data_type;
    line_num = line_num_of p dev_type;
    time_stamp = time_stamp;
    point_interval = packet.time_interval * 100 / packet.dot_num;
    raw_data = bytes;
  }

  imu_data_of : ℕ → ℕ → RawImuPoint F → ImuData F
  imu_data_of handle time_stamp imu = record {
    lidar_type = livox_lidar_type;
    handle = handle;
    time_stamp = time_stamp;
    gyro_x = imu.gyro_x;
    gyro_y = imu.gyro_y;
    gyro_z = imu.gyro_z;
    acc_x = imu.acc_x;
    acc_y = imu.acc_y;
    acc_z = imu.acc_z;
  }

  -- The result is the sample that the IMU callback gets, if any, and the new state.
  unfoldable pub on_livox_lidar_point_cloud_callback :
      Protocol F
      → ℕ
      → PubHandler F
      → ℕ
      → ℕ
      → EthernetPacket
      → Option (List (ImuData F) × PubHandler F)
  unfolding imu_data_of get_eth_packet_timestamp raw_packet_of
  on_livox_lidar_point_cloud_callback p now s handle dev_type packet =
      let s' = record s { is_timestamp_sync = not (packet.time_type == 0) } in
      let time_stamp = get_eth_packet_timestamp packet.time_type packet.timestamp now in
      if packet.data_type == p.imu_data
      then if s.imu_callback
        then (p.imu_of packet.payload >>= λ imu. some (imu_data_of handle time_stamp imu ∷ [], s'))
        else some ([], s')
      else if packet.dot_num == 0
      then none
      else (packet_bytes p packet >>= λ bytes. some (
        [],
        record s' {
          raw_packet_queue =
              s.raw_packet_queue ++ raw_packet_of p time_stamp handle dev_type packet bytes ∷ [];
        },
      ))
