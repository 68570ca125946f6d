-- ===== src/Livox/Samples.antt =====
-- Concrete packets, devices and states for the tests. A float is a natural number here.
use sentry25navi.Prelude.{ℕ, false, [], ◌∷◌, ltb, replicate, arith}
use sentry25navi.Prelude.Int.{pos}
use sentry25navi.Livox.Ldq.{StoragePacket, PointPacket, LidarDataQueue, null, initial}
use sentry25navi.Livox.Ldq.Fifo.{IsValid}
use sentry25navi.Livox.Comm.{
  PointXyzlt, ImuData, UserLivoxLidarConfig, LidarDevice, Frequency, sampling,
}
use sentry25navi.Livox.CacheIndex.{CacheIndex, empty, get_free_index}
use sentry25navi.Livox.Lds.{Lds}
use sentry25navi.Livox.Lds.Queues.{initial-IsValid}

abbrev pub freq : Frequency ℕ
freq = record { above_10 = λ f. ltb 10 f; truncate = λ f. f }

abbrev pub fresh : StoragePacket (PointXyzlt ℕ)
fresh = record { lidar_type = 0; handle = 0; base_time = 0; points_num = 0; points = [] }

abbrev pub point : PointXyzlt ℕ
point = record { x = 1; y = 2; z = 3; intensity = 4; tag = 0; line = 1; offset_time = 1007 }

abbrev pub packet : PointPacket (PointXyzlt ℕ)
packet = record { handle = 77; lidar_type = 8; points_num = 1; points = point ∷ [] }

abbrev pub sample : ImuData ℕ
sample = record {
  lidar_type = 8;
  handle = 77;
  time_stamp = 1000;
  gyro_x = 1;
  gyro_y = 2;
  gyro_z = 3;
  acc_x = 4;
  acc_y = 5;
  acc_z = 6;
}

abbrev pub bare_queue : LidarDataQueue (PointXyzlt ℕ)
bare_queue = record { storage_packet = null; rd_idx = 0; wr_idx = 0; mask = 0; size = 0 }

abbrev pub user_config : UserLivoxLidarConfig ℕ
user_config = record {
  handle = 77;
  pcl_data_type = pos 1;
  pattern_mode = pos 0;
  blind_spot_set = pos 50;
  dual_emit_en = pos 1;
  extrinsic_param = record { roll = 0; pitch = 0; yaw = 0; x = pos 10; y = pos 20; z = pos 30 };
  set_bits = 0;
  get_bits = 0;
}

abbrev pub device : LidarDevice ℕ
device = record {
  lidar_type = 8;
  handle = 77;
  data_src = 0;
  connect_state = sampling;
  queue = bare_queue;
  imu_data = [];
  firmware_ver = 0;
  livox_config = user_config;
}

-- The device of handle 77 has slot 0.
abbrev pub table : CacheIndex
table = (get_free_index empty 8 77).1

abbrev pub state : Lds ℕ
state = record {
  lidar_count = 32;
  lidars = replicate 32 device;
  pcd_semaphore = 0;
  imu_semaphore = 0;
  cache_index = table;
  publish_freq = 10;
  data_src = 0;
  is_request_exit = false;
}

-- A ring of 16 packets.
abbrev pub ring : LidarDataQueue (PointXyzlt ℕ)
ring = initial fresh 10

pub ring-IsValid : IsValid ring
ring-IsValid = initial-IsValid fresh 10 (omega arith) (omega arith)
