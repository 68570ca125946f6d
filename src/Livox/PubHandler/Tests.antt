-- ===== src/Livox/PubHandler/Tests.antt =====
-- Concrete packets for the packet handler. A float is a natural number, and 14 bytes hold a point.
use sentry25navi.Prelude.{
  ℕ, ◌+◌, ◌-◌, ◌*◌, ◌/◌, ◌≡◌, refl, true, false, Option, none, some, List, [], ◌∷◌, map, ltb,
  if◌then◌else◌, length, replicate, arith, inl,
}
use sentry25navi.Prelude.Int.{pos, negsuc}
use sentry25navi.Livox.Comm.{PointXyzlt}
use sentry25navi.Livox.Lds.{Lds, PointFrame}
use sentry25navi.Livox.Samples.{freq, fresh, packet, device}
use sentry25navi.Livox.Samples
use sentry25navi.Livox.Lds.Push
use sentry25navi.Livox.Lds.Init.{IsBare, Each}
use sentry25navi.Livox.CacheIndex.Laws.{get_free_index-IsValid, empty-IsValid}
use sentry25navi.Livox.PubHandler.Delivery.{deliver_frames, deliver_frames-raw_data_process}
use sentry25navi.Livox.PubHandler.Frames.{AllFit}
use sentry25navi.Livox.LidarPubHandler.{LidarPubHandler, new_handler, point_cloud_process}
use sentry25navi.Livox.RawPoints.{Floats, Sdk, RawPacket, CartesianPoint}
use sentry25navi.Livox.PubHandler.{Protocol, PubHandler}
use sentry25navi.Livox.PubHandler.CheckTimer.{check_timer}
use sentry25navi.Livox.PubHandler.Thread.{
  raw_data_round, process_packet, handler_of, raw_data_process,
}
use sentry25navi.Livox.PubHandler.Stamp.{
  bytes_of, get_eth_packet_timestamp, get_eth_packet_timestamp-bytes_of,
}
use sentry25navi.Livox.PubHandler.Timer.{Inv}
use sentry25navi.Livox.PubHandler.Flow.{IsGood}
use sentry25navi.Livox.PubHandler.Loop.{Drains, raw_data_process_lem}

abbrev floats : Floats ℕ
floats = record {
  of_nat = λ n. n;
  of_int = λ z. elim z [ pos n ↦ n | negsuc n ↦ 0 ];
  truncate = λ n. n;
  round = λ n. n;
  add_f = λ a b. a + b;
  mul_f = λ a b. a * b;
  add = λ a b. a + b;
  sub = λ a b. a - b;
  mul = λ a b. a * b;
  div = λ a b. a / b;
  neg = λ a. a;
  sin = λ a. 0;
  cos = λ a. 1;
  pi = 3;
}

abbrev raw_point : CartesianPoint
raw_point = record { x = pos 3000; y = pos 2000; z = pos 1000; reflectivity = 9; tag = 0 }

abbrev sdk : Sdk
sdk = record {
  high_data = 1;
  low_data = 2;
  spherical_data = 3;
  high_at = λ bytes i. if ltb (length bytes) ((i + 1) * 14) then none else some raw_point;
  low_at = λ bytes i. none;
  spherical_at = λ bytes i. none;
}

abbrev raw : RawPacket
raw = record {
  lidar_type = 8;
  handle = 77;
  extrinsic_enable = false;
  point_num = 2;
  data_type = 1;
  line_num = 4;
  time_stamp = 500_000_000;
  point_interval = 10;
  raw_data = replicate 28 0;
}

abbrev handler : LidarPubHandler ℕ
unfolding new_handler
handler = new_handler floats

abbrev state : PubHandler ℕ
state = record {
  lidar_listen_id = 1;
  is_quit = false;
  thread_started = true;
  points_callback = true;
  imu_callback = true;
  frame = record { base_time = replicate 32 0; lidar_num = 0; lidar_point = replicate 32 packet };
  raw_packet_queue = raw ∷ raw ∷ [];
  publish_interval = 100_000_000;
  publish_interval_tolerance = 99_000_000;
  publish_interval_ms = 100;
  first = false;
  last_pub_time = 0;
  handlers = (77, handler) ∷ [];
  points = [];
  lidar_extrinsics = [];
  is_timestamp_sync = false;
}

state-Inv : Inv state
state-Inv = record {
  size = refl;
  times = refl;
  reset = refl;
  distinct = (tt, tt);
  few = omega arith;
  interval = omega arith;
  listening = refl;
}

get_eth_packet_timestamp-bytes_of_example :
    get_eth_packet_timestamp 1 (bytes_of 8 1_700_000_000_123_456_789) 5 ≡ 1_700_000_000_123_456_789
get_eth_packet_timestamp-bytes_of_example =
    get_eth_packet_timestamp-bytes_of 1 1_700_000_000_123_456_789 5 (omega arith)

raw-IsGood : IsGood floats sdk raw
raw-IsGood = record { type = refl; lines = omega arith; whole = λ k h. ground arith }

raw_data_process_lem_example :
    (news : List (List (PointXyzlt ℕ))) × (frames : List (PointFrame ℕ)) × (s' : PubHandler ℕ)
    × Drains floats sdk state
        (raw ∷ raw ∷ [])
        (raw_data_process floats sdk (7 ∷ 200_000_000 ∷ []) state)
        news
        frames
        s'
raw_data_process_lem_example =
    raw_data_process_lem floats sdk (7 ∷ 200_000_000 ∷ []) state state-Inv refl (omega arith)
      (raw-IsGood, (λ e. cc), (raw-IsGood, (λ e. cc), tt))

-- Two packets of two points: the first finds the timer early, the second makes a frame of four points.
sizes : Option (List (PointFrame ℕ) × PubHandler ℕ) → List ℕ
sizes none = []
sizes (some (frames, s)) = map (λ frame. frame.lidar_num) frames

two_rounds : sizes (raw_data_process floats sdk (7 ∷ 200_000_000 ∷ []) state) ≡ 1 ∷ []
unfolding sizes raw_data_process raw_data_round process_packet handler_of check_timer
    point_cloud_process
two_rounds = refl

abbrev protocol : Protocol ℕ
protocol = record {
  imu_data = 0;
  industrial_hap = 10;
  mid_360 = 9;
  header_size = 37;
  imu_of = λ bytes. none;
}

all-IsBare : Each IsBare (replicate 32 device)
all-IsBare i lidar h = ground arith

lds-Inv : Push.Inv fresh freq Samples.state
lds-Inv = record {
  devices = refl;
  table = get_free_index-IsValid 8 77 empty-IsValid;
  ready = λ i lidar h. inl (all-IsBare i lidar h);
  freq = omega arith;
}

deliver_frames-raw_data_process_example :
    (frames : List (PointFrame ℕ)) × (s' : PubHandler ℕ) × (lds' : Lds ℕ) × (raw_data_process floats
        sdk
        (7 ∷ 200_000_000 ∷ [])
        state
      ≡ some (frames, s'))
    × (deliver_frames fresh freq Samples.state frames ≡ some lds')
    × Inv s'
    × Push.Inv fresh freq lds'
    × AllFit frames
deliver_frames-raw_data_process_example =
    deliver_frames-raw_data_process fresh freq floats sdk (7 ∷ 200_000_000 ∷ []) state Samples.state
      state-Inv refl (omega arith) (raw-IsGood, (λ e. cc), (raw-IsGood, (λ e. cc), tt)) lds-Inv
