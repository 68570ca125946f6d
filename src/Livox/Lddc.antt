-- ===== src/Livox/Lddc.antt =====
-- The publisher of the driver, lddc.h and lddc.cpp, in the ROS 1 build. A call runs while no packet
-- arrives, and `none` is a fault, a block at the semaphore, or fuel that ran out.
pub mod Polling
pub mod Topics
pub mod Publishers
pub mod Emission
pub mod Delivery
pub mod Distribution
pub mod Samples
mod Tests
use sentry25navi.Prelude.{
  ℕ, zero, suc, ◌+◌, ◌*◌, ◌/◌, ◌%◌, Bool, true, false, not, ◌&&◌, ◌||◌, Option, none, some, List,
  [], ◌∷◌, ◌++◌, ◌==◌, if◌then◌else◌, get_elem?, set, take,
}
use sentry25navi.Prelude.Word.{◌+u32◌}
use sentry25navi.Livox.Ldq.{StoragePacket, LidarDataQueue, queue_is_empty, queue_pop}
use sentry25navi.Livox.Comm.{
  PointXyzlt, ImuData, LidarDevice, LidarConnectState, off, on, config, sampling,
}
use sentry25navi.Livox.Comm.Names.{replace_period_by_underline}
use sentry25navi.Livox.ImuQueue
use sentry25navi.Livox.Semaphore
use sentry25navi.Livox.Lds.{◌>>=◌, Lds, is_null}
use sentry25navi.Livox.Messages.{
  Host, PointCloud2, CustomMsg, PointCloud, ImuMsg, is_nil, timestamp, init_pointcloud2_msg,
  init_custom_msg, fill_points_to_custom_msg, init_pcl_msg, fill_points_to_pcl_msg, init_imu_msg,
}

-- `kPointCloud2Msg`, `kLivoxCustomMsg` and `kPclPxyziMsg`; `kOutputToRos`; `kMinEthPacketQueueSize`
abbrev pub point_cloud2_msg : ℕ
point_cloud2_msg = 0

abbrev pub livox_custom_msg : ℕ
livox_custom_msg = 1

abbrev pub pcl_pxyzi_msg : ℕ
pcl_pxyzi_msg = 2

abbrev pub output_to_ros : ℕ
output_to_ros = 0

abbrev pub min_eth_packet_queue_size : ℕ
min_eth_packet_queue_size = 32

-- A publisher that no topic was advertised for, or one for a topic.
pub data Publisher : Type 0 where
  blank : Publisher
  advertised : (topic : List ℕ) (queue_size transfer_format : ℕ) → Publisher
  advertised_imu : (topic : List ℕ) (queue_size : ℕ) → Publisher

pub data Message (F : Type 0) : Type 0 where
  cloud2 : PointCloud2 F → Message F
  custom : CustomMsg F → Message F
  pcl : PointCloud F → Message F
  imu : ImuMsg F → Message F

-- What leaves the program: a message on a topic, or one in the bag with its time.
pub data Sent (F : Type 0) : Type 0 where
  to_topic : Publisher → Message F → Sent F
  to_bag : Publisher → F → Message F → Sent F

-- `registered` says whether `lds_` is set, `has_bag` whether `bag_` is. `msg_seq` is the static counter of
-- `InitCustomMsg`, and `sent` is all that went out, oldest first.
pub record Lddc (F : Type 0) : Type 0 where
  pub registered : Bool
  pub transfer_format : ℕ
  pub use_multi_topic : Bool
  pub output_type : ℕ
  pub frame_id : List ℕ
  pub enable_lidar_bag : Bool
  pub enable_imu_bag : Bool
  pub private_pub : List (Option Publisher)
  pub global_pub : Option Publisher
  pub private_imu_pub : List (Option Publisher)
  pub global_imu_pub : Option Publisher
  pub has_bag : Bool
  pub msg_seq : ℕ
  pub sent : List (Sent F)

-- "livox/lidar", "livox/lidar_", "livox/imu" and "livox/imu_"
abbrev pub lidar_topic : List ℕ
lidar_topic = b'l' ∷ b'i' ∷ b'v' ∷ b'o' ∷ b'x' ∷ b'/' ∷ b'l' ∷ b'i' ∷ b'd' ∷ b'a' ∷ b'r' ∷ []

abbrev pub imu_topic : List ℕ
imu_topic = b'l' ∷ b'i' ∷ b'v' ∷ b'o' ∷ b'x' ∷ b'/' ∷ b'i' ∷ b'm' ∷ b'u' ∷ []

-- `snprintf` to 48 bytes, the last of them the terminator.
abbrev pub topic_of : List ℕ → List ℕ → Option (List ℕ)
topic_of base ip_string =
    replace_period_by_underline ip_string >>= λ s. some (take 47 (base ++ b'_' ∷ s))

abbrev pub advertise : ℕ → List ℕ → ℕ → Publisher
advertise format topic queue_size =
    if (format == point_cloud2_msg) || ((format == livox_custom_msg) || (format == pcl_pxyzi_msg))
    then advertised topic queue_size format
    else blank

module _ {F : Type 0} where
  -- The code's 0 is true and its -1 is false.
  unfoldable pub register_lds : Lddc F → Bool × Lddc F
  register_lds c = if c.registered then (false, c) else (true, record c { registered = true })

  -- A message goes to the topic, or to the bag if there is one and it is wanted.
  unfoldable pub send : Bool → Publisher → F → Message F → Lddc F → Lddc F
  send enable_bag publisher time msg c =
      if c.output_type == output_to_ros
      then record c { sent = c.sent ++ to_topic publisher msg ∷ [] }
      else (if c.has_bag && enable_bag
          then record c { sent = c.sent ++ to_bag publisher time msg ∷ [] }
          else c)

  module _ (host : Host F) where
    unfoldable pub get_current_publisher : Lddc F → ℕ → LidarDevice F → Option (Publisher × Lddc F)
    get_current_publisher c index lidar = elim c.use_multi_topic [
      | true ↦
          (get_elem? c.private_pub index >>= λ pub_ptr. elim pub_ptr [
            | some p ↦ some (p, c)
            | none ↦
                (topic_of lidar_topic (host.inet_ntoa lidar.handle) >>= λ topic.
                let p = advertise c.transfer_format topic (min_eth_packet_queue_size / 8) in
                some (p, record c { private_pub = set c.private_pub index (some p) }))
          ])
      | false ↦ elim c.global_pub [
        | some p ↦ some (p, c)
        | none ↦
            let p = advertise c.transfer_format lidar_topic (min_eth_packet_queue_size * 8) in
            some (p, record c { global_pub = some p })
      ]
    ]

    unfoldable pub get_current_imu_publisher :
        Lddc F → ℕ → LidarDevice F → Option (Publisher × Lddc F)
    get_current_imu_publisher c handle lidar = elim c.use_multi_topic [
      | true ↦
          (get_elem? c.private_imu_pub handle >>= λ pub_ptr. elim pub_ptr [
            | some p ↦ some (p, c)
            | none ↦
                (topic_of imu_topic (host.inet_ntoa lidar.handle) >>= λ topic.
                let p = advertised_imu topic (min_eth_packet_queue_size * 2) in
                some (p, record c { private_imu_pub = set c.private_imu_pub handle (some p) }))
          ])
      | false ↦ elim c.global_imu_pub [
        | some p ↦ some (p, c)
        | none ↦
            let p = advertised_imu imu_topic (min_eth_packet_queue_size * 8) in
            some (p, record c { global_imu_pub = some p })
      ]
    ]

    -- The bodies of the three publishing loops, for a packet that has points.
    unfoldable pub emit_pointcloud2 :
        ℕ → LidarDevice F → StoragePacket (PointXyzlt F) → Lddc F → Option (Lddc F)
    unfolding init_pointcloud2_msg get_current_publisher send
    emit_pointcloud2 index lidar pkg c = do
      cloud ← init_pointcloud2_msg host c.frame_id pkg
      (publisher, c') ← get_current_publisher c index lidar
      some (send c'.enable_lidar_bag publisher (host.seconds (timestamp pkg)) (cloud2 cloud) c')

    unfoldable pub emit_custom :
        ℕ → LidarDevice F → StoragePacket (PointXyzlt F) → Lddc F → Option (Lddc F)
    unfolding init_custom_msg fill_points_to_custom_msg get_current_publisher send
    emit_custom index lidar pkg c = do
      msg ← fill_points_to_custom_msg host (init_custom_msg host c.frame_id c.msg_seq pkg lidar) pkg
      (publisher, c') ← get_current_publisher (record c { msg_seq = c.msg_seq +u32 1 }) index lidar
      some (send c'.enable_lidar_bag publisher (host.seconds msg.timebase) (custom msg) c')

    unfoldable pub emit_pcl :
        ℕ → LidarDevice F → StoragePacket (PointXyzlt F) → Lddc F → Option (Lddc F)
    unfolding init_pcl_msg fill_points_to_pcl_msg get_current_publisher send
    emit_pcl index lidar pkg c = do
      cloud ← fill_points_to_pcl_msg host pkg (init_pcl_msg host c.frame_id pkg)
      (publisher, c') ← get_current_publisher c index lidar
      some (send c'.enable_lidar_bag publisher (host.seconds (timestamp pkg)) (pcl cloud) c')

    -- What one packet of a ring leads to in each format; another format publishes nothing.
    unfoldable pub emit :
        ℕ → ℕ → LidarDevice F → StoragePacket (PointXyzlt F) → Lddc F → Option (Lddc F)
    unfolding emit_pointcloud2 emit_custom emit_pcl
    emit format index lidar pkg c =
        if format == point_cloud2_msg
        then emit_pointcloud2 index lidar pkg c
        else (if format == livox_custom_msg
            then emit_custom index lidar pkg c
            else (if format == pcl_pxyzi_msg then emit_pcl index lidar pkg c else some c))

    unfoldable pub publish_imu_data :
        List (ImuData F) → ℕ → LidarDevice F → Lddc F → Option (List (ImuData F) × Lddc F)
    unfolding get_current_imu_publisher send init_imu_msg
    publish_imu_data queue index lidar c = elim (ImuQueue.pop queue) [
      | none ↦ some (queue, c)
      | some (imu_data, rest) ↦
          (get_current_imu_publisher c index lidar >>= λ r. some (
            rest,
            send r.1.enable_imu_bag r.0 (host.seconds imu_data.time_stamp)
                (imu (init_imu_msg host imu_data)) r.1,
          ))
    ]
