-- ===== src/Livox/PubHandler/Arrival.antt =====
-- The SDK's callback for packets, `PubHandler::OnLivoxLidarPointCloudCallback` of comm/pub_handler.cpp.
use sentry25navi.Prelude.{
  ℕ, ◌≤◌, ◌≡◌, ◌≢◌, refl, not, some, [], ◌∷◌, ◌++◌, ◌==◌, length, length-take, take, arith,
}
use sentry25navi.Prelude.Word.{◌+u32◌, ◌-u32◌}
use sentry25navi.Livox.Comm.{livox_lidar_type}
use sentry25navi.Livox.RawPoints.{RawPacket}
use sentry25navi.Livox.PubHandler.{
  raw_packet_of, EthernetPacket, Protocol, PubHandler, on_livox_lidar_point_cloud_callback,
}
use sentry25navi.Livox.PubHandler.Stamp.{get_eth_packet_timestamp}

module _ {F : Type 0} (p : Protocol F) (now : ℕ) (s : PubHandler F) (handle dev_type : ℕ) where
  -- How many bytes of points a packet announces.
  abbrev pub announced : EthernetPacket → ℕ
  announced packet = (packet.length -u32 p.header_size) +u32 1

  abbrev queued : EthernetPacket → RawPacket
  unfolding raw_packet_of get_eth_packet_timestamp
  queued packet =
      raw_packet_of p (get_eth_packet_timestamp packet.time_type packet.timestamp now) handle
        dev_type packet (take (announced packet) packet.payload)

  -- A packet of points that has some, and whose memory has the bytes that it announces, is queued behind the others, as one of this lidar with the number of
  -- points that it announces and at least one line.
  pub callback_queues :
      (packet : EthernetPacket)
      → packet.data_type ≢ p.imu_data
      → packet.dot_num ≢ 0
      → announced packet ≤ length packet.payload
      → (pkt : RawPacket) × (on_livox_lidar_point_cloud_callback p now s handle dev_type packet
          ≡ some (
            [],
            record s {
              is_timestamp_sync = not (packet.time_type == 0);
              raw_packet_queue = s.raw_packet_queue ++ pkt ∷ [];
            },
          ))
        × (pkt.lidar_type ≡ livox_lidar_type)
        × (pkt.handle ≡ handle)
        × (pkt.point_num ≡ packet.dot_num)
        × (pkt.line_num ≢ 0)
        × (length pkt.raw_data ≡ announced packet)
  unfolding on_livox_lidar_point_cloud_callback
  callback_queues packet points some_points long = (
    queued packet,
    ground (arith, points),
    refl,
    refl,
    refl,
    ground arith,
    length-take (announced packet) packet.payload long,
  )
