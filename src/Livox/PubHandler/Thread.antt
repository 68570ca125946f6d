-- ===== src/Livox/PubHandler/Thread.antt =====
-- The thread of the packet handler, `RawDataProcess` of comm/pub_handler.cpp.
use sentry25navi.Prelude.{ℕ, Option, none, some, List, [], ◌∷◌, ◌++◌, if◌then◌else◌}
use sentry25navi.Livox.Lds.{◌>>=◌, PointFrame}
use sentry25navi.Livox.LidarPubHandler.{
  LidarPubHandler, new_handler, set_lidars_ext_param, point_cloud_process,
}
use sentry25navi.Livox.RawPoints.{Floats, Sdk, RawPacket}
use sentry25navi.Livox.PubHandler.Maps.{find, insert}
use sentry25navi.Livox.PubHandler.{PubHandler, get_lidar_id}
use sentry25navi.Livox.PubHandler.CheckTimer.{check_timer}

module _ {F : Type 0} (f : Floats F) (sdk : Sdk) where
  -- The handler of a lidar, a new one if there is none, with its parameters.
  unfoldable pub handler_of : PubHandler F → ℕ → LidarPubHandler F
  unfolding new_handler set_lidars_ext_param
  handler_of s id =
      let handler : LidarPubHandler F = elim (find id s.handlers) [
        | none ↦ new_handler f
        | some h ↦ h
      ] in
      elim (find id s.lidar_extrinsics) [
        | none ↦ handler
        | some param ↦ set_lidars_ext_param f handler param
      ]

  -- What the thread does with one packet.
  unfoldable pub process_packet :
      ℕ → PubHandler F → RawPacket → Option (List (PointFrame F) × PubHandler F)
  unfolding get_lidar_id
  process_packet now s raw_data =
      let id = get_lidar_id raw_data.lidar_type raw_data.handle in
      (point_cloud_process f sdk (handler_of s id) raw_data >>= λ handler.
      check_timer now (record s { handlers = insert id handler s.handlers }) id)

  -- One round of the thread's loop. With no packet it waits, for half a second at most.
  unfoldable pub raw_data_round : ℕ → PubHandler F → Option (List (PointFrame F) × PubHandler F)
  raw_data_round now s = elim s.raw_packet_queue [
    | [] ↦ some ([], s)
    | raw_data ∷ rest ↦ process_packet now (record s { raw_packet_queue = rest }) raw_data
  ]

  -- The loop, with the time of the clock in each round.
  unfoldable pub raw_data_process :
      List ℕ → PubHandler F → Option (List (PointFrame F) × PubHandler F)
  raw_data_process [] s = some ([], s)
  raw_data_process (now ∷ times) s =
      if s.is_quit
      then some ([], s)
      else (raw_data_round now s >>= λ r.
          raw_data_process times r.1 >>= λ q. some (r.0 ++ q.0, q.1))
