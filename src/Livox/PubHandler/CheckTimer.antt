-- ===== src/Livox/PubHandler/CheckTimer.antt =====
-- The timer of the packet handler, from the points of the lidars to a frame: `CheckTimer` and
-- `PublishPointCloud` of comm/pub_handler.cpp. The frames that the callback gets are the first result.
use sentry25navi.Prelude.{
  ℕ, ◌+◌, ◌/◌, ◌%◌, Bool, false, not, ◌&&◌, ◌||◌, Option, none, some, List, [], ◌∷◌, ◌==◌, ltb,
  if◌then◌else◌, length, set,
}
use sentry25navi.Prelude.Word.{u32_mod, ◌-u64◌}
use sentry25navi.Livox.Comm.{PointXyzlt, livox_lidar_type, max_source_lidar}
use sentry25navi.Livox.Lds.{◌>>=◌, PointFrame}
use sentry25navi.Livox.LidarPubHandler.{
  LidarPubHandler, get_lidar_base_time, get_recent_time_stamp, get_lidar_point_clouds,
}
use sentry25navi.Livox.PubHandler.Maps.{find, insert}
use sentry25navi.Livox.PubHandler.{PubHandler, ns_per_ms}

module _ {F : Type 0} where
  -- What the callback gets.
  unfoldable pub publish_point_cloud : PubHandler F → PointFrame F → List (PointFrame F)
  publish_point_cloud s frame = if s.points_callback then frame ∷ [] else []

  -- The frame after the points of one lidar were put in it. The arrays have 32 entries.
  unfoldable pub fill_entry : PointFrame F → ℕ → LidarPubHandler F → Option (PointFrame F)
  unfolding get_lidar_point_clouds
  fill_entry frame id handler =
      if not (ltb frame.lidar_num max_source_lidar)
      then none
      else let timed = record frame {
        base_time = set frame.base_time frame.lidar_num (get_lidar_base_time handler);
      } in
        elim (get_lidar_point_clouds handler []).0 [
          | [] ↦ some timed
          | p ∷ ps ↦ some (record timed {
            lidar_point = set frame.lidar_point frame.lidar_num (record {
              lidar_type = livox_lidar_type;
              handle = id;
              points_num = length (p ∷ ps) % u32_mod;
              points = p ∷ ps;
            });
            lidar_num = (frame.lidar_num + 1) % 256;
          })
        ]

  -- The loop over the handlers, in the order of their ids.
  unfoldable pub fill_frame : PointFrame F → List (ℕ × LidarPubHandler F) → Option (PointFrame F)
  unfolding fill_entry
  fill_frame frame [] = some frame
  fill_frame frame ((id, handler) ∷ rest) = do
    frame' ← fill_entry frame id handler
    fill_frame frame' rest

  -- The handlers after the loop, each with no points, and the vectors that got them.
  unfoldable pub drained : List (ℕ × LidarPubHandler F) → List (ℕ × LidarPubHandler F)
  drained [] = []
  drained ((id, handler) ∷ rest) = (id, (get_lidar_point_clouds handler []).1) ∷ drained rest

  unfoldable pub stored_clouds :
      List (ℕ × List (PointXyzlt F)) → List (ℕ × LidarPubHandler F) → List (ℕ × List (PointXyzlt F))
  stored_clouds points [] = points
  stored_clouds points ((id, handler) ∷ rest) =
      stored_clouds (insert id (get_lidar_point_clouds handler []).0 points) rest

  -- The points of a lidar are due: its newest point lies on a multiple of the interval, in milliseconds,
  -- and its oldest is long enough before. A remainder by 0 is a fault.
  unfoldable pub is_due : PubHandler F → LidarPubHandler F → Option Bool
  unfolding get_recent_time_stamp get_lidar_base_time
  is_due s handler =
      let recent_time_ms = get_recent_time_stamp handler / ns_per_ms in
      if s.publish_interval_ms == 0
      then none
      else some (
          not (not (recent_time_ms % s.publish_interval_ms == 0) || recent_time_ms == 0)
          && not (
              ltb (get_recent_time_stamp handler -u64 get_lidar_base_time handler)
                s.publish_interval_tolerance))

  -- A frame with no points is not published.
  unfoldable pub handed_on :
      List (PointXyzlt F) → PubHandler F → Option (List (PointFrame F) × PubHandler F)
  unfolding publish_point_cloud
  handed_on [] s = some ([], s)
  handed_on (p ∷ ps) s =
      if s.frame.lidar_num == 0
      then some ([], s)
      else some
          (publish_point_cloud s s.frame, record s { frame = record s.frame { lidar_num = 0 } })

  -- The branch for lidars whose time is synchronised.
  unfoldable pub check_timer_sync : PubHandler F → ℕ → Option (List (PointFrame F) × PubHandler F)
  unfolding is_due fill_entry get_lidar_point_clouds handed_on
  check_timer_sync s id =
      (find id s.handlers >>= λ handler. is_due s handler >>= λ due.
      if not due
      then some ([], s)
      else (fill_entry s.frame id handler >>= λ frame.
          let (cloud, handler') = get_lidar_point_clouds handler [] in
          let s' = record s {
            frame = frame;
            handlers = insert id handler' s.handlers;
            points = insert id cloud s.points;
          } in
          handed_on cloud s'))

  unfoldable pub check_timer_free : ℕ → PubHandler F → Option (List (PointFrame F) × PubHandler F)
  unfolding fill_frame drained stored_clouds publish_point_cloud
  check_timer_free now s =
      if s.first
      then some ([], record s { last_pub_time = now; first = false })
      else if ltb now (s.last_pub_time + s.publish_interval)
      then some ([], s)
      else (fill_frame s.frame s.handlers >>= λ frame. some (
        publish_point_cloud s frame,
        record s {
          last_pub_time = s.last_pub_time + s.publish_interval;
          frame = record frame { lidar_num = 0 };
          handlers = drained s.handlers;
          points = stored_clouds s.points s.handlers;
        },
      ))

  unfoldable pub check_timer : ℕ → PubHandler F → ℕ → Option (List (PointFrame F) × PubHandler F)
  unfolding check_timer_sync check_timer_free
  check_timer now s id =
      if s.is_timestamp_sync then check_timer_sync s id else check_timer_free now s
