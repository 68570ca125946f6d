-- ===== src/Livox/PubHandler/Delivery.antt =====
-- From the packet handler to the data source: `LidarCommonCallback::OnLidarPointClounCb` of
-- call_back/lidar_common_callback.cpp is the callback that gets the frames.
use sentry25navi.Prelude.{ℕ, ◌≤◌, ◌≡◌, refl, ◌∙◌, false, Option, some, List, [], ◌∷◌, length}
use sentry25navi.Livox.Ldq.{StoragePacket}
use sentry25navi.Livox.Comm.{PointXyzlt, Frequency}
use sentry25navi.Livox.Lds.{◌>>=◌, Lds, PointFrame}
use sentry25navi.Livox.Lds.Push
use sentry25navi.Livox.Lds.Frames.{storage_point_data-Inv}
use sentry25navi.Livox.Callback.Arrival.{on_lidar_point_cloud_cb, on_lidar_point_cloud_cb_lem}
use sentry25navi.Livox.RawPoints.{Floats, Sdk}
use sentry25navi.Livox.PubHandler.{PubHandler}
use sentry25navi.Livox.PubHandler.Thread.{raw_data_process}
use sentry25navi.Livox.PubHandler.Frames.{AllFit}
use sentry25navi.Livox.PubHandler.Timer.{Inv}
use sentry25navi.Livox.PubHandler.Loop.{AllGood, raw_data_process_lem}

module _ {F : Type 0} (fresh : StoragePacket (PointXyzlt F)) (n : Frequency F) where
  -- The callback gets the frames one by one.
  unfoldable pub deliver_frames : Lds F → List (PointFrame F) → Option (Lds F)
  deliver_frames s [] = some s
  deliver_frames s (frame ∷ frames) =
      (on_lidar_point_cloud_cb fresh n s (some frame) >>= λ s'. deliver_frames s' frames)

  deliver_frames-Inv :
      (s : Lds F) (frames : List (PointFrame F))
      → Push.Inv fresh n s
      → AllFit frames
      → (s' : Lds F) × (deliver_frames s frames ≡ some s') × Push.Inv fresh n s'
  unfolding deliver_frames
  deliver_frames-Inv s [] inv fits = (s, refl, inv)
  deliver_frames-Inv s (frame ∷ frames) inv fits =
      let (s1, stored_clouds, inv1) = storage_point_data-Inv fresh n frame inv fits.0.0 fits.0.1 in
      let (s2, rest, inv2) = deliver_frames-Inv s1 frames inv1 fits.1 in
      (s2, rw (on_lidar_point_cloud_cb_lem fresh n s (some frame) ∙ stored_clouds) rest, inv2)

  -- What the loop of the packet handler makes of a queue of good packets, the data source takes: with both in
  -- a valid state, neither the loop nor the callback on any of its frames faults, both states stay valid, and
  -- no frame has more entries than its arrays.
  pub deliver_frames-raw_data_process :
      (f : Floats F) (sdk : Sdk) (times : List ℕ) (s : PubHandler F) (lds : Lds F)
      → Inv s
      → s.is_quit ≡ false
      → length s.raw_packet_queue ≤ length times
      → AllGood f sdk s s.raw_packet_queue
      → Push.Inv fresh n lds
      → (frames : List (PointFrame F)) × (s' : PubHandler F) × (lds' : Lds F) × (raw_data_process f
            sdk times s
          ≡ some (frames, s'))
        × (deliver_frames lds frames ≡ some lds')
        × Inv s'
        × Push.Inv fresh n lds'
        × AllFit frames
  deliver_frames-raw_data_process f sdk times s lds inv going enough good ready =
      let (news, frames, s', d) = raw_data_process_lem f sdk times s inv going enough good in
      let (lds', e, ready') = deliver_frames-Inv lds frames ready d.fits in
      (frames, s', lds', d.run, e, d.valid, ready', d.fits)
