-- ===== src/Livox/Lddc/Polling.antt =====
-- The loops of the publisher (lddc.cpp): over one ring, over one device and over all of them. The fuel
-- bounds the two inner loops; `none` is a fault, a block at the semaphore or fuel that ran out.
use sentry25navi.Prelude.{
  ℕ, zero, suc, ◌+◌, Bool, true, false, not, ◌&&◌, ◌||◌, Option, none, some, List, [], ◌∷◌, ◌==◌,
  if◌then◌else◌,
}
use sentry25navi.Livox.Ldq.{StoragePacket, LidarDataQueue, queue_is_empty, queue_pop}
use sentry25navi.Livox.Comm.{
  PointXyzlt, ImuData, LidarDevice, LidarConnectState, off, on, config, sampling,
}
use sentry25navi.Livox.ImuQueue
use sentry25navi.Livox.Semaphore
use sentry25navi.Livox.Lds.{◌>>=◌, Lds, is_null}
use sentry25navi.Livox.Messages.{Host, is_nil}
use sentry25navi.Livox.Lddc.{
  Lddc, emit, publish_imu_data, point_cloud2_msg, livox_custom_msg, pcl_pxyzi_msg,
}

abbrev pub is_sampling : LidarConnectState → Bool
is_sampling off = false
is_sampling on = false
is_sampling config = false
is_sampling sampling = true

abbrev pub is_transfer_format : ℕ → Bool
is_transfer_format f = (f == point_cloud2_msg) || ((f == livox_custom_msg) || (f == pcl_pxyzi_msg))

module _ {F : Type 0} (host : Host F) where
  -- A packet without points is skipped.
  unfoldable pub publish_packet :
      ℕ → ℕ → LidarDevice F → StoragePacket (PointXyzlt F) → Lddc F → Option (Lddc F)
  publish_packet format index lidar pkg c = elim (is_nil pkg.points) [
    | true ↦ some c
    | false ↦ emit host format index lidar pkg c
  ]

  -- `PollingLidarImuData`, whose loop takes one sample per round.
  unfoldable pub polling_lidar_imu_data :
      ℕ → Bool → ℕ → LidarDevice F → List (ImuData F) → Lddc F → Option (List (ImuData F) × Lddc F)
  polling_lidar_imu_data zero request_exit index lidar queue c = none
  polling_lidar_imu_data (suc fuel) request_exit index lidar queue c =
      elim (not request_exit && not (ImuQueue.is_empty queue)) [
        | false ↦ some (queue, c)
        | true ↦
            (publish_imu_data host queue index lidar c >>= λ r.
            polling_lidar_imu_data fuel request_exit index lidar r.0 r.1)
      ]

  -- The devices from slot `i` on, `rounds` of them to visit.
  unfoldable pub distribute_imu_loop :
      ℕ → Bool → ℕ → ℕ → List (LidarDevice F) → Lddc F → Option (List (LidarDevice F) × Lddc F)
  unfolding polling_lidar_imu_data
  distribute_imu_loop fuel request_exit zero i lidars c = some (lidars, c)
  distribute_imu_loop fuel request_exit (suc rounds) i [] c = none
  distribute_imu_loop fuel request_exit (suc rounds) i (lidar ∷ lidars) c =
      elim (is_sampling lidar.connect_state) [
        | false ↦
            (distribute_imu_loop fuel request_exit rounds (i + 1) lidars c >>= λ r.
            some (lidar ∷ r.0, r.1))
        | true ↦
            (polling_lidar_imu_data fuel request_exit i lidar lidar.imu_data c >>= λ p.
            (distribute_imu_loop fuel request_exit rounds (i + 1) lidars p.1 >>= λ r.
            some (record lidar { imu_data = p.0 } ∷ r.0, r.1)))
      ]

  unfoldable pub distribute_imu_data : ℕ → Lddc F → Lds F → Option (Lddc F × Lds F)
  unfolding distribute_imu_loop
  distribute_imu_data fuel c s =
      if not c.registered || s.is_request_exit
      then some (c, s)
      else (Semaphore.wait s.imu_semaphore >>= λ count.
          (distribute_imu_loop fuel s.is_request_exit s.lidar_count 0 s.lidars c >>= λ r.
          some (r.1, record s { lidars = r.0; imu_semaphore = count })))

  module _ (fresh : StoragePacket (PointXyzlt F)) where
    -- The loop of `PublishPointcloud2`, `PublishCustomPointcloud` and `PublishPclMsg`; `fresh` is a local
    -- packet before the pop.
    unfoldable pub publish_loop :
        ℕ
        → ℕ
        → ℕ
        → LidarDevice F
        → LidarDataQueue (PointXyzlt F)
        → Lddc F
        → Option (LidarDataQueue (PointXyzlt F) × Lddc F)
    unfolding publish_packet
    publish_loop zero format index lidar queue c = none
    publish_loop (suc fuel) format index lidar queue c = elim (queue_is_empty queue) [
      | true ↦ some (queue, c)
      | false ↦
          (queue_pop queue fresh >>= λ r.
          (publish_packet format index lidar r.1 c >>= λ c'.
          publish_loop fuel format index lidar r.2 c'))
    ]

    -- The loop of `PollingLidarPointCloudData`.
    unfoldable pub polling_loop :
        ℕ
        → ℕ
        → Bool
        → ℕ
        → LidarDevice F
        → LidarDataQueue (PointXyzlt F)
        → Lddc F
        → Option (LidarDataQueue (PointXyzlt F) × Lddc F)
    unfolding publish_loop
    polling_loop zero fuel request_exit index lidar queue c = none
    polling_loop (suc rounds) fuel request_exit index lidar queue c =
        elim (not request_exit && not (queue_is_empty queue)) [
          | false ↦ some (queue, c)
          | true ↦ elim (is_transfer_format c.transfer_format) [
            | true ↦
                (publish_loop fuel c.transfer_format index lidar queue c >>= λ r.
                polling_loop rounds fuel request_exit index lidar r.0 r.1)
            | false ↦ polling_loop rounds fuel request_exit index lidar queue c
          ]
        ]

    unfoldable pub polling_lidar_point_cloud_data :
        ℕ → Bool → ℕ → LidarDevice F → Lddc F → Option (LidarDataQueue (PointXyzlt F) × Lddc F)
    unfolding polling_loop
    polling_lidar_point_cloud_data fuel request_exit index lidar c =
        if is_null lidar.queue.storage_packet
        then some (lidar.queue, c)
        else polling_loop fuel fuel request_exit index lidar lidar.queue c

    unfoldable pub distribute_loop :
        ℕ → Bool → ℕ → ℕ → List (LidarDevice F) → Lddc F → Option (List (LidarDevice F) × Lddc F)
    unfolding polling_lidar_point_cloud_data
    distribute_loop fuel request_exit zero i lidars c = some (lidars, c)
    distribute_loop fuel request_exit (suc rounds) i [] c = none
    distribute_loop fuel request_exit (suc rounds) i (lidar ∷ lidars) c =
        elim (is_sampling lidar.connect_state) [
          | false ↦
              (distribute_loop fuel request_exit rounds (i + 1) lidars c >>= λ r.
              some (lidar ∷ r.0, r.1))
          | true ↦
              (polling_lidar_point_cloud_data fuel request_exit i lidar c >>= λ p.
              (distribute_loop fuel request_exit rounds (i + 1) lidars p.1 >>= λ r.
              some (record lidar { queue = p.0 } ∷ r.0, r.1)))
        ]

    unfoldable pub distribute_point_cloud_data : ℕ → Lddc F → Lds F → Option (Lddc F × Lds F)
    unfolding distribute_loop
    distribute_point_cloud_data fuel c s =
        if not c.registered || s.is_request_exit
        then some (c, s)
        else (Semaphore.wait s.pcd_semaphore >>= λ count.
            (distribute_loop fuel s.is_request_exit s.lidar_count 0 s.lidars c >>= λ r.
            some (r.1, record s { lidars = r.0; pcd_semaphore = count })))
