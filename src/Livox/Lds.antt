-- ===== src/Livox/Lds.antt =====
-- The data source that the SDK callbacks fill and the publisher drains, lds.h and lds.cpp. A call is one
-- step on the state; `none` is a fault, an index outside of `lidars_` or a fault of a queue.
pub mod Queues
pub mod Traffic
pub mod Push
pub mod Frames
pub mod Init
mod Tests
use sentry25navi.Prelude.{
  ℕ, zero, suc, ◌+◌, ◌^◌, Bool, true, false, not, ◌&&◌, Option, none, some, List, [], ◌∷◌, ◌==◌,
  if◌then◌else◌, get_elem?, set, take,
}
use sentry25navi.Livox.Ldq.{
  StoragePacket, PointPacket, LidarDataQueue, Storage, null, freed, live, init_queue, de_init_queue,
  queue_used_size, queue_is_full, queue_is_empty, queue_push_any,
}
use sentry25navi.Livox.Comm.{
  max_source_lidar, livox_lidar_type, LidarConnectState, off, sampling, PointXyzlt, ImuData,
  LidarDevice, Frequency, calculate_packet_queue_size,
}
use sentry25navi.Livox.CacheIndex.{CacheIndex, get_index, lvx_get_index}
use sentry25navi.Livox.ImuQueue
use sentry25navi.Livox.Semaphore

infixl 5 ◌>>=◌
abbrev pub ◌>>=◌ {ℓ κ} : {A : Type ℓ} {B : Type κ} → Option A → (A → Option B) → Option B
none >>= f = none
some a >>= f = f a

-- `base_time` and `lidar_point` are arrays of 32.
pub record PointFrame (F : Type 0) : Type 0 where
  pub base_time : List ℕ
  pub lidar_num : ℕ
  pub lidar_point : List (PointPacket (PointXyzlt F))

pub record Lds (F : Type 0) : Type 0 where
  pub lidar_count : ℕ
  pub lidars : List (LidarDevice F)
  pub pcd_semaphore : ℕ
  pub imu_semaphore : ℕ
  pub cache_index : CacheIndex
  pub publish_freq : F
  pub data_src : ℕ
  pub is_request_exit : Bool

-- A signal unless one is pending, as each producer does: the count is tested, then raised.
unfoldable pub signal_once : ℕ → ℕ
signal_once count = if count == 0 then Semaphore.signal count else count

abbrev pub is_null : {A : Type 0} → Storage A → Bool
is_null null = true
is_null freed = false
is_null (live ps) = false

-- `kSourceRawLidar`
abbrev pub source_raw_lidar : ℕ
source_raw_lidar = 0

module _ {F : Type 0} where
  unfoldable pub reset_lidar : LidarDevice F → ℕ → Option (LidarDevice F)
  reset_lidar lidar data_src = do
    (done, q) ← de_init_queue lidar.queue
    some (record lidar {
      queue = q;
      imu_data = ImuQueue.clear lidar.imu_data;
      data_src = data_src;
      connect_state = off;
    })

  unfoldable pub set_lidar_data_src : LidarDevice F → ℕ → LidarDevice F
  set_lidar_data_src lidar data_src = record lidar { data_src = data_src }

  unfoldable pub reset_lidars : List (LidarDevice F) → ℕ → Option (List (LidarDevice F))
  unfolding reset_lidar
  reset_lidars [] data_src = some []
  reset_lidars (lidar ∷ lidars) data_src = do
    l ← reset_lidar lidar data_src
    ls ← reset_lidars lidars data_src
    some (l ∷ ls)

  unfoldable pub reset_lds : Lds F → ℕ → Option (Lds F)
  unfolding reset_lidars
  reset_lds s data_src = do
    ls ← reset_lidars s.lidars data_src
    some (record s { lidar_count = max_source_lidar; lidars = ls })

  -- The members that the constructor does not set, `lidars_`, start as the storage of the object holds them.
  unfoldable pub construct : List (LidarDevice F) → CacheIndex → F → ℕ → Option (Lds F)
  unfolding reset_lds
  construct lidars cache_index publish_freq data_src =
      reset_lds
        (record {
          lidar_count = max_source_lidar;
          lidars = lidars;
          pcd_semaphore = 0;
          imu_semaphore = 0;
          cache_index = cache_index;
          publish_freq = publish_freq;
          data_src = data_src;
          is_request_exit = false;
        })
        data_src

  -- `LdsLidar`, whose own constructor resets the base once more.
  unfoldable pub construct_lidar : List (LidarDevice F) → CacheIndex → F → Option (Lds F)
  unfolding construct
  construct_lidar lidars cache_index publish_freq = do
    s ← construct lidars cache_index publish_freq source_raw_lidar
    reset_lds s source_raw_lidar

  -- The destructor.
  unfoldable pub destroy : Lds F → Option (Lds F)
  unfolding reset_lds
  destroy s = reset_lds (record s { lidar_count = 0 }) 0

  unfoldable pub clean_request_exit : Lds F → Lds F
  clean_request_exit s = record s { is_request_exit = false }

  unfoldable pub request_exit : Lds F → Lds F
  request_exit s = record s { is_request_exit = true }

  all_empty : List (LidarDevice F) → Bool
  all_empty [] = true
  all_empty (lidar ∷ lidars) = queue_is_empty lidar.queue && all_empty lidars

  unfoldable pub is_all_queue_empty : Lds F → Bool
  unfolding all_empty
  is_all_queue_empty s = all_empty (take s.lidar_count s.lidars)

  all_read : List (LidarDevice F) → Bool
  all_read [] = true
  all_read (lidar ∷ lidars) = queue_used_size lidar.queue == 0 && all_read lidars

  unfoldable pub is_all_queue_read_stop : Lds F → Bool
  unfolding all_read
  is_all_queue_read_stop s = all_read (take s.lidar_count s.lidars)

  -- The queue holds what was pushed, so it is not empty, and the test before the signal passes.
  unfoldable pub storage_imu_data : Lds F → ImuData F → Option (Lds F)
  storage_imu_data s imu_data =
      if not (imu_data.lidar_type == livox_lidar_type)
      then some s
      else elim (get_index s.cache_index imu_data.lidar_type imu_data.handle) [
        | none ↦ some s
        | some index ↦
            (get_elem? s.lidars index >>= λ lidar.
            let q = ImuQueue.push lidar.imu_data imu_data in
            some (record s {
              lidars = set s.lidars index (record lidar { imu_data = q });
              imu_semaphore =
                  if not (ImuQueue.is_empty q)
                  then signal_once s.imu_semaphore
                  else s.imu_semaphore;
            }))
      ]

  -- The rest takes what a new packet holds, and the operations on a frequency.
  module _ (fresh : StoragePacket (PointXyzlt F)) (n : Frequency F) where
    -- A queue with no array gets one.
    unfoldable pub ensured :
        LidarDataQueue (PointXyzlt F) → F → Option (LidarDataQueue (PointXyzlt F))
    ensured queue publish_freq =
        if is_null queue.storage_packet
        then (init_queue fresh queue (calculate_packet_queue_size n publish_freq) >>= λ r. some r.1)
        else some queue

    -- The queue after the push, and the count of the semaphore.
    unfoldable pub offered :
        LidarDataQueue (PointXyzlt F)
        → PointPacket (PointXyzlt F)
        → ℕ
        → ℕ
        → Option (LidarDataQueue (PointXyzlt F) × ℕ)
    offered queue lidar_data base_time count =
        if not (queue_is_full queue)
        then (queue_push_any queue lidar_data base_time >>= λ r.
            some (r.1, if not (queue_is_empty r.1) then signal_once count else count))
        else some (queue, signal_once count)

    unfoldable pub push_lidar_data : Lds F → PointPacket (PointXyzlt F) → ℕ → ℕ → Option (Lds F)
    push_lidar_data s lidar_data index base_time = do
      lidar ← get_elem? s.lidars index
      queue ← ensured lidar.queue s.publish_freq
      (q, count) ← offered queue lidar_data base_time s.pcd_semaphore
      some (record s {
        lidars = set s.lidars index (record lidar { queue = q });
        pcd_semaphore = count;
      })

    -- One round of the loop of `StoragePointData`.
    unfoldable pub store_point : Lds F → PointPacket (PointXyzlt F) → ℕ → Option (Lds F)
    store_point s lidar_point base_time =
        elim (get_index s.cache_index lidar_point.lidar_type lidar_point.handle) [
          | none ↦ some s
          | some index ↦ push_lidar_data s lidar_point index base_time
        ]

    -- `rounds` rounds are left, from entry `i` on.
    unfoldable pub storage_loop : ℕ → ℕ → Lds F → PointFrame F → Option (Lds F)
    storage_loop zero i s frame = some s
    storage_loop (suc rounds) i s frame = do
      base_time ← get_elem? frame.base_time i
      lidar_point ← get_elem? frame.lidar_point i
      s' ← store_point s lidar_point base_time
      storage_loop rounds (i + 1) s' frame

    unfoldable pub storage_point_data : Lds F → Option (PointFrame F) → Option (Lds F)
    unfolding storage_loop
    storage_point_data s none = some s
    storage_point_data s (some frame) = storage_loop frame.lidar_num 0 s frame

    unfoldable pub store_lvx_point : Lds F → PointPacket (PointXyzlt F) → ℕ → Option (Lds F)
    store_lvx_point s lidar_point base_time =
        let found = lvx_get_index s.cache_index lidar_point.lidar_type lidar_point.handle in
        let s' = record s { cache_index = found.1 } in
        elim found.0 [
          | none ↦ some s'
          | some index ↦
              (get_elem? s.lidars index >>= λ lidar.
              push_lidar_data
                (record s' {
                  lidars = set s.lidars index (record lidar { connect_state = sampling });
                })
                lidar_point index base_time)
        ]

    unfoldable pub storage_lvx_loop : ℕ → ℕ → Lds F → PointFrame F → Option (Lds F)
    storage_lvx_loop zero i s frame = some s
    storage_lvx_loop (suc rounds) i s frame = do
      base_time ← get_elem? frame.base_time i
      lidar_point ← get_elem? frame.lidar_point i
      s' ← store_lvx_point s lidar_point base_time
      storage_lvx_loop rounds (i + 1) s' frame

    unfoldable pub storage_lvx_point_data : Lds F → Option (PointFrame F) → Option (Lds F)
    unfolding storage_lvx_loop
    storage_lvx_point_data s none = some s
    storage_lvx_point_data s (some frame) = storage_lvx_loop frame.lidar_num 0 s frame
