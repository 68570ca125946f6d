-- ===== src/Livox/Lds/Frames.antt =====
-- Whole frames and IMU samples from the SDK (lds.cpp).
use sentry25navi.Prelude.{
  ℕ, zero, suc, ◌+◌, ◌≤◌, ◌<◌, ◌≡◌, refl, true, false, some, List, [], ◌∷◌, ◌++◌, arith, inl, inr,
  Option-cases, length, get_elem?, set, get_elem?-some, ◌==◌,
}
use sentry25navi.Livox.Ldq.{StoragePacket, PointPacket}
use sentry25navi.Livox.Comm.{PointXyzlt, ImuData, LidarDevice, Frequency, livox_lidar_type}
use sentry25navi.Livox.CacheIndex.{get_index}
use sentry25navi.Livox.ImuQueue
use sentry25navi.Livox.CacheIndex.Laws.{get_index-lt}
use sentry25navi.Livox.Lds.{
  Lds, PointFrame, store_point, storage_loop, storage_point_data, storage_imu_data, signal_once,
}
use sentry25navi.Livox.Lds.Queues.{signal_once-pos}
use sentry25navi.Livox.Lds.Push.{Inv, push_lidar_data-Inv}

module _ {F : Type 0} (fresh : StoragePacket (PointXyzlt F)) (n : Frequency F) where
  store_point-Inv :
      {s : Lds F} (x : PointPacket (PointXyzlt F)) (t : ℕ)
      → Inv fresh n s
      → (s' : Lds F) × (store_point fresh n s x t ≡ some s') × Inv fresh n s'
  unfolding store_point
  store_point-Inv {s} x t inv =
      elim (Option-cases (get_index s.cache_index x.lidar_type x.handle)) [
        | inl e ↦ (s, rw (e, store_point) refl, inv)
        | inr (i, e) ↦
            let (s', p, inv') =
              push_lidar_data-Inv fresh n x i t inv
                (get_index-lt x.lidar_type x.handle inv.table e) in
            (s', rw (e, store_point) p, inv')
      ]

  storage_loop-Inv :
      (rounds i : ℕ) {s : Lds F} (frame : PointFrame F)
      → Inv fresh n s
      → i + rounds ≤ length frame.base_time
      → i + rounds ≤ length frame.lidar_point
      → (s' : Lds F) × (storage_loop fresh n rounds i s frame ≡ some s') × Inv fresh n s'
  unfolding storage_loop
  storage_loop-Inv zero i {s} frame inv times points = (s, refl, inv)
  storage_loop-Inv (suc rounds) i {s} frame inv times points =
      let (t, at) = get_elem?-some frame.base_time i (omega arith) in
      let (x, it) = get_elem?-some frame.lidar_point i (omega arith) in
      let (s', e, inv') = store_point-Inv x t inv in
      let (s'', f, inv'') =
        storage_loop-Inv rounds (i + 1) frame inv' (omega arith) (omega arith) in
      (s'', rw (at, it) (rw e f), inv'')

  -- No frame whose arrays hold its `lidar_num` entries makes the state fault, and the invariant stays.
  pub storage_point_data-Inv :
      {s : Lds F} (frame : PointFrame F)
      → Inv fresh n s
      → frame.lidar_num ≤ length frame.base_time
      → frame.lidar_num ≤ length frame.lidar_point
      → (s' : Lds F) × (storage_point_data fresh n s (some frame) ≡ some s') × Inv fresh n s'
  unfolding storage_point_data
  storage_point_data-Inv frame inv times points =
      storage_loop-Inv frame.lidar_num 0 frame inv (omega arith) (omega arith)

is_empty-push {ℓ} : {A : Type ℓ} (xs : List A) (x : A) → ImuQueue.is_empty (xs ++ x ∷ []) ≡ false
is_empty-push [] x = refl
is_empty-push (y ∷ xs) x = refl

-- A sample of a known device goes to the end of that device's queue and to no other place, and the
-- publisher of samples is not left asleep.
pub storage_imu_data_lem :
    {F : Type 0} (s : Lds F) (sample : ImuData F) (index : ℕ) {lidar : LidarDevice F}
    → sample.lidar_type ≡ livox_lidar_type
    → get_index s.cache_index sample.lidar_type sample.handle ≡ some index
    → get_elem? s.lidars index ≡ some lidar
    → (count : ℕ) × (storage_imu_data s sample
        ≡ some (record s {
          lidars = set s.lidars index (record lidar { imu_data = lidar.imu_data ++ sample ∷ [] });
          imu_semaphore = count;
        }))
      × (0 < count)
unfolding storage_imu_data
storage_imu_data_lem s sample index {lidar} known found at =
    let is : (sample.lidar_type == livox_lidar_type) ≡ true = ground (arith, known) in
    (
      signal_once s.imu_semaphore,
      rw is (rw found (rw (at, is_empty-push lidar.imu_data sample) refl)),
      signal_once-pos s.imu_semaphore,
    )
