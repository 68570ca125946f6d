-- ===== src/Livox/Lds/Push.antt =====
-- `PushLidarData` on the whole state (lds.cpp).
use sentry25navi.Prelude.{
  ℕ, ◌^◌, ◌<◌, ◌≡◌, refl, ◌∙◌, some, [], ◌∷◌, ◌++◌, arith, inl, inr, length, leb, if◌then◌else◌,
  get_elem?, set, length-set, get_elem?-some, get_elem?-set_cases,
}
use sentry25navi.Livox.Ldq.{StoragePacket, PointPacket, LidarDataQueue}
use sentry25navi.Livox.Ldq.Fifo.{arriving, IsValid, contents}
use sentry25navi.Livox.Comm.{PointXyzlt, LidarDevice, Frequency, max_source_lidar}
use sentry25navi.Livox.CacheIndex.Laws
use sentry25navi.Livox.Lds.{Lds, push_lidar_data}
use sentry25navi.Livox.Lds.Queues.{IsReady, ensured-IsValid, offered_refines}

module _ {F : Type 0} (fresh : StoragePacket (PointXyzlt F)) (n : Frequency F) where
  -- 32 devices, a valid table of slots, and no ring that is freed or out of shape.
  pub record Inv (s : Lds F) : Type 0 where
    pub devices : length s.lidars ≡ max_source_lidar
    pub table : Laws.IsValid s.cache_index
    pub ready :
        (i : ℕ) (lidar : LidarDevice F) → get_elem? s.lidars i ≡ some lidar → IsReady lidar.queue
    pub freq : n.truncate s.publish_freq < 2 ^ 31

  -- Pushing to a slot with a ready ring does not fault. Only that device's ring and the count of the
  -- point-cloud semaphore change: the ring gets the packet at its end, unless it is full, and the count
  -- is above 0, so the publisher does not stay asleep.
  pub push_lidar_data_lem :
      (d : StoragePacket (PointXyzlt F)) (s : Lds F) (x : PointPacket (PointXyzlt F)) (index t : ℕ)
      {lidar : LidarDevice F}
      → n.truncate s.publish_freq < 2 ^ 31
      → get_elem? s.lidars index ≡ some lidar
      → IsReady lidar.queue
      → (q : LidarDataQueue (PointXyzlt F)) × (count : ℕ) × (push_lidar_data fresh n s x index t
          ≡ some (record s {
            lidars = set s.lidars index (record lidar { queue = q });
            pcd_semaphore = count;
          }))
        × IsValid q
        × (0 < count)
        × (contents d q ≡ (
            if leb q.size (length (contents d lidar.queue))
            then contents d lidar.queue
            else contents d lidar.queue ++ arriving x t ∷ []))
  unfolding push_lidar_data
  push_lidar_data_lem d s x index t {lidar} small at ready =
      let (q, e, v, c) = ensured-IsValid fresh n d {q = lidar.queue} s.publish_freq small ready in
      let (q', count, o, v', size, pos, c') = offered_refines fresh n d x t s.pcd_semaphore v in
      (q', count, rw (at, e) (rw o refl), v', pos, rw (size, ← c) c')

  -- The invariant survives a push to any of its slots.
  pub push_lidar_data-Inv :
      {s : Lds F} (x : PointPacket (PointXyzlt F)) (index t : ℕ)
      → Inv s
      → index < max_source_lidar
      → (s' : Lds F) × (push_lidar_data fresh n s x index t ≡ some s') × Inv s'
  push_lidar_data-Inv {s} x index t inv small =
      let (lidar, at) = get_elem?-some s.lidars index (omega (arith, inv.devices)) in
      let (q, count, e, v, pos, c) =
        push_lidar_data_lem fresh s x index t inv.freq at (inv.ready index lidar at) in
      (_, e, updated lidar q count v)
    where
      updated :
          (lidar : LidarDevice F) (q : LidarDataQueue (PointXyzlt F)) (count : ℕ)
          → IsValid q
          → Inv (record s {
            lidars = set s.lidars index (record lidar { queue = q });
            pcd_semaphore = count;
          })
      updated lidar q count v = record {
        devices = length-set s.lidars index (record lidar { queue = q }) ∙ inv.devices;
        table = inv.table;
        ready = λ i l h. elim (get_elem?-set_cases s.lidars index i h) [
          | inl (at, new) ↦ rw new (inr v)
          | inr old ↦ inv.ready i l old
        ];
        freq = inv.freq;
      }
