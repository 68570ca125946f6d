-- ===== src/Livox/Lds/Init.antt =====
-- The data source as its constructor leaves it (lds.cpp, lds_lidar.cpp).
use sentry25navi.Prelude.{
  ℕ, zero, suc, ◌^◌, ◌<◌, ◌≡◌, refl, ap, ◌∙◌, subst, true, false, some, List, [], ◌∷◌, arith, inl,
  length, get_elem?,
}
use sentry25navi.Livox.Ldq.{StoragePacket, null, de_init_queue, queue_is_empty}
use sentry25navi.Livox.Comm.{PointXyzlt, off, LidarDevice, Frequency, max_source_lidar}
use sentry25navi.Livox.CacheIndex.{CacheIndex}
use sentry25navi.Livox.CacheIndex.Laws
use sentry25navi.Livox.Lds.{Lds, reset_lidar, reset_lidars, reset_lds, construct, construct_lidar}
use sentry25navi.Livox.Lds.Push.{Inv}

module _ {F : Type 0} where
  -- No array, as static storage starts a ring.
  abbrev pub IsBare : LidarDevice F → Type 0
  IsBare lidar = lidar.queue.storage_packet ≡ null

  -- What a reset leaves of a device without an array.
  pub record IsReset (lidar : LidarDevice F) : Type 0 where
    pub bare : IsBare lidar
    pub is_off : lidar.connect_state ≡ off
    pub ring_empty : queue_is_empty lidar.queue ≡ true
    pub samples : lidar.imu_data ≡ []

  abbrev pub Each : (LidarDevice F → Type 0) → List (LidarDevice F) → Type 0
  Each P lidars = (i : ℕ) (lidar : LidarDevice F) → get_elem? lidars i ≡ some lidar → P lidar

  Each-∷ :
      (P : LidarDevice F → Type 0) (l : LidarDevice F) (ls : List (LidarDevice F))
      → P l
      → Each P ls
      → Each P (l ∷ ls)
  Each-∷ P l ls p ps zero lidar h = subst P (ground (arith, h)) p
  Each-∷ P l ls p ps (suc i) lidar h = ps i lidar h

  reset_lidars-IsReset :
      (lidars : List (LidarDevice F)) (src : ℕ)
      → Each IsBare lidars
      → (ls : List (LidarDevice F)) × (reset_lidars lidars src ≡ some ls)
        × (length ls ≡ length lidars)
        × Each IsReset ls
  unfolding reset_lidars reset_lidar de_init_queue queue_is_empty
  reset_lidars-IsReset [] src bare = ([], refl, refl, λ i lidar h. absurd (ground arith))
  reset_lidars-IsReset (l ∷ lidars) src bare =
      let (ls, e, len, each) =
        reset_lidars-IsReset lidars src (λ i lidar h. bare (suc i) lidar h) in
      let nul : l.queue.storage_packet ≡ null = bare 0 l refl in
      let l' : LidarDevice F = record l {
        queue = record { storage_packet = null; rd_idx = 0; wr_idx = 0; mask = 0; size = 0 };
        imu_data = [];
        data_src = src;
        connect_state = off;
      } in
      (
        l' ∷ ls,
        rw nul (rw e refl),
        ap suc len,
        Each-∷ IsReset l' ls
            (record { bare = refl; is_off = refl; ring_empty = refl; samples = refl }) each,
      )

  -- Over 32 devices without an array, construction does not fault: it leaves the invariant of the data
  -- source, with every device off, every ring and every queue of samples empty and no signal pending.
  pub construct_lidar-Inv :
      (fresh : StoragePacket (PointXyzlt F)) (n : Frequency F) (lidars : List (LidarDevice F))
      (c : CacheIndex) (f : F)
      → length lidars ≡ max_source_lidar
      → Each IsBare lidars
      → Laws.IsValid c
      → n.truncate f < 2 ^ 31
      → (s : Lds F) × (construct_lidar lidars c f ≡ some s)
        × Inv fresh n s
        × Each IsReset s.lidars
        × (s.pcd_semaphore ≡ 0)
        × (s.imu_semaphore ≡ 0)
  unfolding construct_lidar construct reset_lds
  construct_lidar-Inv fresh n lidars c f len bare v small =
      let (ls, e, l, each) = reset_lidars-IsReset lidars 0 bare in
      let (ls', e', l', each') = reset_lidars-IsReset ls 0 (λ i lidar h. (each i lidar h).bare) in
      let s : Lds F = record {
        lidar_count = max_source_lidar;
        lidars = ls';
        pcd_semaphore = 0;
        imu_semaphore = 0;
        cache_index = c;
        publish_freq = f;
        data_src = 0;
        is_request_exit = false;
      } in
      (
        s,
        rw e (rw e' refl),
        record {
          devices = l' ∙ l ∙ len;
          table = v;
          ready = λ i lidar h. inl (each' i lidar h).bare;
          freq = small;
        },
        each',
        refl,
        refl,
      )
