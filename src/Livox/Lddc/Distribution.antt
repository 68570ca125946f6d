-- ===== src/Livox/Lddc/Distribution.antt =====
-- One call of `DistributePointCloudData` (lddc.cpp): every packet that waits goes out.
use sentry25navi.Prelude.{
  if◌then◌else◌, map, ◌++◌, subst, ℕ, suc, ◌+◌, ◌≤◌, ◌<◌, ◌≡◌, refl, true, false, Option, some,
  List, [], ◌∷◌, arith, inl, inr, Bool-cases, length,
}
use sentry25navi.Livox.Ldq.{StoragePacket, LidarDataQueue}
use sentry25navi.Livox.Ldq.Fifo.{contents}
use sentry25navi.Livox.Comm.{PointXyzlt, LidarDevice, max_source_lidar}
use sentry25navi.Livox.Lds.{◌>>=◌, Lds}
use sentry25navi.Livox.Lds.Queues.{IsReady}
use sentry25navi.Livox.Lds.Init.{Each}
use sentry25navi.Livox.Messages.{Host}
use sentry25navi.Livox.Lddc.{Lddc}
use sentry25navi.Livox.Lddc.Polling.{is_sampling, distribute_loop, distribute_point_cloud_data}
use sentry25navi.Livox.Lddc.Topics.{
  Outlet, Content, posted, Posts, silence, chained, cloud_outlet, cloud_outlet_stays, awaited,
}
use sentry25navi.Livox.Lddc.Publishers.{Fits}
use sentry25navi.Livox.Lddc.Delivery.{deliver, AllWhole, deliver-Fits, polling-deliver}

module _ {F : Type 0} (host : Host F) (fresh d : StoragePacket (PointXyzlt F)) where
  -- What the rings of the sampling devices hold, published device by device from slot `i` on.
  unfoldable pub delivered : ℕ → List (LidarDevice F) → Lddc F → Option (Lddc F)
  delivered i [] c = some c
  delivered i (lidar ∷ lidars) c = elim (is_sampling lidar.connect_state) [
    | false ↦ delivered (i + 1) lidars c
    | true ↦
        deliver host fresh c.transfer_format i lidar (contents d lidar.queue) c
        >>= delivered (i + 1) lidars
  ]

  -- What the packets in the rings of the sampling devices lead to, device by device.
  abbrev pub all_awaited : Option Outlet → List (LidarDevice F) → List (Outlet × Content F)
  all_awaited o [] = []
  all_awaited o (lidar ∷ lidars) =
      if is_sampling lidar.connect_state
      then awaited o (contents d lidar.queue) ++ all_awaited o lidars
      else all_awaited o lidars

  -- A device whose ring is ready, holds packets with as many points as they say, and fewer than the fuel.
  pub record IsPollable (fuel : ℕ) (lidar : LidarDevice F) : Type 0 where
    pub ready : IsReady lidar.queue
    pub whole : AllWhole (contents d lidar.queue)
    pub enough : length (contents d lidar.queue) + 1 < fuel

  -- Devices before and after: only the ring of a sampling device is another, and it is empty.
  pub data Drained : List (LidarDevice F) → List (LidarDevice F) → Type 0 where
    drained_nil : Drained [] []
    idle :
        {l : LidarDevice F} {ls ls' : List (LidarDevice F)}
        → is_sampling l.connect_state ≡ false
        → Drained ls ls'
        → Drained (l ∷ ls) (l ∷ ls')
    polled :
        {l : LidarDevice F} {ls ls' : List (LidarDevice F)} {q : LidarDataQueue (PointXyzlt F)}
        → is_sampling l.connect_state ≡ true
        → IsReady q
        → contents d q ≡ []
        → Drained ls ls'
        → Drained (l ∷ ls) (record l { queue = q } ∷ ls')

  distribute_loop-delivered :
      (fuel i : ℕ) (lidars : List (LidarDevice F)) (c : Lddc F)
      → Each (IsPollable fuel) lidars
      → i + length lidars ≤ max_source_lidar
      → Fits c
      → (ls : List (LidarDevice F)) × (c' : Lddc F) × (distribute_loop host fresh fuel false
            (length lidars)
            i
            lidars
            c
          ≡ some (ls, c'))
        × (delivered i lidars c ≡ some c')
        × Fits c'
        × Drained lidars ls
        × Posts c c' (all_awaited (cloud_outlet c) lidars)
  unfolding distribute_loop delivered
  distribute_loop-delivered fuel i [] c each small fits =
      ([], c, refl, refl, fits, drained_nil, silence c)
  distribute_loop-delivered fuel i (l ∷ lidars) c each small fits =
      elim (Bool-cases (is_sampling l.connect_state)) [
        | inl on ↦
            let p = each 0 l refl in
            let (c1, sent, fits1, out1) =
              deliver-Fits host fresh c.transfer_format i l p.whole fits.known fits (omega arith) in
            let (q, ran, ready, w) =
              polling-deliver host fresh d fuel i l c c1 p.ready fits.known p.enough sent in
            let (ls, c2, ran2, sent2, fits2, drained, out2) =
              distribute_loop-delivered fuel (i + 1) lidars c1 (λ j lidar h. each (suc j) lidar h)
                (omega arith) fits1 in
            (
              record l { queue = q } ∷ ls,
              c2,
              rw (on, distribute_loop) (rw ran (rw ran2 refl)),
              rw (on, delivered) (rw sent sent2),
              fits2,
              polled on ready w drained,
              rw (on, all_awaited)
                  (chained out1 (
                    subst (λ o. Posts c1 c2 (all_awaited o lidars)) (cloud_outlet_stays out1)
                      out2)),
            )
        | inr idles ↦
            let (ls, c2, ran2, sent2, fits2, drained, out2) =
              distribute_loop-delivered fuel (i + 1) lidars c (λ j lidar h. each (suc j) lidar h)
                (omega arith) fits in
            (
              l ∷ ls,
              c2,
              rw (idles, distribute_loop) (rw ran2 refl),
              rw (idles, delivered) sent2,
              fits2,
              idle idles drained,
              rw (idles, all_awaited) out2,
            )
      ]

  -- A call with a signal pending, on a registered source that is not asked to exit, of at most 32 devices
  -- whose rings have no array or are valid and hold packets with as many points as they say, ends with fuel
  -- for two more rounds than the fullest ring has packets, if the arrays of publishers have a place for each
  -- slot and the transfer format is 0, 1 or 2. It publishes what waits in the rings of the sampling devices,
  -- slot by slot and oldest first, empties those rings, takes the signal and changes nothing else of the
  -- source. Behind what was sent before, there is for each of those packets that has points one cloud with
  -- the places of its points: on a topic if the output is ROS, else in the bag if there is one and it is
  -- enabled for clouds, else none.
  pub distribute_point_cloud_data_lem :
      (fuel count : ℕ) (c : Lddc F) (s : Lds F)
      → c.registered ≡ true
      → s.is_request_exit ≡ false
      → s.pcd_semaphore ≡ suc count
      → s.lidar_count ≡ length s.lidars
      → s.lidar_count ≤ max_source_lidar
      → Each (IsPollable fuel) s.lidars
      → Fits c
      → (ls : List (LidarDevice F)) × (c' : Lddc F) × (distribute_point_cloud_data host fresh fuel c
            s
          ≡ some (c', record s { lidars = ls; pcd_semaphore = count }))
        × (delivered 0 s.lidars c ≡ some c')
        × Drained s.lidars ls
        × (map posted c'.sent ≡ map posted c.sent ++ all_awaited (cloud_outlet c) s.lidars)
  unfolding distribute_point_cloud_data
  distribute_point_cloud_data_lem fuel count c s reg no_exit signal all small each fits =
      let (ls, c', ran, sent, fits', drained, out) =
        distribute_loop-delivered fuel 0 s.lidars c each (omega (arith, all)) fits in
      (ls, c', ground (arith, reg, no_exit, signal, all, ran), sent, drained, out.sent)
