-- ===== src/Livox/Lddc/Samples.antt =====
-- What one call of `DistributeImuData` sends (lddc.cpp).
use sentry25navi.Prelude.{
  subst, ◌++◌, true, map, if◌then◌else◌, Bool-cases, inl, inr, ◌≤◌, ◌+◌, ℕ, zero, suc, ◌<◌, ◌≡◌,
  refl, false, Option, some, List, [], ◌∷◌, arith, length,
}
use sentry25navi.Livox.Comm.{ImuData, LidarDevice, max_source_lidar}
use sentry25navi.Livox.Lds.{◌>>=◌, Lds}
use sentry25navi.Livox.Lds.Init.{Each}
use sentry25navi.Livox.Messages.{Host, init_imu_msg}
use sentry25navi.Livox.Lddc.{Lddc, imu, send, get_current_imu_publisher, publish_imu_data}
use sentry25navi.Livox.Lddc.Polling.{
  is_sampling, distribute_imu_loop, distribute_imu_data, polling_lidar_imu_data,
}
use sentry25navi.Livox.Lddc.Topics.{
  Outlet, Content, sample, posting, posted, Posts, silence, chained, imu_outlet, imu_outlet_stays,
  send-Posts,
}
use sentry25navi.Livox.Lddc.Publishers.{Fits, send-Fits, get_current_imu_publisher-Fits}

module _ {F : Type 0} (host : Host F) where
  -- One message for each sample, in order, on the publisher of the slot.
  unfoldable pub deliver_imu : ℕ → LidarDevice F → List (ImuData F) → Lddc F → Option (Lddc F)
  deliver_imu index lidar [] c = some c
  deliver_imu index lidar (x ∷ xs) c = get_current_imu_publisher host c index lidar >>= λ r.
      deliver_imu index lidar xs
        (send r.1.enable_imu_bag r.0 (host.seconds x.time_stamp) (imu (init_imu_msg host x)) r.1)

  -- One message for each sample, where messages of samples go.
  abbrev pub awaited_samples : Option Outlet → List (ImuData F) → List (Outlet × Content F)
  awaited_samples o [] = []
  awaited_samples o (x ∷ xs) = posting o (sample (init_imu_msg host x)) ++ awaited_samples o xs

  abbrev pub all_awaited_samples : Option Outlet → List (LidarDevice F) → List (Outlet × Content F)
  all_awaited_samples o [] = []
  all_awaited_samples o (lidar ∷ lidars) =
      if is_sampling lidar.connect_state
      then awaited_samples o lidar.imu_data ++ all_awaited_samples o lidars
      else all_awaited_samples o lidars

  polling_lidar_imu_data-Fits :
      (fuel index : ℕ) (lidar : LidarDevice F) (queue : List (ImuData F)) (c : Lddc F)
      → index < max_source_lidar
      → length queue < fuel
      → Fits c
      → (c' : Lddc F) × (polling_lidar_imu_data host fuel false index lidar queue c ≡ some ([], c'))
        × (deliver_imu index lidar queue c ≡ some c')
        × Fits c'
        × Posts c c' (awaited_samples (imu_outlet c) queue)
  unfolding polling_lidar_imu_data publish_imu_data deliver_imu
  polling_lidar_imu_data-Fits zero index lidar queue c small enough fits = absurd (omega arith)
  polling_lidar_imu_data-Fits (suc fuel) index lidar [] c small enough fits =
      (c, refl, refl, fits, silence c)
  polling_lidar_imu_data-Fits (suc fuel) index lidar (x ∷ xs) c small enough fits =
      let (p, c1, e, f, g) = get_current_imu_publisher-Fits host index lidar fits small in
      let c2 : Lddc F =
        send c1.enable_imu_bag p (host.seconds x.time_stamp) (imu (init_imu_msg host x)) c1 in
      let (c', ran, sent, f', g') =
        polling_lidar_imu_data-Fits fuel index lidar xs c2 small (omega arith) (
          send-Fits host c1.enable_imu_bag p (host.seconds x.time_stamp) (imu (init_imu_msg host x))
            c1 f) in
      let out : Posts c c2 (posting (imu_outlet c) (sample (init_imu_msg host x))) =
        subst (λ o. Posts c c2 (posting o (sample (init_imu_msg host x)))) (imu_outlet_stays g)
          (chained g (
            send-Posts c1.enable_imu_bag p (host.seconds x.time_stamp) (imu (init_imu_msg host x))
              c1)) in
      (
        c',
        rw e ran,
        rw e sent,
        f',
        chained out (subst (λ o. Posts c2 c' (awaited_samples o xs)) (imu_outlet_stays out) g'),
      )

  -- The samples of the sampling devices, device by device from slot `i` on.
  unfoldable pub delivered_imu : ℕ → List (LidarDevice F) → Lddc F → Option (Lddc F)
  delivered_imu i [] c = some c
  delivered_imu i (lidar ∷ lidars) c = elim (is_sampling lidar.connect_state) [
    | false ↦ delivered_imu (i + 1) lidars c
    | true ↦ deliver_imu i lidar lidar.imu_data c >>= delivered_imu (i + 1) lidars
  ]

  -- The devices after the samples of the sampling ones are gone.
  abbrev pub sent_all : LidarDevice F → LidarDevice F
  sent_all lidar = if is_sampling lidar.connect_state then record lidar { imu_data = [] } else lidar

  distribute_imu_loop-delivered :
      (fuel i : ℕ) (lidars : List (LidarDevice F)) (c : Lddc F)
      → Each (λ l. length l.imu_data < fuel) lidars
      → i + length lidars ≤ max_source_lidar
      → Fits c
      → (c' : Lddc F) × (distribute_imu_loop host fuel false (length lidars) i lidars c
          ≡ some (map sent_all lidars, c'))
        × (delivered_imu i lidars c ≡ some c')
        × Posts c c' (all_awaited_samples (imu_outlet c) lidars)
  unfolding distribute_imu_loop delivered_imu
  distribute_imu_loop-delivered fuel i [] c each small fits = (c, refl, refl, silence c)
  distribute_imu_loop-delivered fuel i (l ∷ lidars) c each small fits =
      elim (Bool-cases (is_sampling l.connect_state)) [
        | inl on ↦
            let (c1, ran, sent, f1, out1) =
              polling_lidar_imu_data-Fits fuel i l l.imu_data c (omega arith) (each 0 l refl)
                fits in
            let (c2, ran2, sent2, out2) =
              distribute_imu_loop-delivered fuel (i + 1) lidars c1
                (λ j lidar h. each (suc j) lidar h) (omega arith) f1 in
            (
              c2,
              ground (arith, on, ran, ran2),
              rw (on, delivered_imu) (rw sent sent2),
              rw (on, all_awaited_samples)
                  (chained out1 (
                    subst (λ o. Posts c1 c2 (all_awaited_samples o lidars)) (imu_outlet_stays out1)
                      out2)),
            )
        | inr idles ↦
            let (c2, ran2, sent2, out2) =
              distribute_imu_loop-delivered fuel (i + 1) lidars c
                (λ j lidar h. each (suc j) lidar h) (omega arith) fits in
            (
              c2,
              ground (arith, idles, ran2),
              rw (idles, delivered_imu) sent2,
              rw (idles, all_awaited_samples) out2,
            )
      ]

  -- A call with a signal pending, on a registered source that is not asked to exit, of at most 32 devices,
  -- ends with fuel for one more round than the fullest queue has samples, if the arrays of publishers have a
  -- place for each slot and the transfer format is 0, 1 or 2. It publishes the samples of the sampling
  -- devices, slot by slot and oldest first, empties those queues, takes the signal and changes nothing else
  -- of the source. Behind what was sent before, there is for each of those samples its message: on a topic
  -- if the output is ROS, else in the bag if there is one and it is enabled for samples, else none.
  pub distribute_imu_data_lem :
      (fuel count : ℕ) (c : Lddc F) (s : Lds F)
      → c.registered ≡ true
      → s.is_request_exit ≡ false
      → s.imu_semaphore ≡ suc count
      → s.lidar_count ≡ length s.lidars
      → s.lidar_count ≤ max_source_lidar
      → Each (λ l. length l.imu_data < fuel) s.lidars
      → Fits c
      → (c' : Lddc F) × (distribute_imu_data host fuel c s
          ≡ some (c', record s { lidars = map sent_all s.lidars; imu_semaphore = count }))
        × (delivered_imu 0 s.lidars c ≡ some c')
        × (map posted c'.sent ≡ map posted c.sent ++ all_awaited_samples (imu_outlet c) s.lidars)
  unfolding distribute_imu_data
  distribute_imu_data_lem fuel count c s reg no_exit signal all small each fits =
      let (c', ran, sent, out) =
        distribute_imu_loop-delivered fuel 0 s.lidars c each (omega (arith, all)) fits in
      (c', ground (arith, reg, no_exit, signal, all, ran), sent, out.sent)
