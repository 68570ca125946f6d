-- ===== src/Livox/Lddc/Delivery.antt =====
-- What the publishing loops send of one device (lddc.cpp), against a fold over the packets that wait.
use sentry25navi.Prelude.{
  none, ℕ, zero, suc, ◌+◌, ◌<◌, ◌≡◌, refl, ap, true, false, Option, some, List, [], ◌∷◌, arith, inl,
  inr, Bool-cases, Option-cases, nil_of_length, subst, length,
}
use sentry25navi.Livox.Ldq.{StoragePacket, LidarDataQueue, null, queue_is_empty}
use sentry25navi.Livox.Ldq.Fifo.{
  Payload, handed, IsValid, contents, queue_is_empty-contents, pop_refines,
}
use sentry25navi.Livox.Comm.{PointXyzlt, LidarDevice, max_source_lidar}
use sentry25navi.Livox.Lds.{◌>>=◌}
use sentry25navi.Livox.Lds.Queues.{IsReady}
use sentry25navi.Livox.Messages.{Host, is_nil}
use sentry25navi.Livox.Lddc.{Lddc}
use sentry25navi.Livox.Lddc.Polling.{
  publish_packet, publish_loop, polling_loop, polling_lidar_point_cloud_data, is_transfer_format,
}
use sentry25navi.Livox.Lddc.Topics.{
  Posts, silence, chained, cloud_outlet, cloud_outlet_stays, awaited,
}
use sentry25navi.Livox.Lddc.Publishers.{Fits}
use sentry25navi.Livox.Lddc.Emission.{emit-Fits}

module _ {F : Type 0} where
  -- Packets with as many points as they say.
  pub data AllWhole : List (Payload (PointXyzlt F)) → Type 0 where
    whole_nil : AllWhole []
    whole_cons :
        {p : Payload (PointXyzlt F)} {ps : List (Payload (PointXyzlt F))}
        → length p.points ≡ p.points_num
        → AllWhole ps
        → AllWhole (p ∷ ps)

module _ {F : Type 0} (host : Host F) (fresh : StoragePacket (PointXyzlt F)) where
  -- The packets of a list published one after the other.
  unfoldable pub deliver :
      ℕ → ℕ → LidarDevice F → List (Payload (PointXyzlt F)) → Lddc F → Option (Lddc F)
  deliver format index lidar [] c = some c
  deliver format index lidar (p ∷ ps) c =
      publish_packet host format index lidar (handed fresh p) c >>= deliver format index lidar ps

  pub deliver-Fits :
      (format index : ℕ) (lidar : LidarDevice F) {ps : List (Payload (PointXyzlt F))}
      → AllWhole ps
      → is_transfer_format format ≡ true
      → {c : Lddc F} → Fits c
      → index < max_source_lidar
      → (c' : Lddc F) × (deliver format index lidar ps c ≡ some c')
        × Fits c'
        × Posts c c' (awaited (cloud_outlet c) ps)
  unfolding deliver publish_packet
  deliver-Fits format index lidar whole_nil ok {c} fits small = (c, refl, fits, silence c)
  deliver-Fits format index lidar (whole_cons {p = p} {ps = ps} w ws) ok {c} fits small =
      elim (Bool-cases (is_nil p.points)) [
        | inl bare ↦
            let (c', e, f, g) = deliver-Fits format index lidar ws ok fits small in
            (c', rw (bare, deliver, publish_packet) e, f, rw (bare, awaited) g)
        | inr more ↦
            let (c', e, f, g) =
              emit-Fits host format index lidar (handed fresh p) w more ok fits small in
            let (c'', e', f', g') = deliver-Fits format index lidar ws ok f small in
            (
              c'',
              rw (more, deliver, publish_packet) (rw e e'),
              f',
              rw (more, awaited)
                  (chained g (subst (λ o. Posts c' c'' (awaited o ps)) (cloud_outlet_stays g) g')),
            )
      ]

  -- The loop over a valid ring, with fuel for each waiting packet and one more, publishes exactly what
  -- waits, in order, and leaves the ring valid and empty.
  pub publish_loop-deliver :
      (d : StoragePacket (PointXyzlt F)) (fuel format index : ℕ) (lidar : LidarDevice F)
      {q : LidarDataQueue (PointXyzlt F)} (c c' : Lddc F)
      → IsValid q
      → length (contents d q) < fuel
      → deliver format index lidar (contents d q) c ≡ some c'
      → (q' : LidarDataQueue (PointXyzlt F)) × (publish_loop host fresh fuel format index lidar q c
          ≡ some (q', c'))
        × IsValid q'
        × (contents d q' ≡ [])
  unfolding publish_loop deliver
  publish_loop-deliver d zero format index lidar c c' v enough e = absurd (omega arith)
  publish_loop-deliver d (suc fuel) format index lidar {q} c c' v enough e =
      elim (Bool-cases (queue_is_empty q)) [
        | inl empty ↦
            let none_left : contents d q ≡ [] =
              nil_of_length (contents d q) (ground (arith, queue_is_empty-contents d v, empty)) in
            let same : deliver format index lidar [] c ≡ some c' =
              subst (λ ps. deliver format index lidar ps c ≡ some c') none_left e in
            (
              q,
              rw (empty, publish_loop) (ap (λ (r : Option (Lddc F)). r >>= λ x. some (q, x)) same),
              v,
              none_left,
            )
        | inr more ↦
            let (p, q1, popped, v1, s1, split) = pop_refines d fresh v more in
            elim (Option-cases (publish_packet host format index lidar (handed fresh p) c)) [
              | inl fault ↦ absurd (ground (arith, split, fault))
              | inr (c1, went) ↦
                  let (q', ran, v', left) =
                    publish_loop-deliver d fuel format index lidar c1 c' v1
                      (omega (arith, ap length split)) (ground (arith, split, went)) in
                  (q', rw (more, publish_loop) (rw popped (rw went ran)), v', left)
            ]
      ]

  contents-null :
      (d : StoragePacket (PointXyzlt F)) (q : LidarDataQueue (PointXyzlt F))
      → q.storage_packet ≡ null
      → contents d q ≡ []
  unfolding contents
  contents-null d q bare = rw bare refl

  no_packets :
      (d : StoragePacket (PointXyzlt F)) (format index : ℕ) (lidar : LidarDevice F)
      (q : LidarDataQueue (PointXyzlt F)) (c c' : Lddc F)
      → contents d q ≡ []
      → deliver format index lidar (contents d q) c ≡ some c'
      → c ≡ c'
  unfolding deliver
  no_packets d format index lidar q c c' w e = ground (arith, w)

  -- The same for a device whose ring may have no array yet.
  pub polling-deliver :
      (d : StoragePacket (PointXyzlt F)) (fuel index : ℕ) (lidar : LidarDevice F) (c c' : Lddc F)
      → IsReady lidar.queue
      → is_transfer_format c.transfer_format ≡ true
      → length (contents d lidar.queue) + 1 < fuel
      → deliver c.transfer_format index lidar (contents d lidar.queue) c ≡ some c'
      → (q' : LidarDataQueue (PointXyzlt F)) × (polling_lidar_point_cloud_data host fresh fuel false
            index lidar c
          ≡ some (q', c'))
        × IsReady q'
        × (contents d q' ≡ [])
  unfolding polling_lidar_point_cloud_data polling_loop
  polling-deliver d fuel index lidar c c' (inl bare) known enough e =
      let w : contents d lidar.queue ≡ [] = contents-null d lidar.queue bare in
      (
        lidar.queue,
        ground (arith, bare, no_packets d c.transfer_format index lidar lidar.queue c c' w e),
        inl bare,
        w,
      )
  polling-deliver d zero index lidar c c' (inr v) known enough e = absurd (omega arith)
  polling-deliver d (suc zero) index lidar c c' (inr v) known enough e = absurd (omega arith)
  polling-deliver d (suc (suc fuel)) index lidar c c' (inr v) known enough e =
      elim (Bool-cases (queue_is_empty lidar.queue)) [
        | inl empty ↦
            let w : contents d lidar.queue ≡ [] =
              nil_of_length (contents d lidar.queue)
                (ground (arith, queue_is_empty-contents d v, empty)) in
            (
              lidar.queue,
              ground (
                arith,
                empty,
                v.array,
                no_packets d c.transfer_format index lidar lidar.queue c c' w e,
              ),
              inr v,
              w,
            )
        | inr more ↦
            let (q', ran, v', w) =
              publish_loop-deliver d (suc (suc fuel)) c.transfer_format index lidar c c' v
                (omega arith) e in
            let done : queue_is_empty q' ≡ true = ground (arith, queue_is_empty-contents d v', w) in
            (q', ground (arith, v.array, more, known, ran, done), inr v', w)
      ]

  -- With a format that is none of the three, the loop over a ring that holds packets ends with no fuel: it
  -- goes round without taking a packet until an exit is requested.
  pub polling_loop_unknown :
      (rounds fuel index : ℕ) (lidar : LidarDevice F) (q : LidarDataQueue (PointXyzlt F))
      (c : Lddc F)
      → is_transfer_format c.transfer_format ≡ false
      → queue_is_empty q ≡ false
      → polling_loop host fresh rounds fuel false index lidar q c ≡ none
  unfolding polling_loop
  polling_loop_unknown zero fuel index lidar q c unknown more = refl
  polling_loop_unknown (suc rounds) fuel index lidar q c unknown more =
      ground (arith, unknown, more, polling_loop_unknown rounds fuel index lidar q c unknown more)
