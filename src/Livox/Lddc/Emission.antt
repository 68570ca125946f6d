-- ===== src/Livox/Lddc/Emission.antt =====
-- The messages of single packets (lddc.cpp).
use native.Mathlib.Numerals.{add-one}
use sentry25navi.Prelude.Word.{◌+u32◌, ◌-u64◌}
use sentry25navi.Prelude.{
  subst, true, false, ℕ, zero, suc, ◌+◌, ◌-◌, ◌%◌, ◌^◌, ◌≤◌, ◌<◌, ◌≡◌, refl, ap, ◌∙◌, some, List,
  [], ◌∷◌, ◌++◌, map, arith, inl, inr, Bool-cases, length, get_elem?, get_elem?-some, take, drop,
  ◌==◌,
}
use sentry25navi.Livox.Ldq.{StoragePacket}
use sentry25navi.Livox.Comm.{PointXyzlt, LidarDevice, max_source_lidar}
use sentry25navi.Livox.Messages.{
  Host, CustomMsg, CustomPoint, is_nil, timestamp, points_loop, PointCloud, cloud_with,
  point_to_pcl, init_custom_msg, init_pcl_msg, point_to_cloud2, point_to_custom,
  init_pointcloud2_msg, fill_points_to_custom_msg, fill_points_to_pcl_msg,
}
use sentry25navi.Livox.Lddc.Topics.{
  Posts, chained, posting, cloud_outlet, cloud_outlet_stays, places, place, content, map-fuse,
  send-Posts,
}
use sentry25navi.Livox.Lddc.Polling.{is_transfer_format}
use sentry25navi.Livox.Lddc.{
  Publisher, Message, Lddc, cloud2, custom, pcl, point_cloud2_msg, livox_custom_msg, pcl_pxyzi_msg,
  send, emit_pointcloud2, emit_custom, emit_pcl, emit,
}
use sentry25navi.Livox.Lddc.Publishers.{Fits, IsWhole, send-Fits, get_current_publisher-Fits}

drop-at :
    {A : Type 0} (xs : List A) (i : ℕ) {p : A}
    → get_elem? xs i ≡ some p
    → drop i xs ≡ p ∷ drop (suc i) xs
drop-at [] i h = absurd (ground arith)
drop-at (x ∷ xs) zero h = ground (arith, h)
drop-at (x ∷ xs) (suc i) h = drop-at xs i h

points_loop-from :
    {A B : Type 0} (f : A → B) (rounds i : ℕ) (points : List A)
    → i + rounds ≤ length points
    → points_loop f rounds i points ≡ some (map f (take rounds (drop i points)))
unfolding points_loop
points_loop-from f zero i points h = refl
points_loop-from f (suc rounds) i points h =
    let (p, at) = get_elem?-some points i (omega arith) in
    rw at (
      rw (points_loop-from f rounds (i + 1) points (omega arith))
        (rw (drop-at points i at, add-one) refl))

take-length : {A : Type 0} (xs : List A) → take (length xs) xs ≡ xs
take-length [] = refl
take-length (x ∷ xs) = rw (take-length xs) refl

-- A loop over as many points as a packet has makes one of each, in their order.
pub points_loop_lem :
    {A B : Type 0} (f : A → B) (n : ℕ) (points : List A)
    → length points ≡ n
    → points_loop f n 0 points ≡ some (map f points)
points_loop_lem f n points h =
    points_loop-from f n 0 points (omega arith)
    ∙ rw (← h) (ap (λ (ps : List _). some (map f ps)) (take-length points))

length-map : {A B : Type 0} (f : A → B) (xs : List A) → length (map f xs) ≡ length xs
length-map f [] = refl
length-map f (x ∷ xs) = ap suc (length-map f xs)

map-at :
    {A B : Type 0} (f : A → B) (xs : List A) (j : ℕ) {p : A}
    → get_elem? xs j ≡ some p
    → get_elem? (map f xs) j ≡ some (f p)
map-at f [] j h = absurd (ground arith)
map-at f (x ∷ xs) zero h = ground (arith, h)
map-at f (x ∷ xs) (suc j) h = map-at f xs j h

-- The low bits of a difference of two 64-bit times, when the first is not before the second.
low_bits-sub : (a b : ℕ) → b ≤ a → a < 2 ^ 64 → (a -u64 b) % 4294967296 ≡ (a - b) % 4294967296
low_bits-sub a b after word = omega arith

module _ {F : Type 0} (host : Host F) where
  -- The cloud of a packet with as many points as it says: one entry for each point, in order.
  pub init_pointcloud2_msg_lem :
      (frame_id : List ℕ) (pkg : StoragePacket (PointXyzlt F))
      → IsWhole pkg
      → init_pointcloud2_msg host frame_id pkg
        ≡ some (cloud_with host frame_id pkg (map (point_to_cloud2 host) pkg.points))
  unfolding init_pointcloud2_msg
  init_pointcloud2_msg_lem frame_id pkg whole =
      rw (points_loop_lem (point_to_cloud2 host) pkg.points_num pkg.points whole) refl

  pub fill_points_to_custom_msg-map :
      (msg : CustomMsg F) (pkg : StoragePacket (PointXyzlt F))
      → IsWhole pkg
      → fill_points_to_custom_msg host msg pkg
        ≡ some (record msg {
          points = msg.points ++ map (point_to_custom host pkg.base_time) pkg.points;
        })
  unfolding fill_points_to_custom_msg
  fill_points_to_custom_msg-map msg pkg whole =
      rw (points_loop_lem (point_to_custom host pkg.base_time) pkg.points_num pkg.points whole) refl

  -- `q` is the point `p` of a packet with the base time `base_time`.
  pub record IsCopy (base_time : ℕ) (p : PointXyzlt F) (q : CustomPoint F) : Type 0 where
    pub at : (q.x ≡ p.x) × (q.y ≡ p.y) × (q.z ≡ p.z)
    pub reflectivity : q.reflectivity ≡ host.to_uint8 p.intensity
    pub marks : (q.tag ≡ p.tag) × (q.line ≡ p.line)
    pub time :
        base_time ≤ p.offset_time
        → p.offset_time < 2 ^ 64
        → q.offset_time ≡ (p.offset_time - base_time) % 2 ^ 32

  point_to_custom-IsCopy :
      (base_time : ℕ) (p : PointXyzlt F) → IsCopy base_time p (point_to_custom host base_time p)
  point_to_custom-IsCopy base_time p = record {
    at = (refl, refl, refl);
    reflectivity = refl;
    marks = (refl, refl);
    time = low_bits-sub p.offset_time base_time;
  }

  -- A custom message keeps what it has, and gets behind its points one for each point of such a packet, in
  -- order: at the same place, with the same tag and line, the intensity as a byte and, if the point is not
  -- before the base time of the packet, the difference of the two times as a 32-bit number.
  pub fill_points_to_custom_msg_lem :
      (msg : CustomMsg F) (pkg : StoragePacket (PointXyzlt F))
      → IsWhole pkg
      → (ps : List (CustomPoint F)) × (fill_points_to_custom_msg host msg pkg
          ≡ some (record msg { points = msg.points ++ ps }))
        × (length ps ≡ length pkg.points)
        × ((j : ℕ) (p : PointXyzlt F)
            → get_elem? pkg.points j ≡ some p
            → (q : CustomPoint F) × (get_elem? ps j ≡ some q) × IsCopy pkg.base_time p q)
  fill_points_to_custom_msg_lem msg pkg whole = (
    map (point_to_custom host pkg.base_time) pkg.points,
    fill_points_to_custom_msg-map msg pkg whole,
    length-map (point_to_custom host pkg.base_time) pkg.points,
    λ j p at. (
      point_to_custom host pkg.base_time p,
      map-at (point_to_custom host pkg.base_time) pkg.points j at,
      point_to_custom-IsCopy pkg.base_time p,
    ),
  )

  fill_points_to_pcl_msg-map :
      (msg : PointCloud F) (pkg : StoragePacket (PointXyzlt F))
      → IsWhole pkg
      → is_nil pkg.points ≡ false
      → fill_points_to_pcl_msg host pkg msg
        ≡ some (record msg { points = msg.points ++ map (point_to_pcl host) pkg.points })
  unfolding fill_points_to_pcl_msg
  fill_points_to_pcl_msg-map msg pkg whole filled =
      let e = points_loop_lem (point_to_pcl host) pkg.points_num pkg.points whole in
      ground (arith, filled, e)

  -- A message sent after the publisher was found goes where those of the state before would go.
  send-outlet :
      {c c' : Lddc F} (p : Publisher) (t : F) (m : Message F) (ps : List (PointXyzlt F))
      → Posts c c' []
      → content m ≡ places (map place ps)
      → Posts c
          (send c'.enable_lidar_bag p t m c')
          (posting (cloud_outlet c) (places (map place ps)))
  send-outlet {c} {c'} p t m ps found same =
      subst (Posts c (send c'.enable_lidar_bag p t m c'))
        (rw (cloud_outlet_stays found) (ap (posting (cloud_outlet c)) same))
        (chained found (send-Posts c'.enable_lidar_bag p t m c'))

  -- A packet with points, as many as it says, goes out in each of the three formats, for each slot, without a
  -- fault.
  pub emit-Fits :
      {c : Lddc F} (format index : ℕ) (lidar : LidarDevice F) (pkg : StoragePacket (PointXyzlt F))
      → IsWhole pkg
      → is_nil pkg.points ≡ false
      → is_transfer_format format ≡ true
      → Fits c
      → index < max_source_lidar
      → (c' : Lddc F) × (emit host format index lidar pkg c ≡ some c')
        × Fits c'
        × Posts c c' (posting (cloud_outlet c) (places (map place pkg.points)))
  unfolding emit emit_pointcloud2 emit_custom emit_pcl init_custom_msg init_pcl_msg
  emit-Fits {c} format index lidar pkg whole filled ok fits small =
      elim (Bool-cases (format == point_cloud2_msg)) [
        | inl is ↦
            let cloud = cloud_with host c.frame_id pkg (map (point_to_cloud2 host) pkg.points) in
            let (p, c', e, f, g) = get_current_publisher-Fits host index lidar fits small in
            (
              send c'.enable_lidar_bag p (host.seconds (timestamp pkg)) (cloud2 cloud) c',
              rw is (rw (init_pointcloud2_msg_lem c.frame_id pkg whole) (rw e refl)),
              send-Fits host _ p _ _ c' f,
              send-outlet p (host.seconds (timestamp pkg)) (cloud2 cloud) pkg.points g
                  (ap places (map-fuse _ (point_to_cloud2 host) place pkg.points (λ a. refl))),
            )
        | inr not2 ↦ elim (Bool-cases (format == livox_custom_msg)) [
          | inl is ↦
              let start = init_custom_msg host c.frame_id c.msg_seq pkg lidar in
              let msg = record start {
                points = map (point_to_custom host pkg.base_time) pkg.points;
              } in
              let (p, c', e, f, g) =
                get_current_publisher-Fits host {c = record c { msg_seq = c.msg_seq +u32 1 }} index
                  lidar (record { pubs = fits.pubs; imu_pubs = fits.imu_pubs; known = fits.known })
                  small in
              (
                send c'.enable_lidar_bag p (host.seconds (timestamp pkg)) (custom msg) c',
                rw (not2, is) (rw (fill_points_to_custom_msg-map start pkg whole) (rw e refl)),
                send-Fits host _ p _ _ c' f,
                send-outlet p (host.seconds (timestamp pkg)) (custom msg) pkg.points
                    (record {
                      sent = g.sent;
                      output_type = g.output_type;
                      has_bag = g.has_bag;
                      enable_lidar_bag = g.enable_lidar_bag;
                      enable_imu_bag = g.enable_imu_bag;
                    })
                    (ap places (
                      map-fuse _ (point_to_custom host pkg.base_time) place pkg.points
                        (λ a. refl))),
              )
          | inr not_custom ↦
              let cloud : PointCloud F = record (init_pcl_msg host c.frame_id pkg) {
                points = map (point_to_pcl host) pkg.points;
              } in
              let is : (format == pcl_pxyzi_msg) ≡ true = ground (arith, not2, not_custom, ok) in
              let (p, c', e, f, g) = get_current_publisher-Fits host index lidar fits small in
              (
                send c'.enable_lidar_bag p (host.seconds (timestamp pkg)) (pcl cloud) c',
                rw (not2, not_custom, is)
                    (rw
                      (fill_points_to_pcl_msg-map (init_pcl_msg host c.frame_id pkg) pkg whole
                        filled)
                      (rw e refl)),
                send-Fits host _ p _ _ c' f,
                send-outlet p (host.seconds (timestamp pkg)) (pcl cloud) pkg.points g
                    (ap places (map-fuse _ (point_to_pcl host) place pkg.points (λ a. refl))),
              )
        ]
      ]
