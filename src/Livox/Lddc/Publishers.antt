-- ===== src/Livox/Lddc/Publishers.antt =====
-- The publishers of topics: each is opened once (lddc.cpp).
use sentry25navi.Prelude.{
  ℕ, ◌/◌, ◌*◌, ◌<◌, ◌≡◌, refl, ◌∙◌, Bool, true, Option, some, List, [], ◌∷◌, ◌++◌, map, arith, inl,
  inr, Bool-cases, Option-cases, length, length-set, get_elem?, get_elem?-some, get_elem?-set_self,
  get_elem?-lt, set, take,
}
use sentry25navi.Livox.Ldq.{StoragePacket}
use sentry25navi.Livox.Comm.{PointXyzlt, LidarDevice, max_source_lidar}
use sentry25navi.Livox.Comm.Names.{replace_period_by_underline_lem, underline}
use sentry25navi.Livox.Messages.{Host}
use sentry25navi.Livox.Lddc.Polling.{is_transfer_format}
use sentry25navi.Livox.Lddc.Topics.{Posts, silence}
use sentry25navi.Livox.Lddc.{
  Publisher, Lddc, Message, topic_of, advertise, lidar_topic, imu_topic, min_eth_packet_queue_size,
  advertised_imu, send, get_current_publisher, get_current_imu_publisher,
}

module _ {F : Type 0} where
  -- The arrays of publishers have a place for each slot, and the format is one of the three.
  pub record Fits (c : Lddc F) : Type 0 where
    pub pubs : length c.private_pub ≡ max_source_lidar
    pub imu_pubs : length c.private_imu_pub ≡ max_source_lidar
    pub known : is_transfer_format c.transfer_format ≡ true

  -- As many points as it says.
  abbrev pub IsWhole : StoragePacket (PointXyzlt F) → Type 0
  IsWhole pkg = length pkg.points ≡ pkg.points_num

  abbrev pub SomeFits : Lddc F → Option (Publisher × Lddc F) → Type 0
  SomeFits c r = (p : Publisher) × (c' : Lddc F) × (r ≡ some (p, c')) × Fits c' × Posts c c' []

  rearranged :
      (c : Lddc F) (ps : List (Option Publisher)) (g : Option Publisher)
      (qs : List (Option Publisher)) (h : Option Publisher)
      → Posts c
          (record c { private_pub = ps; global_pub = g; private_imu_pub = qs; global_imu_pub = h })
          []
  rearranged c ps g qs h =
      let same = silence c in
      record {
        sent = same.sent;
        output_type = refl;
        has_bag = refl;
        enable_lidar_bag = refl;
        enable_imu_bag = refl;
      }

module _ {F : Type 0} (host : Host F) where
  topic_of-known :
      (base : List ℕ) (ip : List ℕ)
      → topic_of base ip ≡ some (take 47 (base ++ b'_' ∷ map underline ip))
  topic_of-known base ip = rw (replace_period_by_underline_lem ip) refl

  pub get_current_publisher-Fits :
      {c : Lddc F} (index : ℕ) (lidar : LidarDevice F)
      → Fits c
      → index < max_source_lidar
      → SomeFits c (get_current_publisher host c index lidar)
  unfolding get_current_publisher
  get_current_publisher-Fits {c} index lidar fits small = elim (Bool-cases c.use_multi_topic) [
    | inl multi ↦
        let (o, at) = get_elem?-some c.private_pub index (omega (arith, fits.pubs)) in
        elim (Option-cases o) [
          | inl new ↦
              let topic =
                take 47 (lidar_topic ++ b'_' ∷ map underline (host.inet_ntoa lidar.handle)) in
              let p = advertise c.transfer_format topic (min_eth_packet_queue_size / 8) in
              let known = topic_of-known lidar_topic (host.inet_ntoa lidar.handle) in
              (
                p,
                record c { private_pub = set c.private_pub index (some p) },
                ground (arith, multi, at, new, known),
                record {
                  pubs = length-set c.private_pub index (some p) ∙ fits.pubs;
                  imu_pubs = fits.imu_pubs;
                  known = fits.known;
                },
                rearranged c (set c.private_pub index (some p)) c.global_pub c.private_imu_pub
                    c.global_imu_pub,
              )
          | inr (p, old) ↦ (p, c, ground (arith, multi, at, old), fits, silence c)
        ]
    | inr single ↦ elim (Option-cases c.global_pub) [
      | inl new ↦
          let p = advertise c.transfer_format lidar_topic (min_eth_packet_queue_size * 8) in
          (
            p,
            record c { global_pub = some p },
            ground (arith, single, new),
            record { pubs = fits.pubs; imu_pubs = fits.imu_pubs; known = fits.known },
            rearranged c c.private_pub (some p) c.private_imu_pub c.global_imu_pub,
          )
      | inr (p, old) ↦ (p, c, ground (arith, single, old), fits, silence c)
    ]
  ]

  pub get_current_imu_publisher-Fits :
      {c : Lddc F} (handle : ℕ) (lidar : LidarDevice F)
      → Fits c
      → handle < max_source_lidar
      → SomeFits c (get_current_imu_publisher host c handle lidar)
  unfolding get_current_imu_publisher
  get_current_imu_publisher-Fits {c} handle lidar fits small = elim (Bool-cases c.use_multi_topic) [
    | inl multi ↦
        let (o, at) = get_elem?-some c.private_imu_pub handle (omega (arith, fits.imu_pubs)) in
        elim (Option-cases o) [
          | inl new ↦
              let topic =
                take 47 (imu_topic ++ b'_' ∷ map underline (host.inet_ntoa lidar.handle)) in
              let p = advertised_imu topic (min_eth_packet_queue_size * 2) in
              let known = topic_of-known imu_topic (host.inet_ntoa lidar.handle) in
              (
                p,
                record c { private_imu_pub = set c.private_imu_pub handle (some p) },
                ground (arith, multi, at, new, known),
                record {
                  pubs = fits.pubs;
                  imu_pubs = length-set c.private_imu_pub handle (some p) ∙ fits.imu_pubs;
                  known = fits.known;
                },
                rearranged c c.private_pub c.global_pub (set c.private_imu_pub handle (some p))
                    c.global_imu_pub,
              )
          | inr (p, old) ↦ (p, c, ground (arith, multi, at, old), fits, silence c)
        ]
    | inr single ↦ elim (Option-cases c.global_imu_pub) [
      | inl new ↦
          let p = advertised_imu imu_topic (min_eth_packet_queue_size * 8) in
          (
            p,
            record c { global_imu_pub = some p },
            ground (arith, single, new),
            record { pubs = fits.pubs; imu_pubs = fits.imu_pubs; known = fits.known },
            rearranged c c.private_pub c.global_pub c.private_imu_pub (some p),
          )
      | inr (p, old) ↦ (p, c, ground (arith, single, old), fits, silence c)
    ]
  ]

  pub send-Fits :
      (wanted : Bool) (p : Publisher) (t : F) (m : Message F) (c : Lddc F)
      → Fits c
      → Fits (send wanted p t m c)
  unfolding send
  send-Fits wanted p t m c fits = record {
    pubs = ground (arith, fits.pubs);
    imu_pubs = ground (arith, fits.imu_pubs);
    known = ground (arith, fits.known);
  }

  -- A topic is advertised once: the publisher that a slot has got is the one it gets ever after, whatever
  -- the device there is called by then, and asking for it again changes nothing.
  pub get_current_publisher_again :
      (c c' : Lddc F) (index : ℕ) (lidar lidar' : LidarDevice F) (p : Publisher)
      → get_current_publisher host c index lidar ≡ some (p, c')
      → get_current_publisher host c' index lidar' ≡ some (p, c')
  unfolding get_current_publisher
  get_current_publisher_again c c' index lidar lidar' p h = elim (Bool-cases c.use_multi_topic) [
    | inl multi ↦ elim (Option-cases (get_elem? c.private_pub index)) [
      | inl out ↦ absurd (ground (arith, multi, out))
      | inr (o, at) ↦ elim (Option-cases o) [
        | inl new ↦ ground (
          arith,
          multi,
          at,
          new,
          topic_of-known lidar_topic (host.inet_ntoa lidar.handle),
          get_elem?-set_self c.private_pub index (some p) (get_elem?-lt c.private_pub index at),
        )
        | inr (q, old) ↦ ground (arith, multi, at, old)
      ]
    ]
    | inr single ↦ elim (Option-cases c.global_pub) [
      | inl new ↦ ground (arith, single, new)
      | inr (q, old) ↦ ground (arith, single, old)
    ]
  ]
