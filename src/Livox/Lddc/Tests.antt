-- ===== src/Livox/Lddc/Tests.antt =====
-- Runs of the publisher on concrete states (lddc.cpp).
use sentry25navi.Prelude.{
  map, ◌<◌, ℕ, zero, suc, subst, sym, ap, ◌≡◌, refl, true, false, none, some, List, [], ◌∷◌, arith,
  inl, inr, length, replicate, get_elem?,
}
use sentry25navi.Livox.Ldq.{
  queue_is_empty, StoragePacket, LidarDataQueue, initial, queue_used_size, init_size, queue_is_full,
  is_power_of_2, roundup_power_of_2,
}
use sentry25navi.Livox.Ldq.Fifo.{queue_is_empty-contents, arriving, contents, IsValid, push_refines}
use sentry25navi.Livox.Comm.{PointXyzlt, LidarDevice}
use sentry25navi.Livox.Lds.{Lds}
use sentry25navi.Livox.Lds.Init.{Each}
use sentry25navi.Livox.Samples.{fresh, point, packet, sample, device, state, ring, ring-IsValid}
use sentry25navi.Livox.Messages.{
  Host, CustomPoint, init_custom_msg, init_imu_msg, fill_points_to_custom_msg,
}
use sentry25navi.Livox.Lddc.{Lddc, Publisher, advertised, lidar_topic, get_current_publisher}
use sentry25navi.Livox.Lddc.Polling.{distribute_point_cloud_data, distribute_imu_data}
use sentry25navi.Livox.Lddc.Topics.{topic, posted, sample as sample_of}
use sentry25navi.Livox.Lddc.Publishers.{Fits}
use sentry25navi.Livox.Lddc.Emission.{IsCopy, fill_points_to_custom_msg_lem}
use sentry25navi.Livox.Lddc.Delivery.{AllWhole, whole_nil, whole_cons}
use sentry25navi.Livox.Lddc.Distribution.{
  delivered, all_awaited, Drained, IsPollable, distribute_point_cloud_data_lem,
}
use sentry25navi.Livox.Lddc.Samples.{delivered_imu, distribute_imu_data_lem}

abbrev host : Host ℕ
host = record {
  seconds = λ t. t;
  microseconds = λ t. t;
  to_double = λ t. t;
  to_uint8 = λ f. f;
  inet_ntoa = λ ip. b'1' ∷ b'.' ∷ b'2' ∷ [];
}

abbrev lddc : Lddc ℕ
lddc = record {
  registered = true;
  transfer_format = 1;
  use_multi_topic = false;
  output_type = 0;
  frame_id = b'f' ∷ [];
  enable_lidar_bag = false;
  enable_imu_bag = false;
  private_pub = replicate 32 none;
  global_pub = none;
  private_imu_pub = replicate 32 none;
  global_imu_pub = none;
  has_bag = false;
  msg_seq = 0;
  sent = [];
}

lddc-Fits : Fits lddc
lddc-Fits = record { pubs = refl; imu_pubs = refl; known = refl }

room : queue_is_full ring ≡ false
unfolding queue_is_full initial init_size is_power_of_2 roundup_power_of_2
room = refl

-- The ring with one packet.
abbrev filled : LidarDataQueue (PointXyzlt ℕ)
filled = (push_refines fresh packet 5 ring-IsValid room).0

filled-IsValid : IsValid filled
filled-IsValid = (push_refines fresh packet 5 ring-IsValid room).2

filled-contents : contents fresh filled ≡ arriving packet 5 ∷ []
unfolding contents initial queue_used_size init_size
filled-contents = (push_refines fresh packet 5 ring-IsValid room).4

abbrev ready_device : LidarDevice ℕ
ready_device = record device { queue = filled }

abbrev signalled : Lds ℕ
signalled = record state { lidar_count = 2; lidars = device ∷ ready_device ∷ []; pcd_semaphore = 1 }

signalled-IsPollable : Each (IsPollable host fresh fresh 5) signalled.lidars
unfolding contents
signalled-IsPollable zero l h =
    let same : device ≡ l = ground (arith, h) in
    subst (IsPollable host fresh fresh 5) same
      (record { ready = inl refl; whole = whole_nil; enough = omega arith })
signalled-IsPollable (suc zero) l h =
    let same : ready_device ≡ l = ground (arith, h) in
    subst (IsPollable host fresh fresh 5) same (record {
      ready = inr filled-IsValid;
      whole =
          subst AllWhole (sym filled-contents) (whole_cons {p = arriving packet 5} refl whole_nil);
      enough = omega (arith, ap length filled-contents);
    })
signalled-IsPollable (suc (suc i)) l h = absurd (ground (arith, h))

distribute_point_cloud_data_lem_example :
    (ls : List (LidarDevice ℕ)) × (c' : Lddc ℕ) × (distribute_point_cloud_data host fresh 5 lddc
        signalled
      ≡ some (c', record signalled { lidars = ls; pcd_semaphore = 0 }))
    × (delivered host fresh fresh 0 signalled.lidars lddc ≡ some c')
    × Drained host fresh fresh signalled.lidars ls
    × (map posted c'.sent ≡ all_awaited host fresh fresh (some topic) signalled.lidars)
distribute_point_cloud_data_lem_example =
    distribute_point_cloud_data_lem host fresh fresh 5 0 lddc signalled refl refl refl refl
      (omega arith) signalled-IsPollable lddc-Fits

abbrev sampled : Lds ℕ
sampled = record state {
  lidar_count = 2;
  lidars = device ∷ record device { imu_data = sample ∷ sample ∷ [] } ∷ [];
  imu_semaphore = 1;
}

sampled-enough : Each (λ l. length l.imu_data < 3) sampled.lidars
sampled-enough zero l h = ground (arith, h)
sampled-enough (suc zero) l h = ground (arith, h)
sampled-enough (suc (suc i)) l h = absurd (ground (arith, h))

distribute_imu_data_lem_example :
    (c' : Lddc ℕ) × (distribute_imu_data host 3 lddc sampled
      ≡ some (c', record sampled { lidars = device ∷ device ∷ []; imu_semaphore = 0 }))
    × (delivered_imu host 0 sampled.lidars lddc ≡ some c')
    × (map posted c'.sent
        ≡ (topic, sample_of (init_imu_msg host sample))
          ∷ (topic, sample_of (init_imu_msg host sample))
          ∷ [])
distribute_imu_data_lem_example =
    distribute_imu_data_lem host 3 0 lddc sampled refl refl refl refl (omega arith) sampled-enough
      lddc-Fits

abbrev shared : Publisher
shared = advertised lidar_topic 256 1

opened :
    get_current_publisher host lddc 0 device
    ≡ some (shared, record lddc { global_pub = some shared })
unfolding get_current_publisher
opened = refl

abbrev stored_packet : StoragePacket (PointXyzlt ℕ)
stored_packet = record fresh { base_time = 1000; points_num = 1; points = point ∷ [] }

fill_points_to_custom_msg_lem_example :
    (ps : List (CustomPoint ℕ)) × (fill_points_to_custom_msg host
        (init_custom_msg host [] 0 stored_packet device)
        stored_packet
      ≡ some (record (init_custom_msg host [] 0 stored_packet device) { points = ps }))
    × (length ps ≡ 1)
    × ((j : ℕ) (p : PointXyzlt ℕ)
        → get_elem? stored_packet.points j ≡ some p
        → (q : CustomPoint ℕ) × (get_elem? ps j ≡ some q) × IsCopy host 1000 p q)
unfolding init_custom_msg
fill_points_to_custom_msg_lem_example =
    fill_points_to_custom_msg_lem host (init_custom_msg host [] 0 stored_packet device)
      stored_packet refl

abbrev unknown_format : Lddc ℕ
unknown_format = record lddc { transfer_format = 3 }

filled_more : queue_is_empty filled ≡ false
filled_more =
    ground (arith, queue_is_empty-contents fresh filled-IsValid, ap length filled-contents)
