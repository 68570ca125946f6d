-- ===== src/Livox/Lddc/Topics.antt =====
-- What leaves the driver (lddc.cpp), with the places of the points of a cloud in place of its message.
use sentry25navi.Prelude.{
  ℕ, ◌≡◌, refl, ap, sym, ◌∙◌, Bool, ◌&&◌, Option, none, some, List, [], ◌∷◌, ◌++◌, map, ◌==◌,
  if◌then◌else◌, inl, inr, Bool-cases,
}
use sentry25navi.Livox.Ldq.Fifo.{Payload}
use sentry25navi.Livox.Comm.{PointXyzlt}
use sentry25navi.Livox.Messages.{ImuMsg, is_nil}
use sentry25navi.Livox.Lddc.{
  Lddc, Publisher, Message, cloud2, custom, pcl, imu, Sent, to_topic, to_bag, output_to_ros, send,
}

pub map-fuse :
    {A B C : Type 0} (f : B → C) (g : A → B) (h : A → C) (xs : List A)
    → ((a : A) → f (g a) ≡ h a)
    → map f (map g xs) ≡ map h xs
map-fuse f g h [] same = refl
map-fuse f g h (x ∷ xs) same = rw (same x, map-fuse f g h xs same) refl

map_snoc :
    {A B : Type 0} (f : A → B) (xs : List A) (x : A) → map f (xs ++ x ∷ []) ≡ map f xs ++ f x ∷ []
map_snoc f [] x = refl
map_snoc f (y ∷ ys) x = ap (λ (zs : List _). f y ∷ zs) (map_snoc f ys x)

append_nil : {A : Type 0} (xs : List A) → xs ++ [] ≡ xs
append_nil [] = refl
append_nil (x ∷ xs) = ap (λ (ys : List _). x ∷ ys) (append_nil xs)

append_assoc : {A : Type 0} (xs ys zs : List A) → (xs ++ ys) ++ zs ≡ xs ++ (ys ++ zs)
append_assoc [] ys zs = refl
append_assoc (x ∷ xs) ys zs = ap (λ (us : List _). x ∷ us) (append_assoc xs ys zs)

pub data Outlet : Type 0 where
  topic bag : Outlet

-- Where messages go: to topics if the output is ROS, else to the bag if there is one and it is wanted.
abbrev pub outlet : (output_type : ℕ) (has_bag wanted : Bool) → Option Outlet
outlet output_type has_bag wanted =
    if output_type == 0 then some topic else (if has_bag && wanted then some bag else none)

-- The places of the points of a cloud, or a sample.
pub data Content (F : Type 0) : Type 0 where
  places : List (F × F × F) → Content F
  sample : ImuMsg F → Content F

module _ {F : Type 0} where
  abbrev pub content : Message F → Content F
  content (cloud2 m) = places (map (λ p. (p.x, p.y, p.z)) m.points)
  content (custom m) = places (map (λ p. (p.x, p.y, p.z)) m.points)
  content (pcl m) = places (map (λ p. (p.x, p.y, p.z)) m.points)
  content (imu m) = sample m

  abbrev pub posted : Sent F → Outlet × Content F
  posted (to_topic publisher m) = (topic, content m)
  posted (to_bag publisher time m) = (bag, content m)

  abbrev pub posting : Option Outlet → Content F → List (Outlet × Content F)
  posting none x = []
  posting (some o) x = (o, x) ∷ []

  abbrev pub cloud_outlet : Lddc F → Option Outlet
  cloud_outlet c = outlet c.output_type c.has_bag c.enable_lidar_bag

  abbrev pub imu_outlet : Lddc F → Option Outlet
  imu_outlet c = outlet c.output_type c.has_bag c.enable_imu_bag

  abbrev pub place : PointXyzlt F → F × F × F
  place p = (p.x, p.y, p.z)

  -- From `c` to `c'` exactly these contents leave, in order, and the outlets stay.
  pub record Posts (c c' : Lddc F) (xs : List (Outlet × Content F)) : Type 0 where
    pub sent : map posted c'.sent ≡ map posted c.sent ++ xs
    pub output_type : c'.output_type ≡ c.output_type
    pub has_bag : c'.has_bag ≡ c.has_bag
    pub enable_lidar_bag : c'.enable_lidar_bag ≡ c.enable_lidar_bag
    pub enable_imu_bag : c'.enable_imu_bag ≡ c.enable_imu_bag

  pub silence : (c : Lddc F) → Posts c c []
  silence c = record {
    sent = sym (append_nil (map posted c.sent));
    output_type = refl;
    has_bag = refl;
    enable_lidar_bag = refl;
    enable_imu_bag = refl;
  }

  pub chained :
      {c c1 c2 : Lddc F} {xs ys : List (Outlet × Content F)}
      → Posts c c1 xs
      → Posts c1 c2 ys
      → Posts c c2 (xs ++ ys)
  chained {c} {xs = xs} {ys = ys} p q = record {
    sent = q.sent ∙ ap (λ (zs : List _). zs ++ ys) p.sent ∙ append_assoc (map posted c.sent) xs ys;
    output_type = q.output_type ∙ p.output_type;
    has_bag = q.has_bag ∙ p.has_bag;
    enable_lidar_bag = q.enable_lidar_bag ∙ p.enable_lidar_bag;
    enable_imu_bag = q.enable_imu_bag ∙ p.enable_imu_bag;
  }

  pub cloud_outlet_stays :
      {c c' : Lddc F} {xs : List (Outlet × Content F)}
      → Posts c c' xs
      → cloud_outlet c' ≡ cloud_outlet c
  cloud_outlet_stays p = rw (p.output_type, p.has_bag, p.enable_lidar_bag) refl

  pub imu_outlet_stays :
      {c c' : Lddc F} {xs : List (Outlet × Content F)}
      → Posts c c' xs
      → imu_outlet c' ≡ imu_outlet c
  imu_outlet_stays p = rw (p.output_type, p.has_bag, p.enable_imu_bag) refl

  pub send-Posts :
      (wanted : Bool) (p : Publisher) (t : F) (m : Message F) (c : Lddc F)
      → Posts c (send wanted p t m c) (posting (outlet c.output_type c.has_bag wanted) (content m))
  unfolding send
  send-Posts wanted p t m c = elim (Bool-cases (c.output_type == output_to_ros)) [
    | inl ros ↦ rw ros (record {
      sent = map_snoc posted c.sent (to_topic p m);
      output_type = refl;
      has_bag = refl;
      enable_lidar_bag = refl;
      enable_imu_bag = refl;
    })
    | inr not_ros ↦ elim (Bool-cases (c.has_bag && wanted)) [
      | inl kept ↦
          rw (not_ros, kept)
            (record {
              sent = map_snoc posted c.sent (to_bag p t m);
              output_type = refl;
              has_bag = refl;
              enable_lidar_bag = refl;
              enable_imu_bag = refl;
            })
      | inr lost ↦ rw (not_ros, lost) (silence c)
    ]
  ]

  -- What packets lead to, in order: a packet without points leads to nothing.
  abbrev pub awaited : Option Outlet → List (Payload (PointXyzlt F)) → List (Outlet × Content F)
  awaited o [] = []
  awaited o (p ∷ ps) =
      if is_nil p.points
      then awaited o ps
      else (posting o (places (map place p.points)) ++ awaited o ps)
