-- ===== src/Livox/LidarPubHandler/Points.antt =====
-- What a packet adds to the points of its lidar (comm/pub_handler.cpp).
use mathlib.Core.List.{append-nil, append_assoc}
use sentry25navi.Prelude.{
  ℕ, zero, suc, ◌+◌, ◌*◌, ◌%◌, ◌<◌, ◌≡◌, ◌≢◌, refl, sym, ◌∙◌, Bool, true, false, Option, none, some,
  List, [], ◌∷◌, ◌++◌, ◌==◌, ==_iff, if◌then◌else◌, length, arith, inl, inr, Bool-cases, ap,
}
use sentry25navi.Prelude.Word.{u64_mod}
use sentry25navi.Livox.Comm.{PointXyzlt, livox_lidar_type}
use sentry25navi.Livox.LidarPubHandler.{
  LidarPubHandler, push_points, process_cartesian_high_point, process_cartesian_low_point,
  process_spherical_point, livox_lidar_point_cloud_process, point_cloud_process,
}
use sentry25navi.Livox.RawPoints.{
  Floats, Sdk, RawPacket, CartesianPoint, SpherPoint, ExtParameterDetailed, cartesian_point,
  spherical_point,
}

abbrev pub is_some {ℓ} : {A : Type ℓ} → Option A → Bool
is_some none = false
is_some (some a) = true

-- The bytes of the packet hold its point `k`.
abbrev pub holds : Sdk → RawPacket → ℕ → Bool
holds sdk pkt k =
    if pkt.data_type == sdk.high_data
    then is_some (sdk.high_at pkt.raw_data k)
    else if pkt.data_type == sdk.low_data
    then is_some (sdk.low_at pkt.raw_data k)
    else if pkt.data_type == sdk.spherical_data
    then is_some (sdk.spherical_at pkt.raw_data k)
    else false

is_some_value {ℓ} : {A : Type ℓ} (o : Option A) → is_some o ≡ true → (a : A) × (o ≡ some a)
is_some_value none h = cc
is_some_value (some a) h = (a, refl)

not_zero : {n : ℕ} → n ≢ 0 → (n == 0) ≡ false
not_zero nz = ground arith

module _ {F : Type 0} where
  -- Point `k` of those that a packet adds has the packet's time plus `k` intervals, and its line.
  abbrev pub AreStamped : RawPacket → ℕ → List (PointXyzlt F) → Type 0
  AreStamped pkt i [] = Unit {0}
  AreStamped pkt i (p ∷ ps) =
      (p.offset_time ≡ (pkt.time_stamp + i * pkt.point_interval) % u64_mod)
      × (p.line ≡ i % pkt.line_num)
      × AreStamped pkt (suc i) ps

  -- The points are those of the packet, in order, and no other.
  abbrev pub Adds : RawPacket → List (PointXyzlt F) → Type 0
  Adds pkt new = (length new ≡ pkt.point_num) × AreStamped pkt 0 new

  push_points_lem :
      {R : Type 0} (raw : ℕ → Option R) (convert : ℕ → R → PointXyzlt F) (pkt : RawPacket) (n i : ℕ)
      (cloud : List (PointXyzlt F))
      → pkt.line_num ≢ 0
      → ((k : ℕ) → k < i + n → is_some (raw k) ≡ true)
      → ((k : ℕ) (r : R)
          → (((convert k r).offset_time ≡ (pkt.time_stamp + k * pkt.point_interval) % u64_mod)
              × ((convert k r).line ≡ k % pkt.line_num)))
      → (new : List (PointXyzlt F)) × (push_points raw convert pkt.line_num n i cloud
          ≡ some (cloud ++ new))
        × (length new ≡ n)
        × AreStamped pkt i new
  unfolding push_points
  push_points_lem raw convert pkt zero i cloud nz held good =
      ([], ap some (sym (append-nil cloud)), refl, tt)
  push_points_lem raw convert pkt (suc n) i cloud nz held good =
      let (r, e) = is_some_value (raw i) (held i (omega arith)) in
      let (new, run, size, stamps) =
        push_points_lem raw convert pkt n (suc i) (cloud ++ convert i r ∷ []) nz
          (λ k h. held k (omega arith)) good in
      let last : i + 1 ≡ suc i = omega arith in
      (
        convert i r ∷ new,
        rw (e, not_zero nz, last) (run ∙ ap some (append_assoc cloud (convert i r ∷ []) new)),
        ap suc size,
        ((good i r).0, (good i r).1, stamps),
      )

  -- A run ends normally, and only adds the packet's points behind those that wait.
  abbrev pub Delivers : LidarPubHandler F → RawPacket → Option (LidarPubHandler F) → Type 0
  Delivers h pkt o =
      (new : List (PointXyzlt F)) × (o ≡ some (record h { points_clouds = h.points_clouds ++ new }))
      × Adds pkt new

  Delivers-of :
      (h : LidarPubHandler F) (pkt : RawPacket) {o o' : Option (LidarPubHandler F)}
      → o ≡ o'
      → Delivers h pkt o'
      → Delivers h pkt o
  Delivers-of h pkt e (new, run, adds) = (new, e ∙ run, adds)

  module _ (f : Floats F) (sdk : Sdk) (pkt : RawPacket) where
    convert_cartesian :
        (e : ExtParameterDetailed F) (divisor k : ℕ) (r : CartesianPoint)
        → ((cartesian_point f e pkt divisor k r).offset_time
            ≡ (pkt.time_stamp + k * pkt.point_interval) % u64_mod)
          × ((cartesian_point f e pkt divisor k r).line ≡ k % pkt.line_num)
    unfolding cartesian_point
    convert_cartesian e divisor k r = elim (Bool-cases pkt.extrinsic_enable) [
      | inl yes' ↦ rw yes' (refl, refl)
      | inr no' ↦ rw no' (refl, refl)
    ]

    convert_spherical :
        (e : ExtParameterDetailed F) (k : ℕ) (r : SpherPoint)
        → ((spherical_point f e pkt k r).offset_time
            ≡ (pkt.time_stamp + k * pkt.point_interval) % u64_mod)
          × ((spherical_point f e pkt k r).line ≡ k % pkt.line_num)
    unfolding spherical_point
    convert_spherical e k r = elim (Bool-cases pkt.extrinsic_enable) [
      | inl yes' ↦ rw yes' (refl, refl)
      | inr no' ↦ rw no' (refl, refl)
    ]

    module _ (h : LidarPubHandler F) (nz : pkt.line_num ≢ 0) where
      high_lem :
          ((k : ℕ) → k < pkt.point_num → is_some (sdk.high_at pkt.raw_data k) ≡ true)
          → Delivers h pkt (process_cartesian_high_point f sdk h pkt)
      unfolding process_cartesian_high_point
      high_lem held =
          let (new, run, size, stamps) =
            push_points_lem (sdk.high_at pkt.raw_data) (cartesian_point f h.extrinsic pkt 1000) pkt
              pkt.point_num 0 h.points_clouds nz (λ k lt. held k (omega arith))
              (convert_cartesian h.extrinsic 1000) in
          (new, rw run refl, (size, stamps))

      low_lem :
          ((k : ℕ) → k < pkt.point_num → is_some (sdk.low_at pkt.raw_data k) ≡ true)
          → Delivers h pkt (process_cartesian_low_point f sdk h pkt)
      unfolding process_cartesian_low_point
      low_lem held =
          let (new, run, size, stamps) =
            push_points_lem (sdk.low_at pkt.raw_data) (cartesian_point f h.extrinsic pkt 100) pkt
              pkt.point_num 0 h.points_clouds nz (λ k lt. held k (omega arith))
              (convert_cartesian h.extrinsic 100) in
          (new, rw run refl, (size, stamps))

      spherical_lem :
          ((k : ℕ) → k < pkt.point_num → is_some (sdk.spherical_at pkt.raw_data k) ≡ true)
          → Delivers h pkt (process_spherical_point f sdk h pkt)
      unfolding process_spherical_point
      spherical_lem held =
          let (new, run, size, stamps) =
            push_points_lem (sdk.spherical_at pkt.raw_data) (spherical_point f h.extrinsic pkt) pkt
              pkt.point_num 0 h.points_clouds nz (λ k lt. held k (omega arith))
              (convert_spherical h.extrinsic) in
          (new, rw run refl, (size, stamps))

      none_lem : ((k : ℕ) → k < pkt.point_num → ⊥) → Delivers h pkt (some h)
      none_lem no_point = (
        [],
        ap (λ (ps : List (PointXyzlt F)). some (record h { points_clouds = ps }))
            (sym (append-nil h.points_clouds)),
        (no_points, tt),
      )
        where
          no_points : ◌≡◌ {A = ℕ} 0 pkt.point_num
          no_points = elim (Bool-cases (pkt.point_num == 0)) [
            | inl z ↦ ground arith
            | inr nz ↦ absurd (no_point 0 (ground arith))
          ]

      process_lem :
          ((k : ℕ) → k < pkt.point_num → holds sdk pkt k ≡ true)
          → Delivers h pkt (livox_lidar_point_cloud_process f sdk h pkt)
      unfolding livox_lidar_point_cloud_process
      process_lem held = elim (Bool-cases (pkt.data_type == sdk.high_data)) [
        | inl hi ↦ Delivers-of h pkt (rw hi refl) (high_lem (λ k lt. ground (arith, held k lt, hi)))
        | inr not_hi ↦ elim (Bool-cases (pkt.data_type == sdk.low_data)) [
          | inl lo ↦
              Delivers-of h pkt (rw (not_hi, lo) refl)
                (low_lem (λ k lt. ground (arith, held k lt, not_hi, lo)))
          | inr not_lo ↦ elim (Bool-cases (pkt.data_type == sdk.spherical_data)) [
            | inl sph ↦
                Delivers-of h pkt (rw (not_hi, not_lo, sph) refl)
                  (spherical_lem (λ k lt. ground (arith, held k lt, not_hi, not_lo, sph)))
            | inr unknown ↦
                Delivers-of h pkt (rw (not_hi, not_lo, unknown) refl)
                  (none_lem (λ k lt. ground (arith, held k lt, not_hi, not_lo, unknown)))
          ]
        ]
      ]

    -- A packet of the lidar whose bytes hold all its points is processed without a fault: its points come
    -- after those that wait, in order, each with the packet's time plus its index times the interval, in
    -- 64 bits, and with its index modulo the number of lines. Nothing else of the handler changes.
    pub point_cloud_process_lem :
        (h : LidarPubHandler F)
        → pkt.lidar_type ≡ livox_lidar_type
        → pkt.line_num ≢ 0
        → ((k : ℕ) → k < pkt.point_num → holds sdk pkt k ≡ true)
        → Delivers h pkt (point_cloud_process f sdk h pkt)
    unfolding point_cloud_process
    point_cloud_process_lem h type nz held =
        Delivers-of h pkt (rw ((==_iff pkt.lidar_type livox_lidar_type).1 type) refl)
          (process_lem h nz held)
