-- ===== src/PointLio/Preprocess.antt =====
-- The preprocessing of the odometry, src/Point-LIO-master/src/preprocess.h and preprocess.cpp: what the
-- handlers for the four kinds of lidar make of a message. `F` is `float` and `double`; of the arithmetic
-- the operations and literals are parameters, and so is what `pcl::fromROSMsg` makes of a message. `none` is
-- a fault: an index out of range, a modulus of 0 or a negative size. The extraction of features is not
-- called and not modelled.
mod Round
mod Avia
mod FromDriver
mod Spinning
mod Tests
use sentry25navi.Prelude.{
  ℕ, zero, suc, ◌+◌, ◌-◌, ◌%◌, ◌^◌, bit_and, Bool, true, false, not, ◌&&◌, ◌||◌, Option, none, some,
  List, [], ◌∷◌, ◌++◌, ◌==◌, ltb, if◌then◌else◌, length, get_elem?, set, replicate,
}
use sentry25navi.Livox.Lds.{◌>>=◌}
use sentry25navi.Livox.Messages.{CustomPoint, CustomMsg, PointXyzi}
use sentry25navi.Perception.Clouds.{Numbers}
use sentry25navi.PointLio.Records.{PointType}
use sentry25navi.PointLio.Scans.{
  LidType, avia, velo16, oust64, hesai_xt32, other_type, TimeUnit, sec, ms, us, ns, other_unit,
  Literals, SpinPoint, OusterPoint, Decoded, Preprocess, Layers, square_norm, is_far,
}
use sentry25navi.PointLio.Spin.{velodyne_handler, hesai_handler}

module _ {F : Type 0} (n : Numbers F) (l : Literals F) where
  open n use {zero_f, add, sub, mul, abs, lt}

  -- A point as the cloud is constructed with.
  abbrev pub blank : PointType F (PointXyzi F)
  blank = record {
    point = record { x = zero_f; y = zero_f; z = zero_f; intensity = zero_f };
    curvature = zero_f;
  }

  -- The line and the tag that a point must have.
  unfoldable pub is_valid : ℕ → CustomPoint F → Bool
  is_valid n_scans p = ltb p.line n_scans && (bit_and p.tag 0x30 == 0x10 || bit_and p.tag 0x30 == 0)

  -- The time of a point after one with the time `before`.
  unfoldable pub time_after : F → ℕ → F
  time_after before offset =
      let t = l.offset_ms offset in
      if lt (abs (sub t before)) l.one_ms then t else add before l.line_step

  abbrev pub filled : F → CustomPoint F → PointType F (PointXyzi F)
  filled before p = record {
    point = record { x = p.x; y = p.y; z = p.z; intensity = l.of_byte p.reflectivity };
    curvature = time_after before p.offset_time;
  }

  unfoldable pub moved : PointXyzi F → PointXyzi F → Bool
  moved p q =
      lt l.resolution (abs (sub p.x q.x))
      || lt l.resolution (abs (sub p.y q.y))
      || lt l.resolution (abs (sub p.z q.z))

  -- One round of the loop of `avia_handler`: the count of valid points, entry `i` of `pl_full` and the
  -- points kept, from those before it.
  unfoldable pub avia_round :
      Preprocess F
      → CustomPoint F
      → ℕ
      → PointType F (PointXyzi F)
      → List (PointType F (PointXyzi F))
      → Option (ℕ × PointType F (PointXyzi F) × List (PointType F (PointXyzi F)))
  unfolding is_valid time_after moved square_norm
  avia_round s p valid_num before surf =
      if not (is_valid s.n_scans p)
      then some (valid_num, blank, surf)
      else let count = (valid_num + 1) % 2 ^ 32 in
        if s.point_filter_num == 0
        then none
        else if not (count % s.point_filter_num == 0)
        then some (count, blank, surf)
        else let q = filled before.curvature p in
          some (
            count,
            q,
            if moved q.point before.point && is_far n s.blind q.point then surf ++ q ∷ [] else surf,
          )

  unfoldable pub avia_loop :
      Preprocess F
      → List (CustomPoint F)
      → ℕ
      → ℕ
      → ℕ
      → PointType F (PointXyzi F)
      → List (PointType F (PointXyzi F))
      → Option (List (PointType F (PointXyzi F)))
  unfolding avia_round
  avia_loop s points zero i valid_num before surf = some surf
  avia_loop s points (suc rounds) i valid_num before surf = do
    p ← get_elem? points i
    r ← avia_round s p valid_num before surf
    avia_loop s points rounds (i + 1) r.0 r.1 r.2

  unfoldable pub avia_handler : CustomMsg F → Preprocess F → Option (Preprocess F)
  unfolding avia_loop
  avia_handler msg s =
      if not (ltb msg.point_num (2 ^ 31))
      then none
      else avia_loop s msg.points (msg.point_num - 1) 1 0 blank [] >>= λ surf.
          some (record s { pl_surf = surf })

  -- The loop of `oust64_handler` from point `i` on.
  unfoldable pub oust64_loop :
      Preprocess F
      → ℕ
      → List (OusterPoint F)
      → List (PointType F (PointXyzi F))
      → List (PointType F (PointXyzi F))
  unfolding square_norm
  oust64_loop s i [] surf = surf
  oust64_loop s i (p ∷ rest) surf = oust64_loop s (i + 1) rest (
      if not (i % s.point_filter_num == 0) || lt (square_norm n p.at) (mul s.blind s.blind)
      then surf
      else surf ++ record { point = p.at; curvature = mul (l.of_count p.t) s.time_unit_scale } ∷ [])

  unfoldable pub oust64_handler : List (OusterPoint F) → Preprocess F → Option (Preprocess F)
  unfolding oust64_loop
  oust64_handler [] s = some (record s { pl_surf = [] })
  oust64_handler (p ∷ rest) s =
      if s.point_filter_num == 0
      then none
      else some (record s { pl_surf = oust64_loop s 0 (p ∷ rest) [] })

  -- The overloads of `process`. The cloud handed on is `pl_surf` of the new state.
  unfoldable pub process_custom : CustomMsg F → Preprocess F → Option (Preprocess F)
  unfolding avia_handler
  process_custom msg s = avia_handler msg s

  unfoldable pub process_cloud : Decoded F → Preprocess F → Option (Preprocess F)
  process_cloud m s =
      let s' = record s { time_unit_scale = l.scale_of s.time_unit } in
      elim s.lidar_type [
        | avia ↦ some s'
        | velo16 ↦ velodyne_handler n l m.velodyne s'
        | oust64 ↦ oust64_handler m.ouster s'
        | hesai_xt32 ↦ hesai_handler n l m.hesai s'
        | other_type ↦ some s'
      ]
