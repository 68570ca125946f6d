-- ===== src/PointLio/Preprocess/FromDriver.antt =====
-- The messages of the driver in the preprocessing: lddc.cpp and preprocess.cpp together.
use sentry25navi.Prelude.{
  ℕ, ◌-◌, ◌^◌, ◌<◌, ◌≡◌, refl, some, List, [], ◌∷◌, map, length, take, drop, arith,
}
use sentry25navi.Livox.Ldq.{StoragePacket}
use sentry25navi.Livox.Comm.{PointXyzlt, LidarDevice}
use sentry25navi.Livox.Messages.{
  Host, CustomMsg, PointXyzi, init_custom_msg, point_to_custom, fill_points_to_custom_msg,
}
use sentry25navi.Livox.Lddc.Publishers.{IsWhole}
use sentry25navi.Livox.Lddc.Emission.{fill_points_to_custom_msg-map}
use sentry25navi.Perception.Clouds.{Numbers}
use sentry25navi.PointLio.Records.{PointType}
use sentry25navi.PointLio.Preprocess.{process_custom}
use sentry25navi.PointLio.Scans.{Preprocess, Literals}
use sentry25navi.PointLio.Preprocess.Round.{IsOf}
use sentry25navi.Prelude.Picks.{Picks}
use sentry25navi.PointLio.Preprocess.Avia.{avia_handler_lem}

length-map : {A B : Type 0} (f : A → B) (xs : List A) → length (map f xs) ≡ length xs
length-map f [] = refl
length-map f (x ∷ xs) = omega (arith, length-map f xs)

module _ {F : Type 0} (host : Host F) (n : Numbers F) (l : Literals F) (s : Preprocess F) where
  -- The message that the driver makes of a packet with as many points as it says, fewer than 2 ^ 31, makes
  -- no fault in the preprocessing, if the filter is at least 1. What is kept are some of the points of the
  -- packet but the first, in order, each at its place, with a line and a tag that count and outside of
  -- the blind zone.
  pub process_custom-fill_points_to_custom_msg :
      (frame_id : List ℕ) (seq : ℕ) (pkg : StoragePacket (PointXyzlt F)) (lidar : LidarDevice F)
      → IsWhole pkg
      → pkg.points_num < 2 ^ 31
      → 0 < s.point_filter_num
      → (msg : CustomMsg F) × (surf : List (PointType F (PointXyzi F))) × (fill_points_to_custom_msg
            host
            (init_custom_msg host frame_id seq pkg lidar)
            pkg
          ≡ some msg)
        × (process_custom n l msg s ≡ some (record s { pl_surf = surf }))
        × Picks
            (IsOf n l s)
            (take
              (pkg.points_num - 1)
              (drop 1 (map (point_to_custom host pkg.base_time) pkg.points)))
            surf
  unfolding process_custom init_custom_msg
  process_custom-fill_points_to_custom_msg frame_id seq pkg lidar whole few pos =
      let points = map (point_to_custom host pkg.base_time) pkg.points in
      let msg = record (init_custom_msg host frame_id seq pkg lidar) { points = points } in
      let (surf, run, picks) =
        avia_handler_lem n l s msg pos
          (omega (arith, whole, length-map (point_to_custom host pkg.base_time) pkg.points)) few in
      (
        msg,
        surf,
        fill_points_to_custom_msg-map host (init_custom_msg host frame_id seq pkg lidar) pkg whole,
        run,
        picks,
      )
