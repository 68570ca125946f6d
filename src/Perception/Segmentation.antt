-- ===== src/Perception/Segmentation.antt =====
-- The obstacle detector, src/segmentation/src/segmentation.cpp and include/segmentation/utility.hpp. The
-- k-d tree of the map is a parameter, as the distance from a point to its nearest neighbour, and so are the
-- poses that tf finds, `none` if the lookup throws, and the decimal literals. A message of the standard
-- type is the cloud that `pcl::fromROSMsg` makes of it. What is published is the result of the timer.
pub mod Filters
pub mod Detection
mod Tests
use sentry25navi.Prelude.{
  ℕ, zero, suc, ◌+◌, ◌-◌, Bool, true, false, ◌&&◌, ◌||◌, Option, none, some, List, [], ◌∷◌, ◌++◌,
  map, if◌then◌else◌, length, get_elem?,
}
use sentry25navi.Perception.Clouds.{PointXyz, Numbers, Transforms}

-- The literals 1e-7, 0.01 and 50 of the filters.
pub record Limits (F : Type 0) : Type 0 where
  pub resolution : F
  pub nearest : F
  pub farthest : F

-- `nearest_distance` is the root of what `nearestKSearch` gives for one neighbour, if it finds one.
-- `ratio a b` is the quotient of two counts, and `of_pose` the matrix of a pose.
pub record Map (F P T : Type 0) : Type 0 where
  pub nearest_distance : PointXyz F → Option F
  pub ratio : ℕ → ℕ → F
  pub of_pose : P → T
  pub no_pose : P

pub record ObstacleDetector (F T : Type 0) : Type 0 where
  pub scan_sensor : List (PointXyz F)
  pub last_scan_sensor : List (PointXyz F)
  pub scan_timestamp : ℕ
  pub last_scan_timestamp : ℕ
  pub obstacle : List (PointXyz F)
  pub scan_map : List (PointXyz F)
  pub diverge : Bool
  pub distance_threshold : F
  pub diverge_threshold : F
  pub use_livox_cloud : Bool
  pub prior_map_pub_en : Bool
  pub filtered_prior_map : List (PointXyz F)
  pub t_baselink_sensor : T

pub record Published (F : Type 0) : Type 0 where
  pub obstacle : Option (List (PointXyz F))
  pub diverge : Option Bool
  pub prior_map : Option (List (PointXyz F))

module _ {F : Type 0} (n : Numbers F) (limits : Limits F) where
  open n use {zero_f, add, sub, mul, abs, lt}

  -- The points differ by more than the resolution in some coordinate.
  unfoldable pub differs : PointXyz F → PointXyz F → Bool
  differs p q =
      lt limits.resolution (abs (sub p.x q.x))
      || lt limits.resolution (abs (sub p.y q.y))
      || lt limits.resolution (abs (sub p.z q.z))

  unfoldable pub squared_norm : PointXyz F → F
  squared_norm p = add (add (mul p.x p.x) (mul p.y p.y)) (mul p.z p.z)

  abbrev pub keeps_livox : PointXyz F → PointXyz F → Bool
  keeps_livox before p = differs p before && lt limits.nearest (squared_norm p)

  abbrev pub keeps_standard : PointXyz F → PointXyz F → Bool
  keeps_standard before p =
      differs p before && lt limits.nearest (squared_norm p) && lt (squared_norm p) limits.farthest

  -- The loop of `livox_msg_handler` from point `i` on, `before` being entry `i - 1` of `pl_full`. A point
  -- that the message does not have is a fault.
  unfoldable pub livox_loop :
      List (PointXyz F) → ℕ → ℕ → PointXyz F → List (PointXyz F) → Option (List (PointXyz F))
  unfolding differs squared_norm
  livox_loop points zero i before pl_surf = some pl_surf
  livox_loop points (suc rounds) i before pl_surf = elim (get_elem? points i) [
    | none ↦ none
    | some p ↦
        livox_loop points rounds (i + 1) p
          (if keeps_livox before p then pl_surf ++ p ∷ [] else pl_surf)
  ]

  abbrev pub origin : PointXyz F
  origin = record { x = zero_f; y = zero_f; z = zero_f }

  -- Entry 0 of `pl_full` is left as it was constructed.
  unfoldable pub livox_msg_handler : List (PointXyz F) → ℕ → Option (List (PointXyz F))
  unfolding livox_loop
  livox_msg_handler points point_num = livox_loop points (point_num - 1) 1 origin []

  unfoldable pub standard_loop :
      PointXyz F → List (PointXyz F) → List (PointXyz F) → List (PointXyz F)
  unfolding differs squared_norm
  standard_loop before [] pl_surf = pl_surf
  standard_loop before (p ∷ rest) pl_surf =
      standard_loop p rest (if keeps_standard before p then pl_surf ++ p ∷ [] else pl_surf)

  unfoldable pub standard_msg_handler : List (PointXyz F) → List (PointXyz F)
  unfolding standard_loop
  standard_msg_handler [] = []
  standard_msg_handler (p ∷ rest) = standard_loop p rest []

  module _ {T : Type 0} where
    unfoldable pub livox_scan_callback :
        ObstacleDetector F T → List (PointXyz F) → ℕ → ℕ → Option (ObstacleDetector F T)
    unfolding livox_msg_handler
    livox_scan_callback s points point_num stamp = elim (livox_msg_handler points point_num) [
      | none ↦ none
      | some scan ↦ some (record s {
        last_scan_sensor = s.scan_sensor;
        scan_sensor = scan;
        last_scan_timestamp = s.scan_timestamp;
        scan_timestamp = stamp;
      })
    ]

    unfoldable pub standard_scan_callback :
        ObstacleDetector F T → List (PointXyz F) → ℕ → ObstacleDetector F T
    standard_scan_callback s cloud stamp = record s {
      last_scan_sensor = s.scan_sensor;
      scan_sensor = standard_msg_handler cloud;
      last_scan_timestamp = s.scan_timestamp;
      scan_timestamp = stamp;
    }

    module _ {P : Type 0} (t : Transforms F T) (m : Map F P T) where
      abbrev pub is_obstacle : F → PointXyz F → Bool
      is_obstacle threshold p = elim (m.nearest_distance p) [
        | none ↦ false
        | some d ↦ lt threshold d
      ]

      -- The loop of `detect` over the scan: a point far from the map is pushed behind the others.
      unfoldable pub detect_loop : F → List (PointXyz F) → List (PointXyz F) → List (PointXyz F)
      detect_loop threshold [] obstacle = obstacle
      detect_loop threshold (p ∷ rest) obstacle =
          detect_loop threshold rest
            (if is_obstacle threshold p then obstacle ++ p ∷ [] else obstacle)

      unfoldable pub detect : ObstacleDetector F T → ObstacleDetector F T
      unfolding detect_loop
      detect s =
          let found = detect_loop s.distance_threshold s.scan_map s.obstacle in
          record s {
            obstacle = found;
            diverge = lt s.diverge_threshold (m.ratio (length found) (length s.scan_map));
          }

      -- A failed lookup leaves the pose as it was constructed.
      unfoldable pub get_target_pose : Option P → P
      get_target_pose none = m.no_pose
      get_target_pose (some pose) = pose

      abbrev pub published : ObstacleDetector F T → Published F
      published s = record {
        obstacle = some s.obstacle;
        diverge = some s.diverge;
        prior_map = if s.prior_map_pub_en then some s.filtered_prior_map else none;
      }

      abbrev pub unpublished : ObstacleDetector F T → Published F
      unpublished s = record {
        obstacle = none;
        diverge = none;
        prior_map = if s.prior_map_pub_en then some s.filtered_prior_map else none;
      }

      -- The frame of the scan in the map.
      abbrev pub t_map_sensor : ObstacleDetector F T → (Bool → ℕ → Option P) → T
      t_map_sensor s lookup =
          t.compose (m.of_pose (get_target_pose (lookup s.use_livox_cloud s.last_scan_timestamp)))
            s.t_baselink_sensor

      -- `lookup` takes whether the source is `base_link` or `odom`, and the time.
      unfoldable pub timer :
          ObstacleDetector F T → (Bool → ℕ → Option P) → Published F × ObstacleDetector F T
      timer s lookup = elim s.last_scan_sensor [
        | [] ↦ (unpublished s, record s { obstacle = [] })
        | p ∷ scan ↦
            let s' = detect (record s {
              obstacle = [];
              scan_map = map (t.apply (t_map_sensor s lookup)) (p ∷ scan);
            }) in
            (published s', s')
      ]
