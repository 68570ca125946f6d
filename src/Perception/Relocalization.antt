-- ===== src/Perception/Relocalization.antt =====
-- The relocalization, src/relocalization/src/relocalization.cpp: a timer registers the scan against the map
-- while the robot is not localized, and three callbacks set the scan, the guess and the flag of divergence.
-- The registration by small_gicp is a parameter, from a guess and a cloud to a transform and its error; so
-- is the down-sampling. What the timer broadcasts and the debug clouds are its result. Left out are the
-- features of high points, which are computed and not used.
pub mod Localized
mod Tests
use sentry25navi.Prelude.{
  Bool, true, false, not, ◌||◌, Option, none, some, List, [], ◌∷◌, map, if◌then◌else◌,
}
use sentry25navi.Perception.Clouds.{PointXyz, Transforms}

pub record Registration (F T : Type 0) : Type 0 where
  pub align : T → List (PointXyz F) → T × F
  pub sampled : List (PointXyz F) → List (PointXyz F)
  pub lt : F → F → Bool

pub record Relocalization (F T : Type 0) : Type 0 where
  pub scan : List (PointXyz F)
  pub scan_odom : List (PointXyz F)
  pub aligned : List (PointXyz F)
  pub localize_success : Bool
  pub diverge : Bool
  pub debug_en : Bool
  pub diverge_threshold : F
  pub t_odom_lidar : T
  pub t_map_scan : T
  pub previous_icp_result : T

module _ {F T : Type 0} (t : Transforms F T) (r : Registration F T) where
  unfoldable pub registration : Relocalization F T → List (PointXyz F) → Relocalization F T
  registration c source =
      let (found, error) = r.align c.previous_icp_result source in
      record c {
        t_map_scan = found;
        previous_icp_result = found;
        localize_success = r.lt error c.diverge_threshold;
        aligned = if c.debug_en then map (t.apply found) (r.sampled source) else c.aligned;
      }

  abbrev pub registered_scan : Relocalization F T → Relocalization F T
  registered_scan c =
      let scan_odom = map (t.apply c.t_odom_lidar) c.scan in
      registration (record c { scan_odom = scan_odom }) scan_odom

  -- The transform that is broadcast, if any.
  unfoldable pub timer : Relocalization F T → Option T × Relocalization F T
  unfolding registration
  timer c = elim c.scan [
    | [] ↦ (none, c)
    | _ ∷ _ ↦
        if not c.localize_success || c.diverge
        then (some (registered_scan c).t_map_scan, registered_scan c)
        else (none, c)
  ]

module _ {F T : Type 0} where
  -- `t_baselink_odom` is what tf finds, `none` if the lookup throws.
  unfoldable pub initial_pose_callback :
      Transforms F T → Relocalization F T → T → Option T → Relocalization F T
  initial_pose_callback t c estimate none = c
  initial_pose_callback t c estimate (some t_baselink_odom) = record c {
    previous_icp_result = t.compose estimate t_baselink_odom;
  }

  unfoldable pub standard_scan_callback :
      Relocalization F T → List (PointXyz F) → Relocalization F T
  standard_scan_callback c cloud = record c { scan = cloud }

  unfoldable pub diverge_callback : Relocalization F T → Bool → Relocalization F T
  diverge_callback c status = record c { diverge = status }
