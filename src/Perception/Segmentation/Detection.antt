-- ===== src/Perception/Segmentation/Detection.antt =====
-- What the timer of the detector publishes, segmentation.cpp.
use mathlib.Core.List.{append-nil}
use sentry25navi.Prelude.{
  ℕ, ◌≡◌, refl, sym, ◌∙◌, Bool, Option, some, List, [], ◌∷◌, ◌++◌, map, if◌then◌else◌, length,
}
use sentry25navi.Perception.Clouds.{PointXyz, Numbers, Transforms}
use sentry25navi.Perception.Segmentation.{
  Limits, Map, ObstacleDetector, standard_msg_handler, standard_scan_callback, is_obstacle,
  detect_loop, detect, get_target_pose, timer,
}
use sentry25navi.Perception.Segmentation.Filters.{push_if}

module _ {F P T : Type 0} (n : Numbers F) (limits : Limits F) (t : Transforms F T)
    (m : Map F P T) where
  -- The points of a scan that are far from the map, in order.
  abbrev pub far_points : F → List (PointXyz F) → List (PointXyz F)
  far_points threshold [] = []
  far_points threshold (p ∷ rest) =
      (if is_obstacle n limits t m threshold p then p ∷ [] else []) ++ far_points threshold rest

  detect_loop_lem :
      (threshold : F) (scan out : List (PointXyz F))
      → detect_loop n limits t m threshold scan out ≡ out ++ far_points threshold scan
  unfolding detect_loop
  detect_loop_lem threshold [] out = sym (append-nil out)
  detect_loop_lem threshold (p ∷ rest) out =
      detect_loop_lem threshold rest
        (if is_obstacle n limits t m threshold p then out ++ p ∷ [] else out)
      ∙ push_if (is_obstacle n limits t m threshold p) out p (far_points threshold rest)

  -- The scan in the frame of the map, at the pose that tf has for time `stamp`.
  abbrev pub scan_at :
      ObstacleDetector F T → (Bool → ℕ → Option P) → ℕ → List (PointXyz F) → List (PointXyz F)
  scan_at s lookup stamp = map (
      t.apply (
        t.compose (m.of_pose (get_target_pose n limits t m (lookup s.use_livox_cloud stamp)))
          s.t_baselink_sensor))

  -- After two scans, if the filter keeps a point of the first, the timer looks at the first of them, at the
  -- pose for that scan's own time. It publishes the points that are far from the map, in order, none of an
  -- earlier scan, and that it diverges exactly if their share of the scan is above the threshold.
  pub timer-standard_scan_callback :
      (s : ObstacleDetector F T) (first second : List (PointXyz F)) (stamp later : ℕ)
      (lookup : Bool → ℕ → Option P) {p : PointXyz F} {ps : List (PointXyz F)}
      → standard_msg_handler n limits first ≡ p ∷ ps
      → let s' =
          standard_scan_callback n limits
            (standard_scan_callback n limits s first stamp)
            second
            later in
        let scan = scan_at s lookup stamp (p ∷ ps) in
        let found = far_points s.distance_threshold scan in
        ((timer n limits t m s' lookup).0.obstacle ≡ some found)
        × ((timer n limits t m s' lookup).0.diverge
            ≡ some (n.lt s.diverge_threshold (m.ratio (length found) (length scan))))
  unfolding timer standard_scan_callback detect
  timer-standard_scan_callback s first second stamp later lookup {p} {ps} some_left =
      rw (some_left, detect_loop_lem s.distance_threshold (scan_at s lookup stamp (p ∷ ps)) [])
        (refl, refl)
