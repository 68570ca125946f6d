-- ===== src/Perception/Relocalization/Localized.antt =====
-- The relocalization over any sequence of calls, relocalization.cpp.
use sentry25navi.Prelude.{
  ℕ, zero, suc, replicate, ◌≡◌, refl, ap, Bool, true, false, Option, none, some, List, [], ◌∷◌,
  ◌++◌, map, arith,
}
use sentry25navi.Perception.Clouds.{PointXyz, Transforms}
use sentry25navi.Perception.Relocalization.{
  Registration, Relocalization, registration, registered_scan, timer, initial_pose_callback,
  standard_scan_callback, diverge_callback,
}

-- What ROS calls.
pub data Event (F T : Type 0) : Type 0 where
  scan : List (PointXyz F) → Event F T
  initial_pose : T → Option T → Event F T
  status : Bool → Event F T
  timeout : Event F T

module _ {F T : Type 0} (t : Transforms F T) (r : Registration F T) where
  abbrev sent : Option T → List T
  sent none = []
  sent (some found) = found ∷ []

  -- The transforms that are broadcast, and the state after the calls.
  abbrev pub run : Relocalization F T → List (Event F T) → List T × Relocalization F T
  run c [] = ([], c)
  run c (scan cloud ∷ es) = run (standard_scan_callback c cloud) es
  run c (initial_pose estimate found ∷ es) = run (initial_pose_callback t c estimate found) es
  run c (status b ∷ es) = run (diverge_callback c b) es
  run c (timeout ∷ es) =
      let (out, c') = timer t r c in let (outs, c'') = run c' es in (sent out ++ outs, c'')

  -- No message says that the localization diverged.
  abbrev pub NoDivergence : List (Event F T) → Type 0
  NoDivergence [] = Unit {0}
  NoDivergence (scan cloud ∷ es) = NoDivergence es
  NoDivergence (initial_pose estimate found ∷ es) = NoDivergence es
  NoDivergence (status b ∷ es) = (b ≡ false) × NoDivergence es
  NoDivergence (timeout ∷ es) = NoDivergence es

  timer_idle :
      (c : Relocalization F T)
      → c.localize_success ≡ true
      → c.diverge ≡ false
      → timer t r c ≡ (none, c)
  unfolding timer
  timer_idle c success calm = ground (arith, success, calm)

  -- Once it is localized and until it is told that it diverged, the relocalization broadcasts nothing and
  -- keeps the transform it found, whatever scans and initial poses come.
  pub run_localized :
      (c : Relocalization F T) (es : List (Event F T))
      → c.localize_success ≡ true
      → c.diverge ≡ false
      → NoDivergence es
      → ((run c es).0 ≡ [])
        × ((run c es).1.t_map_scan ≡ c.t_map_scan)
        × ((run c es).1.localize_success ≡ true)
  unfolding initial_pose_callback standard_scan_callback diverge_callback
  run_localized c [] success calm h = (refl, refl, success)
  run_localized c (scan cloud ∷ es) success calm h =
      run_localized (record c { scan = cloud }) es success calm h
  run_localized c (initial_pose estimate none ∷ es) success calm h =
      run_localized c es success calm h
  run_localized c (initial_pose estimate (some found) ∷ es) success calm h =
      run_localized (record c { previous_icp_result = t.compose estimate found }) es success calm h
  run_localized c (status b ∷ es) success calm h =
      run_localized (record c { diverge = b }) es success h.0 h.1
  run_localized c (timeout ∷ es) success calm h =
      rw (timer_idle c success calm) (run_localized c es success calm h)

  -- Each registration of a cloud starts from the transform that the one before found.
  abbrev pub refined : ℕ → List (PointXyz F) → T → List T
  refined zero source guess = []
  refined (suc k) source guess =
      let found = (r.align guess source).0 in found ∷ refined k source found

  timer_diverged :
      (c : Relocalization F T) {p : PointXyz F} {ps : List (PointXyz F)}
      → c.scan ≡ p ∷ ps
      → c.diverge ≡ true
      → timer t r c ≡ (some (registered_scan t r c).t_map_scan, registered_scan t r c)
  unfolding timer
  timer_diverged c some_scan lost = ground (arith, some_scan, lost)

  -- When it was told that it diverged and has a scan with a point, and the timer is then called some times in a
  -- row with no message between the calls, the relocalization registers that scan at each of the calls, also
  -- when the error is small, and broadcasts each result; the first registration starts from the last result
  -- or the initial pose, and each other one from the one before.
  pub run_diverged :
      (c : Relocalization F T) (k : ℕ) {p : PointXyz F} {ps : List (PointXyz F)}
      → c.scan ≡ p ∷ ps
      → c.diverge ≡ true
      → (run c (replicate k timeout)).0
        ≡ refined k (map (t.apply c.t_odom_lidar) c.scan) c.previous_icp_result
  unfolding registration
  run_diverged c zero some_scan lost = refl
  run_diverged c (suc k) some_scan lost = rw (timer_diverged c some_scan lost) (
      ap (◌∷◌ (registered_scan t r c).t_map_scan)
        (run_diverged (registered_scan t r c) k some_scan lost))
