-- ===== src/Navigation/Controller/Tests.antt =====
-- The controller on a straight path. A number is natural here, and a distance is a sum.
use sentry25navi.Prelude.{
  ℕ, ◌+◌, ◌-◌, ◌*◌, ◌≤◌, ◌<◌, ◌≡◌, ◌⊎◌, refl, true, false, some, List, [], ◌∷◌, ltb, leb, length,
  get_elem?-some, replicate, arith,
}
use sentry25navi.Navigation.Controller.{
  Doubles, Quaternion, Pose, Controller, Published, done, fault, find_nearst_pose,
  get_target_robot_pose, pruned, get_euclidean_distance, turning, only, plan_step,
  global_path_callback, localization_status_callback,
}
use sentry25navi.Navigation.Controller.Pruning.{find_nearst_pose_lem}
use sentry25navi.Navigation.Controller.Planning.{
  Inv, HasTarget, plan_step_lem, plan_step-global_path_callback,
}
use sentry25navi.Navigation.Controller.Stopping.{
  path, status, timer, run, run-localization_status_callback,
}

abbrev doubles : Doubles ℕ
doubles = record {
  lit = λ n. n;
  pi = 3;
  add = λ a b. a + b;
  sub = λ a b. a - b;
  mul = λ a b. a * b;
  neg = λ a. 0;
  sqrt = λ a. a;
  hypot = λ a b. a + b;
  atan2 = λ a b. 0;
  sin = λ a. 0;
  cos = λ a. 1;
  lt = ltb;
  le = leb;
}

abbrev pose : ℕ → Pose ℕ
pose x = record { x = x; y = 0; orientation = record { x = 0; y = 0; z = 0; w = 1 } }

abbrev line : List (Pose ℕ)
line = pose 0 ∷ pose 3 ∷ pose 6 ∷ pose 9 ∷ []

abbrev get_yaw : Quaternion ℕ → ℕ
get_yaw q = 0

-- A spline that keeps the path.
abbrev gen_traj : List (Pose ℕ) → List (Pose ℕ)
gen_traj poses = poses

abbrev controller : Controller ℕ
controller = record {
  global_path = line;
  diverge = false;
  plan = true;
  prune_index = 3;
  max_speed = 10;
  set_yaw_speed = 2;
  p_value = 1;
  goal_dist_tolerance = 0;
  prune_ahead_dist = 1;
  yaw = 0;
}

abbrev started : Controller ℕ
started = record controller { prune_index = 0 }

-- From the pose at 4 the way goes to the pose at 6, or back to the one that is near.
found : find_nearst_pose doubles (pose 4) line 0 1 ≡ done 3
unfolding find_nearst_pose
found = refl

find_nearst_pose_lem_example :
    (r : ℕ) × (find_nearst_pose doubles (pose 4) line 1 1 ≡ done r) × (r < 4) × (1 ≤ r + 1)
find_nearst_pose_lem_example =
    find_nearst_pose_lem doubles (pose 4) line 1 1 (omega arith) (omega arith) refl

HasTarget-line : HasTarget doubles get_yaw gen_traj started (some (pose 4))
unfolding pruned
HasTarget-line i h = ground (arith, get_elem?-some line i h)

plan_step_lem_example :
    (published : Published ℕ) × (c' : Controller ℕ) × (plan_step doubles get_yaw gen_traj started
        (some (pose 4))
      ≡ done (published, c'))
    × Inv doubles get_yaw gen_traj c'
    × (((published ≡ only doubles get_yaw gen_traj (turning doubles get_yaw 0))
          × (c'.plan ≡ false)
          × (c'.prune_index ≡ 0))
        ⊎ ((published.local_path
              ≡ some (
                  gen_traj (
                    get_target_robot_pose doubles (some (pose 4))
                    ∷ pruned c'.global_path 20 c'.prune_index)))
            × (c'.plan ≡ true)
            × (c'.prune_index < length c'.global_path)
            × (0 ≤ c'.prune_index + 1)))
plan_step_lem_example =
    plan_step_lem doubles get_yaw gen_traj started (some (pose 4))
      (record { path = λ p. omega arith; index = λ p. omega arith }) refl refl HasTarget-line

plan_step-global_path_callback_example :
    plan_step doubles get_yaw gen_traj
      (global_path_callback controller (pose 0 ∷ pose 5 ∷ []))
      (some (pose 7))
    ≡ fault
unfolding get_target_robot_pose get_euclidean_distance
plan_step-global_path_callback_example =
    plan_step-global_path_callback doubles get_yaw gen_traj controller (pose 0 ∷ pose 5 ∷ [])
      (some (pose 7)) (pose 5) refl (omega arith) refl refl

run-localization_status_callback_example :
    (c' : Controller ℕ) × (run doubles get_yaw gen_traj
        (localization_status_callback controller true)
        (status false ∷ path line ∷ timer (some (pose 4)) ∷ [])
      ≡ done (replicate 1 (only doubles get_yaw gen_traj (turning doubles get_yaw 2)), c'))
    × (c'.plan ≡ false)
    × (c'.diverge ≡ true)
run-localization_status_callback_example =
    run-localization_status_callback doubles get_yaw gen_traj controller
      (status false ∷ path line ∷ timer (some (pose 4)) ∷ [])
