-- ===== src/Navigation/Controller.antt =====
-- The controller, controller.cpp, navigation/controller.hpp and navigation/utility.hpp: a timer plans, and
-- two callbacks set the path and stop the planning. A number of type `double` is an element of `F`. The
-- pose that tf finds for the robot is an argument, `none` if the lookup throws, and so is the spline that
-- smooths a path, `gen_traj`. Frame ids and time stamps are left out, and what is printed.
pub mod Pruning
pub mod Planning
pub mod Stopping
mod Tests
use sentry25navi.Prelude.{
  ℕ, zero, suc, ◌+◌, ◌-◌, Bool, true, false, not, ◌&&◌, ◌||◌, Option, none, some, List, [], ◌∷◌,
  ◌++◌, ◌==◌, leb, if◌then◌else◌, length, get_elem?,
}

pub record Doubles (F : Type 0) : Type 0 where
  pub lit : ℕ → F
  pub pi : F
  pub add : F → F → F
  pub sub : F → F → F
  pub mul : F → F → F
  pub neg : F → F
  pub sqrt : F → F
  pub hypot : F → F → F
  pub atan2 : F → F → F
  pub sin : F → F
  pub cos : F → F
  pub lt : F → F → Bool
  pub le : F → F → Bool

pub record Quaternion (F : Type 0) : Type 0 where
  pub x : F
  pub y : F
  pub z : F
  pub w : F

pub record Pose (F : Type 0) : Type 0 where
  pub x : F
  pub y : F
  pub orientation : Quaternion F

pub record Twist (F : Type 0) : Type 0 where
  pub linear_x : F
  pub linear_y : F
  pub angular_z : F

pub record Controller (F : Type 0) : Type 0 where
  pub global_path : List (Pose F)
  pub diverge : Bool
  pub plan : Bool
  pub prune_index : ℕ
  pub max_speed : F
  pub set_yaw_speed : F
  pub p_value : F
  pub goal_dist_tolerance : F
  pub prune_ahead_dist : F
  pub yaw : F

-- What the timer publishes.
pub record Published (F : Type 0) : Type 0 where
  pub local_path : Option (List (Pose F))
  pub cmd_vel : Twist F

-- How a call ends: `fault` is a read outside of a path, and `stuck` is a loop whose fuel ran out.
pub data Outcome (A : Type 0) : Type 0 where
  done : A → Outcome A
  fault stuck : Outcome A

infixl 5 ◌>>=◌
abbrev pub ◌>>=◌ : {A B : Type 0} → Outcome A → (A → Outcome B) → Outcome B
done a >>= f = f a
fault >>= f = fault
stuck >>= f = stuck

abbrev pub read : {A : Type 0} → List A → ℕ → Outcome A
read poses i = elim (get_elem? poses i) [ none ↦ fault | some pose ↦ done pose ]

abbrev pub min : ℕ → ℕ → ℕ
min a b = if leb a b then a else b

module _ {F : Type 0} where
  -- A path with no pose is ignored. The index into the old path stays.
  unfoldable pub global_path_callback : Controller F → List (Pose F) → Controller F
  global_path_callback c [] = c
  global_path_callback c (pose ∷ poses) = record c {
    global_path = pose ∷ poses;
    plan = if c.diverge then c.plan else true;
  }

  unfoldable pub localization_status_callback : Controller F → Bool → Controller F
  localization_status_callback c status =
      if status then record c { diverge = true; plan = false } else c

  -- At most `rounds` poses from `i` on.
  unfoldable pub pruned : List (Pose F) → ℕ → ℕ → List (Pose F)
  pruned path zero i = []
  pruned path (suc rounds) i = elim (get_elem? path i) [
    | none ↦ []
    | some pose ↦ pose ∷ pruned path rounds (i + 1)
  ]

module _ {F : Type 0} (n : Doubles F) where
  open n use {lit, pi, add, sub, mul, neg, sqrt, hypot, atan2, sin, cos, lt, le}

  unfoldable pub get_euclidean_distance : Pose F → Pose F → F
  get_euclidean_distance a b = hypot (sub a.x b.x) (sub a.y b.y)

  abbrev origin : Pose F
  origin = record {
    x = lit 0;
    y = lit 0;
    orientation = record { x = lit 0; y = lit 0; z = lit 0; w = lit 0 };
  }

  -- A failed lookup leaves the pose as it was constructed, and no caller looks at the result.
  unfoldable pub get_target_robot_pose : Option (Pose F) → Pose F
  get_target_robot_pose none = origin
  get_target_robot_pose (some pose) = pose

  -- Both poses lie on the same side of the robot.
  unfoldable pub is_same_direction : Pose F → Pose F → Pose F → Bool
  is_same_direction robot a b =
      lt (lit 0)
        (add (mul (sub a.x robot.x) (sub b.x robot.x)) (mul (sub a.y robot.y) (sub b.y robot.y)))

  abbrev pub sq_dist_threshold : F
  sq_dist_threshold = mul (lit 10) (lit 10)

  -- The loop of `FindNearstPose` from `prune_index` on, `sq_dist` being the distance of the pose before.
  unfoldable pub find_loop : Pose F → List (Pose F) → F → ℕ → ℕ → F → Outcome ℕ
  unfolding get_euclidean_distance is_same_direction
  find_loop robot path prune_ahead_dist zero prune_index sq_dist = stuck
  find_loop robot path prune_ahead_dist (suc fuel) prune_index sq_dist =
      elim (get_elem? path prune_index) [
        | none ↦ done prune_index
        | some pose ↦
            let new_sq_dist = get_euclidean_distance robot pose in
            let rest = find_loop robot path prune_ahead_dist fuel (prune_index + 1) new_sq_dist in
            if lt sq_dist new_sq_dist && lt sq_dist sq_dist_threshold
            then if prune_index == 0
              then fault
              else (read path (prune_index - 1) >>= λ before.
                  if is_same_direction robot pose before && lt prune_ahead_dist sq_dist
                  then done (prune_index - 1)
                  else done prune_index)
            else rest
      ]

  -- The path is not empty where this is called.
  unfoldable pub find_nearst_pose : Pose F → List (Pose F) → ℕ → F → Outcome ℕ
  unfolding find_loop
  find_nearst_pose robot path prune_index prune_ahead_dist = do
    sq_dist ←
        (if prune_index == 0
          then done (lit 10_000_000_000)
          else (read path (prune_index - 1) >>= λ before.
              done (get_euclidean_distance robot before)))
    found ← find_loop robot path prune_ahead_dist (suc (length path)) prune_index sq_dist
    done (min found (length path - 1))

  abbrev normalized : F → F
  normalized diff_yaw =
      if lt pi diff_yaw
      then sub diff_yaw (mul (lit 2) pi)
      else if lt diff_yaw (neg pi)
      then add diff_yaw (mul (lit 2) pi)
      else diff_yaw

  -- The velocity in the frame of the robot.
  in_robot_frame : F → F → F → F → Twist F
  in_robot_frame set_yaw_speed yaw vx vy = record {
    linear_x = add (mul vx (cos yaw)) (mul vy (sin yaw));
    linear_y = add (mul (neg vx) (sin yaw)) (mul vy (cos yaw));
    angular_z = set_yaw_speed;
  }

  module _ (get_yaw : Quaternion F → F) where
    -- The velocity towards a pose.
    unfoldable pub command : Controller F → Pose F → Pose F → Twist F
    unfolding get_euclidean_distance in_robot_frame
    command c robot target =
        let yaw = get_yaw robot.orientation in
        let diff_yaw = normalized (atan2 (sub target.y robot.y) (sub target.x robot.x)) in
        let diff_distance = get_euclidean_distance robot target in
        let vx = mul (mul (cos diff_yaw) diff_distance) c.p_value in
        let vy = mul (mul (sin diff_yaw) diff_distance) c.p_value in
        if lt (sqrt c.max_speed) (add (sqrt vx) (sqrt vy))
        then in_robot_frame c.set_yaw_speed yaw (mul c.max_speed (cos diff_yaw))
            (mul c.max_speed (sin diff_yaw))
        else in_robot_frame c.set_yaw_speed yaw vx vy

    unfoldable pub follow_traj :
        Controller F → Pose F → List (Pose F) → Outcome (Twist F × Controller F)
    unfolding command
    follow_traj c robot traj = do
      target ← read traj 1
      done (command c robot target, record c { yaw = get_yaw robot.orientation })

    -- The robot stands where it is and turns.
    abbrev pub turning : F → Twist F
    turning speed = record { linear_x = lit 0; linear_y = lit 0; angular_z = speed }

    module _ (gen_traj : List (Pose F) → List (Pose F)) where
      -- The goal is near, or the last pose of the path was reached.
      abbrev pub is_done : Controller F → Pose F → Pose F → Bool
      is_done c robot goal =
          le (get_euclidean_distance robot goal) c.goal_dist_tolerance
          || (c.prune_index == length c.global_path - 1)

      unfoldable pub follow_path : Controller F → Pose F → Outcome (Published F × Controller F)
      unfolding find_nearst_pose pruned follow_traj
      follow_path c robot = do
        i ← find_nearst_pose robot c.global_path c.prune_index c.prune_ahead_dist
        let local_path = gen_traj (robot ∷ pruned c.global_path 20 i)
        (cmd_vel, c') ← follow_traj (record c { prune_index = i }) robot local_path
        done (record { local_path = some local_path; cmd_vel = cmd_vel }, c')

      abbrev pub only : Twist F → Published F
      only cmd_vel = record { local_path = none; cmd_vel = cmd_vel }

      unfoldable pub plan_step :
          Controller F → Option (Pose F) → Outcome (Published F × Controller F)
      plan_step c lookup =
          if c.plan
          then (read c.global_path (length c.global_path - 1) >>= λ goal.
              let robot = get_target_robot_pose lookup in
              let follow = follow_path c robot in
              if is_done c robot goal
              then done (only (turning (lit 0)), record c { plan = false; prune_index = 0 })
              else follow)
          else done (only (turning c.set_yaw_speed), c)
