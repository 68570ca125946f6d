-- ===== src/Navigation/Controller/Planning.antt =====
-- What the timer of the controller does, `Plan` of controller.cpp.
use sentry25navi.Prelude.{
  ℕ, ◌+◌, ◌-◌, ◌≤◌, ◌<◌, ◌≡◌, ◌⊎◌, refl, true, false, Option, some, List, [], ◌∷◌, length,
  get_elem?, arith, inl, inr, Bool-cases,
}
use sentry25navi.Navigation.Controller.{
  Doubles, Quaternion, Pose, Controller, Published, done, fault, sq_dist_threshold,
  get_euclidean_distance, get_target_robot_pose, pruned, command, follow_traj, turning, is_done,
  follow_path, only, plan_step, global_path_callback,
}
use sentry25navi.Navigation.Controller.Pruning.{
  read-done, find_nearst_pose_lem, find_nearst_pose_stale,
}

module _ {F : Type 0} (n : Doubles F) (get_yaw : Quaternion F → F)
    (gen_traj : List (Pose F) → List (Pose F)) where
  open n use {lit, lt, le}

  -- While it plans, there is a path and the index is not past its end.
  pub record Inv (c : Controller F) : Type 0 where
    pub path : c.plan ≡ true → 0 < length c.global_path
    pub index : c.plan ≡ true → c.prune_index ≤ length c.global_path

  -- The smoothed path from pose `i` on has the pose to drive to.
  abbrev pub HasTarget : Controller F → Option (Pose F) → Type 0
  HasTarget c lookup =
      (i : ℕ)
      → i < length c.global_path
      → 2 ≤ length (gen_traj (get_target_robot_pose n lookup ∷ pruned c.global_path 20 i))

  follow_path_lem :
      (c : Controller F) (lookup : Option (Pose F))
      → 0 < length c.global_path
      → c.prune_index ≤ length c.global_path
      → lt (lit 10_000_000_000) (sq_dist_threshold n) ≡ false
      → HasTarget c lookup
      → (published : Published F) × (i : ℕ) × (yaw : F) × (follow_path n get_yaw gen_traj c
            (get_target_robot_pose n lookup)
          ≡ done (published, record c { prune_index = i; yaw = yaw }))
        × (published.local_path
            ≡ some (gen_traj (get_target_robot_pose n lookup ∷ pruned c.global_path 20 i)))
        × (i < length c.global_path)
        × (c.prune_index ≤ i + 1)
  unfolding follow_path follow_traj
  follow_path_lem c lookup poses inside far long =
      let robot = get_target_robot_pose n lookup in
      let (i, found, small, start) =
        find_nearst_pose_lem n robot c.global_path c.prune_ahead_dist c.prune_index poses inside
          far in
      let traj = gen_traj (robot ∷ pruned c.global_path 20 i) in
      let (target, e) = read-done traj 1 (long i small) in
      (
        record {
          local_path = some traj;
          cmd_vel = command n get_yaw (record c { prune_index = i }) robot target;
        },
        i,
        get_yaw robot.orientation,
        rw (found, e) refl,
        refl,
        small,
        start,
      )

  -- In a valid state that plans, with a pose to drive to on each smoothed path, and if 10 ^ 10 is not below the
  -- threshold of the search, the timer neither faults nor loops. Either it stops the robot and the planning,
  -- or it publishes as the local path the smoothed path from the robot over at most 20 poses from the new
  -- index on, and goes on with this index, which is in the global path and at most one before the last one;
  -- the state stays valid.
  pub plan_step_lem :
      (c : Controller F) (lookup : Option (Pose F))
      → Inv c
      → c.plan ≡ true
      → lt (lit 10_000_000_000) (sq_dist_threshold n) ≡ false
      → HasTarget c lookup
      → (published : Published F) × (c' : Controller F) × (plan_step n get_yaw gen_traj c lookup
          ≡ done (published, c'))
        × Inv c'
        × (((published ≡ only n get_yaw gen_traj (turning n get_yaw (lit 0)))
              × (c'.plan ≡ false)
              × (c'.prune_index ≡ 0))
            ⊎ ((published.local_path
                  ≡ some (
                      gen_traj
                        (get_target_robot_pose n lookup ∷ pruned c'.global_path 20 c'.prune_index)))
                × (c'.plan ≡ true)
                × (c'.prune_index < length c'.global_path)
                × (c.prune_index ≤ c'.prune_index + 1)))
  unfolding plan_step
  plan_step_lem c lookup inv plan far long =
      let robot = get_target_robot_pose n lookup in
      let (goal, last) =
        read-done c.global_path (length c.global_path - 1) (omega (arith, inv.path plan)) in
      elim (Bool-cases (is_done n get_yaw gen_traj c robot goal)) [
        | inl near ↦ (
          only n get_yaw gen_traj (turning n get_yaw (lit 0)),
          record c { plan = false; prune_index = 0 },
          simp (plan, last, near),
          record { path = λ p. absurd (ground arith); index = λ p. omega arith },
          inl (refl, refl, refl),
        )
        | inr far_away ↦
            let (published, i, yaw, run, path, small, start) =
              follow_path_lem c lookup (inv.path plan) (inv.index plan) far long in
            (
              published,
              record c { prune_index = i; yaw = yaw },
              simp (plan, last, far_away, run),
              record { path = λ p. inv.path plan; index = λ p. omega (arith, small) },
              inr (path, plan, small, start),
            )
      ]

  plan_step_stale :
      (c : Controller F) (lookup : Option (Pose F)) (goal : Pose F)
      → c.plan ≡ true
      → length c.global_path < c.prune_index
      → get_elem? c.global_path (length c.global_path - 1) ≡ some goal
      → le (get_euclidean_distance n (get_target_robot_pose n lookup) goal) c.goal_dist_tolerance
        ≡ false
      → plan_step n get_yaw gen_traj c lookup ≡ fault
  unfolding plan_step follow_path
  plan_step_stale c lookup goal plan stale last away = ground (
    arith,
    find_nearst_pose_stale n (get_target_robot_pose n lookup) c.global_path c.prune_ahead_dist
        c.prune_index stale,
  )

  -- If the localization has not diverged, a new path that has a pose, but fewer than the index into the old path,
  -- which the callback keeps, makes the next call of the timer read outside of the path, unless the robot is
  -- already at the new goal.
  pub plan_step-global_path_callback :
      (c : Controller F) (path : List (Pose F)) (lookup : Option (Pose F)) (goal : Pose F)
      → c.diverge ≡ false
      → length path < c.prune_index
      → get_elem? path (length path - 1) ≡ some goal
      → le (get_euclidean_distance n (get_target_robot_pose n lookup) goal) c.goal_dist_tolerance
        ≡ false
      → plan_step n get_yaw gen_traj (global_path_callback c path) lookup ≡ fault
  unfolding global_path_callback
  plan_step-global_path_callback c [] lookup goal tracked stale last away = absurd (ground arith)
  plan_step-global_path_callback c (pose ∷ poses) lookup goal tracked stale last away =
      plan_step_stale (global_path_callback c (pose ∷ poses)) lookup goal (rw tracked refl) stale
        last away
