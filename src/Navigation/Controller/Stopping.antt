-- ===== src/Navigation/Controller/Stopping.antt =====
-- The controller's callbacks in any order, and what a lost localization does to them (controller.cpp).
use sentry25navi.Prelude.{
  ℕ, suc, ◌≡◌, refl, Bool, true, false, Option, List, [], ◌∷◌, ◌++◌, if◌then◌else◌, replicate,
}
use sentry25navi.Navigation.Controller.{
  Doubles, Quaternion, Pose, Controller, Published, Outcome, done, ◌>>=◌, turning, only, plan_step,
  global_path_callback, localization_status_callback,
}

-- What ROS calls: a new path, a message on `/diverge`, or the timer with the robot's pose.
pub data Event (F : Type 0) : Type 0 where
  path : List (Pose F) → Event F
  status : Bool → Event F
  timer : Option (Pose F) → Event F

module _ {F : Type 0} (n : Doubles F) (get_yaw : Quaternion F → F)
    (gen_traj : List (Pose F) → List (Pose F)) where
  abbrev pub step : Controller F → Event F → Outcome (List (Published F) × Controller F)
  step c (path poses) = done ([], global_path_callback c poses)
  step c (status b) = done ([], localization_status_callback c b)
  step c (timer lookup) = (plan_step n get_yaw gen_traj c lookup >>= λ r. done (r.0 ∷ [], r.1))

  abbrev pub run : Controller F → List (Event F) → Outcome (List (Published F) × Controller F)
  run c [] = done ([], c)
  run c (e ∷ es) = (step c e >>= λ r. run r.1 es >>= λ q. done (r.0 ++ q.0, q.1))

  abbrev pub timers : List (Event F) → ℕ
  timers [] = 0
  timers (path poses ∷ es) = timers es
  timers (status b ∷ es) = timers es
  timers (timer lookup ∷ es) = suc (timers es)

  -- The robot only turns, at the same speed.
  record Halted (c c' : Controller F) : Type 0 where
    diverge : c'.diverge ≡ true
    plan : c'.plan ≡ false
    speed : c'.set_yaw_speed ≡ c.set_yaw_speed

  Halted-run :
      (c : Controller F) (es : List (Event F))
      → c.diverge ≡ true
      → c.plan ≡ false
      → (c' : Controller F) × (run c es
          ≡ done (
            replicate (timers es) (only n get_yaw gen_traj (turning n get_yaw c.set_yaw_speed)),
            c',
          ))
        × Halted c c'
  unfolding plan_step global_path_callback localization_status_callback
  Halted-run c [] d p = (c, refl, record { diverge = d; plan = p; speed = refl })
  Halted-run c (path [] ∷ es) d p = let (c', e, h) = Halted-run c es d p in (c', rw e refl, h)
  Halted-run c (path (pose ∷ poses) ∷ es) d p =
      let (c', e, h) =
        Halted-run
          (record c { global_path = pose ∷ poses; plan = if c.diverge then c.plan else true }) es d
          (rw d p) in
      (c', rw e refl, record { diverge = h.diverge; plan = h.plan; speed = h.speed })
  Halted-run c (status true ∷ es) d p =
      let (c', e, h) = Halted-run (record c { diverge = true; plan = false }) es refl refl in
      (c', rw e refl, record { diverge = h.diverge; plan = h.plan; speed = h.speed })
  Halted-run c (status false ∷ es) d p = let (c', e, h) = Halted-run c es d p in (c', rw e refl, h)
  Halted-run c (timer lookup ∷ es) d p =
      let (c', e, h) = Halted-run c es d p in (c', simp (p, e), h)

  -- After the first message that the localization diverged, the controller never plans again, whatever
  -- paths and messages come, also messages that it does not diverge: each call of the timer publishes only
  -- the command to turn, and no call faults.
  pub run-localization_status_callback :
      (c : Controller F) (es : List (Event F))
      → (c' : Controller F) × (run (localization_status_callback c true) es
          ≡ done (
            replicate (timers es) (only n get_yaw gen_traj (turning n get_yaw c.set_yaw_speed)),
            c',
          ))
        × (c'.plan ≡ false)
        × (c'.diverge ≡ true)
  unfolding localization_status_callback
  run-localization_status_callback c es =
      let (c', e, h) = Halted-run (record c { diverge = true; plan = false }) es refl refl in
      (c', e, h.plan, h.diverge)
