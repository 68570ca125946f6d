-- ===== src/Simulation/Vehicle/Tests.antt =====
-- Tests and witnesses of the simulated vehicle.
use sentry25navi.Prelude.{
  ℕ, zero, suc, ◌+◌, ◌-◌, ◌*◌, ◌%◌, ◌≤◌, ◌<◌, ◌≡◌, refl, sym, ap, subst, true, Option, none, some,
  List, [], ◌∷◌, length, get_elem?, replicate, ltb, arith,
}
use sentry25navi.Simulation.Vehicle.{
  World, Pose, Entry, ScanCloud, VehicleSimulator, registered, driven, main_round, rec_loop,
  livox_cloud_callback,
}
use sentry25navi.Simulation.Vehicle.Pointer.{Stops, livox_cloud_callback_lem}
use sentry25navi.Simulation.Vehicle.Late.{livox_cloud_callback_late}
use sentry25navi.Simulation.Vehicle.Run.{Steps, start, round_passed, Holds, Steps-Holds}

-- Numbers without a sign, with a flat ground.
abbrev world : World ℕ (List ℕ)
world = record {
  numbers = record {
    zero_f = 0;
    add = λ a b. a + b;
    sub = λ a b. a - b;
    mul = λ a b. a * b;
    abs = λ a. a;
    lt = λ a b. ltb a b;
  };
  neg = λ a. 0;
  sin = λ a. 0;
  cos = λ a. 1;
  hundredth = 1;
  two_hundred = 200;
  pi = 3;
  two_pi = 6;
  remove_nan = λ points. points;
  quaternion_of = λ roll pitch yaw. roll ∷ pitch ∷ yaw ∷ [];
}

abbrev origin : Pose ℕ
origin = record {
  x = 0;
  y = 0;
  z = 0;
  yaw = 0;
  pitch = 0;
  roll = 0;
  terrian_roll = 0;
  terrian_pitch = 0;
}

abbrev at_rest : VehicleSimulator ℕ
at_rest = record {
  use_gazebo_time = true;
  vehicle_height = 2;
  system_init_count = 6;
  system_inited = true;
  odom_time = 0;
  vehicle = origin;
  vehicle_yaw_rate = 0;
  vehicle_speed = 5;
  terrian_z = 1;
  stack = replicate 400 (record { time = 0; pose = origin });
  odom_send_id_pointer = none;
  odom_rec_id_pointer = 0;
}

-- The state after `n` rounds, round `i` at the time `i`.
abbrev after : ℕ → VehicleSimulator ℕ
after zero = at_rest
after (suc n) = (main_round world n (after n)).1

abbrev entries : ℕ → List (Entry ℕ)
entries zero = []
entries (suc n) = record { time = n; pose = driven world (after n) } ∷ entries n

steps : (n : ℕ) → Steps world (after n) (entries n)
steps zero = start at_rest refl refl refl
steps (suc n) = round_passed (after n) (entries n) n (steps n)

length-entries : (n : ℕ) → length (entries n) ≡ n
length-entries zero = refl
length-entries (suc n) = ap suc (length-entries n)

inited-after : (n : ℕ) → (after n).system_inited ≡ true
unfolding main_round
inited-after zero = refl
inited-after (suc n) = inited-after n

gazebo-after : (n : ℕ) → (after n).use_gazebo_time ≡ true
unfolding main_round
gazebo-after zero = refl
gazebo-after (suc n) = gazebo-after n

abbrev time_of : Option (Entry ℕ) → ℕ
time_of none = 0
time_of (some e) = e.time

entries_before : (n j : ℕ) (e : Entry ℕ) → get_elem? (entries n) j ≡ some e → e.time ≤ n
entries_before zero j e at = absurd (ground arith)
entries_before (suc n) zero e at = subst (λ t. t ≤ suc n) (ap time_of at) (omega arith)
entries_before (suc n) (suc j) e at = let earlier = entries_before n j e at in omega arith

abbrev scan_at : ℕ → ScanCloud ℕ
scan_at t = record { stamp = t; points = record { x = 1; y = 2; z = 3; intensity = 9 } ∷ [] }

abbrev out_time : Option (Option (ScanCloud ℕ) × VehicleSimulator ℕ) → ℕ
out_time (some (some cloud, s)) = cloud.stamp
out_time _ = 0

-- After 5 rounds, at the times 0 to 4, a scan of time 3 goes out at the pose of time 2.
scan_between : out_time (livox_cloud_callback world (scan_at 3) (after 5)) ≡ 2
unfolding livox_cloud_callback rec_loop main_round
scan_between = refl

livox_cloud_callback_lem_example :
    (k : ℕ) × (e : Entry ℕ) × (k < 400)
    × (get_elem? (after 5).stack (((after 5).odom_rec_id_pointer + k) % 400) ≡ some e)
    × (livox_cloud_callback world (scan_at 3) (after 5)
        ≡ some (
          some (registered world e (scan_at 3)),
          record (after 5) { odom_rec_id_pointer = ((after 5).odom_rec_id_pointer + k) % 400 },
        ))
    × Stops world 3 4 (after 5).stack (after 5).odom_rec_id_pointer k
unfolding main_round
livox_cloud_callback_lem_example =
    livox_cloud_callback_lem world (after 5) 4 (scan_at 3) refl refl refl (omega arith)

Steps-Holds_example :
    Holds world (after 500) (entries 500)
    × ((scan : ScanCloud ℕ)
        → (r : Option (ScanCloud ℕ) × VehicleSimulator ℕ) × (livox_cloud_callback world scan
              (after 500)
            ≡ some r))
Steps-Holds_example = Steps-Holds world (after 500) (entries 500) (steps 500)

below : (t n : ℕ) → t ≤ n → n ≤ 400 → ltb t 1000 ≡ true
below t n h few = ground arith

late_before :
    (n j : ℕ) (e : Entry ℕ)
    → n ≤ 400
    → j < 400
    → get_elem? (entries n) j ≡ some e
    → ltb e.time 1000 ≡ true
late_before n j e few near at = below e.time n (entries_before n j e at) few

livox_cloud_callback_late_example :
    (e : Entry ℕ) × (rec_id : ℕ) × (get_elem? (entries 400) 399 ≡ some e)
    × (livox_cloud_callback world (scan_at 1000) (after 400)
        ≡ some (
          some (registered world e (scan_at 1000)),
          record (after 400) { odom_rec_id_pointer = rec_id },
        ))
livox_cloud_callback_late_example =
    livox_cloud_callback_late world (after 400) (entries 400) (scan_at 1000) (steps 400)
      (subst (λ n. 400 ≤ n) (sym (length-entries 400)) (omega arith)) (inited-after 400)
      (gazebo-after 400) (λ j e. late_before 400 j e (omega arith))
