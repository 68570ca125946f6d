-- ===== src/Simulation/Vehicle.antt =====
-- The simulated vehicle, src/sentry_simulation/src/vehicle_simulator.cpp and its header: the ring of poses that
-- the main loop writes and the callback of the scans reads, and in Ground the height of the ground. Floats, the trigonometry, the filter of PCL and
-- the quaternion of tf are parameters; a time stands for its seconds. `none` is an index out of range.
mod Ground
mod Keeping
mod Pointer
mod Run
mod Late
mod Tests
use sentry25navi.Prelude.{
  ℕ, zero, suc, ◌+◌, ◌%◌, Bool, true, false, not, ◌&&◌, Option, none, some, List, map, ◌==◌, ltb,
  if◌then◌else◌, get_elem?, set,
}
use sentry25navi.Livox.Lds.{◌>>=◌}
use sentry25navi.Livox.Messages.{PointXyzi}
use sentry25navi.Perception.Clouds.{PointXyz, Numbers}

-- `Q` is a quaternion.
pub record World (F Q : Type 0) : Type 0 where
  pub numbers : Numbers F
  pub neg : F → F
  pub sin : F → F
  pub cos : F → F
  pub hundredth : F
  pub two_hundred : F
  pub pi : F
  pub two_pi : F
  pub remove_nan : List (PointXyzi F) → List (PointXyzi F)
  pub quaternion_of : F → F → F → Q  -- from roll, pitch and yaw

pub record Pose (F : Type 0) : Type 0 where
  pub x : F
  pub y : F
  pub z : F
  pub yaw : F
  pub pitch : F
  pub roll : F
  pub terrian_roll : F
  pub terrian_pitch : F

-- One index of the arrays `odom_TimeStack`, `vehicle_XStack` and so on.
pub record Entry (F : Type 0) : Type 0 where
  pub time : F
  pub pose : Pose F

-- The globals. The pointer for sending is none for -1, which it has at the start.
pub record VehicleSimulator (F : Type 0) : Type 0 where
  pub use_gazebo_time : Bool
  pub vehicle_height : F
  pub system_init_count : ℕ
  pub system_inited : Bool
  pub odom_time : F
  pub vehicle : Pose F
  pub vehicle_yaw_rate : F
  pub vehicle_speed : F
  pub terrian_z : F
  pub stack : List (Entry F)
  pub odom_send_id_pointer : Option ℕ
  pub odom_rec_id_pointer : ℕ

pub record OdomData (F Q : Type 0) : Type 0 where
  pub stamp : F
  pub position : PointXyz F
  pub orientation : Q
  pub linear_x : F
  pub linear_z : F
  pub angular_x : F
  pub angular_y : F
  pub angular_z : F

pub record ScanCloud (F : Type 0) : Type 0 where
  pub stamp : F
  pub points : List (PointXyzi F)

abbrev pub max_num : ℕ
max_num = 400

abbrev pub system_delay : ℕ
system_delay = 5

abbrev pub after_send : Option ℕ → ℕ
after_send none = 0
after_send (some i) = (i + 1) % max_num

module _ {F Q : Type 0} (w : World F Q) where
  -- The loop of `LivoxCloudCallback`, with fuel.
  unfoldable pub rec_loop : ℕ → F → ℕ → List (Entry F) → ℕ → Option ℕ
  rec_loop zero scan_time send stack rec_id = none
  rec_loop (suc fuel) scan_time send stack rec_id = do
    following ← get_elem? stack ((rec_id + 1) % max_num)
    elim (w.numbers.lt following.time scan_time && not (rec_id == (send + 1) % max_num)) [
      | false ↦ some rec_id
      | true ↦ rec_loop fuel scan_time send stack ((rec_id + 1) % max_num)
    ]

  unfoldable pub placed : Pose F → PointXyzi F → PointXyzi F
  placed v p =
      let n = w.numbers in
      let y1 = n.sub (n.mul p.y (w.cos v.terrian_roll)) (n.mul p.z (w.sin v.terrian_pitch)) in
      let z1 = n.add (n.mul p.y (w.sin v.terrian_roll)) (n.mul p.z (w.cos v.terrian_pitch)) in
      let x2 = n.add (n.mul p.x (w.cos v.terrian_pitch)) (n.mul z1 (w.sin v.terrian_pitch)) in
      let z2 = n.sub (n.mul z1 (w.cos v.terrian_pitch)) (n.mul p.x (w.sin v.terrian_pitch)) in
      record p { x = n.add x2 v.x; y = n.add y1 v.y; z = n.add z2 v.z }

  abbrev pub registered : Entry F → ScanCloud F → ScanCloud F
  registered e scan = record {
    stamp = e.time;
    points = map (placed e.pose) (w.remove_nan scan.points);
  }

  -- The start, where the first scans only count.
  abbrev pub counted : VehicleSimulator F → VehicleSimulator F
  counted s = record s {
    system_init_count = s.system_init_count + 1;
    system_inited = ltb system_delay (s.system_init_count + 1);
  }

  abbrev pub current : VehicleSimulator F → Entry F
  current s = record { time = s.odom_time; pose = s.vehicle }

  -- What is published, if anything, and the state after it.
  unfoldable pub livox_cloud_callback :
      ScanCloud F → VehicleSimulator F → Option (Option (ScanCloud F) × VehicleSimulator F)
  unfolding rec_loop placed
  livox_cloud_callback scan s = elim s.system_inited [
    | false ↦ some (none, counted s)
    | true ↦ elim s.odom_send_id_pointer [
      | none ↦ some (none, s)
      | some send ↦ do
        rec_id ← rec_loop max_num scan.stamp send s.stack s.odom_rec_id_pointer
        recorded ← get_elem? s.stack rec_id
        some (
          some (registered (if s.use_gazebo_time then recorded else current s) scan),
          record s { odom_rec_id_pointer = rec_id },
        )
    ]
  ]

  abbrev pub speed_callback : F → F → VehicleSimulator F → VehicleSimulator F
  speed_callback linear_x angular_z s = record s {
    vehicle_speed = linear_x;
    vehicle_yaw_rate = angular_z;
  }

  -- The yaw after a round, brought back into one turn.
  abbrev pub turned_yaw : F → F → F
  turned_yaw yaw yaw_rate =
      let n = w.numbers in
      let sum = n.add yaw (n.mul yaw_rate w.hundredth) in
      if n.lt w.pi sum
      then n.sub sum w.two_pi
      else if n.lt sum (w.neg w.pi)
      then n.add sum w.two_pi
      else sum

  abbrev pub driven : VehicleSimulator F → Pose F
  driven s =
      let n = w.numbers in
      let v = s.vehicle in
      let yaw = turned_yaw v.yaw s.vehicle_yaw_rate in
      record v {
        roll = n.add (n.mul v.terrian_roll (w.cos v.yaw)) (n.mul v.terrian_pitch (w.sin v.yaw));
        pitch =
            n.add (n.mul (w.neg v.terrian_roll) (w.sin v.yaw))
              (n.mul v.terrian_pitch (w.cos v.yaw));
        yaw = yaw;
        x = n.mul (n.mul w.hundredth (w.cos yaw)) s.vehicle_speed;
        y = n.mul (n.mul w.hundredth (w.sin yaw)) s.vehicle_speed;
        z = n.add s.terrian_z s.vehicle_height;
      }

  abbrev pub per_second : F → F → F
  per_second new old = w.numbers.mul w.two_hundred (w.numbers.sub new old)

  abbrev pub odom_of : F → VehicleSimulator F → OdomData F Q
  odom_of now s =
      let n = w.numbers in
      let v = driven s in
      record {
        stamp = now;
        position = record { x = v.x; y = v.y; z = v.z };
        orientation = w.quaternion_of v.roll v.pitch v.yaw;
        linear_x = s.vehicle_speed;
        linear_z = per_second v.z (s.vehicle.z);
        angular_x = per_second v.roll (s.vehicle.roll);
        angular_y = per_second v.pitch (s.vehicle.pitch);
        angular_z = s.vehicle_yaw_rate;
      }

  -- One round of the loop of `main` at the time `now`, after the callbacks.
  unfoldable pub main_round : F → VehicleSimulator F → OdomData F Q × VehicleSimulator F
  main_round now s =
      let send = after_send s.odom_send_id_pointer in
      (
        odom_of now s,
        record s {
          odom_time = now;
          vehicle = driven s;
          odom_send_id_pointer = some send;
          stack = set s.stack send (record { time = now; pose = driven s });
        },
      )
