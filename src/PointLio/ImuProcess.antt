-- ===== src/PointLio/ImuProcess.antt =====
-- The start of the IMU, `ImuProcess` of src/Point-LIO-master/src/IMU_Processing.hpp: the first samples give the
-- mean acceleration and turn rate, and no scan is handed on before there are enough of them. `V` is a vector
-- of three numbers and `L` a cloud.
mod Start
mod Tests
use sentry25navi.Prelude.{ℕ, ◌+◌, Bool, true, false, Option, none, some, List, [], ◌∷◌, ltb}

pub record Vectors (V : Type 0) : Type 0 where
  pub zero_v : V
  pub add : V → V → V
  pub sub : V → V → V
  pub over : V → ℕ → V  -- the quotient by a count

pub record InertialSample (V : Type 0) : Type 0 where
  pub linear_acceleration : V
  pub angular_velocity : V

pub record Measured (V L : Type 0) : Type 0 where
  pub lidar : L
  pub imu : List (InertialSample V)

pub record ImuProcess (V : Type 0) : Type 0 where
  pub imu_en : Bool
  pub imu_need_init : Bool
  pub b_first_frame : Bool
  pub gravity_align : Bool
  pub mean_acc : V
  pub mean_gyr : V
  pub init_iter_num : ℕ

abbrev pub max_ini_count : ℕ
max_ini_count = 100

module _ {V : Type 0} (v : Vectors V) where
  -- The constructor.
  abbrev pub new_imu_process : ImuProcess V
  new_imu_process = record {
    imu_en = true;
    imu_need_init = true;
    b_first_frame = true;
    gravity_align = false;
    mean_acc = v.zero_v;
    mean_gyr = v.zero_v;
    init_iter_num = 1;
  }

  abbrev pub reset : ImuProcess V → ImuProcess V
  reset s = record s {
    mean_acc = v.zero_v;
    mean_gyr = v.zero_v;
    imu_need_init = true;
    init_iter_num = 1;
  }

  abbrev pub mean_step : ℕ → V → V → V
  mean_step n mean cur = v.add mean (v.over (v.sub cur mean) n)

  -- The loop of `IMU_init`. The count is the field `init_iter_num`, passed by reference.
  unfoldable pub mean_loop : List (InertialSample V) → ImuProcess V → ImuProcess V
  mean_loop [] s = s
  mean_loop (imu ∷ rest) s = mean_loop rest (record s {
    mean_acc = mean_step s.init_iter_num s.mean_acc imu.linear_acceleration;
    mean_gyr = mean_step s.init_iter_num s.mean_gyr imu.angular_velocity;
    init_iter_num = s.init_iter_num + 1;
  })

  -- The first frame starts from its first sample.
  abbrev pub first_frame : InertialSample V → Bool → ImuProcess V → ImuProcess V
  first_frame front true s = record (reset s) {
    b_first_frame = false;
    mean_acc = front.linear_acceleration;
    mean_gyr = front.angular_velocity;
  }
  first_frame front false s = s

  -- `IMU_init` for samples that start with `front`.
  unfoldable pub imu_init : InertialSample V → List (InertialSample V) → ImuProcess V → ImuProcess V
  unfolding mean_loop
  imu_init front rest s = mean_loop (front ∷ rest) (first_frame front s.b_first_frame s)

  abbrev pub after_init : {L : Type 0} → L → Bool → ImuProcess V → Option L × ImuProcess V
  after_init lidar true s = (some lidar, record s { imu_need_init = false })
  after_init lidar false s = (none, record s { imu_need_init = true })

  -- The cloud that is handed on, if one is, and the state after it.
  unfoldable pub process : {L : Type 0} → Measured V L → ImuProcess V → Option L × ImuProcess V
  unfolding imu_init
  process meas s = elim s.imu_en [
    | false ↦ (some meas.lidar, record s { imu_need_init = false })
    | true ↦ elim meas.imu [
      | [] ↦ (none, s)
      | front ∷ rest ↦ elim s.imu_need_init [
        | false ↦ (some meas.lidar, s)
        | true ↦
            let s' = imu_init front rest s in
            after_init meas.lidar (ltb max_ini_count s'.init_iter_num) s'
      ]
    ]
  ]
