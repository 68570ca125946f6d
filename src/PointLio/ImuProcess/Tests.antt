-- ===== src/PointLio/ImuProcess/Tests.antt =====
-- Tests and a witness of the start of the IMU.
use sentry25navi.Prelude.{ℕ, ◌+◌, ◌-◌, ◌/◌, ◌≡◌, refl, not, List, [], ◌∷◌, leb, replicate}
use sentry25navi.PointLio.ImuProcess.{
  Vectors, InertialSample, Measured, new_imu_process, mean_loop, imu_init, process,
}
use sentry25navi.PointLio.ImuProcess.Start.{run, handed_on, samples, run-new_imu_process}

-- A vector is one whole number.
abbrev numbers : Vectors ℕ
numbers = record { zero_v = 0; add = λ a b. a + b; sub = λ a b. a - b; over = λ a n. a / n }

abbrev resting : ℕ → InertialSample ℕ
resting a = record { linear_acceleration = a; angular_velocity = 0 }

abbrev measured : ℕ → ℕ → Measured ℕ ℕ
measured lidar n = record { lidar = lidar; imu = replicate n (resting 9) }

abbrev measures : List (Measured ℕ ℕ)
measures = measured 1 60 ∷ measured 2 0 ∷ measured 3 40 ∷ measured 4 0 ∷ measured 5 20 ∷ []

third_and_last : (run numbers measures (new_imu_process numbers)).0 ≡ 3 ∷ 5 ∷ []
unfolding process imu_init mean_loop
third_and_last = refl

mean_of_two : (imu_init numbers (resting 4) (resting 8 ∷ []) (new_imu_process numbers)).mean_acc ≡ 6
unfolding imu_init mean_loop
mean_of_two = refl

run-new_imu_process_example :
    ((run numbers measures (new_imu_process numbers)).0 ≡ handed_on numbers 0 measures)
    × ((run numbers measures (new_imu_process numbers)).1.imu_need_init
        ≡ not (leb 100 (samples numbers measures)))
run-new_imu_process_example = run-new_imu_process numbers measures
