-- ===== src/Livox/ImuQueue.antt =====
-- The queue of IMU samples, comm/lidar_imu_data_queue.cpp. Each call holds the mutex from start to end.
use sentry25navi.Prelude.{Bool, true, false, Option, none, some, List, [], ◌∷◌, ◌++◌}

-- `std::list` under the mutex: the front of the list is the front of the queue.
abbrev pub push {ℓ} : {A : Type ℓ} → List A → A → List A
push queue data_in = queue ++ data_in ∷ []

abbrev pub pop {ℓ} : {A : Type ℓ} → List A → Option (A × List A)
pop [] = none
pop (x ∷ rest) = some (x, rest)

abbrev pub is_empty {ℓ} : {A : Type ℓ} → List A → Bool
is_empty [] = true
is_empty (x ∷ rest) = false

abbrev pub clear {ℓ} : {A : Type ℓ} → List A → List A
clear queue = []
