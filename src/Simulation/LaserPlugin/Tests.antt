-- ===== src/Simulation/LaserPlugin/Tests.antt =====
-- Tests and witnesses of the scans of the simulated lidar.
use sentry25navi.Prelude.{
  ℕ, ◌+◌, ◌*◌, ◌%◌, ◌<◌, ◌≡◌, refl, Option, none, some, List, [], ◌∷◌, get_elem?, map, arith,
}
use sentry25navi.Simulation.LaserPlugin.{
  AviaRotateInfo, Geometry, LivoxPointsPlugin, load, initialize_rays, ray_at,
}
use sentry25navi.Simulation.LaserPlugin.Turns.{IsReady, scanned, scanned-initialize_rays}

abbrev geometry : Geometry ℕ (ℕ × ℕ)
geometry = record { radians = λ a. a; tilted = λ z. z; ray_of = λ z a. (z, a) }

abbrev row : ℕ → List ℕ
row t = t ∷ t ∷ t ∷ []

-- Five rows, of which one is left out since it has no three numbers.
abbrev table : List (List ℕ)
table = row 0 ∷ row 1 ∷ (9 ∷ []) ∷ row 3 ∷ row 4 ∷ row 5 ∷ []

abbrev info : ℕ → ℕ → AviaRotateInfo ℕ
info t line = record { time = t; azimuth = t; zenith = t; line = line }

abbrev sensor : LivoxPointsPlugin ℕ (ℕ × ℕ)
sensor = record {
  avia_infos = info 0 0 ∷ info 1 1 ∷ info 3 3 ∷ info 4 0 ∷ info 5 1 ∷ [];
  samples_step = 4;
  curr_start_index = 0;
  max_point_size = 5;
  down_sample = 2;
  rays = (0, 0) ∷ (3, 3) ∷ [];
}

loaded : load geometry table 4 2 ≡ some sensor
unfolding load
loaded = refl

-- Without a row of three numbers, the first sample is a remainder by 0.
no_row : load geometry ((9 ∷ []) ∷ []) 4 2 ≡ none
unfolding load
no_row = refl

abbrev times_of : Option (List (ℕ × AviaRotateInfo ℕ) × LivoxPointsPlugin ℕ (ℕ × ℕ)) → List ℕ
times_of none = []
times_of (some r) = map (λ (p : ℕ × AviaRotateInfo ℕ). (p.1).time) r.0

-- The second scan goes on behind the four samples of the first, round the table.
second_scan :
    times_of (initialize_rays geometry (record sensor { curr_start_index = 4 })) ≡ 5 ∷ 1 ∷ []
unfolding initialize_rays
second_scan = refl

sensor-IsReady : IsReady geometry sensor
sensor-IsReady = record {
  loaded = record { size = refl; some_row = omega arith; step = omega arith };
  fewer = omega arith;
  start = omega arith;
  below = omega arith;
}

scanned-initialize_rays_example :
    (s' s'' : LivoxPointsPlugin ℕ (ℕ × ℕ)) × (pairs : List (ℕ × AviaRotateInfo ℕ)) × (scanned
        geometry sensor 3
      ≡ some s')
    × (initialize_rays geometry s' ≡ some (pairs, s''))
    × ((j : ℕ)
        → j < 2
        → j * 2 < 4
        → (at : AviaRotateInfo ℕ) × (get_elem? sensor.avia_infos ((0 + 3 * 4 + j * 2) % 5)
            ≡ some at)
          × (get_elem? s''.rays j ≡ some (ray_at geometry at))
          × (get_elem? pairs j ≡ some (j, at)))
scanned-initialize_rays_example = scanned-initialize_rays geometry sensor sensor-IsReady 3
