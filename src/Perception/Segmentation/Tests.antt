-- ===== src/Perception/Segmentation/Tests.antt =====
-- The detector on three points. A number is natural, and the map is the plane of height 0.
use sentry25navi.Prelude.{ℕ, ◌+◌, ◌-◌, ◌*◌, ◌≡◌, refl, false, some, List, [], ◌∷◌, ltb, length}
use sentry25navi.Perception.Clouds.{PointXyz, Numbers, Transforms}
use sentry25navi.Perception.Segmentation.{
  Limits, Map, ObstacleDetector, livox_msg_handler, standard_msg_handler, standard_scan_callback,
  timer,
}
use sentry25navi.Perception.Segmentation.Detection.{
  far_points, scan_at, timer-standard_scan_callback,
}

abbrev numbers : Numbers ℕ
numbers = record {
  zero_f = 0;
  add = λ a b. a + b;
  sub = λ a b. (a - b) + (b - a);
  mul = λ a b. a * b;
  abs = λ a. a;
  lt = ltb;
}

abbrev limits : Limits ℕ
limits = record { resolution = 0; nearest = 0; farthest = 50 }

abbrev transforms : Transforms ℕ ℕ
transforms = record { compose = λ a b. a + b; apply = λ t p. record p { x = p.x + t } }

abbrev plane : Map ℕ ℕ ℕ
plane = record {
  nearest_distance = λ p. some p.z;
  ratio = λ a b. a * 100;
  of_pose = λ p. p;
  no_pose = 0;
}

abbrev at : ℕ → ℕ → PointXyz ℕ
at x z = record { x = x; y = 0; z = z }

abbrev cloud : List (PointXyz ℕ)
cloud = at 1 0 ∷ at 2 3 ∷ at 2 3 ∷ at 4 0 ∷ at 9 9 ∷ []

abbrev detector : ObstacleDetector ℕ ℕ
detector = record {
  scan_sensor = [];
  last_scan_sensor = [];
  scan_timestamp = 0;
  last_scan_timestamp = 0;
  obstacle = [];
  scan_map = [];
  diverge = false;
  distance_threshold = 1;
  diverge_threshold = 90;
  use_livox_cloud = false;
  prior_map_pub_en = false;
  filtered_prior_map = [];
  t_baselink_sensor = 0;
}

-- The first point, the double and the one that is too far are dropped.
filtered : standard_msg_handler numbers limits cloud ≡ at 2 3 ∷ at 4 0 ∷ []
unfolding standard_msg_handler
filtered = refl

-- The second point is kept, though it is the first one again.
doubled : livox_msg_handler numbers limits (at 1 0 ∷ at 1 0 ∷ at 1 0 ∷ []) 3 ≡ some (at 1 0 ∷ [])
unfolding livox_msg_handler
doubled = refl

timer-standard_scan_callback_example :
    let s' =
      standard_scan_callback numbers limits
        (standard_scan_callback numbers limits detector cloud 5)
        []
        6 in
    let scan =
      scan_at numbers limits transforms plane detector
        (λ livox t. some t)
        5
        (at 2 3 ∷ at 4 0 ∷ []) in
    let found = far_points numbers limits transforms plane 1 scan in
    ((timer numbers limits transforms plane s' (λ livox t. some t)).0.obstacle ≡ some found)
    × ((timer numbers limits transforms plane s' (λ livox t. some t)).0.diverge
        ≡ some (ltb 90 (length found * 100)))
timer-standard_scan_callback_example =
    timer-standard_scan_callback numbers limits transforms plane detector cloud [] 5 6
      (λ livox t. some t) filtered
