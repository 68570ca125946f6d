-- ===== src/Perception/Relocalization/Tests.antt =====
-- The relocalization with a registration that comes one step closer each time.
use sentry25navi.Prelude.{ℕ, ◌+◌, ◌-◌, ◌≡◌, refl, true, false, [], ◌∷◌, map, ltb, replicate}
use sentry25navi.Perception.Clouds.{Transforms}
use sentry25navi.Perception.Relocalization.{Registration, Relocalization, timer, registration}
use sentry25navi.Perception.Relocalization.Localized.{run, timeout, refined, run_diverged}

abbrev transforms : Transforms ℕ ℕ
transforms = record { compose = λ a b. a + b; apply = λ t p. record p { x = p.x + t } }

abbrev closer : Registration ℕ ℕ
closer = record {
  align = λ guess cloud. (guess + 1, 3 - guess);
  sampled = λ cloud. cloud;
  lt = ltb;
}

abbrev lost : Relocalization ℕ ℕ
lost = record {
  scan = record { x = 1; y = 2; z = 3 } ∷ [];
  scan_odom = [];
  aligned = [];
  localize_success = false;
  diverge = true;
  debug_en = false;
  diverge_threshold = 2;
  t_odom_lidar = 0;
  t_map_scan = 0;
  previous_icp_result = 0;
}

-- Two rounds localize a robot that did not diverge, and the third broadcasts nothing.
localizes :
    (run transforms closer (record lost { diverge = false }) (replicate 4 timeout)).0
    ≡ 1 ∷ 2 ∷ 3 ∷ []
unfolding timer registration
localizes = refl

run_diverged_example :
    (run transforms closer lost (replicate 4 timeout)).0
    ≡ refined transforms closer 4 (map (λ p. p) lost.scan) 0
run_diverged_example = run_diverged transforms closer lost 4 refl refl
