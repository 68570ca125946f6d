-- ===== src/Perception/Tracking/Tests.antt =====
-- The period of the tracker.
use sentry25navi.Prelude.{◌≡◌, refl, some}
use sentry25navi.Perception.Tracking.{timer_period}

-- At the default of 10 calls in a second the period is no time at all.
default_period : timer_period 10 ≡ some 0
unfolding timer_period
default_period = refl
