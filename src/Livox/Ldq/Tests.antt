-- ===== src/Livox/Ldq/Tests.antt =====
-- Runs of the ring's sizing on concrete requests (ldq.cpp).
use sentry25navi.Prelude.{arith}
use sentry25navi.Livox.Ldq.{init_size, is_power_of_2, roundup_power_of_2}
use sentry25navi.Livox.Ldq.Pow2.{IsRoundedUp, init_size-IsRoundedUp}

init_size-IsRoundedUp_example : IsRoundedUp 10 16
unfolding init_size is_power_of_2 roundup_power_of_2
init_size-IsRoundedUp_example = init_size-IsRoundedUp 10 (omega arith) (omega arith)
