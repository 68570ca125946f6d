-- ===== src/Livox/Semaphore.antt =====
-- The counting semaphore, comm/semaphore.h and comm/semaphore.cpp.
use sentry25navi.Prelude.{ℕ, zero, suc, ◌+◌, Option, none, some}

-- The count. `wait` blocks at 0: then there is no next state until a signal comes.
abbrev pub signal : ℕ → ℕ
signal count = count + 1

abbrev pub wait : ℕ → Option ℕ
wait zero = none
wait (suc count) = some count
