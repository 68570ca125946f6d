-- ===== src/Livox/Comm/Tests.antt =====
-- Runs of the text helpers on concrete names (comm.cpp).
use sentry25navi.Prelude.{◌≡◌, some, [], ◌∷◌}
use sentry25navi.Livox.Comm.Names.{replace_period_by_underline, replace_period_by_underline_lem}

-- "1.2"
replace_period_by_underline_lem_example :
    replace_period_by_underline (b'1' ∷ b'.' ∷ b'2' ∷ []) ≡ some (b'1' ∷ b'_' ∷ b'2' ∷ [])
replace_period_by_underline_lem_example = replace_period_by_underline_lem (b'1' ∷ b'.' ∷ b'2' ∷ [])
