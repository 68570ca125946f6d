-- ===== src/Livox/Callback/Tests.antt =====
-- Runs of the set-up on concrete devices (livox_lidar_callback.cpp).
use sentry25navi.Prelude.{ℕ, ◌≡◌, refl, true, List, [], ◌∷◌, some, arith}
use sentry25navi.Prelude.Int.{negsuc}
use sentry25navi.Livox.Comm.{LidarDevice, off}
use sentry25navi.Livox.Samples.{fresh, freq, device, user_config, state}
use sentry25navi.Livox.Lds.{Lds}
use sentry25navi.Livox.Lds.Push.{Inv}
use sentry25navi.Livox.Lddc.Polling.{is_sampling}
use sentry25navi.Livox.Callback.{success, timeout, Command, configured, lidar_info_change_callback}
use sentry25navi.Livox.Callback.Pending.{data_type, scan_pattern, blind_spot, dual_emit}
use sentry25navi.Livox.Callback.Setup.{Answer, answer, answered, awaited, configured_lem}
use sentry25navi.Livox.Callback.Safety.{lidar_info_change_callback-Inv}
use sentry25navi.Livox.CacheIndex.Laws.{get_free_index-IsValid, empty-IsValid}
use sentry25navi.Prelude.{inl}

abbrev waiting : LidarDevice ℕ
waiting = record device { connect_state = off }

-- The answers come out of order, with a timeout between.
abbrev answers : List Answer
answers =
    answer blind_spot success
    ∷ answer data_type timeout
    ∷ answer dual_emit success
    ∷ answer data_type success
    ∷ answer scan_pattern success
    ∷ []

configured_lem_example : is_sampling (answered (configured waiting) answers).connect_state ≡ true
unfolding awaited
configured_lem_example = configured_lem answers waiting refl refl refl

abbrev unset : LidarDevice ℕ
unset = record waiting {
  livox_config = record user_config {
    pcl_data_type = negsuc 0;
    pattern_mode = negsuc 0;
    blind_spot_set = negsuc 0;
    dual_emit_en = negsuc 0;
  };
}

start-Inv : Inv fresh freq state
start-Inv = record {
  devices = refl;
  table = get_free_index-IsValid 8 77 empty-IsValid;
  ready = λ i lidar h. inl (ground arith);
  freq = omega arith;
}

lidar_info_change_callback-Inv_example :
    (s' : Lds ℕ) × (commands : List (Command ℕ)) × (lidar_info_change_callback state 77
      ≡ some (s', commands))
    × Inv fresh freq s'
lidar_info_change_callback-Inv_example = lidar_info_change_callback-Inv fresh freq 77 start-Inv
