-- ===== src/Livox/Config/Tests.antt =====
-- Runs of the parsers on concrete values (parse_livox_lidar_cfg.cpp).
use sentry25navi.Prelude.{ℕ, ◌≡◌, refl, true, none, some, [], ◌∷◌, Option}
use sentry25navi.Prelude.Int.{pos, negsuc}
use sentry25navi.Livox.Comm.{UserLivoxLidarConfig}
use sentry25navi.Livox.Config.{Json, MemberName, document, lidar_configs, ip, blind_spot_set, parse}

-- An object 1 whose list of configurations holds it, with the address 2 and the blind spot 200.
abbrev members_of : MemberName → Option ℕ
members_of lidar_configs = some 3
members_of ip = some 2
members_of blind_spot_set = some 200
members_of name = none

abbrev json : Json ℕ ℕ
json = record {
  members = λ v. some members_of;
  elements = λ v. some (1 ∷ []);
  get_uint = λ v. some v;
  get_int = λ v. some (pos v);
  get_float = λ v. some v;
  get_string = λ v. some [];
  inet_addr = λ text. 77;
  zero_float = 0;
}

abbrev entry : UserLivoxLidarConfig ℕ
entry = record {
  handle = 77;
  pcl_data_type = negsuc 0;
  pattern_mode = negsuc 0;
  blind_spot_set = negsuc 55;
  dual_emit_en = negsuc 0;
  extrinsic_param = record { roll = 0; pitch = 0; yaw = 0; x = pos 0; y = pos 0; z = pos 0 };
  set_bits = 0;
  get_bits = 0;
}

-- The handle stays open, and a blind spot of 200 is read as -56.
parsed :
    parse json 0 [] (document 1) ≡ some (record { done = true; value = entry ∷ []; handles = 1 })
unfolding parse
parsed = refl
