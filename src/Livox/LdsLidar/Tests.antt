-- ===== src/Livox/LdsLidar/Tests.antt =====
-- Runs of the initialisation on concrete files (lds_lidar.cpp).
use sentry25navi.Prelude.{
  ℕ, Option, none, if◌then◌else◌, ◌==◌, ◌≡◌, refl, Bool, false, some, [], ◌∷◌, arith, inl,
  get_elem?,
}
use sentry25navi.Prelude.Int.{ℤ, pos}
use sentry25navi.Livox.Samples.{fresh, freq, user_config, state}
use sentry25navi.Livox.Comm.{LidarDevice}
use sentry25navi.Livox.CacheIndex.{
  empty, get_index, get_free_index, find, take_slot, generate_index_key, decimal, first_free,
}
use sentry25navi.Livox.CacheIndex.Laws.{empty-IsValid}
use sentry25navi.Livox.Lds.{Lds}
use sentry25navi.Livox.Lds.Push.{Inv}
use sentry25navi.Livox.Config.{
  Json, MemberName, lidar_summary_info, lidar_type, lidar_configs, ip, extrinsic_parameter,
  blind_spot_set,
}
use sentry25navi.Livox.LdsLidar.Parameters.{IsParameterOf}
use sentry25navi.Livox.LdsLidar.{LdsLidar, LidarExtParameter, add_device}
use sentry25navi.Livox.LdsLidar.Devices.{add_device_lem}

-- Values are an object 8 that has itself for its members, a list 9 of it, and what is neither.
abbrev members_of : MemberName → Option ℕ
members_of lidar_summary_info = some 8
members_of lidar_type = some 8
members_of lidar_configs = some 9
members_of ip = some 7
members_of extrinsic_parameter = some 8
members_of blind_spot_set = none
members_of name = some 3

abbrev json_members : ℕ → Option (MemberName → Option ℕ)
json_members v = if v == 8 then some members_of else none

abbrev json : Json ℕ ℕ
json = record {
  members = json_members;
  elements = λ v. if v == 9 then some (8 ∷ []) else none;
  get_uint = λ v. some v;
  get_int = λ v. some (pos v);
  get_float = λ v. some v;
  get_string = λ v. if v == 7 then some [] else none;
  inet_addr = λ text. 77;
  zero_float = 0;
}

abbrev low : ℤ → Bool
low x = false

abbrev bare : Lds ℕ
bare = record state { cache_index = empty }

bare-Inv : Inv fresh freq bare
bare-Inv = record {
  devices = refl;
  table = empty-IsValid;
  ready = λ i lidar h. inl (ground arith);
  freq = omega arith;
}

empty_slot : (get_free_index empty 8 77).0 ≡ some 0
unfolding get_free_index find take_slot generate_index_key decimal first_free
empty_slot = refl

add_device_lem_example :
    (s' : Lds ℕ) × (lidar : LidarDevice ℕ) × (q : LidarExtParameter ℕ) × (add_device low bare
        user_config
      ≡ some (s', q ∷ []))
    × IsParameterOf low user_config q
    × (get_index s'.cache_index 8 77 ≡ some 0)
    × (get_elem? s'.lidars 0 ≡ some lidar)
    × (lidar.handle ≡ user_config.handle)
    × (lidar.livox_config ≡ user_config)
add_device_lem_example =
    add_device_lem fresh freq low user_config 0 bare-Inv (omega arith) empty_slot

abbrev started : LdsLidar ℕ
started = record {
  base = bare;
  is_initialized = false;
  lidar_type = 0;
  ext_params = [];
  handlers_set = false;
  sdk_running = false;
  open_files = 0;
}
