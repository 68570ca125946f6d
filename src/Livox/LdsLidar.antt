-- ===== src/Livox/LdsLidar.antt =====
-- The data source for lidars, lds_lidar.h and lds_lidar.cpp. There is one object, so the global pointer is
-- this object. `open_files` counts the handles that the parsers have open. Whether the SDK starts is an argument, and so is the file that
-- both parsers read. `is_low_data` compares a data type with the SDK's constant
-- `kLivoxLidarCartesianCoordinateLowData`.
pub mod Devices
pub mod Parameters
mod Tests
use sentry25navi.Prelude.{
  ℕ, zero, suc, ◌+◌, ◌-◌, ◌/◌, Bool, true, false, not, ◌||◌, Option, none, some, List, [], ◌∷◌,
  ◌++◌, bit_and, ◌==◌, if◌then◌else◌, get_elem?, set,
}
use sentry25navi.Prelude.Int.{ℤ, pos, negsuc}
use sentry25navi.Livox.Comm.{livox_lidar_type, ExtParameter, UserLivoxLidarConfig, LidarDevice}
use sentry25navi.Livox.CacheIndex.{get_free_index}
use sentry25navi.Livox.Lds.{◌>>=◌, Lds}
use sentry25navi.Livox.Config.{Json, File, Parsed, parse, parse_summary_info}

pub record LidarExtParameter (F : Type 0) : Type 0 where
  pub lidar_type : ℕ
  pub handle : ℕ
  pub param : ExtParameter F

-- `n / 10` of an `int32_t`, towards 0.
unfoldable pub tenth : ℤ → ℤ
tenth (pos n) = pos (n / 10)
tenth (negsuc n) = if (n + 1) / 10 == 0 then pos 0 else negsuc ((n + 1) / 10 - 1)

-- The members that `LdsLidar` adds, and what was handed to the packet handler: the extrinsic parameters,
-- oldest first, and whether its callbacks are set.
pub record LdsLidar (F : Type 0) : Type 0 where
  pub base : Lds F
  pub is_initialized : Bool
  pub lidar_type : ℕ
  pub ext_params : List (LidarExtParameter F)
  pub handlers_set : Bool
  pub sdk_running : Bool
  pub open_files : ℕ

module _ {F : Type 0} where
  unfoldable pub set_lidar_pub_handle : LdsLidar F → LdsLidar F
  set_lidar_pub_handle c = record c { handlers_set = true }

  unfoldable pub de_init_lds_lidar : LdsLidar F → Bool × LdsLidar F
  de_init_lds_lidar c =
      if not c.is_initialized
      then (false, c)
      else (if bit_and c.lidar_type livox_lidar_type == 0
          then (true, c)
          else (true, record c { sdk_running = false }))

module _ {F : Type 0} (is_low_data : ℤ → Bool) where
  unfoldable pub ext_parameter : UserLivoxLidarConfig F → LidarExtParameter F
  unfolding tenth
  ext_parameter config = record {
    lidar_type = livox_lidar_type;
    handle = config.handle;
    param =
        if is_low_data config.pcl_data_type
        then record config.extrinsic_param {
          x = tenth config.extrinsic_param.x;
          y = tenth config.extrinsic_param.y;
          z = tenth config.extrinsic_param.z;
        }
        else config.extrinsic_param;
  }

  -- One round of the loop over the configurations: the device, and the parameters handed on.
  unfoldable pub add_device :
      Lds F → UserLivoxLidarConfig F → Option (Lds F × List (LidarExtParameter F))
  unfolding ext_parameter
  add_device s config =
      let found = get_free_index s.cache_index livox_lidar_type config.handle in
      elim found.0 [
        | none ↦ some (record s { cache_index = found.1 }, [])
        | some index ↦
            (get_elem? s.lidars index >>= λ lidar. some (
              record s {
                cache_index = found.1;
                lidars = set s.lidars index (record lidar {
                  lidar_type = livox_lidar_type;
                  livox_config = config;
                  handle = config.handle;
                });
              },
              ext_parameter config ∷ [],
            ))
      ]

  unfoldable pub fill_devices :
      Lds F → List (UserLivoxLidarConfig F) → Option (Lds F × List (LidarExtParameter F))
  unfolding add_device
  fill_devices s [] = some (s, [])
  fill_devices s (config ∷ configs) = do
    (s', ps) ← add_device s config
    (s'', qs) ← fill_devices s' configs
    some (s'', ps ++ qs)

  module _ {V : Type 0} (j : Json F V) (file : File V) (sdk_starts : Bool) where
    -- A file with no usable configuration is only reported.
    unfoldable pub init_livox_lidar : LdsLidar F → Option (Bool × LdsLidar F)
    unfolding fill_devices parse
    init_livox_lidar c =
        if not sdk_starts
        then some (false, c)
        else (parse j c.open_files [] file >>= λ parsed. fill_devices c.base parsed.value >>= λ r.
            some (
              true,
              record c {
                base = r.0;
                ext_params = c.ext_params ++ r.1;
                sdk_running = true;
                open_files = parsed.handles;
              },
            ))

    unfoldable pub init_lidars : LdsLidar F → Option (Bool × LdsLidar F)
    unfolding init_livox_lidar parse_summary_info
    init_lidars c = parse_summary_info j c.open_files c.lidar_type file >>= λ summary.
        let c' = record c { lidar_type = summary.value; open_files = summary.handles } in
        if not summary.done
        then some (false, c')
        else (if bit_and summary.value livox_lidar_type == 0
            then some (true, c')
            else init_livox_lidar c')

    unfoldable pub init_lds_lidar : LdsLidar F → Option (Bool × LdsLidar F)
    unfolding init_lidars set_lidar_pub_handle
    init_lds_lidar c =
        if c.is_initialized
        then some (false, c)
        else (init_lidars c >>= λ r. some (
            if r.0 then (true, record (set_lidar_pub_handle r.1) { is_initialized = true }) else r))
