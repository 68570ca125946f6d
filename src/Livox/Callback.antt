-- ===== src/Livox/Callback.antt =====
-- The callbacks of the SDK that set a device up, call_back/livox_lidar_callback.cpp, and those that bring
-- data, call_back/lidar_common_callback.cpp. The client data is always the data source, and a response is
-- there; what the SDK is asked to do is the list of commands, in order. `none` is an index out of range.
pub mod Pending
pub mod Setup
pub mod Safety
pub mod Arrival
mod Tests
use sentry25navi.Prelude.{
  ℕ, zero, suc, ◌+◌, ◌-◌, ◌^◌, Bool, true, false, not, Option, none, some, List, [], ◌∷◌, ◌++◌,
  bit_and, bit_or, ◌==◌, if◌then◌else◌, get_elem?, set,
}
use sentry25navi.Prelude.Int.{ℤ, pos, negsuc}
use sentry25navi.Livox.Comm.{
  livox_lidar_type, LidarConnectState, sampling, config_data_type, config_scan_pattern,
  config_blind_spot, config_dual_emit, ImuData, ExtParameter, UserLivoxLidarConfig, LidarDevice,
}
use sentry25navi.Livox.CacheIndex.{get_index, get_free_index}
use sentry25navi.Livox.Lds.{◌>>=◌, Lds}

-- `livox_status`: success, timeout, or another failure.
pub data LivoxStatus : Type 0 where
  success timeout failure : LivoxStatus

-- A call of the SDK, with the handle of the device first.
pub data Command (F : Type 0) : Type 0 where
  set_pcl_data_type : ℕ → ℤ → Command F
  set_scan_pattern : ℕ → ℤ → Command F
  set_blind_spot : ℕ → ℤ → Command F
  set_dual_emit : ℕ → Bool → Command F
  set_install_attitude : ℕ → ExtParameter F → Command F
  set_work_mode_normal : ℕ → Command F
  enable_imu_data : ℕ → Command F

-- `x != -1`, an option that the configuration sets.
abbrev pub is_set : ℤ → Bool
is_set (pos n) = true
is_set (negsuc zero) = false
is_set (negsuc (suc n)) = true

abbrev pub not_zero : ℤ → Bool
not_zero (pos zero) = false
not_zero (pos (suc n)) = true
not_zero (negsuc n) = true

-- `bits |= bit` under a condition, and `bits &= ~bit` on 32 bits.
unfoldable pub mark : Bool → ℕ → ℕ → ℕ
mark on bit bits = if on then bit_or bits bit else bits

unfoldable pub clear_bit : ℕ → ℕ → ℕ
clear_bit bit bits = bit_and bits (2 ^ 32 - 1 - bit)

abbrev pub asked : {A : Type 0} → Bool → A → List A
asked true c = c ∷ []
asked false c = []

module _ {F : Type 0} where
  -- The set-up of a device that the configuration names: the bits, and the commands.
  unfoldable pub pending_bits : UserLivoxLidarConfig F → ℕ
  unfolding mark
  pending_bits config = mark (is_set config.dual_emit_en) config_dual_emit (
      mark (is_set config.blind_spot_set) config_blind_spot (
        mark (is_set config.pattern_mode) config_scan_pattern
          (mark (is_set config.pcl_data_type) config_data_type config.set_bits)))

  unfoldable pub option_commands : ℕ → UserLivoxLidarConfig F → List (Command F)
  option_commands handle config =
      asked (is_set config.pcl_data_type) (set_pcl_data_type handle config.pcl_data_type)
      ++ asked (is_set config.pattern_mode) (set_scan_pattern handle config.pattern_mode)
      ++ asked (is_set config.blind_spot_set) (set_blind_spot handle config.blind_spot_set)
      ++ asked (is_set config.dual_emit_en) (set_dual_emit handle (not_zero config.dual_emit_en))

  abbrev pub normal_commands : ℕ → List (Command F)
  normal_commands handle = set_work_mode_normal handle ∷ enable_imu_data handle ∷ []

  unfoldable pub configured : LidarDevice F → LidarDevice F
  unfolding pending_bits
  configured lidar = record lidar {
    livox_config = record lidar.livox_config { set_bits = pending_bits lidar.livox_config };
  }

  unfoldable pub lidar_info_change_callback : Lds F → ℕ → Option (Lds F × List (Command F))
  unfolding configured option_commands
  lidar_info_change_callback s handle = elim (get_index s.cache_index livox_lidar_type handle) [
    | none ↦
        let found = get_free_index s.cache_index livox_lidar_type handle in
        elim found.0 [
          | none ↦ some (record s { cache_index = found.1 }, [])
          | some index ↦
              (get_elem? s.lidars index >>= λ lidar. some (
                record s {
                  cache_index = found.1;
                  lidars = set s.lidars index (record lidar { lidar_type = livox_lidar_type });
                },
                normal_commands handle,
              ))
        ]
    | some index ↦
        (get_elem? s.lidars index >>= λ lidar. some (
          record s { lidars = set s.lidars index (configured lidar) },
          option_commands handle lidar.livox_config
              ++ set_install_attitude lidar.livox_config.handle lidar.livox_config.extrinsic_param
                ∷ normal_commands handle,
        ))
  ]

  unfoldable pub work_mode_changed_callback : LivoxStatus → ℕ → List (Command F)
  work_mode_changed_callback success handle = []
  work_mode_changed_callback timeout handle = set_work_mode_normal handle ∷ []
  work_mode_changed_callback failure handle = set_work_mode_normal handle ∷ []

  -- What a successful answer does to the device: when no option is left, it starts to sample.
  unfoldable pub acknowledged : ℕ → LidarDevice F → LidarDevice F
  unfolding clear_bit
  acknowledged bit lidar =
      let bits = clear_bit bit lidar.livox_config.set_bits in
      record lidar {
        livox_config = record lidar.livox_config { set_bits = bits };
        connect_state = if bits == 0 then sampling else lidar.connect_state;
      }

  -- The four callbacks of the options have one body, with another bit and another command to try again.
  unfoldable pub option_callback :
      ℕ
      → (ℕ → UserLivoxLidarConfig F → Command F)
      → Lds F
      → LivoxStatus
      → ℕ
      → Option (Lds F × List (Command F))
  unfolding acknowledged
  option_callback bit again s status handle =
      elim (get_index s.cache_index livox_lidar_type handle) [
        | none ↦ some (s, [])
        | some index ↦
            (get_elem? s.lidars index >>= λ lidar. elim status [
              | success ↦
                  some (record s { lidars = set s.lidars index (acknowledged bit lidar) }, [])
              | timeout ↦ some (s, again handle lidar.livox_config ∷ [])
              | failure ↦ some (s, [])
            ])
      ]

  unfoldable pub set_data_type_callback :
      Lds F → LivoxStatus → ℕ → Option (Lds F × List (Command F))
  unfolding option_callback
  set_data_type_callback =
      option_callback config_data_type
        (λ handle config. set_pcl_data_type handle config.pcl_data_type)

  unfoldable pub set_pattern_mode_callback :
      Lds F → LivoxStatus → ℕ → Option (Lds F × List (Command F))
  unfolding option_callback
  set_pattern_mode_callback =
      option_callback config_scan_pattern
        (λ handle config. set_scan_pattern handle config.pattern_mode)

  unfoldable pub set_blind_spot_callback :
      Lds F → LivoxStatus → ℕ → Option (Lds F × List (Command F))
  unfolding option_callback
  set_blind_spot_callback =
      option_callback config_blind_spot
        (λ handle config. set_blind_spot handle config.blind_spot_set)

  unfoldable pub set_dual_emit_callback :
      Lds F → LivoxStatus → ℕ → Option (Lds F × List (Command F))
  unfolding option_callback
  set_dual_emit_callback =
      option_callback config_dual_emit
        (λ handle config. set_dual_emit handle (not_zero config.dual_emit_en))

  unfoldable pub set_attitude_callback : Lds F → LivoxStatus → ℕ → Option (Lds F × List (Command F))
  set_attitude_callback s status handle = elim (get_index s.cache_index livox_lidar_type handle) [
    | none ↦ some (s, [])
    | some index ↦
        (get_elem? s.lidars index >>= λ lidar. elim status [
          | success ↦ some (s, [])
          | timeout ↦ some (
            s,
            set_install_attitude lidar.livox_config.handle lidar.livox_config.extrinsic_param ∷ [],
          )
          | failure ↦ some (s, [])
        ])
  ]

  unfoldable pub enable_imu_data_callback : Lds F → LivoxStatus → ℕ → List (Command F)
  enable_imu_data_callback s status handle =
      elim (get_index s.cache_index livox_lidar_type handle) [
        | none ↦ []
        | some index ↦ elim status [
          | success ↦ []
          | timeout ↦ enable_imu_data handle ∷ []
          | failure ↦ []
        ]
      ]
