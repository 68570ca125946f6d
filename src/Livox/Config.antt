-- ===== src/Livox/Config.antt =====
-- The configuration file, parse_cfg_file/parse_livox_lidar_cfg.cpp and parse_cfg_file/parse_cfg_file.cpp.
-- The JSON library is a parameter, and so are `inet_addr` and the float 0. A file is what opening it and
-- parsing it gives. The parsers take and return how many file handles are open, and `none` is a fault: a
-- member asked of a value that is no object, or a value read as one of another type.
pub mod Typed
mod Tests
use sentry25navi.Prelude.{
  ℕ, zero, suc, ◌+◌, ◌-◌, ◌%◌, Bool, true, false, Option, none, some, List, [], ◌∷◌, ltb, ◌==◌,
  if◌then◌else◌, length,
}
use sentry25navi.Prelude.Int.{ℤ, pos, negsuc}
use sentry25navi.Livox.Comm.{ExtParameter, UserLivoxLidarConfig}
use sentry25navi.Livox.Lds.{◌>>=◌}

-- The names of members that the code asks for.
pub data MemberName : Type 0 where
  lidar_summary_info lidar_type lidar_configs ip pcl_data_type pattern_mode blind_spot_set :
      MemberName
  dual_emit_en extrinsic_parameter roll pitch yaw x y z : MemberName

-- What the code uses of a JSON value. `members` is what `HasMember` and `operator[]` read of an object, and
-- none for another value; `elements` is `IsArray` with `GetArray` and `get_uint` is `IsUint` with `GetUint`.
-- `get_int`, `get_float` and `get_string` are none for a value of another type, where the library asserts.
pub record Json (F V : Type 0) : Type 0 where
  pub members : V → Option (MemberName → Option V)
  pub elements : V → Option (List V)
  pub get_uint : V → Option ℕ
  pub get_int : V → Option ℤ
  pub get_float : V → Option F
  pub get_string : V → Option (List ℕ)
  pub inet_addr : List ℕ → ℕ
  pub zero_float : F

-- The conversion of an `int` to `int8_t`, which keeps the low 8 bits.
abbrev pub int8_of : ℕ → ℤ
int8_of byte = if ltb byte 128 then pos byte else negsuc (255 - byte)

unfoldable pub to_int8 : ℤ → ℤ
to_int8 (pos n) = int8_of (n % 256)
to_int8 (negsuc n) = int8_of (255 - n % 256)

-- `fopen` fails, or the text is no JSON, or it is.
pub data File (V : Type 0) : Type 0 where
  missing : File V
  malformed : File V
  document : V → File V

-- `std::fopen` of a file that is there, and `std::fclose`, on the number of open handles.
abbrev fopen : ℕ → ℕ
fopen handles = handles + 1

abbrev fclose : ℕ → ℕ
fclose handles = handles - 1

-- What a parser leaves: its result, what it read, and the number of open handles.
pub record Parsed (A : Type 0) : Type 0 where
  pub done : Bool
  pub value : A
  pub handles : ℕ

module _ {F V : Type 0} (j : Json F V) where
  unfoldable pub float_or_zero : Option V → Option F
  float_or_zero none = some j.zero_float
  float_or_zero (some v) = j.get_float v

  unfoldable pub int_or_zero : Option V → Option ℤ
  int_or_zero none = some (pos 0)
  int_or_zero (some v) = j.get_int v

  unfoldable pub int8_or_unset : Option V → Option ℤ
  unfolding to_int8
  int8_or_unset none = some (negsuc 0)
  int8_or_unset (some v) = j.get_int v >>= λ n. some (to_int8 n)

  -- The result is always true.
  unfoldable pub parse_extrinsics : V → Option (ExtParameter F)
  unfolding float_or_zero int_or_zero
  parse_extrinsics value = do
    value_of ← j.members value
    roll' ← float_or_zero (value_of roll)
    pitch' ← float_or_zero (value_of pitch)
    yaw' ← float_or_zero (value_of yaw)
    x' ← int_or_zero (value_of x)
    y' ← int_or_zero (value_of y)
    z' ← int_or_zero (value_of z)
    some (record { roll = roll'; pitch = pitch'; yaw = yaw'; x = x'; y = y'; z = z' })

  abbrev no_extrinsics : ExtParameter F
  no_extrinsics = record {
    roll = j.zero_float;
    pitch = j.zero_float;
    yaw = j.zero_float;
    x = pos 0;
    y = pos 0;
    z = pos 0;
  }

  unfoldable pub extrinsics_or_none : Option V → Option (ExtParameter F)
  unfolding parse_extrinsics
  extrinsics_or_none none = some no_extrinsics
  extrinsics_or_none (some v) = parse_extrinsics v

  -- The configuration of an entry with these members and an address; the `uint8_t` of `dual_emit_en` lands
  -- in an `int8_t`.
  unfoldable pub config_with : (MemberName → Option V) → V → Option (UserLivoxLidarConfig F)
  unfolding int8_or_unset extrinsics_or_none
  config_with config address = do
    text ← j.get_string address
    data_type ← int8_or_unset (config pcl_data_type)
    pattern ← int8_or_unset (config pattern_mode)
    blind_spot ← int8_or_unset (config blind_spot_set)
    dual_emit ← int8_or_unset (config dual_emit_en)
    extrinsics ← extrinsics_or_none (config extrinsic_parameter)
    some (record {
      handle = j.inet_addr text;
      pcl_data_type = data_type;
      pattern_mode = pattern;
      blind_spot_set = blind_spot;
      dual_emit_en = dual_emit;
      extrinsic_param = extrinsics;
      set_bits = 0;
      get_bits = 0;
    })

  -- One round of the loop, `user_configs` being what the later rounds push: an entry without an address is
  -- passed over.
  unfoldable pub parse_user_config :
      V → List (UserLivoxLidarConfig F) → Option (List (UserLivoxLidarConfig F))
  unfolding config_with
  parse_user_config entry rest = j.members entry >>= λ config. elim (config ip) [
    | none ↦ some rest
    | some address ↦ (config_with config address >>= λ user_config. some (user_config ∷ rest))
  ]

  unfoldable pub user_configs : List V → Option (List (UserLivoxLidarConfig F))
  unfolding parse_user_config
  user_configs [] = some []
  user_configs (entry ∷ entries) = user_configs entries >>= parse_user_config entry

  unfoldable pub parse_user_configs : List V → Option (Bool × List (UserLivoxLidarConfig F))
  unfolding user_configs
  parse_user_configs entries = user_configs entries >>= λ configs.
      some (if length configs == 0 then (false, configs) else (true, configs))

  -- The array of configurations, when it is one and has an element.
  unfoldable pub configs_of : Option V → Option (List V)
  configs_of none = none
  configs_of (some v) = elim (j.elements v) [
    | none ↦ none
    | some vs ↦ elim vs [ [] ↦ none | w ∷ ws ↦ some (w ∷ ws) ]
  ]

  -- `before` is what the caller's vector holds. The handle is closed where the `do` block is left by `break`.
  unfoldable pub parse :
      ℕ → List (UserLivoxLidarConfig F) → File V → Option (Parsed (List (UserLivoxLidarConfig F)))
  unfolding parse_user_configs configs_of
  parse handles before missing = some (record { done = false; value = before; handles = handles })
  parse handles before malformed =
      some (record { done = false; value = []; handles = fclose (fopen handles) })
  parse handles before (document doc) = j.members doc >>= λ doc_of.
      elim (configs_of (doc_of lidar_configs)) [
        | none ↦ some (record { done = false; value = []; handles = fclose (fopen handles) })
        | some vs ↦
            (parse_user_configs vs >>= λ r. some (
              if r.0
              then record { done = true; value = r.1; handles = fopen handles }
              else record { done = false; value = r.1; handles = fclose (fopen handles) }))
      ]

  -- The type in the summary, when it is an unsigned number.
  abbrev pub summary_type : Option V → Option ℕ
  summary_type none = none
  summary_type (some object) = elim (j.members object) [
    | none ↦ none
    | some object_of ↦ elim (object_of lidar_type) [ none ↦ none | some v ↦ j.get_uint v ]
  ]

  unfoldable pub parse_summary_info : ℕ → ℕ → File V → Option (Parsed ℕ)
  parse_summary_info handles before missing =
      some (record { done = false; value = before; handles = handles })
  parse_summary_info handles before malformed =
      some (record { done = false; value = before; handles = fclose (fopen handles) })
  parse_summary_info handles before (document doc) = j.members doc >>= λ doc_of.
      some (elim (summary_type (doc_of lidar_summary_info)) [
        | none ↦ record { done = false; value = before; handles = fclose (fopen handles) }
        | some n ↦ record { done = true; value = n % 256; handles = fclose (fopen handles) }
      ])
