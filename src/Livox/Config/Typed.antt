-- ===== src/Livox/Config/Typed.antt =====
-- Files whose values have the types that the parsers read (parse_livox_lidar_cfg.cpp, parse_cfg_file.cpp).
use sentry25navi.Prelude.{
  ℕ, ◌≡◌, refl, true, false, Option, none, some, List, [], ◌∷◌, arith, inl, inr, Option-cases,
  Bool-cases, ap, sym, ◌∙◌, ◌+◌, ◌≤◌, ◌%◌, ◌-◌, ◌==◌, length,
}
use sentry25navi.Prelude.Int.{ℤ, pos, negsuc}
use sentry25navi.Livox.Comm.{ExtParameter, UserLivoxLidarConfig}
use sentry25navi.Livox.Config.{
  Json, MemberName, File, Parsed, missing, malformed, document, lidar_configs, ip, pcl_data_type,
  pattern_mode, blind_spot_set, dual_emit_en, extrinsic_parameter, roll, pitch, yaw, x, y, z,
  float_or_zero, int_or_zero, int8_or_unset, to_int8, parse_extrinsics, extrinsics_or_none,
  config_with, parse_user_config, user_configs, parse_user_configs, configs_of, parse,
  parse_summary_info, lidar_summary_info, summary_type,
}

-- A member that is absent, or that a getter reads.
pub data IsRead {V A : Type 0} (get : V → Option A) : Option V → Type 0 where
  absent : IsRead get none
  present : {v : V} (a : A) → get v ≡ some a → IsRead get (some v)

read_of :
    {V A : Type 0} {get : V → Option A} {o : Option V} {v : V}
    → IsRead get o
    → o ≡ some v
    → (a : A) × (get v ≡ some a)
read_of absent e = absurd (cc e)
read_of {get = get} {v = v} (present {v = w} a read) e =
    let same : w ≡ v = ground (arith, e) in (a, ap get (sym same) ∙ read)

module _ {F V : Type 0} (j : Json F V) where
  -- An object with numbers for the extrinsic parameters that it has.
  pub record IsExtrinsics (v : V) : Type 0 where
    pub value_of : MemberName → Option V
    pub object : j.members v ≡ some value_of
    pub roll : IsRead j.get_float (value_of roll)
    pub pitch : IsRead j.get_float (value_of pitch)
    pub yaw : IsRead j.get_float (value_of yaw)
    pub x : IsRead j.get_int (value_of x)
    pub y : IsRead j.get_int (value_of y)
    pub z : IsRead j.get_int (value_of z)

  pub data AreExtrinsics : Option V → Type 0 where
    no_extrinsics : AreExtrinsics none
    extrinsics : {v : V} → IsExtrinsics v → AreExtrinsics (some v)

  -- An object with a text for its address and integers for its options, of those that it has.
  pub record IsEntry (v : V) : Type 0 where
    pub config : MemberName → Option V
    pub object : j.members v ≡ some config
    pub ip : IsRead j.get_string (config ip)
    pub pcl_data_type : IsRead j.get_int (config pcl_data_type)
    pub pattern_mode : IsRead j.get_int (config pattern_mode)
    pub blind_spot_set : IsRead j.get_int (config blind_spot_set)
    pub dual_emit_en : IsRead j.get_int (config dual_emit_en)
    pub extrinsic_parameter : AreExtrinsics (config extrinsic_parameter)

  pub data AreEntries : List V → Type 0 where
    no_entries : AreEntries []
    entries : {v : V} {vs : List V} → IsEntry v → AreEntries vs → AreEntries (v ∷ vs)

  -- No file, a text that is no JSON, or an object whose list of configurations, if it has one, holds such
  -- entries.
  pub data IsTyped : File V → Type 0 where
    no_file : IsTyped missing
    no_json : IsTyped malformed
    object :
        {doc : V} (doc_of : MemberName → Option V)
        → j.members doc ≡ some doc_of
        → ((vs : List V) → configs_of j (doc_of lidar_configs) ≡ some vs → AreEntries vs)
        → IsTyped (document doc)

  float_or_zero-some :
      {o : Option V} → IsRead j.get_float o → (f : F) × (float_or_zero j o ≡ some f)
  unfolding float_or_zero
  float_or_zero-some absent = (j.zero_float, refl)
  float_or_zero-some (present f e) = (f, e)

  int_or_zero-some : {o : Option V} → IsRead j.get_int o → (n : ℤ) × (int_or_zero j o ≡ some n)
  unfolding int_or_zero
  int_or_zero-some absent = (pos 0, refl)
  int_or_zero-some (present n e) = (n, e)

  int8_or_unset-some : {o : Option V} → IsRead j.get_int o → (n : ℤ) × (int8_or_unset j o ≡ some n)
  unfolding int8_or_unset
  int8_or_unset-some absent = (negsuc 0, refl)
  int8_or_unset-some (present n e) = (to_int8 n, rw e refl)

  parse_extrinsics-some :
      {v : V} → IsExtrinsics v → (p : ExtParameter F) × (parse_extrinsics j v ≡ some p)
  unfolding parse_extrinsics
  parse_extrinsics-some typed =
      let (a, ea) = float_or_zero-some typed.roll in
      let (b, eb) = float_or_zero-some typed.pitch in
      let (c, ec) = float_or_zero-some typed.yaw in
      let (d, ed) = int_or_zero-some typed.x in
      let (e, ee) = int_or_zero-some typed.y in
      let (f, ef) = int_or_zero-some typed.z in
      (
        record { roll = a; pitch = b; yaw = c; x = d; y = e; z = f },
        rw (typed.object) (rw ea (rw eb (rw ec (rw ed (rw ee (rw ef refl)))))),
      )

  extrinsics_or_none-some :
      {o : Option V} → AreExtrinsics o → (p : ExtParameter F) × (extrinsics_or_none j o ≡ some p)
  unfolding extrinsics_or_none
  extrinsics_or_none-some no_extrinsics = (_, refl)
  extrinsics_or_none-some (extrinsics typed) = parse_extrinsics-some typed

  config_with-some :
      {v address : V} (typed : IsEntry v) {text : List ℕ}
      → j.get_string address ≡ some text
      → (c : UserLivoxLidarConfig F) × (config_with j typed.config address ≡ some c)
  unfolding config_with
  config_with-some {v} {address} typed {text} known =
      let (a, ea) = int8_or_unset-some typed.pcl_data_type in
      let (b, eb) = int8_or_unset-some typed.pattern_mode in
      let (c, ec) = int8_or_unset-some typed.blind_spot_set in
      let (d, ed) = int8_or_unset-some typed.dual_emit_en in
      let (e, ee) = extrinsics_or_none-some typed.extrinsic_parameter in
      (
        record {
          handle = j.inet_addr text;
          pcl_data_type = a;
          pattern_mode = b;
          blind_spot_set = c;
          dual_emit_en = d;
          extrinsic_param = e;
          set_bits = 0;
          get_bits = 0;
        },
        rw known (rw ea (rw eb (rw ec (rw ed (rw ee refl))))),
      )

  parse_user_config-some :
      {v : V} (rest : List (UserLivoxLidarConfig F))
      → IsEntry v
      → (cs : List (UserLivoxLidarConfig F)) × (parse_user_config j v rest ≡ some cs)
  unfolding parse_user_config
  parse_user_config-some rest typed = elim (Option-cases (typed.config ip)) [
    | inl bare ↦ (rest, ground (arith, typed.object, bare))
    | inr (address, at) ↦
        let (text, known) = read_of typed.ip at in
        let (c, e) = config_with-some typed known in
        (c ∷ rest, rw (typed.object) (rw at (rw e refl)))
  ]

  pub user_configs-some :
      {vs : List V}
      → AreEntries vs
      → (cs : List (UserLivoxLidarConfig F)) × (user_configs j vs ≡ some cs)
  unfolding user_configs
  user_configs-some no_entries = ([], refl)
  user_configs-some (entries typed more) =
      let (rest, e) = user_configs-some more in
      let (cs, e') = parse_user_config-some rest typed in (cs, rw e e')

  -- A file with values of the types that are read is read without a fault.
  pub parse-some :
      (handles : ℕ) (before : List (UserLivoxLidarConfig F)) {file : File V}
      → IsTyped file
      → (r : Parsed (List (UserLivoxLidarConfig F))) × (parse j handles before file ≡ some r)
        × (r.handles ≤ handles + 1)
  unfolding parse parse_user_configs
  parse-some handles before no_file = (_, refl, omega arith)
  parse-some handles before no_json = (_, refl, omega arith)
  parse-some handles before (object doc_of at typed) =
      elim (Option-cases (configs_of j (doc_of lidar_configs))) [
        | inl bare ↦ (
          record { done = false; value = []; handles = handles + 1 - 1 },
          ground (arith, at, bare),
          omega arith,
        )
        | inr (vs, e) ↦
            let (cs, e') = user_configs-some (typed vs e) in
            elim (Bool-cases (length cs == 0)) [
              | inl empty ↦ (
                record { done = false; value = cs; handles = handles + 1 - 1 },
                ground (arith, at, e, e', empty),
                omega arith,
              )
              | inr more ↦ (
                record { done = true; value = cs; handles = handles + 1 },
                ground (arith, at, e, e', more),
                omega arith,
              )
            ]
      ]

  pub parse_summary_info-some :
      (handles before : ℕ) {file : File V}
      → IsTyped file
      → (r : Parsed ℕ) × (parse_summary_info j handles before file ≡ some r) × (r.handles ≡ handles)
  unfolding parse_summary_info
  parse_summary_info-some handles before no_file = (_, refl, refl)
  parse_summary_info-some handles before no_json = (_, refl, omega arith)
  parse_summary_info-some handles before (object doc_of at typed) =
      elim (Option-cases (summary_type j (doc_of lidar_summary_info))) [
        | inl bare ↦ (
          record { done = false; value = before; handles = handles + 1 - 1 },
          rw at (rw bare refl),
          omega arith,
        )
        | inr (n, e) ↦ (
          record { done = true; value = n % 256; handles = handles + 1 - 1 },
          rw at (rw e refl),
          omega arith,
        )
      ]
