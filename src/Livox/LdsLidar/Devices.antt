-- ===== src/Livox/LdsLidar/Devices.antt =====
-- The devices that the configuration names (lds_lidar.cpp).
use native.Mathlib.Decide.{ℕ_discrete}
use sentry25navi.Prelude.{
  ℕ, ◌+◌, ◌≤◌, ◌^◌, ◌<◌, ◌≡◌, refl, ◌∙◌, Bool, Option, some, List, [], ◌∷◌, ◌++◌, inl, inr,
  Option-cases, length-set, get_elem?, set, get_elem?-some, get_elem?-set_cases, get_elem?-set_self,
  arith,
}
use sentry25navi.Prelude.Int.{ℤ}
use sentry25navi.Livox.Ldq.{StoragePacket}
use sentry25navi.Livox.Comm.{
  PointXyzlt, UserLivoxLidarConfig, LidarDevice, Frequency, livox_lidar_type,
}
use sentry25navi.Livox.CacheIndex.{CacheIndex, get_free_index, get_index}
use sentry25navi.Livox.CacheIndex.Laws
use sentry25navi.Livox.CacheIndex.Sharing.{get_index-get_free_index}
use sentry25navi.Livox.Lds.{Lds}
use sentry25navi.Livox.Lds.Push.{Inv}
use sentry25navi.Livox.Config.{Json}
use sentry25navi.Livox.LdsLidar.Parameters.{IsParameterOf, ext_parameter-IsParameterOf}
use sentry25navi.Livox.LdsLidar.{
  LdsLidar, LidarExtParameter, ext_parameter, add_device, fill_devices,
}

get_index_of_free :
    (c : CacheIndex) (h i : ℕ)
    → h < 2 ^ 32
    → (get_free_index c livox_lidar_type h).0 ≡ some i
    → get_index (get_free_index c livox_lidar_type h).1 livox_lidar_type h ≡ some i
get_index_of_free c h i word e = elim (ℕ_discrete h 0) [
  | yes at ↦ (get_index-get_free_index c h 1 i word (omega arith) (omega (arith, at)) e).0
  | no past ↦ (get_index-get_free_index c h 0 i word (omega arith) past e).0
]

module _ {F : Type 0} (fresh : StoragePacket (PointXyzlt F)) (n : Frequency F)
    (is_low_data : ℤ → Bool) where
  add_device-Inv :
      {s : Lds F} (config : UserLivoxLidarConfig F)
      → Inv fresh n s
      → (s' : Lds F) × (ps : List (LidarExtParameter F)) × (add_device is_low_data s config
          ≡ some (s', ps))
        × Inv fresh n s'
  unfolding add_device
  add_device-Inv {s} config inv =
      let table = Laws.get_free_index-IsValid livox_lidar_type config.handle inv.table in
      elim (Option-cases (get_free_index s.cache_index livox_lidar_type config.handle).0) [
        | inl full ↦ (
          record s {
            cache_index = (get_free_index s.cache_index livox_lidar_type config.handle).1;
          },
          [],
          ground (arith, full),
          record { devices = inv.devices; table = table; ready = inv.ready; freq = inv.freq },
        )
        | inr (i, e) ↦
            let small = Laws.get_free_index-lt livox_lidar_type config.handle inv.table e in
            let (lidar, at) = get_elem?-some s.lidars i (omega (arith, inv.devices)) in
            let named : LidarDevice F = record lidar {
              lidar_type = livox_lidar_type;
              livox_config = config;
              handle = config.handle;
            } in
            (
              record s {
                cache_index = (get_free_index s.cache_index livox_lidar_type config.handle).1;
                lidars = set s.lidars i named;
              },
              ext_parameter is_low_data config ∷ [],
              ground (arith, e, at),
              record {
                devices = length-set s.lidars i named ∙ inv.devices;
                table = table;
                ready = λ k l h. elim (get_elem?-set_cases s.lidars i k h) [
                  | inl (here, new) ↦ rw new (inv.ready i lidar at)
                  | inr old ↦ inv.ready k l old
                ];
                freq = inv.freq;
              },
            )
      ]

  pub fill_devices-Inv :
      (configs : List (UserLivoxLidarConfig F)) {s : Lds F}
      → Inv fresh n s
      → (s' : Lds F) × (ps : List (LidarExtParameter F)) × (fill_devices is_low_data s configs
          ≡ some (s', ps))
        × Inv fresh n s'
  unfolding fill_devices
  fill_devices-Inv [] {s} inv = (s, [], refl, inv)
  fill_devices-Inv (config ∷ configs) {s} inv =
      let (s', ps, e, inv') = add_device-Inv config inv in
      let (s'', qs, e', inv'') = fill_devices-Inv configs inv' in
      (s'', ps ++ qs, rw e (rw e' refl), inv'')

  -- A configured device that got a slot, with a handle of 32 bits in a data source that keeps its invariant,
  -- is found there under its handle, with its configuration. One set of parameters is handed on: with its
  -- handle and its angles, and its place as configured or, for data in centimetres, a tenth of it, cut
  -- towards 0.
  pub add_device_lem :
      {s : Lds F} (config : UserLivoxLidarConfig F) (i : ℕ)
      → Inv fresh n s
      → config.handle < 2 ^ 32
      → (get_free_index s.cache_index livox_lidar_type config.handle).0 ≡ some i
      → (s' : Lds F) × (lidar : LidarDevice F) × (q : LidarExtParameter F) × (add_device is_low_data
            s config
          ≡ some (s', q ∷ []))
        × IsParameterOf is_low_data config q
        × (get_index s'.cache_index livox_lidar_type config.handle ≡ some i)
        × (get_elem? s'.lidars i ≡ some lidar)
        × (lidar.handle ≡ config.handle)
        × (lidar.livox_config ≡ config)
  unfolding add_device
  add_device_lem {s} config i inv word e =
      let small = Laws.get_free_index-lt livox_lidar_type config.handle inv.table e in
      let (lidar, at) = get_elem?-some s.lidars i (omega (arith, inv.devices)) in
      let named : LidarDevice F = record lidar {
        lidar_type = livox_lidar_type;
        livox_config = config;
        handle = config.handle;
      } in
      (
        record s {
          cache_index = (get_free_index s.cache_index livox_lidar_type config.handle).1;
          lidars = set s.lidars i named;
        },
        named,
        ext_parameter is_low_data config,
        ground (arith, e, at),
        ext_parameter-IsParameterOf is_low_data config,
        get_index_of_free s.cache_index config.handle i word e,
        get_elem?-set_self s.lidars i named (omega (arith, inv.devices)),
        refl,
        refl,
      )

module _ {F V : Type 0} (fresh : StoragePacket (PointXyzlt F)) (n : Frequency F)
    (is_low_data : ℤ → Bool) (j : Json F V) where
  -- A result, the invariant, the flag kept, and at most one more file left open.
  abbrev Kept : LdsLidar F → Option (Bool × LdsLidar F) → Type 0
  Kept c r =
      (done : Bool) × (c' : LdsLidar F) × (r ≡ some (done, c'))
      × Inv fresh n c'.base
      × (c'.is_initialized ≡ c.is_initialized)
      × (c'.open_files ≤ c.open_files + 1)
