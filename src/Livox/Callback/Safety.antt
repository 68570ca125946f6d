-- ===== src/Livox/Callback/Safety.antt =====
-- The callbacks that set devices up keep the invariant of the data source (livox_lidar_callback.cpp).
use sentry25navi.Prelude.{
  ℕ, ◌≡◌, refl, ap, sym, ◌∙◌, some, List, [], ◌∷◌, ◌++◌, inl, inr, Option-cases, length-set,
  get_elem?, set, get_elem?-some, get_elem?-set_cases, arith, subst,
}
use sentry25navi.Livox.Ldq.{StoragePacket}
use sentry25navi.Livox.Comm.{
  PointXyzlt, UserLivoxLidarConfig, LidarDevice, Frequency, livox_lidar_type,
}
use sentry25navi.Livox.CacheIndex.{CacheIndex, get_free_index, get_index}
use sentry25navi.Livox.CacheIndex.Laws
use sentry25navi.Livox.Lds.{Lds}
use sentry25navi.Livox.Lds.Queues.{IsReady}
use sentry25navi.Livox.Lds.Push.{Inv}
use sentry25navi.Livox.Callback.{
  LivoxStatus, success, timeout, failure, Command, configured, acknowledged, option_commands,
  normal_commands, set_install_attitude, lidar_info_change_callback, option_callback,
}

module _ {F : Type 0} (fresh : StoragePacket (PointXyzlt F)) (n : Frequency F) where
  -- A device may change in all but its ring.
  device_changed-Inv :
      {s : Lds F} (c : CacheIndex) (i : ℕ) (l l' : LidarDevice F)
      → Inv fresh n s
      → Laws.IsValid c
      → get_elem? s.lidars i ≡ some l
      → l'.queue ≡ l.queue
      → Inv fresh n (record s { cache_index = c; lidars = set s.lidars i l' })
  device_changed-Inv {s} c i l l' inv table at same = record {
    devices = length-set s.lidars i l' ∙ inv.devices;
    table = table;
    ready = λ k m h. elim (get_elem?-set_cases s.lidars i k h) [
      | inl (here, new) ↦
          let alike : l.queue ≡ m.queue =
            sym same ∙ ap (λ (d : LidarDevice F). d.queue) (sym new) in
          subst IsReady alike (inv.ready i l at)
      | inr old ↦ inv.ready k m old
    ];
    freq = inv.freq;
  }

  -- No device that appears, known or not, makes the data source fault or break its invariant.
  pub lidar_info_change_callback-Inv :
      {s : Lds F} (handle : ℕ)
      → Inv fresh n s
      → (s' : Lds F) × (commands : List (Command F)) × (lidar_info_change_callback s handle
          ≡ some (s', commands))
        × Inv fresh n s'
  unfolding lidar_info_change_callback configured
  lidar_info_change_callback-Inv {s} handle inv =
      elim (Option-cases (get_index s.cache_index livox_lidar_type handle)) [
        | inr (i, e) ↦
            let (l, at) =
              get_elem?-some s.lidars i (
                omega
                  (arith, inv.devices, Laws.get_index-lt livox_lidar_type handle inv.table e)) in
            (
              record s { lidars = set s.lidars i (configured l) },
              option_commands handle l.livox_config
                  ++ set_install_attitude l.livox_config.handle l.livox_config.extrinsic_param
                    ∷ normal_commands handle,
              ground (arith, e, at),
              device_changed-Inv s.cache_index i l (configured l) inv inv.table at refl,
            )
        | inl unknown ↦
            let c = (get_free_index s.cache_index livox_lidar_type handle).1 in
            let table = Laws.get_free_index-IsValid livox_lidar_type handle inv.table in
            elim (Option-cases (get_free_index s.cache_index livox_lidar_type handle).0) [
              | inl full ↦ (
                record s { cache_index = c },
                [],
                ground (arith, unknown, full),
                record { devices = inv.devices; table = table; ready = inv.ready; freq = inv.freq },
              )
              | inr (i, e) ↦
                  let small = Laws.get_free_index-lt livox_lidar_type handle inv.table e in
                  let (l, at) = get_elem?-some s.lidars i (omega (arith, inv.devices)) in
                  let l' : LidarDevice F = record l { lidar_type = livox_lidar_type } in
                  (
                    record s { cache_index = c; lidars = set s.lidars i l' },
                    normal_commands handle,
                    ground (arith, unknown, e, at),
                    device_changed-Inv c i l l' inv table at refl,
                  )
            ]
      ]

  -- Nor does an answer to an option, with any status and from any device.
  pub option_callback-Inv :
      {s : Lds F} (bit : ℕ) (again : ℕ → UserLivoxLidarConfig F → Command F) (status : LivoxStatus)
      (handle : ℕ)
      → Inv fresh n s
      → (s' : Lds F) × (commands : List (Command F)) × (option_callback bit again s status handle
          ≡ some (s', commands))
        × Inv fresh n s'
  unfolding option_callback acknowledged
  option_callback-Inv {s} bit again status handle inv =
      elim (Option-cases (get_index s.cache_index livox_lidar_type handle)) [
        | inl unknown ↦ (s, [], rw (unknown, option_callback) refl, inv)
        | inr (i, e) ↦
            let (l, at) =
              get_elem?-some s.lidars i (
                omega
                  (arith, inv.devices, Laws.get_index-lt livox_lidar_type handle inv.table e)) in
            known i l e at status
      ]
    where
      known :
          (i : ℕ) (l : LidarDevice F)
          → get_index s.cache_index livox_lidar_type handle ≡ some i
          → get_elem? s.lidars i ≡ some l
          → (status : LivoxStatus)
          → (s' : Lds F) × (commands : List (Command F)) × (option_callback bit again s status
                handle
              ≡ some (s', commands))
            × Inv fresh n s'
      known i l e at success = (
        record s { lidars = set s.lidars i (acknowledged bit l) },
        [],
        rw (e, option_callback) (rw at refl),
        device_changed-Inv s.cache_index i l (acknowledged bit l) inv inv.table at refl,
      )
      known i l e at timeout =
          (s, again handle l.livox_config ∷ [], rw (e, option_callback) (rw at refl), inv)
      known i l e at failure = (s, [], rw (e, option_callback) (rw at refl), inv)
