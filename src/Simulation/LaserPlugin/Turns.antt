-- ===== src/Simulation/LaserPlugin/Turns.antt =====
-- Scan after scan of the simulated lidar, livox_points_plugin.cpp.
use native.Mathlib.Nat.{mod-add-mod, mod-eq-sub-mod}
use sentry25navi.Prelude.{
  ℕ, zero, suc, ◌+◌, ◌-◌, ◌*◌, ◌%◌, ◌^◌, ◌≤◌, ◌<◌, ◌≡◌, refl, sym, ap, ◌∙◌, true, Option, some,
  List, ltb, if◌then◌else◌, length, get_elem?, Bool-cases, inl, inr, arith,
}
use sentry25navi.Livox.Lds.{◌>>=◌}
use sentry25navi.Simulation.LaserPlugin.{
  AviaRotateInfo, Geometry, LivoxPointsPlugin, initialize_rays, next_start, ray_at,
}
use sentry25navi.Simulation.LaserPlugin.Window.{IsLoaded, Reading, initialize_rays_lem}

same_phase : (a b t m : ℕ) → a % m ≡ b % m → (a + t) % m ≡ (b + t) % m
same_phase a b t m e = sym (mod-add-mod a m t) ∙ ap (λ (r : ℕ). (r + t) % m) e ∙ mod-add-mod b m t

one_more : (a i t : ℕ) → a + i * t + t ≡ a + suc i * t
one_more a i t = grind arith

wrapped_le : (a t m : ℕ) → a ≤ m → t ≤ m → (if ltb m (a + t) then a + t - m else a + t) ≤ m
wrapped_le a t m h k = ground arith

wrapped_mod : (a t m : ℕ) → (if ltb m (a + t) then a + t - m else a + t) % m ≡ (a + t) % m
wrapped_mod a t m = elim (Bool-cases (ltb m (a + t))) [
  | inl over ↦ rw over (sym (mod-eq-sub-mod (over_le over)))
  | inr under ↦ rw under refl
]
  where
    over_le : ltb m (a + t) ≡ true → m ≤ a + t
    over_le h = ground arith

module _ {F Ray : Type 0} (g : Geometry F Ray) (s : LivoxPointsPlugin F Ray) where
  -- The state after some scans.
  abbrev pub scanned : ℕ → Option (LivoxPointsPlugin F Ray)
  scanned zero = some s
  scanned (suc i) = scanned i >>= λ s'. (initialize_rays g s' >>= λ r. some r.1)

  -- A loaded sensor with no more samples than rows, whose indices stay below 2 ^ 31.
  pub record IsReady : Type 0 where
    pub loaded : IsLoaded g s
    pub fewer : s.samples_step ≤ s.max_point_size
    pub start : s.curr_start_index ≤ s.max_point_size
    pub below : s.max_point_size + s.samples_step + s.down_sample < 2 ^ 31

  abbrev at : List Ray → ℕ → LivoxPointsPlugin F Ray
  at rays start = record s { rays = rays; curr_start_index = start }

  -- Only the rays and the start change.
  record Turned (i : ℕ) (rays : List Ray) (start : ℕ) : Type 0 where
    run : scanned i ≡ some (at rays start)
    count : length rays ≡ length s.rays
    bound : start ≤ s.max_point_size
    phase : start % s.max_point_size ≡ (s.curr_start_index + i * s.samples_step) % s.max_point_size

  read_at :
      IsReady → (rays : List Ray) (start : ℕ) → start ≤ s.max_point_size → Reading g (at rays start)
  read_at ok rays start h =
      initialize_rays_lem g (at rays start)
        (record { size = ok.loaded.size; some_row = ok.loaded.some_row; step = ok.loaded.step })
        (omega (arith, ok.below))

  turn : IsReady → (i : ℕ) → (rays : List Ray) × (start : ℕ) × Turned i rays start
  turn ok zero = (
    s.rays,
    s.curr_start_index,
    record {
      run = refl;
      count = refl;
      bound = ok.start;
      phase = ap (λ (k : ℕ). k % s.max_point_size) (omega arith);
    },
  )
  turn ok (suc i) =
      let (rays, start, t) = turn ok i in
      let (pairs, rays', run, count, sets, reads) = read_at ok rays start t.bound in
      (
        rays',
        next_start g (at rays start),
        record {
          run = simp (t.run, run);
          count = count ∙ t.count;
          bound = wrapped_le start s.samples_step s.max_point_size t.bound ok.fewer;
          phase =
              wrapped_mod start s.samples_step s.max_point_size
              ∙ same_phase start (s.curr_start_index + i * s.samples_step) s.samples_step
                  s.max_point_size t.phase
              ∙ ap (λ (k : ℕ). k % s.max_point_size) (one_more s.curr_start_index i s.samples_step);
        },
      )

  -- Scan `i` of a ready sensor: no scan before it nor itself makes a fault, and ray `j` is set from the row that is
  -- `i` scans and `j` steps behind the start, counted round the table, and paired with this row, as long as
  -- there are rays and samples. So each scan goes on where the one before it ended.
  pub scanned-initialize_rays :
      IsReady
      → (i : ℕ)
      → (s' s'' : LivoxPointsPlugin F Ray) × (pairs : List (ℕ × AviaRotateInfo F)) × (scanned i
          ≡ some s')
        × (initialize_rays g s' ≡ some (pairs, s''))
        × ((j : ℕ)
            → j < length s.rays
            → j * s.down_sample < s.samples_step
            → (info : AviaRotateInfo F) × (get_elem? s.avia_infos
                  ((s.curr_start_index + i * s.samples_step + j * s.down_sample) % s.max_point_size)
                ≡ some info)
              × (get_elem? s''.rays j ≡ some (ray_at g info))
              × (get_elem? pairs j ≡ some (j, info)))
  scanned-initialize_rays ok i =
      let (rays, start, t) = turn ok i in
      let (pairs, rays', run, count, sets, reads) = read_at ok rays start t.bound in
      (
        at rays start,
        _,
        pairs,
        t.run,
        run,
        λ j inside before.
            let (info, row, got) = reads.each j (omega (arith, t.count)) (omega arith) in
            let first : 0 + j ≡ j = omega arith in
            (
              info,
              rw
                  (← same_phase start (s.curr_start_index + i * s.samples_step) (j * s.down_sample)
                    s.max_point_size t.phase)
                  row,
              ap (get_elem? rays') (sym first)
                  ∙ sets.each j info (omega (arith, t.count)) (omega arith) row,
              got ∙ ap (λ (k : ℕ). some (k, info)) first,
            ),
      )
