-- ===== src/Simulation/LaserPlugin.antt =====
-- The simulated lidar, src/livox_laser_simulation/src/livox_points_plugin.cpp and its header: the table of rays, the
-- rays of one scan and what is published of it. The geometry, the simulator's answers for a ray and
-- floating point are parameters. `none` is a fault: an index out of range, a remainder by 0 or an `int`
-- that overflows.
mod Window
mod Turns
mod Tests
use sentry25navi.Prelude.{
  ℕ, zero, suc, ◌+◌, ◌-◌, ◌*◌, ◌%◌, ◌^◌, Bool, true, false, not, ◌&&◌, ◌||◌, Option, none, some,
  List, [], ◌∷◌, ◌++◌, ◌==◌, ltb, if◌then◌else◌, length, get_elem?, set, replicate,
}
use sentry25navi.Prelude.Int.{ℤ, pos, negsuc}
use sentry25navi.Livox.Lds.{◌>>=◌}
use sentry25navi.Livox.Messages.{CustomPoint}

pub record AviaRotateInfo (F : Type 0) : Type 0 where
  pub time : F
  pub azimuth : F
  pub zenith : F
  pub line : ℕ

-- `Ray` is a ray of the shape, from the zenith and the azimuth.
pub record Geometry (F Ray : Type 0) : Type 0 where
  pub radians : F → F  -- the product with M_PI / 180
  pub tilted : F → F  -- the same, less a right angle
  pub ray_of : F → F → Ray

pub record LivoxPointsPlugin (F Ray : Type 0) : Type 0 where
  pub avia_infos : List (AviaRotateInfo F)
  pub samples_step : ℕ
  pub curr_start_index : ℕ
  pub max_point_size : ℕ
  pub down_sample : ℕ
  pub rays : List Ray

-- `%` on integers.
abbrev pub remainder : ℕ → ℕ → Option ℕ
remainder k n = if n == 0 then none else some (k % n)

module _ {F Ray : Type 0} (g : Geometry F Ray) where
  -- The loop over the rows from row `i` on. A row without three numbers is left out.
  unfoldable pub convert_data_to_rotate_info : ℕ → List (List F) → List (AviaRotateInfo F)
  convert_data_to_rotate_info i [] = []
  convert_data_to_rotate_info i ((time ∷ azimuth ∷ zenith ∷ []) ∷ datas) =
      record { time = time; azimuth = g.radians azimuth; zenith = g.tilted zenith; line = i % 4 }
      ∷ convert_data_to_rotate_info (i + 1) datas
  convert_data_to_rotate_info i (row ∷ datas) = convert_data_to_rotate_info (i + 1) datas

  abbrev pub ray_at : AviaRotateInfo F → Ray
  ray_at info = g.ray_of info.zenith info.azimuth

  -- The loop of `Load` that adds the rays, with fuel.
  unfoldable pub add_rays : ℕ → ℕ → ℕ → ℕ → List (AviaRotateInfo F) → List Ray → Option (List Ray)
  add_rays zero j samples down infos rays = none
  add_rays (suc fuel) j samples down infos rays = elim (ltb j samples) [
    | false ↦ some rays
    | true ↦ do
      index ← remainder j (length infos)
      info ← get_elem? infos index
      add_rays fuel (j + down) samples down infos (rays ++ ray_at info ∷ [])
  ]

  -- What `Load` sets, from the table and the parameters `samples` and `downsample`.
  unfoldable pub load : List (List F) → ℕ → ℕ → Option (LivoxPointsPlugin F Ray)
  unfolding convert_data_to_rotate_info add_rays
  load datas samples downsample =
      let infos = convert_data_to_rotate_info 0 datas in
      let down = if ltb downsample 1 then 1 else downsample in
      add_rays (suc samples) 0 samples down infos [] >>= λ rays. some (record {
        avia_infos = infos;
        samples_step = samples;
        curr_start_index = 0;
        max_point_size = length infos;
        down_sample = down;
        rays = rays;
      })

  -- The loop of `InitializeRays`, with fuel.
  unfoldable pub ray_loop :
      ℕ
      → ℕ
      → ℕ
      → ℕ
      → LivoxPointsPlugin F Ray
      → List Ray
      → List (ℕ × AviaRotateInfo F)
      → Option (List Ray × List (ℕ × AviaRotateInfo F))
  ray_loop zero k end_index ray_index s rays pairs = none
  ray_loop (suc fuel) k end_index ray_index s rays pairs = elim (ltb k end_index) [
    | false ↦ some (rays, pairs)
    | true ↦ do
      index ← remainder k s.max_point_size
      info ← get_elem? s.avia_infos index
      let inside = ltb ray_index (length s.rays)
      ray_loop fuel (k + s.down_sample) end_index (ray_index + 1) s
          (if inside then set rays ray_index (ray_at info) else rays)
          (if inside then pairs ++ (ray_index, info) ∷ [] else pairs)
  ]

  abbrev pub next_start : LivoxPointsPlugin F Ray → ℕ
  next_start s =
      if ltb s.max_point_size (s.curr_start_index + s.samples_step)
      then s.curr_start_index + s.samples_step - s.max_point_size
      else s.curr_start_index + s.samples_step

  -- The index `k` is an `int`, which goes up to the end and at most one step further.
  unfoldable pub initialize_rays :
      LivoxPointsPlugin F Ray → Option (List (ℕ × AviaRotateInfo F) × LivoxPointsPlugin F Ray)
  unfolding ray_loop
  initialize_rays s =
      let end_index = s.curr_start_index + s.samples_step in
      if not (ltb (end_index + s.down_sample) (2 ^ 31))
      then none
      else ray_loop (suc s.samples_step) s.curr_start_index end_index 0 s s.rays [] >>= λ r.
          some (r.1, record s { rays = r.0; curr_start_index = next_start s })
