-- ===== src/Simulation/LaserPlugin/Window.antt =====
-- The rays of one scan, `InitializeRays` of livox_points_plugin.cpp.
use mathlib.Core.List.{append-nil, append_assoc}
use native.Mathlib.Nat.{mod-lt}
use sentry25navi.Prelude.{
  ℕ, zero, suc, ◌+◌, ◌*◌, ◌%◌, ◌^◌, ◌≤◌, ◌<◌, ◌≡◌, refl, sym, ap, ◌∙◌, Bool, true, false, Option,
  some, List, [], ◌∷◌, ◌++◌, ltb, if◌then◌else◌, length, length-set, get_elem?, get_elem?-some, set,
  get_elem?-set_self, get_elem?-set_ne, none, Bool-cases, inl, inr, arith,
}
use sentry25navi.Simulation.LaserPlugin.{
  AviaRotateInfo, Geometry, LivoxPointsPlugin, remainder, ray_at, ray_loop, initialize_rays,
  next_start,
}

shift : (k j down : ℕ) → k + down + j * down ≡ k + suc j * down
shift k j down = grind arith

past_end : (k m : ℕ) → m ≤ k + 0 → ltb k m ≡ false
past_end k m h = ground arith

remainder_lem : (k m : ℕ) → 0 < m → remainder k m ≡ some (k % m)
remainder_lem k m h = ground arith

below : {a b : ℕ} → a < b → ltb a b ≡ true
below h = ground arith

module _ {F Ray : Type 0} (g : Geometry F Ray) (s : LivoxPointsPlugin F Ray) where
  -- The sizes fit, there is a row in the table, and the step is at least 1.
  pub record IsLoaded : Type 0 where
    pub size : length s.avia_infos ≡ s.max_point_size
    pub some_row : 0 < s.max_point_size
    pub step : 1 ≤ s.down_sample

  -- Pair `j` is ray `from + j` with the row of the table at `k + j` steps, for as long as there are rays
  -- and the end is not reached.
  pub record Reads (from k end_index : ℕ) (pairs : List (ℕ × AviaRotateInfo F)) : Type 0 where
    pub each :
        (j : ℕ)
        → from + j < length s.rays
        → k + j * s.down_sample < end_index
        → (info : AviaRotateInfo F) × (get_elem? s.avia_infos
              ((k + j * s.down_sample) % s.max_point_size)
            ≡ some info)
          × (get_elem? pairs j ≡ some (from + j, info))
    pub only :
        (j : ℕ) (x : ℕ × AviaRotateInfo F)
        → get_elem? pairs j ≡ some x
        → (from + j < length s.rays) × (k + j * s.down_sample < end_index)

  Reads-nil : (from k end_index : ℕ) → end_index ≤ k → Reads from k end_index []
  Reads-nil from k end_index h = record {
    each = λ j inside before. absurd (omega arith);
    only = λ j x e. absurd (ground arith);
  }

  Reads-cons :
      (from k end_index : ℕ) (info : AviaRotateInfo F) (pairs : List (ℕ × AviaRotateInfo F))
      → from < length s.rays
      → k < end_index
      → get_elem? s.avia_infos (k % s.max_point_size) ≡ some info
      → Reads (from + 1) (k + s.down_sample) end_index pairs
      → Reads from k end_index ((from, info) ∷ pairs)
  Reads-cons from k end_index info pairs inside before at r = record {
    each = each_of;
    only = only_of;
  }
    where
      each_of :
          (j : ℕ)
          → from + j < length s.rays
          → k + j * s.down_sample < end_index
          → (info' : AviaRotateInfo F) × (get_elem? s.avia_infos
                ((k + j * s.down_sample) % s.max_point_size)
              ≡ some info')
            × (get_elem? ((from, info) ∷ pairs) j ≡ some (from + j, info'))
      each_of zero h b =
          let here : k + 0 * s.down_sample ≡ k = omega arith in
          let first : from + 0 ≡ from = omega arith in (info, rw here at, rw first refl)
      each_of (suc j) h b =
          let (info', at', got) = r.each j (omega arith) (rw (shift k j s.down_sample) b) in
          let next : from + 1 + j ≡ from + suc j = omega arith in
          (info', rw (← shift k j s.down_sample) at', rw (← next) got)

      only_of :
          (j : ℕ) (x : ℕ × AviaRotateInfo F)
          → get_elem? ((from, info) ∷ pairs) j ≡ some x
          → (from + j < length s.rays) × (k + j * s.down_sample < end_index)
      only_of zero x e = (omega arith, omega arith)
      only_of (suc j) x e =
          let (h, b) = r.only j x e in (omega arith, rw (← shift k j s.down_sample) b)

  Reads-outside :
      (from k end_index : ℕ) (pairs : List (ℕ × AviaRotateInfo F))
      → length s.rays ≤ from
      → Reads (from + 1) (k + s.down_sample) end_index pairs
      → Reads from k end_index pairs
  Reads-outside from k end_index pairs outside r = record {
    each = λ j inside before. absurd (omega arith);
    only = λ j x e. absurd (omega (arith, (r.only j x e).0));
  }

  -- Ray `from + j` is set from the row of the table at `k + j` steps, as long as there are rays and the end is
  -- not reached, and the rays before `from` stay.
  pub record Sets (from k end_index : ℕ) (rays rays' : List Ray) : Type 0 where
    pub each :
        (j : ℕ) (info : AviaRotateInfo F)
        → from + j < length s.rays
        → k + j * s.down_sample < end_index
        → get_elem? s.avia_infos ((k + j * s.down_sample) % s.max_point_size) ≡ some info
        → get_elem? rays' (from + j) ≡ some (ray_at g info)
    pub before : (i : ℕ) → i < from → get_elem? rays' i ≡ get_elem? rays i

  Sets-past :
      (from k end_index : ℕ) (rays : List Ray) → end_index ≤ k → Sets from k end_index rays rays
  Sets-past from k end_index rays h = record {
    each = λ j info inside less at. absurd (omega arith);
    before = λ i less. refl;
  }

  Sets-outside :
      (from k end_index : ℕ) (rays rays' : List Ray)
      → length s.rays ≤ from
      → Sets (from + 1) (k + s.down_sample) end_index rays rays'
      → Sets from k end_index rays rays'
  Sets-outside from k end_index rays rays' outside r = record {
    each = λ j info inside less at. absurd (omega arith);
    before = λ i less. r.before i (omega arith);
  }

  abbrev seen_ray : Option (AviaRotateInfo F) → Option Ray
  seen_ray none = none
  seen_ray (some info) = some (ray_at g info)

  Sets-cons :
      (from k end_index : ℕ) (info : AviaRotateInfo F) (rays rays' : List Ray)
      → from < length rays
      → get_elem? s.avia_infos (k % s.max_point_size) ≡ some info
      → Sets (from + 1) (k + s.down_sample) end_index (set rays from (ray_at g info)) rays'
      → Sets from k end_index rays rays'
  Sets-cons from k end_index info rays rays' inside at r = record {
    each = each_of;
    before =
        λ i less. r.before i (omega arith) ∙ get_elem?-set_ne rays (ray_at g info) (omega arith);
  }
    where
      each_of :
          (j : ℕ) (info' : AviaRotateInfo F)
          → from + j < length s.rays
          → k + j * s.down_sample < end_index
          → get_elem? s.avia_infos ((k + j * s.down_sample) % s.max_point_size) ≡ some info'
          → get_elem? rays' (from + j) ≡ some (ray_at g info')
      each_of zero info' h b at' =
          let here : k ≡ k + 0 * s.down_sample = omega arith in
          let first : from + 0 ≡ from = omega arith in
          ap (get_elem? rays') first
          ∙ r.before from (omega arith)
          ∙ get_elem?-set_self rays from (ray_at g info) inside
          ∙ ap seen_ray
              (sym at ∙ ap (λ (i : ℕ). get_elem? s.avia_infos (i % s.max_point_size)) here ∙ at')
      each_of (suc j) info' h b at' =
          let next : from + suc j ≡ from + 1 + j = omega arith in
          ap (get_elem? rays') next
          ∙ r.each j info' (omega arith) (rw (shift k j s.down_sample) b)
              (rw (shift k j s.down_sample) at')

  -- What the loop leaves.
  record Loops (from k end_index : ℕ) (rays : List Ray) (pairs : List (ℕ × AviaRotateInfo F))
      (o : Option (List Ray × List (ℕ × AviaRotateInfo F))) (rays' : List Ray)
      (new : List (ℕ × AviaRotateInfo F)) : Type 0 where
    run : o ≡ some (rays', pairs ++ new)
    kept : length rays' ≡ length rays
    sets : Sets from k end_index rays rays'
    reads : Reads from k end_index new

  Looping : ℕ → ℕ → ℕ → ℕ → List Ray → List (ℕ × AviaRotateInfo F) → Type 0
  Looping fuel k end_index from rays pairs =
      (rays' : List Ray) × (new : List (ℕ × AviaRotateInfo F)) × Loops from k end_index rays pairs
        (ray_loop g fuel k end_index from s rays pairs) rays' new

  past :
      (fuel k end_index from : ℕ) (rays : List Ray) (pairs : List (ℕ × AviaRotateInfo F))
      → ltb k end_index ≡ false
      → ray_loop g (suc fuel) k end_index from s rays pairs ≡ some (rays, pairs)
  unfolding ray_loop
  past fuel k end_index from rays pairs e = rw (e, ray_loop) refl

  round :
      (fuel k end_index from : ℕ) (rays : List Ray) (pairs : List (ℕ × AviaRotateInfo F))
      {info : AviaRotateInfo F} {b : Bool}
      → IsLoaded
      → ltb k end_index ≡ true
      → get_elem? s.avia_infos (k % s.max_point_size) ≡ some info
      → ltb from (length s.rays) ≡ b
      → ray_loop g (suc fuel) k end_index from s rays pairs
        ≡ ray_loop g fuel
            (k + s.down_sample)
            end_index
            (from + 1)
            s
            (if b then set rays from (ray_at g info) else rays)
            (if b then pairs ++ (from, info) ∷ [] else pairs)
  unfolding ray_loop
  round fuel k end_index from rays pairs ok e at inside =
      rw (e, ray_loop) (rw (remainder_lem k s.max_point_size ok.some_row) (rw at (rw inside refl)))

  at_end :
      (fuel k end_index from : ℕ) (rays : List Ray) (pairs : List (ℕ × AviaRotateInfo F))
      → ltb k end_index ≡ false
      → Looping (suc fuel) k end_index from rays pairs
  unfolding Looping
  at_end fuel k end_index from rays pairs over = (
    rays,
    [],
    record {
      run =
          past fuel k end_index from rays pairs over
          ∙ ap (λ (l : List _). some (rays, l)) (sym (append-nil pairs));
      kept = refl;
      sets = Sets-past from k end_index rays (ground arith);
      reads = Reads-nil from k end_index (ground arith);
    },
  )

  ray_loop_lem :
      (fuel k end_index from : ℕ) (rays : List Ray) (pairs : List (ℕ × AviaRotateInfo F))
      → IsLoaded
      → length rays ≡ length s.rays
      → end_index ≤ k + fuel
      → Looping (suc fuel) k end_index from rays pairs
  unfolding ray_loop Looping
  ray_loop_lem zero k end_index from rays pairs ok as_many enough =
      at_end zero k end_index from rays pairs (past_end k end_index enough)
  ray_loop_lem (suc fuel) k end_index from rays pairs ok as_many enough =
      elim (Bool-cases (ltb k end_index)) [
        | inr over ↦ at_end (suc fuel) k end_index from rays pairs over
        | inl before ↦
            let (info, at) =
              get_elem?-some s.avia_infos (k % s.max_point_size)
                (rw ok.size (mod-lt k ok.some_row)) in
            elim (Bool-cases (ltb from (length s.rays))) [
              | inl inside ↦
                  let (rays', new, r) =
                    ray_loop_lem fuel (k + s.down_sample) end_index (from + 1)
                      (set rays from (ray_at g info)) (pairs ++ (from, info) ∷ []) ok
                      (length-set rays from (ray_at g info) ∙ as_many) (omega (arith, ok.step)) in
                  (
                    rays',
                    (from, info) ∷ new,
                    record {
                      run =
                          round (suc fuel) k end_index from rays pairs ok before at inside
                          ∙ r.run
                          ∙ ap (λ (l : List _). some (rays', l))
                              (append_assoc pairs ((from, info) ∷ []) new);
                      kept = r.kept ∙ length-set rays from (ray_at g info);
                      sets = Sets-cons from k end_index info rays rays' (ground arith) at r.sets;
                      reads =
                          Reads-cons from k end_index info new (ground arith) (ground arith) at
                            r.reads;
                    },
                  )
              | inr outside ↦
                  let (rays', new, r) =
                    ray_loop_lem fuel (k + s.down_sample) end_index (from + 1) rays pairs ok as_many
                      (omega (arith, ok.step)) in
                  (
                    rays',
                    new,
                    record {
                      run =
                          round (suc fuel) k end_index from rays pairs ok before at outside ∙ r.run;
                      kept = r.kept;
                      sets = Sets-outside from k end_index rays rays' (ground arith) r.sets;
                      reads = Reads-outside from k end_index new (ground arith) r.reads;
                    },
                  )
            ]
      ]

  abbrev pub Reading : Type 0
  Reading =
      (pairs : List (ℕ × AviaRotateInfo F)) × (rays : List Ray) × (initialize_rays g s
        ≡ some (pairs, record s { rays = rays; curr_start_index = next_start g s }))
      × (length rays ≡ length s.rays)
      × Sets 0 s.curr_start_index (s.curr_start_index + s.samples_step) s.rays rays
      × Reads 0 s.curr_start_index (s.curr_start_index + s.samples_step) pairs

  -- One scan of a loaded sensor, whose index stays below 2 ^ 31: no fault, and each ray is set from the row of
  -- the table that is as many steps from the start as the ray's number.
  pub initialize_rays_lem :
      IsLoaded → s.curr_start_index + s.samples_step + s.down_sample < 2 ^ 31 → Reading
  unfolding initialize_rays Looping
  initialize_rays_lem ok few =
      let (rays, pairs, r) =
        ray_loop_lem s.samples_step s.curr_start_index (s.curr_start_index + s.samples_step) 0
          s.rays [] ok refl (omega arith) in
      (pairs, rays, simp (below few, r.run), r.kept, r.sets, r.reads)
