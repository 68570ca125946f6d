-- ===== src/Simulation/LaserMessages/Visible.antt =====
-- The points that the publishers of livox_points_plugin.cpp make.
use mathlib.Core.List.{append-nil, append_assoc}
use sentry25navi.Prelude.{
  ℕ, ◌+◌, ◌-◌, ◌*◌, ◌^◌, ◌≤◌, ◌<◌, ◌≡◌, refl, sym, ap, ◌∙◌, subst, Bool, true, ◌&&◌, Option, none,
  some, List, [], ◌∷◌, ◌++◌, ltb, length, length-set, length-replicate, set, Bool-cases,
  Option-cases, inl, inr, arith,
}
use sentry25navi.Prelude.Int.{ℤ, pos, negsuc}
use sentry25navi.Livox.Messages.{CustomPoint}
use sentry25navi.Simulation.LaserPlugin.{AviaRotateInfo}
use sentry25navi.Simulation.LaserMessages.{
  Sensor, LaserScan, grid_cell, cell_of, initialize_scan, publish_loop, seen_range, cloud_point,
  timed_point, custom_of, custom_point, publish_point_cloud, publish_point_cloud2_xyzrtlt,
  publish_livox_ros_driver_custom_msg,
}

in_grid : (r c h w H W : ℕ) → r < h → c < w → h ≤ H → w ≤ W → (h - r - 1) * w + c < W * H
in_grid r c h w H W p q hH wW = grind arith

below : {a b : ℕ} → a < b → ltb a b ≡ true
below h = ground arith

module _ {F : Type 0} (s : Sensor F) where
  -- The grid of rays lies in the scan.
  pub record Fits : Type 0 where
    pub columns : s.ray_count ≤ s.range_count
    pub rows : s.vertical_ray_count ≤ s.vertical_range_count

  grid_cell-lt :
      (row column : ℤ) {index : ℕ}
      → Fits
      → grid_cell s row column ≡ some index
      → index < s.range_count * s.vertical_range_count
  unfolding grid_cell
  grid_cell-lt (negsuc r) c fits e = absurd (ground arith)
  grid_cell-lt (pos r) (negsuc c) fits e = absurd (ground arith)
  grid_cell-lt (pos r) (pos c) {index} fits e =
      elim (Bool-cases (ltb r s.vertical_ray_count && ltb c s.ray_count)) [
        | inr outside ↦ absurd (ground (arith, outside, e))
        | inl inside ↦
            let at : (s.vertical_ray_count - r - 1) * s.ray_count + c ≡ index =
              ground (arith, inside, e) in
            subst (λ (k : ℕ). k < s.range_count * s.vertical_range_count) at
              (in_grid r c s.vertical_ray_count s.ray_count s.vertical_range_count s.range_count
                (ground (arith, inside)) (ground (arith, inside)) fits.rows fits.columns)
      ]

  module _ {A : Type 0} (make : ℕ → ℕ → AviaRotateInfo F → Option A) where
    -- The points of the pairs that lie in the grid, each with the number of its pair.
    abbrev pub visible : ℕ → List (ℕ × AviaRotateInfo F) → List A
    visible i [] = []
    visible i ((ray, info) ∷ pairs) =
        elim (cell_of s info) [
          | none ↦ []
          | some index ↦ elim (make i ray info) [ none ↦ [] | some p ↦ p ∷ [] ]
        ]
        ++ visible (i + 1) pairs

  module _ {A : Type 0} (out : F → Bool) (make : ℕ → ℕ → AviaRotateInfo F → Option A) where
    abbrev Publishing : ℕ → List (ℕ × AviaRotateInfo F) → LaserScan F → List A → Type 0
    Publishing i pairs scan points =
        (scan' : LaserScan F) × (publish_loop s out make i pairs scan points
          ≡ some (scan', points ++ visible make i pairs))
        × (length scan'.ranges ≡ length scan.ranges)

    hidden :
        (i ray : ℕ) (info : AviaRotateInfo F) (pairs : List (ℕ × AviaRotateInfo F))
        (scan : LaserScan F) (points : List A)
        → cell_of s info ≡ none
        → (publish_loop s out make i ((ray, info) ∷ pairs) scan points
            ≡ publish_loop s out make (i + 1) pairs scan points)
          × (visible make i ((ray, info) ∷ pairs) ≡ visible make (i + 1) pairs)
    unfolding publish_loop
    hidden i ray info pairs scan points e = (rw (e, publish_loop) refl, rw e refl)

    seen :
        (i ray : ℕ) (info : AviaRotateInfo F) (pairs : List (ℕ × AviaRotateInfo F))
        (scan : LaserScan F) (points : List A) {index : ℕ} {p : A}
        → cell_of s info ≡ some index
        → ltb index (length scan.ranges) ≡ true
        → make i ray info ≡ some p
        → (publish_loop s out make i ((ray, info) ∷ pairs) scan points
            ≡ publish_loop s out make
                (i + 1)
                pairs
                (record {
                  ranges = set scan.ranges index (seen_range s out ray);
                  intensities = set scan.intensities index (s.retro_of ray);
                })
                (points ++ p ∷ []))
          × (visible make i ((ray, info) ∷ pairs) ≡ p ∷ visible make (i + 1) pairs)
    unfolding publish_loop
    seen i ray info pairs scan points e h m =
        (rw (e, publish_loop) (rw (h, publish_loop) (rw m refl)), rw e (rw m refl))

    publish_loop_lem :
        (limit i : ℕ) (pairs : List (ℕ × AviaRotateInfo F)) (scan : LaserScan F) (points : List A)
        → Fits
        → length scan.ranges ≡ s.range_count * s.vertical_range_count
        → i + length pairs ≤ limit
        → ((j ray : ℕ) (info : AviaRotateInfo F) → j < limit → (p : A) × (make j ray info ≡ some p))
        → Publishing i pairs scan points
    unfolding publish_loop
    publish_loop_lem limit i [] scan points fits whole room makes =
        (scan, ap (λ (l : List _). some (scan, l)) (sym (append-nil points)), refl)
    publish_loop_lem limit i ((ray, info) ∷ pairs) scan points fits whole room makes =
        elim (Option-cases (cell_of s info)) [
          | inl e ↦
              let (scan', run, kept) =
                publish_loop_lem limit (i + 1) pairs scan points fits whole (omega arith) makes in
              let (step, same) = hidden i ray info pairs scan points e in
              (scan', step ∙ run ∙ ap (λ (l : List _). some (scan', points ++ l)) (sym same), kept)
          | inr (index, e) ↦
              let inside : ltb index (length scan.ranges) ≡ true = below (
                rw whole (grid_cell-lt (s.row_of info.zenith) (s.column_of info.azimuth) fits e)) in
              let (p, m) = makes i ray info (omega arith) in
              let kept_size = length-set scan.ranges index (seen_range s out ray) in
              let (scan', run, kept) =
                publish_loop_lem limit (i + 1) pairs
                  (record {
                    ranges = set scan.ranges index (seen_range s out ray);
                    intensities = set scan.intensities index (s.retro_of ray);
                  })
                  (points ++ p ∷ []) fits (kept_size ∙ whole) (omega arith) makes in
              let (step, same) = seen i ray info pairs scan points e inside m in
              (
                scan',
                step
                    ∙ run
                    ∙ ap (λ (l : List _). some (scan', l))
                        (append_assoc points (p ∷ []) (visible make (i + 1) pairs))
                    ∙ ap (λ (l : List _). some (scan', points ++ l)) (sym same),
                kept ∙ kept_size,
              )
        ]

  custom_total :
      (j ray : ℕ) (info : AviaRotateInfo F)
      → 5000 * j < 2 ^ 32
      → (p : CustomPoint F) × (custom_point s j ray info ≡ some p)
  custom_total j ray info h = (custom_of s j ray info, rw (below h) refl)

  initialize_scan-ranges :
      length (initialize_scan s).ranges ≡ s.range_count * s.vertical_range_count
  unfolding initialize_scan
  initialize_scan-ranges = length-replicate (s.range_count * s.vertical_range_count) s.zero_f

  -- With the grid of rays inside of the scan, and fewer than 858993 pairs for the times of the driver's message,
  -- none of the three publishers makes a fault, and each publishes one point for each pair that lies in
  -- the grid, in order, with the number of the pair among all; the message says how many they are.
  pub publish_livox_ros_driver_custom_msg_lem :
      (pairs : List (ℕ × AviaRotateInfo F))
      → Fits
      → length pairs < 858_993
      → ((scan : LaserScan F) × (publish_point_cloud s pairs
            ≡ some (scan, visible (cloud_point s) 0 pairs)))
        × ((scan : LaserScan F) × (publish_point_cloud2_xyzrtlt s pairs
              ≡ some (scan, visible (timed_point s) 0 pairs)))
        × ((scan : LaserScan F) × (publish_livox_ros_driver_custom_msg s pairs
              ≡ some (
                scan,
                record {
                  point_num = length (visible (custom_point s) 0 pairs);
                  points = visible (custom_point s) 0 pairs;
                },
              )))
  unfolding publish_point_cloud publish_point_cloud2_xyzrtlt publish_livox_ros_driver_custom_msg
  publish_livox_ros_driver_custom_msg_lem pairs fits few =
      let (scan1, run1, _) =
        publish_loop_lem s.is_out (cloud_point s) (length pairs) 0 pairs (initialize_scan s) [] fits
          initialize_scan-ranges (omega arith) (λ j ray info h. (_, refl)) in
      let (scan2, run2, _) =
        publish_loop_lem s.is_out_abs (timed_point s) (length pairs) 0 pairs (initialize_scan s) []
          fits initialize_scan-ranges (omega arith) (λ j ray info h. (_, refl)) in
      let (scan3, run3, _) =
        publish_loop_lem s.is_out_abs (custom_point s) (length pairs) 0 pairs (initialize_scan s) []
          fits initialize_scan-ranges (omega arith)
          (λ j ray info h. custom_total j ray info (omega arith)) in
      ((scan1, run1), (scan2, run2), (scan3, rw run3 refl))
