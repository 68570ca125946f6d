-- ===== src/Simulation/Vehicle/Ground.antt =====
-- The height and slope of the ground, `TerrianCloudCallback` of src/sentry_simulation/src/vehicle_simulator.cpp. The
-- voxel filter of PCL and the solution by OpenCV are parameters; the latter is none where it throws.
use sentry25navi.Prelude.{
  ℕ, zero, suc, ◌+◌, ◌-◌, Bool, true, false, not, ◌&&◌, ◌||◌, Option, some, List, [], ◌∷◌, ◌++◌,
  ◌==◌, ltb, if◌then◌else◌, length, replicate,
}
use sentry25navi.Livox.Lds.{◌>>=◌}
use sentry25navi.Livox.Messages.{PointXyzi}
use sentry25navi.Simulation.Vehicle.{World, Pose, VehicleSimulator}

-- A row of the matrices A and B.
pub record Row (F : Type 0) : Type 0 where
  pub a0 : F
  pub a1 : F
  pub b : F

-- The parameters of the node. The least numbers are compared with counts.
pub record Ground (F : Type 0) : Type 0 where
  pub adjust_z : Bool
  pub adjust_incl : Bool
  pub terrian_radius_z : F
  pub terrian_radius_incl : F
  pub max_ground_height : F
  pub smooth_rate_z : F
  pub smooth_rate_incl : F
  pub incl_fitting_threshold : F
  pub max_incl_radians : F  -- maxIncl * PI / 180.0
  pub enough_z : ℕ → Bool  -- at least minTerrianNumZ
  pub few_incl : ℕ → Bool  -- below minTerrianNumIncl
  pub one : F
  pub sqrt : F → F
  pub over : F → ℕ → F  -- the quotient by a count
  pub voxel : List (PointXyzi F) → List (PointXyzi F)
  pub solve : List (Row F) → Option (F × F)

-- What the loop over the cloud gathers. `point` is the variable that is left with the last point.
pub record Gathered (F : Type 0) : Type 0 where
  pub point : PointXyzi F
  pub elev_mean : F
  pub elev_count : ℕ
  pub terrian_valid : Bool
  pub terrian_cloud_incl : List (PointXyzi F)

module _ {F Q : Type 0} (w : World F Q) (g : Ground F) where
  abbrev pub distance : Pose F → PointXyzi F → F
  distance v p =
      let n = w.numbers in
      g.sqrt (n.add (n.mul (n.sub p.x v.x) (n.sub p.x v.x)) (n.mul (n.sub p.y v.y) (n.sub p.y v.y)))

  abbrev pub is_low : PointXyzi F → Bool
  is_low p = w.numbers.lt p.intensity g.max_ground_height

  unfoldable pub gather : Pose F → List (PointXyzi F) → Gathered F → Gathered F
  gather v [] s = s
  gather v (p ∷ rest) s =
      let near = w.numbers.lt (distance v p) g.terrian_radius_z in
      let low = is_low p in
      gather v rest (record {
        point = p;
        elev_mean = if near && low then w.numbers.add s.elev_mean p.z else s.elev_mean;
        elev_count = if near && low then s.elev_count + 1 else s.elev_count;
        terrian_valid = if near && not low then false else s.terrian_valid;
        terrian_cloud_incl =
            if w.numbers.lt (distance v p) g.terrian_radius_incl && low
            then s.terrian_cloud_incl ++ p ∷ []
            else s.terrian_cloud_incl;
      })

  abbrev pub smoothed : F → F → F → F
  smoothed rate old new =
      w.numbers.add (w.numbers.mul (w.numbers.sub g.one rate) old) (w.numbers.mul rate new)

  abbrev pub row_of : Pose F → F → PointXyzi F → Row F
  row_of v elev_mean p = record {
    a0 = w.numbers.sub v.x p.x;
    a1 = w.numbers.sub p.y v.y;
    b = w.numbers.sub p.z elev_mean;
  }

  abbrev pub is_outlier : Row F → F × F → Bool
  is_outlier r x =
      let n = w.numbers in
      n.lt g.incl_fitting_threshold (n.abs (n.sub (n.add (n.mul r.a0 x.0) (n.mul r.a1 x.1)) r.b))

  -- The rows of a round and the number of outliers. The point is the same for each of the `count` rows.
  abbrev pub rows_of : Row F → F × F → ℕ → ℕ → List (Row F) × ℕ
  rows_of r x count iter_count =
      if is_outlier r x && ltb 0 iter_count
      then (
        replicate count
            (record { a0 = w.numbers.zero_f; a1 = w.numbers.zero_f; b = w.numbers.zero_f }),
        count,
      )
      else (replicate count r, 0)

  -- The rounds of the fit, with the solution and the number of inliers.
  unfoldable pub fit_loop : ℕ → ℕ → Row F → ℕ → F × F → ℕ → Option ((F × F) × ℕ)
  fit_loop zero iter_count r count x inlier_num = some (x, inlier_num)
  fit_loop (suc rounds) iter_count r count x inlier_num =
      let made = rows_of r x count iter_count in
      g.solve made.0 >>= λ x'. elim (inlier_num == count - made.1) [
        | true ↦ some (x', inlier_num)
        | false ↦ fit_loop rounds (iter_count + 1) r count x' (count - made.1)
      ]

  abbrev pub too_steep : F → Bool
  too_steep a = w.numbers.lt g.max_incl_radians (w.numbers.abs a)

  abbrev pub with_slope : F × F → VehicleSimulator F → VehicleSimulator F
  with_slope x s = record s {
    vehicle = record s.vehicle {
      terrian_pitch = smoothed g.smooth_rate_incl (s.vehicle.terrian_pitch) x.0;
      terrian_roll = smoothed g.smooth_rate_incl (s.vehicle.terrian_roll) x.1;
    };
  }

  abbrev pub gathered : Pose F → List (PointXyzi F) → List (PointXyzi F) → Gathered F
  gathered v cloud incl =
      let zero_f = w.numbers.zero_f in
      gather v cloud (record {
        point = record { x = zero_f; y = zero_f; z = zero_f; intensity = zero_f };
        elev_mean = zero_f;
        elev_count = 0;
        terrian_valid = true;
        terrian_cloud_incl = incl;
      })

  abbrev pub mean_of : Gathered F → F
  mean_of found =
      if g.enough_z found.elev_count
      then g.over found.elev_mean found.elev_count
      else found.elev_mean

  abbrev pub is_valid_height : Gathered F → Bool
  is_valid_height found = g.enough_z found.elev_count && found.terrian_valid

  abbrev pub raised : Gathered F → VehicleSimulator F → VehicleSimulator F
  raised found s = record s { terrian_z = smoothed g.smooth_rate_z s.terrian_z (mean_of found) }

  abbrev pub with_height : Gathered F → VehicleSimulator F → VehicleSimulator F
  with_height found s = if is_valid_height found && g.adjust_z then raised found s else s

  abbrev pub is_valid_slope : (F × F) × ℕ → Bool
  is_valid_slope r = not (g.few_incl r.1 || too_steep (r.0).0 || too_steep (r.0).1)

  -- The state of the vehicle and the cloud for the slope, which is never emptied.
  unfoldable pub terrian_cloud_callback :
      List (PointXyzi F)
      → List (PointXyzi F)
      → VehicleSimulator F
      → Option (VehicleSimulator F × List (PointXyzi F))
  unfolding gather fit_loop
  terrian_cloud_callback cloud incl s =
      if not g.adjust_z && not g.adjust_incl
      then some (s, incl)
      else let found = gathered s.vehicle cloud incl in
        let s' = with_height found s in
        let count = length (g.voxel found.terrian_cloud_incl) in
        if g.few_incl count && not (is_valid_height found)
        then some (s', found.terrian_cloud_incl)
        else fit_loop 5 0 (row_of s.vehicle (mean_of found) found.point) count
            (s.vehicle.terrian_pitch, s.vehicle.terrian_roll) 0
          >>= λ r. some (
            if is_valid_height found && is_valid_slope r && g.adjust_incl
                then with_slope r.0 s'
                else s',
            found.terrian_cloud_incl,
          )
