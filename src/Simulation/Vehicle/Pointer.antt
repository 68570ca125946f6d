-- ===== src/Simulation/Vehicle/Pointer.antt =====
-- The pointer that the callback of the scans moves along the ring, `LivoxCloudCallback` of vehicle_simulator.cpp.
use sentry25navi.Prelude.{
  ℕ, zero, suc, ◌+◌, ◌-◌, ◌%◌, ◌≤◌, ◌<◌, ◌≡◌, ◌≢◌, refl, sym, ap, ◌∙◌, Bool, true, false, not, ◌&&◌,
  Option, none, some, List, ◌==◌, ==_iff, if◌then◌else◌, length, get_elem?, get_elem?-some,
  Bool-cases, ◌⊎◌, inl, inr, arith,
}
use sentry25navi.Livox.Lds.{◌>>=◌}
use sentry25navi.Simulation.Vehicle.{
  World, Entry, ScanCloud, VehicleSimulator, max_num, rec_loop, registered, current, counted,
  livox_cloud_callback,
}

-- The rounds that bring the pointer `rec_id` to the index after `send`.
abbrev pub way : ℕ → ℕ → ℕ
way rec_id send = (send + 1 + (max_num - rec_id)) % max_num

shift : (rec_id j : ℕ) → ((rec_id + 1) % 400 + j) % 400 ≡ (rec_id + suc j) % 400
shift rec_id j = omega arith

stay : (rec_id : ℕ) → rec_id < 400 → rec_id ≡ (rec_id + 0) % 400
stay rec_id h = omega arith

reach : (d k : ℕ) → 1 ≤ d → k ≤ d - 1 → suc k ≤ d
reach d k h less = omega arith

apart : (rec_id target : ℕ) → (rec_id == target) ≡ false → rec_id ≢ target
apart rec_id target h = ground arith

nearer :
    (rec_id d target fuel : ℕ)
    → rec_id < 400
    → d < suc fuel
    → (rec_id + d) % 400 ≡ target
    → rec_id ≢ target
    → (1 ≤ d) × (d - 1 < fuel) × (((rec_id + 1) % 400 + (d - 1)) % 400 ≡ target)
nearer rec_id d target fuel inside less on other =
    let some_way : 1 ≤ d = omega arith in (some_way, omega arith, omega arith)

module _ {F Q : Type 0} (w : World F Q) where
  -- The entries at the `k` indexes after `rec_id` are before the scan, and then comes the index after `send`
  -- or an entry that is not before the scan.
  pub record Stops (scan_time : F) (send : ℕ) (stack : List (Entry F)) (rec_id k : ℕ) : Type 0 where
    pub passed :
        (j : ℕ)
        → j < k
        → (e : Entry F) × (get_elem? stack ((rec_id + suc j) % 400) ≡ some e)
          × (w.numbers.lt e.time scan_time ≡ true)
    pub stop :
        ((rec_id + k) % 400 ≡ (send + 1) % 400)
        ⊎ ((e : Entry F) × (get_elem? stack ((rec_id + suc k) % 400) ≡ some e)
            × (w.numbers.lt e.time scan_time ≡ false))

  module _ (scan_time : F) (send : ℕ) (stack : List (Entry F)) where
    abbrev outcome : ℕ → ℕ → Bool → Option ℕ
    outcome fuel rec_id false = some rec_id
    outcome fuel rec_id true = rec_loop w fuel scan_time send stack ((rec_id + 1) % max_num)

    rec_loop-stop :
        (fuel rec_id : ℕ) (e : Entry F)
        → get_elem? stack ((rec_id + 1) % 400) ≡ some e
        → (w.numbers.lt e.time scan_time && not (rec_id == (send + 1) % max_num)) ≡ false
        → rec_loop w (suc fuel) scan_time send stack rec_id ≡ some rec_id
    unfolding rec_loop
    rec_loop-stop fuel rec_id e at stops = rw at (ap (outcome fuel rec_id) stops)

    rec_loop-next :
        (fuel rec_id : ℕ) (e : Entry F)
        → get_elem? stack ((rec_id + 1) % 400) ≡ some e
        → (w.numbers.lt e.time scan_time && not (rec_id == (send + 1) % max_num)) ≡ true
        → rec_loop w (suc fuel) scan_time send stack rec_id
          ≡ rec_loop w fuel scan_time send stack ((rec_id + 1) % 400)
    unfolding rec_loop
    rec_loop-next fuel rec_id e at goes = rw at (ap (outcome fuel rec_id) goes)

    Stops-here :
        (rec_id : ℕ)
        → ((rec_id ≡ (send + 1) % 400)
            ⊎ ((e : Entry F) × (get_elem? stack ((rec_id + 1) % 400) ≡ some e)
                × (w.numbers.lt e.time scan_time ≡ false)))
        → rec_id < 400
        → Stops scan_time send stack rec_id 0
    Stops-here rec_id (inl same) inside = record {
      passed = λ j h. absurd (omega arith);
      stop = inl (sym (stay rec_id inside) ∙ same);
    }
    Stops-here rec_id (inr later) inside = record {
      passed = λ j h. absurd (omega arith);
      stop = inr later;
    }

    Stops-later :
        (rec_id k : ℕ) (e : Entry F)
        → get_elem? stack ((rec_id + 1) % 400) ≡ some e
        → w.numbers.lt e.time scan_time ≡ true
        → Stops scan_time send stack ((rec_id + 1) % 400) k
        → Stops scan_time send stack rec_id (suc k)
    Stops-later rec_id k e at before rest = record {
      passed = passed_later;
      stop = stop_later rest.stop;
    }
      where
        passed_later :
            (j : ℕ)
            → j < suc k
            → (e' : Entry F) × (get_elem? stack ((rec_id + suc j) % 400) ≡ some e')
              × (w.numbers.lt e'.time scan_time ≡ true)
        passed_later zero h = (e, at, before)
        passed_later (suc j) h =
            let found = rest.passed j (omega arith) in
            (found.0, ap (get_elem? stack) (sym (shift rec_id (suc j))) ∙ found.1, found.2)

        stop_later :
            ((((rec_id + 1) % 400 + k) % 400 ≡ (send + 1) % 400)
              ⊎ ((e' : Entry F) × (get_elem? stack (((rec_id + 1) % 400 + suc k) % 400) ≡ some e')
                  × (w.numbers.lt e'.time scan_time ≡ false)))
            → (((rec_id + suc k) % 400 ≡ (send + 1) % 400)
                ⊎ ((e' : Entry F) × (get_elem? stack ((rec_id + suc (suc k)) % 400) ≡ some e')
                    × (w.numbers.lt e'.time scan_time ≡ false)))
        stop_later (inl same) = inl (sym (shift rec_id k) ∙ same)
        stop_later (inr later) =
            inr (later.0, ap (get_elem? stack) (sym (shift rec_id (suc k))) ∙ later.1, later.2)

    abbrev Ends : ℕ → ℕ → ℕ → Type 0
    Ends fuel rec_id d =
        (k : ℕ) × (k ≤ d)
        × (rec_loop w fuel scan_time send stack rec_id ≡ some ((rec_id + k) % 400))
        × Stops scan_time send stack rec_id k

    Ends-here :
        (fuel rec_id d : ℕ) (e : Entry F)
        → get_elem? stack ((rec_id + 1) % 400) ≡ some e
        → (w.numbers.lt e.time scan_time && not (rec_id == (send + 1) % max_num)) ≡ false
        → ((rec_id ≡ (send + 1) % 400) ⊎ (w.numbers.lt e.time scan_time ≡ false))
        → rec_id < 400
        → Ends (suc fuel) rec_id d
    Ends-here fuel rec_id d e at stops why inside = (
      0,
      omega arith,
      rec_loop-stop fuel rec_id e at stops ∙ ap some (stay rec_id inside),
      Stops-here rec_id (elim why [ inl same ↦ inl same | inr later ↦ inr (e, at, later) ]) inside,
    )

    -- With the way in reach of the fuel the loop ends.
    rec_loop-Stops :
        (fuel rec_id d : ℕ)
        → length stack ≡ 400
        → rec_id < 400
        → d < fuel
        → (rec_id + d) % 400 ≡ (send + 1) % 400
        → Ends fuel rec_id d
    rec_loop-Stops zero rec_id d size inside less on = absurd (omega arith)
    rec_loop-Stops (suc fuel) rec_id d size inside less on =
        let found = get_elem?-some stack ((rec_id + 1) % 400) (omega arith) in
        let e = found.0 in
        let at = found.1 in
        elim (Bool-cases (w.numbers.lt e.time scan_time)) [
          | inr late ↦
              Ends-here fuel rec_id d e at
                (ap (λ b. b && not (rec_id == (send + 1) % max_num)) late) (inr late) inside
          | inl before ↦ elim (Bool-cases (rec_id == (send + 1) % max_num)) [
            | inl same ↦
                Ends-here fuel rec_id d e at (rw (before, same) refl)
                  (inl ((==_iff rec_id ((send + 1) % max_num)).0 same)) inside
            | inr other ↦
                let near =
                  nearer rec_id d ((send + 1) % 400) fuel inside less on
                    (apart rec_id ((send + 1) % 400) other) in
                let rest =
                  rec_loop-Stops fuel ((rec_id + 1) % 400) (d - 1) size (omega arith) near.1
                    near.2 in
                (
                  suc rest.0,
                  reach d rest.0 near.0 rest.1,
                  rec_loop-next fuel rec_id e at (rw (before, other) refl)
                      ∙ rest.2
                      ∙ ap some (shift rec_id rest.0),
                  Stops-later rec_id rest.0 e at before rest.3,
                )
          ]
        ]

  way_less : (rec_id send : ℕ) → way rec_id send < 400
  way_less rec_id send = omega arith

  way_on : (rec_id send : ℕ) → rec_id < 400 → (rec_id + way rec_id send) % 400 ≡ (send + 1) % 400
  way_on rec_id send inside = omega arith

  module _ (scan : ScanCloud F) (s : VehicleSimulator F) where
    abbrev pub published : ℕ → Entry F → Option (ScanCloud F) × VehicleSimulator F
    published rec_id e = (some (registered w e scan), record s { odom_rec_id_pointer = rec_id })

    abbrev shown : ℕ → Option (Entry F) → Option (Option (ScanCloud F) × VehicleSimulator F)
    shown rec_id o =
        o >>= λ e. some (published rec_id (if s.use_gazebo_time then e else current w s))

    abbrev served : Option ℕ → Option (Option (ScanCloud F) × VehicleSimulator F)
    served o = o >>= λ rec_id. shown rec_id (get_elem? s.stack rec_id)

    abbrev pub sent_at : Option ℕ → Option (Option (ScanCloud F) × VehicleSimulator F)
    sent_at none = some (none, s)
    sent_at (some send) = served (rec_loop w max_num scan.stamp send s.stack s.odom_rec_id_pointer)

    abbrev pub at_start : Bool → Option (Option (ScanCloud F) × VehicleSimulator F)
    at_start false = some (none, counted w s)
    at_start true = sent_at s.odom_send_id_pointer

    served-found :
        (send rec_id : ℕ) (e : Entry F)
        → s.system_inited ≡ true
        → s.odom_send_id_pointer ≡ some send
        → rec_loop w max_num scan.stamp send s.stack s.odom_rec_id_pointer ≡ some rec_id
        → get_elem? s.stack rec_id ≡ some e
        → livox_cloud_callback w scan s ≡ shown rec_id (some e)
    unfolding livox_cloud_callback
    served-found send rec_id e inited sent ends at =
        ap at_start inited ∙ ap sent_at sent ∙ ap served ends ∙ ap (shown rec_id) at

  -- Once the start is over, which is when more than five scans are counted, and a pose is sent, with a ring of
  -- 400 entries and the pointer in it, a call for a scan ends. It moves the pointer at most 399 indexes on,
  -- over entries that are before the scan, to the index after the newest entry or to one that an entry not
  -- before the scan follows, and the scan goes out at the pose there, or at the current one if the times are
  -- not those of the simulation.
  pub livox_cloud_callback_lem :
      (s : VehicleSimulator F) (send : ℕ) (scan : ScanCloud F)
      → s.system_inited ≡ true
      → s.odom_send_id_pointer ≡ some send
      → length s.stack ≡ 400
      → s.odom_rec_id_pointer < 400
      → (k : ℕ) × (e : Entry F) × (k < 400)
        × (get_elem? s.stack ((s.odom_rec_id_pointer + k) % 400) ≡ some e)
        × (livox_cloud_callback w scan s
            ≡ some (
              some (registered w (if s.use_gazebo_time then e else current w s) scan),
              record s { odom_rec_id_pointer = (s.odom_rec_id_pointer + k) % 400 },
            ))
        × Stops scan.stamp send s.stack s.odom_rec_id_pointer k
  livox_cloud_callback_lem s send scan inited sent size inside =
      let rec_id = s.odom_rec_id_pointer in
      let less = way_less rec_id send in
      let moved =
        rec_loop-Stops scan.stamp send s.stack 400 rec_id (way rec_id send) size inside less
          (way_on rec_id send inside) in
      let found = get_elem?-some s.stack ((rec_id + moved.0) % 400) (omega arith) in
      (
        moved.0,
        found.0,
        omega arith,
        found.1,
        served-found scan s send ((rec_id + moved.0) % 400) found.0 inited sent moved.2 found.1,
        moved.3,
      )
