-- ===== src/Simulation/Vehicle/Late.antt =====
-- A scan that is later than every pose of the ring, `LivoxCloudCallback` of vehicle_simulator.cpp.
use sentry25navi.Prelude.{
  ℕ, zero, suc, ◌+◌, ◌-◌, ◌%◌, ◌≤◌, ◌<◌, ◌≡◌, sym, ap, ◌∙◌, true, false, some, List, length,
  get_elem?, if◌then◌else◌, ◌≢◌, inl, inr, arith,
}
use sentry25navi.Simulation.Vehicle.{
  World, Entry, ScanCloud, VehicleSimulator, registered, current, livox_cloud_callback,
}
use sentry25navi.Simulation.Vehicle.Pointer.{livox_cloud_callback_lem, published}
use sentry25navi.Simulation.Vehicle.Run.{sent_of, mod_below, Steps, Holds, Steps→Holds}

true-not-false : true ≢ false
true-not-false e = ground arith

-- The place of index `i` counted back from the newest of `n` entries.
abbrev back : ℕ → ℕ → ℕ
back n i = (n + 399 - i) % 400

back_index : (n i : ℕ) → i < 400 → 400 ≤ n → (n - suc (back n i)) % 400 ≡ i
back_index n i h enough = omega arith

sent_of_full : (n : ℕ) → 400 ≤ n → sent_of n ≡ some ((n - 1) % 400)
sent_of_full zero h = absurd (omega arith)
sent_of_full (suc n) h = ap some (omega arith)

back_oldest : (n i : ℕ) → 400 ≤ n → i ≡ ((n - 1) % 400 + 1) % 400 → back n i ≡ 399
back_oldest n i enough h = omega arith

module _ {F Q : Type 0} (w : World F Q) where
  -- The entry at each index of a ring that is full is one of the last 400.
  full :
      (s : VehicleSimulator F) (hs : List (Entry F)) (i : ℕ)
      → Holds w s hs
      → 400 ≤ length hs
      → i < 400
      → get_elem? s.stack i ≡ get_elem? hs (back (length hs) i)
  full s hs i h enough inside =
      ap (get_elem? s.stack) (sym (back_index (length hs) i inside enough))
      ∙ h.each (back (length hs) i) (mod_below (length hs + 399 - i)) (omega arith)

  -- Once the start is over, which is when more than five scans are counted, and 400 rounds have passed, a scan
  -- that is later than every entry of the ring does not go out at the newest pose: the call publishes it at
  -- the time and pose of 399 rounds before, when times are those of the simulation.
  pub livox_cloud_callback_late :
      (s : VehicleSimulator F) (hs : List (Entry F)) (scan : ScanCloud F)
      → Steps w s hs
      → 400 ≤ length hs
      → s.system_inited ≡ true
      → s.use_gazebo_time ≡ true
      → ((j : ℕ) (e : Entry F)
          → j < 400
          → get_elem? hs j ≡ some e
          → w.numbers.lt e.time scan.stamp ≡ true)
      → (e : Entry F) × (rec_id : ℕ) × (get_elem? hs 399 ≡ some e)
        × (livox_cloud_callback w scan s
            ≡ some (some (registered w e scan), record s { odom_rec_id_pointer = rec_id }))
  livox_cloud_callback_late s hs scan steps enough inited gazebo before =
      let h = Steps→Holds w s hs steps in
      let n = length hs in
      let done =
        livox_cloud_callback_lem w s ((n - 1) % 400) scan inited (h.sent ∙ sent_of_full n enough)
          h.size h.inside in
      let rec_id = (s.odom_rec_id_pointer + done.0) % 400 in
      let found =
        sym (full s hs rec_id h enough (mod_below (s.odom_rec_id_pointer + done.0))) ∙ done.3 in
      elim (done.5).stop [
        | inl same ↦ (
          done.1,
          rec_id,
          ap (get_elem? hs) (sym (back_oldest n rec_id enough same)) ∙ found,
          done.4
              ∙ ap (λ b. some (published w scan s rec_id (if b then done.1 else current w s)))
                  gazebo,
        )
        | inr later ↦
            let i = (s.odom_rec_id_pointer + suc done.0) % 400 in
            let inside = mod_below (s.odom_rec_id_pointer + suc done.0) in
            let held = sym (full s hs i h enough inside) ∙ later.1 in
            let early = before (back n i) later.0 (mod_below (n + 399 - i)) held in
            absurd (true-not-false (sym early ∙ later.2))
      ]
