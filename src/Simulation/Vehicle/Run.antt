-- ===== src/Simulation/Vehicle/Run.antt =====
-- Runs of the simulated vehicle: rounds of the main loop and messages in any order.
use sentry25navi.Prelude.{
  ℕ, zero, suc, ◌+◌, ◌-◌, ◌%◌, ◌<◌, ◌≡◌, refl, sym, ap, ◌∙◌, subst, true, false, Option, none, some,
  List, [], ◌∷◌, length, length-set, get_elem?, get_elem?-set_self, get_elem?-set_ne, set,
  Bool-cases, Option-cases, ◌≢◌, inl, inr, arith,
}
use sentry25navi.Simulation.Vehicle.{
  World, Entry, ScanCloud, VehicleSimulator, counted, livox_cloud_callback, speed_callback,
  main_round, driven, after_send,
}
use sentry25navi.Livox.Messages.{PointXyzi}
use sentry25navi.Simulation.Vehicle.Ground.{Ground, terrian_cloud_callback}
use sentry25navi.Simulation.Vehicle.Keeping.{Kept, terrian_cloud_callback-KeepsRing}
use sentry25navi.Simulation.Vehicle.Pointer.{livox_cloud_callback_lem, at_start, sent_at}

abbrev pub sent_of : ℕ → Option ℕ
sent_of zero = none
sent_of (suc n) = some (n % 400)

pub mod_below : (a : ℕ) → a % 400 < 400
mod_below a = omega arith

after_send-sent_of : (n : ℕ) → after_send (sent_of n) ≡ n % 400
after_send-sent_of zero = refl
after_send-sent_of (suc n) = omega arith

sent_of-suc : (n : ℕ) → some (n % 400) ≡ sent_of (suc n)
sent_of-suc n = refl

older : (n j : ℕ) → suc j < 400 → suc j < suc n → n % 400 ≢ (suc n - suc (suc j)) % 400
older n j near inside e = omega arith

newest : (n : ℕ) → (suc n - 1) % 400 ≡ n % 400
newest n = omega arith

one_less : (n j : ℕ) → suc n - suc (suc j) ≡ n - suc j
one_less n j = omega arith

module _ {F Q : Type 0} (w : World F Q) where
  -- The states that a run reaches, with the entries that the rounds wrote, the newest first.
  pub data Steps : VehicleSimulator F → List (Entry F) → Type 0 where
    start :
        (s : VehicleSimulator F)
        → length s.stack ≡ 400
        → s.odom_send_id_pointer ≡ none
        → s.odom_rec_id_pointer ≡ 0
        → Steps s []
    scan_came :
        (s s' : VehicleSimulator F) (hs : List (Entry F)) (scan : ScanCloud F)
        (out : Option (ScanCloud F))
        → Steps s hs
        → livox_cloud_callback w scan s ≡ some (out, s')
        → Steps s' hs
    speed_came :
        (s : VehicleSimulator F) (hs : List (Entry F)) (linear_x angular_z : F)
        → Steps s hs
        → Steps (speed_callback w linear_x angular_z s) hs
    ground_came :
        (s s' : VehicleSimulator F) (hs : List (Entry F)) (g : Ground F)
        (cloud incl incl' : List (PointXyzi F))
        → Steps s hs
        → terrian_cloud_callback w g cloud incl s ≡ some (s', incl')
        → Steps s' hs
    round_passed :
        (s : VehicleSimulator F) (hs : List (Entry F)) (now : F)
        → Steps s hs
        → Steps ((main_round w now s).1) (record { time = now; pose = driven w s } ∷ hs)

  -- The ring holds the last 400 entries.
  pub record Holds (s : VehicleSimulator F) (hs : List (Entry F)) : Type 0 where
    pub size : length s.stack ≡ 400
    pub inside : s.odom_rec_id_pointer < 400
    pub sent : s.odom_send_id_pointer ≡ sent_of (length hs)
    pub each :
        (j : ℕ)
        → j < 400
        → j < length hs
        → get_elem? s.stack ((length hs - suc j) % 400) ≡ get_elem? hs j

  abbrev Served : ScanCloud F → VehicleSimulator F → Type 0
  Served scan s =
      (r : Option (ScanCloud F) × VehicleSimulator F) × (livox_cloud_callback w scan s ≡ some r)
      × Kept s r.1

  served_counted :
      (scan : ScanCloud F) (s : VehicleSimulator F)
      → s.odom_rec_id_pointer < 400
      → s.system_inited ≡ false
      → Served scan s
  unfolding livox_cloud_callback
  served_counted scan s inside fresh = (
    (none, counted w s),
    ap (at_start w scan s) fresh,
    record { stack = refl; sent = refl; inside = inside },
  )

  served_unsent :
      (scan : ScanCloud F) (s : VehicleSimulator F)
      → s.odom_rec_id_pointer < 400
      → s.system_inited ≡ true
      → s.odom_send_id_pointer ≡ none
      → Served scan s
  unfolding livox_cloud_callback
  served_unsent scan s inside inited unsent = (
    (none, s),
    ap (at_start w scan s) inited ∙ ap (sent_at w scan s) unsent,
    record { stack = refl; sent = refl; inside = inside },
  )

  served :
      (scan : ScanCloud F) (s : VehicleSimulator F)
      → length s.stack ≡ 400
      → s.odom_rec_id_pointer < 400
      → Served scan s
  served scan s size inside = elim (Bool-cases s.system_inited) [
    | inr fresh ↦ served_counted scan s inside fresh
    | inl inited ↦ elim (Option-cases s.odom_send_id_pointer) [
      | inl unsent ↦ served_unsent scan s inside inited unsent
      | inr sent ↦
          let done = livox_cloud_callback_lem w s sent.0 scan inited sent.1 size inside in
          (
            _,
            done.4,
            record {
              stack = refl;
              sent = refl;
              inside = mod_below (s.odom_rec_id_pointer + done.0);
            },
          )
    ]
  ]

  Holds-served :
      (s s' : VehicleSimulator F) (hs : List (Entry F)) → Kept s s' → Holds s hs → Holds s' hs
  Holds-served s s' hs kept h = record {
    size = ap length kept.stack ∙ h.size;
    inside = kept.inside;
    sent = kept.sent ∙ h.sent;
    each = λ j near inside.
        ap (λ stack. get_elem? stack ((length hs - suc j) % 400)) kept.stack ∙ h.each j near inside;
  }

  abbrev state_of :
      VehicleSimulator F → Option (Option (ScanCloud F) × VehicleSimulator F) → VehicleSimulator F
  state_of s none = s
  state_of s (some r) = r.1

  Holds-scan :
      (s s' : VehicleSimulator F) (hs : List (Entry F)) (scan : ScanCloud F)
      (out : Option (ScanCloud F))
      → livox_cloud_callback w scan s ≡ some (out, s')
      → Holds s hs
      → Holds s' hs
  Holds-scan s s' hs scan out came h =
      let done = served scan s h.size h.inside in
      subst (λ x. Holds x hs) (ap (state_of s) (sym done.1 ∙ came))
        (Holds-served s (done.0).1 hs done.2 h)

  abbrev written : F → VehicleSimulator F → Entry F
  written now s = record { time = now; pose = driven w s }

  each-round :
      (s : VehicleSimulator F) (hs : List (Entry F)) (now : F)
      → Holds s hs
      → (j : ℕ) → j < 400
      → j < suc (length hs)
      → get_elem? (set s.stack (length hs % 400) (written now s)) ((suc (length hs) - suc j) % 400)
        ≡ get_elem? (written now s ∷ hs) j
  each-round s hs now h zero near inside =
      ap (get_elem? (set s.stack (length hs % 400) (written now s))) (newest (length hs))
      ∙ get_elem?-set_self s.stack (length hs % 400) (written now s)
          (subst (λ n. length hs % 400 < n) (sym h.size) (mod_below (length hs)))
  each-round s hs now h (suc j) near inside =
      get_elem?-set_ne s.stack (written now s) (older (length hs) j near inside)
      ∙ ap (λ n. get_elem? s.stack (n % 400)) (one_less (length hs) j)
      ∙ h.each j (omega arith) (omega arith)

  Holds-round :
      (s : VehicleSimulator F) (hs : List (Entry F)) (now : F)
      → Holds s hs
      → Holds (main_round w now s).1 (written now s ∷ hs)
  unfolding main_round
  Holds-round s hs now h =
      let at : after_send s.odom_send_id_pointer ≡ length hs % 400 =
        ap after_send h.sent ∙ after_send-sent_of (length hs) in
      record {
        size = length-set s.stack (after_send s.odom_send_id_pointer) (written now s) ∙ h.size;
        inside = h.inside;
        sent = ap some at;
        each = λ j near inside.
            ap (λ i. get_elem? (set s.stack i (written now s)) ((suc (length hs) - suc j) % 400)) at
            ∙ each-round s hs now h j near inside;
      }

  pub Steps→Holds : (s : VehicleSimulator F) (hs : List (Entry F)) → Steps s hs → Holds s hs
  Steps→Holds _ _ (start s size sent rec_id) = record {
    size = size;
    inside = subst (λ n. n < 400) (sym rec_id) (omega arith);
    sent = sent;
    each = λ j near inside. absurd (omega arith);
  }
  Steps→Holds _ _ (scan_came s s' hs scan out steps came) =
      Holds-scan s s' hs scan out came (Steps→Holds s hs steps)
  Steps→Holds _ _ (speed_came s hs linear_x angular_z steps) =
      let h = Steps→Holds s hs steps in
      record { size = h.size; inside = h.inside; sent = h.sent; each = h.each }
  Steps→Holds _ _ (ground_came s s' hs g cloud incl incl' steps came) =
      let h = Steps→Holds s hs steps in
      Holds-served s s' hs
        ((terrian_cloud_callback-KeepsRing w g cloud incl s h.inside).at (s', incl') came) h
  Steps→Holds _ _ (round_passed s hs now steps) = Holds-round s hs now (Steps→Holds s hs steps)

  -- However the rounds of the loop, the scans, the clouds of the ground and the commands of speed follow each
  -- other, the ring has its 400 entries and holds at its place each of the last 400 poses, no more than have been written; the
  -- pointers stay within it, and a scan that comes next meets no fault.
  pub Steps-Holds :
      (s : VehicleSimulator F) (hs : List (Entry F))
      → Steps s hs
      → Holds s hs
        × ((scan : ScanCloud F)
            → (r : Option (ScanCloud F) × VehicleSimulator F) × (livox_cloud_callback w scan s
                ≡ some r))
  Steps-Holds s hs steps =
      let h = Steps→Holds s hs steps in
      (h, λ scan. let done = served scan s h.size h.inside in (done.0, done.1))
