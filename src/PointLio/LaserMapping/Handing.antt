-- ===== src/PointLio/LaserMapping/Handing.antt =====
-- What `sync_packages` of laserMapping.cpp hands on, and its part that follows once a scan is pushed.
use sentry25navi.Prelude.{
  ◌≡◌, refl, ◌∙◌, Bool, true, false, Option, some, List, [], ◌∷◌, ◌++◌, if◌then◌else◌, arith,
}
use sentry25navi.Livox.Lds.{◌>>=◌}
use sentry25navi.PointLio.LaserMapping.{push_imu, imu_loop, taken, collect}
use sentry25navi.PointLio.Records.{Seconds, PointType, Imu, MeasureGroup, Parameters, LaserMapping}
use sentry25navi.PointLio.LaserMapping.Buffers.{filled, scans_of, times_of, Holds, pop_scan_lem}

pub either {ℓ κ} :
    {A : Type ℓ} (C : A → Type κ) (b : Bool) {x y : A} → C x → C y → C (if b then x else y)
either C true hx hy = hx
either C false hx hy = hy

pub not_both : {b : Bool} → b ≡ true → b ≡ false → ⊥
not_both h e = ground arith

module _ {F P S : Type 0} where
  -- The samples are taken, and of the rest only what keeps the scans.
  record Keeps (s s' : LaserMapping F P S) : Type 0 where
    scans : s'.lidar_buffer ≡ s.lidar_buffer
    times : s'.time_buffer ≡ s.time_buffer
    count : s'.scan_count ≡ s.scan_count
    last : s'.last_timestamp_lidar ≡ s.last_timestamp_lidar
    lidar : (s'.measures).lidar ≡ (s.measures).lidar
    beg : (s'.measures).lidar_beg_time ≡ (s.measures).lidar_beg_time

  Keeps-same : (s : LaserMapping F P S) → Keeps s s
  Keeps-same s = record {
    scans = refl;
    times = refl;
    count = refl;
    last = refl;
    lidar = refl;
    beg = refl;
  }

  imu_loop-Keeps :
      (k : Seconds F) (is : List (Imu F S)) (t : F) (s : LaserMapping F P S)
      → Keeps s (imu_loop k is t s)
  unfolding imu_loop
  imu_loop-Keeps k [] t s = Keeps-same s
  imu_loop-Keeps k (i ∷ is) t s =
      let r = imu_loop-Keeps k is i.stamp (taken i is s) in
      either (Keeps s) _
        (record {
          scans = r.scans;
          times = r.times;
          count = r.count;
          last = r.last;
          lidar = r.lidar;
          beg = r.beg;
        })
        (Keeps-same s)

  push_imu-Keeps : (k : Seconds F) (i : Imu F S) (s : LaserMapping F P S) → Keeps s (push_imu k i s)
  unfolding push_imu
  push_imu-Keeps k i s =
      let r = imu_loop-Keeps k s.imu_deque i.stamp (record s {
        measures = record s.measures { imu = s.measures.imu ++ s.imu_last_ptr ∷ [] };
      }) in
      either (Keeps s) _ (imu_loop-Keeps k s.imu_deque i.stamp s) (
        either (Keeps s) _
          (record {
            scans = r.scans;
            times = r.times;
            count = r.count;
            last = r.last;
            lidar = r.lidar;
            beg = r.beg;
          })
          (Keeps-same s))

  -- What is handed on with the answer.
  abbrev pub handed : Bool → MeasureGroup F P S → List (F × List (PointType F P))
  handed false m = []
  handed true m = (m.lidar_beg_time, m.lidar) ∷ []

  -- What a call leaves of the queue.
  pub record Hands (c : Parameters F) (s : LaserMapping F P S) (q : List (F × List (PointType F P)))
      (o : Option (Bool × LaserMapping F P S)) (r : Bool) (s' : LaserMapping F P S)
      (q' : List (F × List (PointType F P))) : Type 0 where
    pub run : o ≡ some (r, s')
    pub holds : Holds c s' q'
    pub kept : handed r s'.measures ++ filled q' ≡ filled q
    pub count : s'.scan_count ≡ s.scan_count
    pub last : s'.last_timestamp_lidar ≡ s.last_timestamp_lidar

  abbrev pub Handing :
      Parameters F
      → LaserMapping F P S
      → List (F × List (PointType F P))
      → Option (Bool × LaserMapping F P S)
      → Type 0
  Handing c s q o =
      (r : Bool) × (s' : LaserMapping F P S) × (q' : List (F × List (PointType F P))) × Hands c s q
        o r s' q'

  pub waits :
      (c : Parameters F) (s : LaserMapping F P S) (q : List (F × List (PointType F P)))
      {o : Option (Bool × LaserMapping F P S)}
      → Holds c s q
      → o ≡ some (false, s)
      → Handing c s q o
  waits c s q h e =
      (false, s, q, record { run = e; holds = h; kept = refl; count = refl; last = refl })

  abbrev released : LaserMapping F P S → Option (Bool × LaserMapping F P S)
  released s = some (true, record s { lidar_pushed = false })

  popped_off :
      {o : Option (LaserMapping F P S)} {s' : LaserMapping F P S}
      (f : LaserMapping F P S → Option (Bool × LaserMapping F P S))
      → o ≡ some s'
      → (o >>= f) ≡ f s'
  popped_off f e = rw e refl

  pub collect_lem :
      (k : Seconds F) (c : Parameters F) (i : Imu F S) (s : LaserMapping F P S)
      (q : List (F × List (PointType F P)))
      → Holds c s q
      → s.lidar_pushed ≡ true
      → Handing c s q (collect k i s)
  unfolding collect
  collect_lem k c i s [] h e = absurd (h.pushed e).1
  collect_lem k c i s ((t, []) ∷ q) h e = absurd (h.pushed e).1
  collect_lem k c i s ((t, p ∷ ps) ∷ q) h e =
      either (Handing c s ((t, p ∷ ps) ∷ q)) (k.lt s.last_timestamp_imu s.lidar_end_time)
        (waits c s _ h refl)
        (let w = push_imu-Keeps k i s in
          (
            true,
            record (push_imu k i s) {
              lidar_buffer = scans_of q;
              time_buffer = times_of q;
              lidar_pushed = false;
            },
            q,
            record {
              run = popped_off released (
                  pop_scan_lem (push_imu k i s) t (p ∷ ps) q (w.scans ∙ h.scans)
                    (w.times ∙ h.times));
              holds = record { scans = refl; times = refl; pushed = λ e. ground arith };
              kept = rw (w.lidar, w.beg, ((h.pushed e).1).0, ((h.pushed e).1).1) refl;
              count = w.count;
              last = w.last;
            },
          ))
