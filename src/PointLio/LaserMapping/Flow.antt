-- ===== src/PointLio/LaserMapping/Flow.antt =====
-- Runs of the callbacks, of `sync_packages` and of the filter, in any order.
use mathlib.Core.List.{append-nil, append_assoc}
use sentry25navi.Prelude.{
  ℕ, ◌+◌, ◌<◌, ◌≡◌, refl, sym, ap, ◌∙◌, subst, Bool, false, Option, some, List, [], ◌∷◌, ◌++◌,
  arith,
}
use sentry25navi.Livox.Lds.{◌>>=◌}
use sentry25navi.PointLio.LaserMapping.{imu_cbk, sync_packages, standard_pcl_cbk, livox_pcl_cbk}
use sentry25navi.PointLio.Records.{Seconds, PointType, Imu, Parameters, LaserMapping, maxn}
use sentry25navi.PointLio.LaserMapping.Buffers.{filled, filled-append, Holds}
use sentry25navi.PointLio.LaserMapping.Handing.{handed}
use sentry25navi.PointLio.LaserMapping.Sync.{sync_packages_lem}
use sentry25navi.PointLio.LaserMapping.Storing.{
  later_of, accepted, stored, stored_lem, standard_pcl_cbk-stored, livox_pcl_cbk-stored,
  imu_cbk_lem,
}

-- `filtered` is the filter between two calls, which takes samples from the deque and ends the two phases
-- of the start.
pub data Event (F : Type 0) (P : Type 0) (S : Type 0) : Type 0 where
  standard_scan : F → List (PointType F P) → Event F P S
  livox_scan : F → List (PointType F P) → Event F P S
  imu_arrives : Imu F S → Event F P S
  synced : Event F P S
  filtered : List (Imu F S) → Bool → Bool → Event F P S

module _ {F P S : Type 0} (k : Seconds F) (c : Parameters F)
    (sorted : List (PointType F P) → List (PointType F P)) where
  -- A step, with the scan that it hands on.
  abbrev pub step :
      Event F P S
      → LaserMapping F P S
      → Option (List (F × List (PointType F P)) × LaserMapping F P S)
  step (standard_scan stamp points) s =
      standard_pcl_cbk k c sorted stamp points s >>= λ s'. some ([], s')
  step (livox_scan stamp points) s = livox_pcl_cbk k c sorted stamp points s >>= λ s'. some ([], s')
  step (imu_arrives msg) s = some ([], imu_cbk k c msg s)
  step synced s = sync_packages k c s >>= λ r. some (handed r.0 (r.1).measures, r.1)
  step (filtered deque need_init init) s =
      some ([], record s { imu_deque = deque; imu_need_init = need_init; init_map = init })

  abbrev pub run :
      List (Event F P S)
      → LaserMapping F P S
      → Option (List (F × List (PointType F P)) × LaserMapping F P S)
  run [] s = some ([], s)
  run (e ∷ es) s = step e s >>= λ r. (run es r.1 >>= λ r'. some (r.0 ++ r'.0, r'.1))

  -- The time stamp that later scans are compared with.
  abbrev pub next_last : F → Event F P S → F
  next_last last (standard_scan stamp points) = later_of k last stamp
  next_last last (livox_scan stamp points) = later_of k last stamp
  next_last last (imu_arrives msg) = last
  next_last last synced = last
  next_last last (filtered deque need_init init) = last

  -- What an event adds to the queue.
  abbrev pub arrived : F → Event F P S → List (F × List (PointType F P))
  arrived last (standard_scan stamp points) = accepted k c sorted last stamp points
  arrived last (livox_scan stamp points) = accepted k c sorted last stamp points
  arrived last (imu_arrives msg) = []
  arrived last synced = []
  arrived last (filtered deque need_init init) = []

  abbrev pub arrivals : F → List (Event F P S) → List (F × List (PointType F P))
  arrivals last [] = []
  arrivals last (e ∷ es) = arrived last e ++ arrivals (next_last last e) es

  abbrev pub scan_of : Event F P S → ℕ
  scan_of (standard_scan stamp points) = 1
  scan_of (livox_scan stamp points) = 1
  scan_of (imu_arrives msg) = 0
  scan_of synced = 0
  scan_of (filtered deque need_init init) = 0

  abbrev pub scans : List (Event F P S) → ℕ
  scans [] = 0
  scans (e ∷ es) = scan_of e + scans es

  -- What a run leaves of the queue, `new` being what came.
  pub record Flows (s : LaserMapping F P S) (q new : List (F × List (PointType F P)))
      (o : Option (List (F × List (PointType F P)) × LaserMapping F P S))
      (out : List (F × List (PointType F P))) (s' : LaserMapping F P S)
      (q' : List (F × List (PointType F P))) : Type 0 where
    pub run : o ≡ some (out, s')
    pub holds : Holds c s' q'
    pub kept : out ++ filled q' ≡ filled q ++ filled new

  abbrev Flowing : LaserMapping F P S → List (F × List (PointType F P)) → Event F P S → Type 0
  Flowing s q e =
      (out : List (F × List (PointType F P))) × (s' : LaserMapping F P S) × (q' : List
        (F × List (PointType F P)))
      × Flows s q (arrived s.last_timestamp_lidar e) (step e s) out s' q'
      × (s'.scan_count ≡ s.scan_count + scan_of e)
      × (s'.last_timestamp_lidar ≡ next_last s.last_timestamp_lidar e)

  scan_stored :
      (stamp : F) (points : List (PointType F P)) (s : LaserMapping F P S)
      (q : List (F × List (PointType F P))) {o : Option (LaserMapping F P S)}
      → Holds c s q
      → o ≡ some (stored k c sorted s stamp points)
      → (s' : LaserMapping F P S) × Flows s q
          (accepted k c sorted s.last_timestamp_lidar stamp points)
          (o >>= λ s'. some ([], s'))
          []
          s'
          (q ++ accepted k c sorted s.last_timestamp_lidar stamp points)
        × (s'.scan_count ≡ s.scan_count + 1)
        × (s'.last_timestamp_lidar ≡ later_of k s.last_timestamp_lidar stamp)
  scan_stored stamp points s q h e =
      let (s', st) = stored_lem k c sorted stamp points s q h e in
      (
        s',
        record {
          run = ap (λ o. o >>= λ s'. some ([], s')) st.run;
          holds = st.holds;
          kept = filled-append q _;
        },
        st.count,
        st.last,
      )

  step_lem :
      (e : Event F P S) (s : LaserMapping F P S) (q : List (F × List (PointType F P)))
      → Holds c s q
      → c.con_frame ≡ false
      → s.scan_count + scan_of e < maxn
      → Flowing s q e
  step_lem (standard_scan stamp points) s q h whole few =
      let (s', flows, count, last) =
        scan_stored stamp points s q h
          (standard_pcl_cbk-stored k c sorted stamp points s whole few) in
      ([], s', _, flows, count, last)
  step_lem (livox_scan stamp points) s q h whole few =
      let (s', flows, count, last) =
        scan_stored stamp points s q h (livox_pcl_cbk-stored k c sorted stamp points s whole few) in
      ([], s', _, flows, count, last)
  step_lem (imu_arrives msg) s q h whole few =
      let (kept, count, last) = imu_cbk_lem k c msg s q h in
      (
        [],
        imu_cbk k c msg s,
        q,
        record { run = refl; holds = kept; kept = sym (append-nil (filled q)) },
        omega (arith, count),
        last,
      )
  step_lem synced s q h whole few =
      let (r, s', q', hands) = sync_packages_lem k c s q h in
      (
        handed r s'.measures,
        s',
        q',
        record {
          run = ap (λ o. o >>= λ r. some (handed r.0 (r.1).measures, r.1)) hands.run;
          holds = hands.holds;
          kept = hands.kept ∙ sym (append-nil (filled q));
        },
        omega (arith, hands.count),
        hands.last,
      )
  step_lem (filtered deque need_init init) s q h whole few = (
    [],
    record s { imu_deque = deque; imu_need_init = need_init; init_map = init },
    q,
    record {
      run = refl;
      holds = record { scans = h.scans; times = h.times; pushed = h.pushed };
      kept = sym (append-nil (filled q));
    },
    omega arith,
    refl,
  )

  -- In whatever order scans, samples and calls of sync_packages come, with what the filter does between
  -- two calls, nothing faults, if scans are not gathered and the count of scans stays below 720000. What
  -- is handed on, and then what waits, is what waited before and then what the callbacks accepted, in
  -- order and with its times, but for the scans without a point, which are dropped.
  pub run_lem :
      (es : List (Event F P S)) (s : LaserMapping F P S) (q : List (F × List (PointType F P)))
      → Holds c s q
      → c.con_frame ≡ false
      → s.scan_count + scans es < maxn
      → (out : List (F × List (PointType F P))) × (s' : LaserMapping F P S) × (q' : List
          (F × List (PointType F P)))
        × Flows s q (arrivals s.last_timestamp_lidar es) (run es s) out s' q'
  run_lem [] s q h whole few =
      ([], s, q, record { run = refl; holds = h; kept = sym (append-nil (filled q)) })
  run_lem (e ∷ es) s q h whole few =
      let (out, s1, q1, first, count, last) = step_lem e s q h whole (omega arith) in
      let (out', s', q', later) = run_lem es s1 q1 first.holds whole (omega (arith, count, few)) in
      (
        out ++ out',
        s',
        q',
        subst
            (λ l.
              Flows s q (arrived s.last_timestamp_lidar e ++ arrivals l es) (run (e ∷ es) s)
                (out ++ out') s' q')
            last
            (record {
              run = simp (first.run, later.run);
              holds = later.holds;
              kept =
                  append_assoc out out' (filled q')
                  ∙ ap (◌++◌ out) later.kept
                  ∙ sym (append_assoc out (filled q1) _)
                  ∙ ap (λ (l : List _). l ++ filled (arrivals s1.last_timestamp_lidar es))
                      first.kept
                  ∙ append_assoc (filled q) _ _
                  ∙ ap (◌++◌ (filled q)) (sym (filled-append (arrived s.last_timestamp_lidar e) _));
            }),
      )
