-- ===== src/PointLio/LaserMapping/Sync.antt =====
-- `sync_packages` of laserMapping.cpp on the queue of scans.
use sentry25navi.Prelude.{
  ◌≡◌, refl, sym, ap, ◌∙◌, subst, Bool, true, false, not, Option, some, List, [], ◌∷◌,
  if◌then◌else◌, Bool-cases, inl, inr,
}
use sentry25navi.Livox.Lds.{◌>>=◌}
use sentry25navi.PointLio.LaserMapping.{
  pop_scan, push_scan, emptied, measured, collect, sync_packages, sync_without_imu,
}
use sentry25navi.PointLio.Records.{Seconds, PointType, Imu, Parameters, LaserMapping}
use sentry25navi.PointLio.LaserMapping.Buffers.{scans_of, times_of, Holds}
use sentry25navi.PointLio.LaserMapping.Handing.{Handing, waits, collect_lem, not_both}

module _ {F P S : Type 0} where
  nothing_buffered :
      (k : Seconds F) (s : LaserMapping F P S)
      → s.lidar_buffer ≡ []
      → sync_without_imu k s ≡ some (false, s)
  unfolding sync_without_imu
  nothing_buffered k s e =
      ap (λ b. sync_without_imu k (record s { lidar_buffer = b })) e
      ∙ ap (λ b. some (false, record s { lidar_buffer = b })) (sym e)

  with_buffers {ℓ} :
      {A : Type ℓ} (f : LaserMapping F P S → A) {c : Parameters F} {s : LaserMapping F P S}
      {q : List (F × List (PointType F P))}
      → Holds c s q
      → f s ≡ f (record s { lidar_buffer = scans_of q; time_buffer = times_of q })
  with_buffers f {s = s} {q = q} h =
      ap (λ b. f (record s { lidar_buffer = b })) h.scans
      ∙ ap (λ b. f (record s { lidar_buffer = scans_of q; time_buffer = b })) h.times

  abbrev onward :
      Seconds F → Imu F S → Bool × LaserMapping F P S → Option (Bool × LaserMapping F P S)
  onward k i r = if not r.0 then some (false, r.1) else collect k i r.1

  empty_pushed :
      (k : Seconds F) (c : Parameters F) (s : LaserMapping F P S)
      (scans : List (List (PointType F P))) (i : Imu F S) (is : List (Imu F S))
      → c.imu_en ≡ true
      → s.lidar_pushed ≡ false
      → s.imu_deque ≡ i ∷ is
      → s.lidar_buffer ≡ [] ∷ scans
      → sync_packages k c s ≡ (push_scan k [] s >>= onward k i)
  unfolding sync_packages
  empty_pushed k c s scans i is e f d b = simp (e, b, d, f)

  push_empty :
      (k : Seconds F) {c : Parameters F} {s : LaserMapping F P S} {t : F}
      {q : List (F × List (PointType F P))}
      → Holds c s ((t, []) ∷ q)
      → push_scan k [] s
        ≡ some (
          false,
          record s {
            lidar_buffer = scans_of q;
            time_buffer = times_of q;
            measures = record s.measures { lidar = [] };
          },
        )
  unfolding push_scan pop_scan
  push_empty k h = with_buffers (push_scan k []) h

  without_imu_lem :
      (k : Seconds F) (c : Parameters F) (s : LaserMapping F P S)
      (q : List (F × List (PointType F P)))
      → Holds c s q
      → c.imu_en ≡ false
      → Handing c s q (sync_without_imu k s)
  unfolding sync_without_imu pop_scan
  without_imu_lem k c s [] h e = waits c s [] h (nothing_buffered k s h.scans)
  without_imu_lem k c s ((t, []) ∷ q) h e = (
    false,
    record (emptied t s) { lidar_buffer = scans_of q; time_buffer = times_of q },
    q,
    record {
      run = with_buffers (sync_without_imu k) h;
      holds = record { scans = refl; times = refl; pushed = λ p. (absurd ((h.pushed p).1)) };
      kept = refl;
      count = refl;
      last = refl;
    },
  )
  without_imu_lem k c s ((t, p ∷ ps) ∷ q) h e = (
    true,
    record (measured k t p ps s) { lidar_buffer = scans_of q; time_buffer = times_of q },
    q,
    record {
      run = with_buffers (sync_without_imu k) h;
      holds = record {
        scans = refl;
        times = refl;
        pushed = λ p. absurd (not_both (h.pushed p).0 e);
      };
      kept = refl;
      count = refl;
      last = refl;
    },
  )

  -- The queue of a source whose first scan is not pushed, once it is.
  measured-Holds :
      (k : Seconds F) (c : Parameters F) (s : LaserMapping F P S) (t : F) (p : PointType F P)
      (ps : List (PointType F P)) (q : List (F × List (PointType F P)))
      → Holds c s ((t, p ∷ ps) ∷ q)
      → c.imu_en ≡ true
      → Holds c (record (measured k t p ps s) { lidar_pushed = true }) ((t, p ∷ ps) ∷ q)
  measured-Holds k c s t p ps q h e = record {
    scans = h.scans;
    times = h.times;
    pushed = λ x. (e, (refl, refl));
  }

  push_then_collect :
      (k : Seconds F) (c : Parameters F) (s : LaserMapping F P S)
      (q : List (F × List (PointType F P))) (i : Imu F S) (is : List (Imu F S))
      → Holds c s q
      → c.imu_en ≡ true
      → s.lidar_pushed ≡ false
      → s.imu_deque ≡ i ∷ is
      → Handing c s q (sync_packages k c s)
  unfolding sync_packages push_scan
  push_then_collect k c s [] i is h e f d = waits c s [] h (simp (e, h.scans))
  push_then_collect k c s ((t, []) ∷ q) i is h e f d =
      let s0 = record s { measures = record s.measures { lidar = [] } } in
      (
        false,
        record s0 { lidar_buffer = scans_of q; time_buffer = times_of q },
        q,
        record {
          run =
              empty_pushed k c s (scans_of q) i is e f d h.scans
              ∙ ap (λ o. o >>= onward k i) (push_empty k h);
          holds = record { scans = refl; times = refl; pushed = λ p. absurd (not_both p f) };
          kept = refl;
          count = refl;
          last = refl;
        },
      )
  push_then_collect k c s ((t, p ∷ ps) ∷ q) i is h e f d =
      let (r, s', q', hands) =
        collect_lem k c i (record (measured k t p ps s) { lidar_pushed = true }) ((t, p ∷ ps) ∷ q)
          (measured-Holds k c s t p ps q h e) refl in
      (
        r,
        s',
        q',
        record {
          run = rw (e, h.scans, d, f, h.times) hands.run;
          holds = hands.holds;
          kept = hands.kept;
          count = hands.count;
          last = hands.last;
        },
      )

  pushed_then_collect :
      (k : Seconds F) (c : Parameters F) (s : LaserMapping F P S)
      (q : List (F × List (PointType F P))) (i : Imu F S) (is : List (Imu F S))
      → Holds c s q
      → s.lidar_pushed ≡ true
      → s.imu_deque ≡ i ∷ is
      → Handing c s q (sync_packages k c s)
  unfolding sync_packages
  pushed_then_collect k c s [] i is h f d = absurd (h.pushed f).1
  pushed_then_collect k c s ((t, scan) ∷ q) i is h f d =
      subst (Handing c s ((t, scan) ∷ q)) (sym (simp ((h.pushed f).0, h.scans, d, f)))
        (collect_lem k c i s ((t, scan) ∷ q) h f)

  no_samples :
      (k : Seconds F) (c : Parameters F) (s : LaserMapping F P S) (b : List (List (PointType F P)))
      → c.imu_en ≡ true
      → s.lidar_buffer ≡ b
      → s.imu_deque ≡ []
      → sync_packages k c s ≡ some (false, s)
  unfolding sync_packages
  no_samples k c s [] e f d = simp (e, f)
  no_samples k c s (scan ∷ scans) e f d = simp (e, f, d)

  with_imu :
      (k : Seconds F) (c : Parameters F) (s : LaserMapping F P S)
      (q : List (F × List (PointType F P)))
      → Holds c s q
      → c.imu_en ≡ true
      → (is : List (Imu F S)) → s.imu_deque ≡ is
      → Handing c s q (sync_packages k c s)
  with_imu k c s q h on [] d = waits c s q h (no_samples k c s s.lidar_buffer on refl d)
  with_imu k c s q h on (i ∷ is) d = elim (Bool-cases s.lidar_pushed) [
    | inl f ↦ pushed_then_collect k c s q i is h f d
    | inr f ↦ push_then_collect k c s q i is h on f d
  ]

  -- A call does not fault, and what it hands on is the first scan of the queue that has a point.
  pub sync_packages_lem :
      (k : Seconds F) (c : Parameters F) (s : LaserMapping F P S)
      (q : List (F × List (PointType F P)))
      → Holds c s q
      → Handing c s q (sync_packages k c s)
  unfolding sync_packages
  sync_packages_lem k c s q h = elim (Bool-cases c.imu_en) [
    | inr off ↦ subst (Handing c s q) (sym (simp off)) (without_imu_lem k c s q h off)
    | inl on ↦ with_imu k c s q h on s.imu_deque refl
  ]
