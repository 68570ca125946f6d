-- ===== src/PointLio/LaserMapping/Buffers.antt =====
-- The buffers of scans of laserMapping.cpp, from the callbacks to `sync_packages`, as one queue of scans with
-- their times.
use mathlib.Core.List.{append-nil, append_assoc}
use sentry25navi.Prelude.{◌≡◌, refl, sym, ap, ◌∙◌, subst, true, some, List, [], ◌∷◌, ◌++◌}
use sentry25navi.PointLio.LaserMapping.{push_pieces, pop_scan}
use sentry25navi.PointLio.Records.{PointType, MeasureGroup, Parameters, LaserMapping}

module _ {F P : Type 0} where
  -- The scans that have a point.
  abbrev pub filled : List (F × List (PointType F P)) → List (F × List (PointType F P))
  filled [] = []
  filled ((t, []) ∷ q) = filled q
  filled ((t, p ∷ ps) ∷ q) = (t, p ∷ ps) ∷ filled q

  pub filled-append :
      (q r : List (F × List (PointType F P))) → filled (q ++ r) ≡ filled q ++ filled r
  filled-append [] r = refl
  filled-append ((t, []) ∷ q) r = filled-append q r
  filled-append ((t, p ∷ ps) ∷ q) r = ap (◌∷◌ (t, p ∷ ps)) (filled-append q r)

  abbrev pub scans_of : List (F × List (PointType F P)) → List (List (PointType F P))
  scans_of [] = []
  scans_of ((t, scan) ∷ q) = scan ∷ scans_of q

  abbrev pub times_of : List (F × List (PointType F P)) → List F
  times_of [] = []
  times_of ((t, scan) ∷ q) = t ∷ times_of q

  scans_of-append :
      (q r : List (F × List (PointType F P))) → scans_of (q ++ r) ≡ scans_of q ++ scans_of r
  scans_of-append [] r = refl
  scans_of-append ((t, scan) ∷ q) r = ap (◌∷◌ scan) (scans_of-append q r)

  times_of-append :
      (q r : List (F × List (PointType F P))) → times_of (q ++ r) ≡ times_of q ++ times_of r
  times_of-append [] r = refl
  times_of-append ((t, scan) ∷ q) r = ap (◌∷◌ t) (times_of-append q r)

  module _ {S : Type 0} where
    -- The measures hold the scan at the front, which has a point.
    abbrev pub IsFront : MeasureGroup F P S → List (F × List (PointType F P)) → Type 0
    IsFront m [] = ⊥
    IsFront m ((t, []) ∷ q) = ⊥
    IsFront m ((t, p ∷ ps) ∷ q) = (m.lidar ≡ p ∷ ps) × (m.lidar_beg_time ≡ t)

    IsFront-append :
        (m : MeasureGroup F P S) (q r : List (F × List (PointType F P)))
        → IsFront m q
        → IsFront m (q ++ r)
    IsFront-append m [] r h = absurd h
    IsFront-append m ((t, []) ∷ q) r h = absurd h
    IsFront-append m ((t, p ∷ ps) ∷ q) r h = h

    -- The two deques hold the queue, and a scan that is pushed is its front.
    pub record Holds (c : Parameters F) (s : LaserMapping F P S)
        (q : List (F × List (PointType F P))) : Type 0 where
      pub scans : s.lidar_buffer ≡ scans_of q
      pub times : s.time_buffer ≡ times_of q
      pub pushed : s.lidar_pushed ≡ true → (c.imu_en ≡ true) × IsFront s.measures q

    pub push_pieces_lem :
        (c : Parameters F) (news q : List (F × List (PointType F P))) (s : LaserMapping F P S)
        → Holds c s q
        → Holds c (push_pieces news s) (q ++ news)
    unfolding push_pieces
    push_pieces_lem c [] q s h = subst (λ r. Holds c s r) (sym (append-nil q)) h
    push_pieces_lem c ((t, scan) ∷ news) q s h =
        subst (λ r. Holds c (push_pieces ((t, scan) ∷ news) s) r)
          (append_assoc q ((t, scan) ∷ []) news)
          (push_pieces_lem c news (q ++ (t, scan) ∷ [])
            (record s {
              lidar_buffer = s.lidar_buffer ++ scan ∷ [];
              time_buffer = s.time_buffer ++ t ∷ [];
            })
            (record {
              scans = ap (λ l. l ++ scan ∷ []) h.scans ∙ sym (scans_of-append q ((t, scan) ∷ []));
              times = ap (λ l. l ++ t ∷ []) h.times ∙ sym (times_of-append q ((t, scan) ∷ []));
              pushed = λ e. ((h.pushed e).0, IsFront-append s.measures q _ (h.pushed e).1);
            }))

    pub pop_scan_lem :
        (s : LaserMapping F P S) (t : F) (scan : List (PointType F P))
        (q : List (F × List (PointType F P)))
        → s.lidar_buffer ≡ scan ∷ scans_of q
        → s.time_buffer ≡ t ∷ times_of q
        → pop_scan s ≡ some (record s { lidar_buffer = scans_of q; time_buffer = times_of q })
    unfolding pop_scan
    pop_scan_lem s t scan q e f = rw (e, f) refl
