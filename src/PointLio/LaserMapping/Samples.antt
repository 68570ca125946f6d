-- ===== src/PointLio/LaserMapping/Samples.antt =====
-- The samples that go with a scan in the phases of the start, laserMapping.cpp.
use mathlib.Core.List.{append-nil, append_assoc}
use sentry25navi.Prelude.{
  ◌≡◌, refl, sym, ap, ◌∙◌, subst, true, false, some, List, [], ◌∷◌, ◌++◌, map, Bool-cases, inl, inr,
}
use sentry25navi.PointLio.LaserMapping.{taken, imu_loop, push_imu}
use sentry25navi.PointLio.Records.{Seconds, Imu, LaserMapping}

module _ {F : Type 0} where
  -- The comparison orders the times; on `double` it does without NaN.
  pub record IsOrder (k : Seconds F) : Type 0 where
    pub asym : (a b : F) → k.lt a b ≡ true → k.lt b a ≡ false
    pub trans : (a b c : F) → k.lt b a ≡ false → k.lt c b ≡ false → k.lt c a ≡ false

module _ {F S : Type 0} (k : Seconds F) where
  abbrev pub Ordered : F → List (Imu F S) → Type 0
  Ordered t [] = Unit {0}
  Ordered t (i ∷ is) = (k.lt i.stamp t ≡ false) × Ordered i.stamp is

  abbrev pub AllUpTo : F → List (Imu F S) → Type 0
  AllUpTo end [] = Unit {0}
  AllUpTo end (i ∷ is) = (k.lt end i.stamp ≡ false) × AllUpTo end is

  abbrev pub StartsFrom : F → List (Imu F S) → Type 0
  StartsFrom end [] = Unit {0}
  StartsFrom end (i ∷ is) = k.lt i.stamp end ≡ false

  module _ {P : Type 0} where
    -- The deque split at the end of the scan.
    pub record Splits (s s' : LaserMapping F P S) (ts : List (Imu F S)) : Type 0 where
      pub split : ts ++ s'.imu_deque ≡ s.imu_deque
      pub handed : (s'.measures).imu ≡ (s.measures).imu ++ map some ts
      pub up_to : AllUpTo s.lidar_end_time ts
      pub from : StartsFrom s.lidar_end_time s'.imu_deque

    stops : (s : LaserMapping F P S) → StartsFrom s.lidar_end_time s.imu_deque → Splits s s []
    stops s h = record {
      split = refl;
      handed = sym (append-nil (s.measures).imu);
      up_to = tt;
      from = h;
    }

    takes :
        (s : LaserMapping F P S) (t : F) (i : Imu F S) (is : List (Imu F S))
        → k.lt t s.lidar_end_time ≡ true
        → k.lt s.lidar_end_time i.stamp ≡ false
        → imu_loop k (i ∷ is) t s ≡ imu_loop k is i.stamp (taken i is s)
    unfolding imu_loop
    takes s t i is early upto = simp (early, upto)

    imu_loop_lem :
        IsOrder k
        → (is : List (Imu F S)) (t : F) (s : LaserMapping F P S) → s.imu_deque ≡ is
        → Ordered t is
        → (ts : List (Imu F S)) × Splits s (imu_loop k is t s) ts
    unfolding imu_loop
    imu_loop_lem o [] t s e h = ([], stops s (subst (StartsFrom s.lidar_end_time) (sym e) tt))
    imu_loop_lem o (i ∷ is) t s e h = elim (Bool-cases (k.lt t s.lidar_end_time)) [
      | inr late ↦ (
        [],
        subst (λ s'. Splits s s' []) (sym (simp late))
            (stops s (subst (StartsFrom s.lidar_end_time) (sym e) (o.trans _ _ _ late h.0))),
      )
      | inl early ↦ elim (Bool-cases (k.lt s.lidar_end_time i.stamp)) [
        | inl after ↦ (
          [],
          subst (λ s'. Splits s s' []) (sym (simp (early, after)))
              (stops s (subst (StartsFrom s.lidar_end_time) (sym e) (o.asym _ _ after))),
        )
        | inr upto ↦
            let (ts, r) = imu_loop_lem o is i.stamp (taken i is s) refl h.1 in
            (
              i ∷ ts,
              subst (λ s'. Splits s s' (i ∷ ts)) (sym (takes s t i is early upto))
                  (record {
                    split = ap (◌∷◌ i) r.split ∙ sym e;
                    handed = r.handed ∙ append_assoc (s.measures).imu (some i ∷ []) (map some ts);
                    up_to = (upto, r.up_to);
                    from = r.from;
                  }),
            )
      ]
    ]

    -- While the IMU is initialised, with times that the comparison orders and samples in the order of
    -- their times, the deque is split: the first samples, none later than the end of the scan, are
    -- appended to the measures, and the rest stays, from a sample that is not before the end.
    pub push_imu_lem :
        (s : LaserMapping F P S) (i : Imu F S) (is : List (Imu F S))
        → IsOrder k
        → s.imu_need_init ≡ true
        → s.imu_deque ≡ i ∷ is
        → Ordered i.stamp s.imu_deque
        → (ts : List (Imu F S)) × Splits s (push_imu k i s) ts
    unfolding push_imu
    push_imu_lem s i is o init e h =
        subst (λ s'. (ts : List (Imu F S)) × Splits s s' ts) (sym (simp init))
          (imu_loop_lem o s.imu_deque i.stamp s refl h)
