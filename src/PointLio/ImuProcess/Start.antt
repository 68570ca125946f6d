-- ===== src/PointLio/ImuProcess/Start.antt =====
-- When the start of the IMU ends, IMU_Processing.hpp.
use sentry25navi.Prelude.{
  ℕ, suc, ◌+◌, ◌≡◌, ◌≢◌, refl, sym, ap, ◌∙◌, subst, Bool, true, false, not, Option, none, some,
  List, [], ◌∷◌, ltb, leb, if◌then◌else◌, length, arith,
}
use sentry25navi.PointLio.ImuProcess.{
  Vectors, InertialSample, Measured, ImuProcess, new_imu_process, mean_loop, first_frame, imu_init,
  after_init, process,
}

abbrev out_of {ℓ} : {L : Type ℓ} → L → ℕ → ℕ → Option L
out_of lidar n new = if leb 1 new then (if leb 100 (n + new) then some lidar else none) else none

more : (n : ℕ) → n ≡ n + 0
more n = omega arith

enough : (n k : ℕ) → false ≡ not (leb 100 n) → false ≡ not (leb 100 (n + k))
enough n k h = ground arith

apart : {b : Bool} → b ≡ false → b ≡ true → true ≡ false
apart off on = sym on ∙ off

false-not-true : false ≢ true
false-not-true e = ground arith

out_enough {ℓ} :
    {L : Type ℓ} (lidar : L) (n k : ℕ)
    → false ≡ not (leb 100 n)
    → some lidar ≡ out_of lidar n (suc k)
out_enough lidar n k h = ground arith

now_enough :
    (n k iter : ℕ) → iter ≡ 1 + n + suc k → ltb 100 iter ≡ true → leb 100 (n + suc k) ≡ true
now_enough n k iter e h = ground arith

not_enough :
    (n k iter : ℕ) → iter ≡ 1 + n + suc k → ltb 100 iter ≡ false → leb 100 (n + suc k) ≡ false
not_enough n k iter e h = ground arith

some_samples {ℓ} : {A : Type ℓ} (k : ℕ) (x : Option A) → x ≡ (if leb 1 (suc k) then x else none)
some_samples k x = ground arith

abbrev put_on {ℓ} : {L : Type ℓ} → Option L → List L → List L
put_on none rest = rest
put_on (some cloud) rest = cloud ∷ rest

put_on-if {ℓ} :
    {L : Type ℓ} (lidar : L) (rest : List L) (b b' : Bool)
    → put_on (if b then (if b' then some lidar else none) else none) rest
      ≡ (if b then (if b' then lidar ∷ rest else rest) else rest)
put_on-if lidar rest false b' = refl
put_on-if lidar rest true false = refl
put_on-if lidar rest true true = refl

out_at {ℓ} :
    {L : Type ℓ} (lidar : L) (n k : ℕ) (b : Bool)
    → leb 100 (n + suc k) ≡ b
    → (if b then some lidar else none) ≡ out_of lidar n (suc k)
out_at lidar n k b h = ap (λ c. if c then some lidar else none) (sym h) ∙ some_samples k _

module _ {V : Type 0} (v : Vectors V) where
  mean_loop_count :
      (samples : List (InertialSample V)) (s : ImuProcess V)
      → (mean_loop v samples s).init_iter_num ≡ s.init_iter_num + length samples
  unfolding mean_loop
  mean_loop_count [] s = omega arith
  mean_loop_count (imu ∷ rest) s = mean_loop_count rest _ ∙ omega arith

  mean_loop_kept :
      (samples : List (InertialSample V)) (s : ImuProcess V)
      → ((mean_loop v samples s).imu_en ≡ s.imu_en)
        × ((mean_loop v samples s).b_first_frame ≡ s.b_first_frame)
  unfolding mean_loop
  mean_loop_kept [] s = (refl, refl)
  mean_loop_kept (imu ∷ rest) s = mean_loop_kept rest _

  -- The state after `n` samples.
  pub record Counts (n : ℕ) (s : ImuProcess V) : Type 0 where
    pub enabled : s.imu_en ≡ true
    pub needed : s.imu_need_init ≡ not (leb 100 n)
    pub counted : s.imu_need_init ≡ true → s.b_first_frame ≡ false → s.init_iter_num ≡ 1 + n
    pub first : s.b_first_frame ≡ true → n ≡ 0

  module _ {L : Type 0} where
    abbrev pub run : List (Measured V L) → ImuProcess V → List L × ImuProcess V
    run [] s = ([], s)
    run (m ∷ ms) s = let r = process v m s in let rest = run ms r.1 in (put_on r.0 rest.0, rest.1)

    -- The clouds from the measure on with which there are 100 samples, but for those without samples.
    abbrev pub handed_on : ℕ → List (Measured V L) → List L
    handed_on n [] = []
    handed_on n (m ∷ ms) =
        let rest = handed_on (n + length m.imu) ms in
        if leb 1 (length m.imu)
        then (if leb 100 (n + length m.imu) then m.lidar ∷ rest else rest)
        else rest

    abbrev pub samples : List (Measured V L) → ℕ
    samples [] = 0
    samples (m ∷ ms) = length m.imu + samples ms

  module _ (front : InertialSample V) (rest : List (InertialSample V)) where
    record Begun (n : ℕ) (s' : ImuProcess V) : Type 0 where
      enabled : s'.imu_en ≡ true
      started : s'.b_first_frame ≡ false
      count : s'.init_iter_num ≡ 1 + n + length (front ∷ rest)

    begun :
        (n : ℕ) (s : ImuProcess V)
        → s.imu_en ≡ true
        → s.b_first_frame ≡ false
        → s.init_iter_num ≡ 1 + n
        → Begun n (mean_loop v (front ∷ rest) s)
    begun n s enabled started count = record {
      enabled = (mean_loop_kept (front ∷ rest) s).0 ∙ enabled;
      started = (mean_loop_kept (front ∷ rest) s).1 ∙ started;
      count = mean_loop_count (front ∷ rest) s ∙ ap (λ k. k + length (front ∷ rest)) count;
    }

    begun_first :
        (n : ℕ) (s : ImuProcess V) (b : Bool)
        → s.imu_en ≡ true
        → s.b_first_frame ≡ b
        → (b ≡ false → s.init_iter_num ≡ 1 + n)
        → (b ≡ true → n ≡ 0)
        → Begun n (mean_loop v (front ∷ rest) (first_frame v front b s))
    begun_first n s true enabled first counted none_yet =
        begun n _ enabled refl (ap (λ k. 1 + k) (sym (none_yet refl)))
    begun_first n s false enabled started counted none_yet =
        begun n s enabled started (counted refl)

    imu_init_lem :
        (n : ℕ) (s : ImuProcess V)
        → Counts n s
        → s.imu_need_init ≡ true
        → Begun n (imu_init v front rest s)
    unfolding imu_init
    imu_init_lem n s c need =
        begun_first n s s.b_first_frame c.enabled refl (c.counted need) c.first

  module _ {L : Type 0} where
    abbrev Steps : ℕ → ℕ → L → Option L × ImuProcess V → Type 0
    Steps n new lidar r = Counts (n + new) r.1 × (r.0 ≡ out_of lidar n new)

    step-after_init :
        (lidar : L) (n k : ℕ) (s' : ImuProcess V) (b : Bool)
        → s'.imu_en ≡ true
        → s'.b_first_frame ≡ false
        → s'.init_iter_num ≡ 1 + n + suc k
        → ltb 100 s'.init_iter_num ≡ b
        → Steps n (suc k) lidar (after_init v lidar b s')
    step-after_init lidar n k s' true enabled started count done =
        let now = now_enough n k s'.init_iter_num count done in
        (
          record {
            enabled = enabled;
            needed = ap not (sym now);
            counted = λ e. absurd (false-not-true e);
            first = λ e. absurd (false-not-true (sym (apart started e)));
          },
          out_at lidar n k true now,
        )
    step-after_init lidar n k s' false enabled started count open_still =
        let now = not_enough n k s'.init_iter_num count open_still in
        (
          record {
            enabled = enabled;
            needed = ap not (sym now);
            counted = λ e e'. count ∙ omega arith;
            first = λ e. absurd (false-not-true (sym (apart started e)));
          },
          out_at lidar n k false now,
        )

    abbrev at_need :
        L
        → InertialSample V
        → List (InertialSample V)
        → ImuProcess V
        → Bool
        → Option L × ImuProcess V
    at_need lidar front rest s false = (some lidar, s)
    at_need lidar front rest s true =
        after_init v lidar (ltb 100 (imu_init v front rest s).init_iter_num)
          (imu_init v front rest s)

    abbrev at_samples : L → ImuProcess V → List (InertialSample V) → Option L × ImuProcess V
    at_samples lidar s [] = (none, s)
    at_samples lidar s (front ∷ rest) = at_need lidar front rest s s.imu_need_init

    abbrev at_enabled : L → List (InertialSample V) → ImuProcess V → Bool → Option L × ImuProcess V
    at_enabled lidar imu s false = (some lidar, record s { imu_need_init = false })
    at_enabled lidar imu s true = at_samples lidar s imu

    process_enabled :
        (m : Measured V L) (s : ImuProcess V)
        → s.imu_en ≡ true
        → process v m s ≡ at_samples m.lidar s m.imu
    unfolding process
    process_enabled m s enabled = ap (at_enabled m.lidar m.imu s) enabled

    step-at_need :
        (lidar : L) (front : InertialSample V) (rest : List (InertialSample V)) (n : ℕ)
        (s : ImuProcess V) (b : Bool)
        → s.imu_need_init ≡ b
        → Counts n s
        → Steps n (suc (length rest)) lidar (at_need lidar front rest s b)
    step-at_need lidar front rest n s false ready c =
        let full : false ≡ not (leb 100 n) = sym ready ∙ c.needed in
        (
          record {
            enabled = c.enabled;
            needed = ready ∙ enough n (suc (length rest)) full;
            counted = λ e. absurd (false-not-true (sym (apart ready e)));
            first = λ e. absurd (false-not-true (full ∙ ap (λ k. not (leb 100 k)) (c.first e)));
          },
          out_enough lidar n (length rest) full,
        )
    step-at_need lidar front rest n s true need c =
        let b = imu_init_lem front rest n s c need in
        step-after_init lidar n (length rest) (imu_init v front rest s) _ b.enabled b.started
          b.count refl

    step-at_samples :
        (lidar : L) (imu : List (InertialSample V)) (n : ℕ) (s : ImuProcess V)
        → Counts n s
        → Steps n (length imu) lidar (at_samples lidar s imu)
    step-at_samples lidar [] n s c = (subst (λ k. Counts k s) (more n) c, refl)
    step-at_samples lidar (front ∷ rest) n s c =
        step-at_need lidar front rest n s s.imu_need_init refl c

    step :
        (m : Measured V L) (n : ℕ) (s : ImuProcess V)
        → Counts n s
        → Steps n (length m.imu) m.lidar (process v m s)
    step m n s c =
        subst (Steps n (length m.imu) m.lidar) (sym (process_enabled m s c.enabled))
          (step-at_samples m.lidar m.imu n s c)

    abbrev Runs : ℕ → List (Measured V L) → List L × ImuProcess V → Type 0
    Runs n ms r = (r.0 ≡ handed_on n ms) × Counts (n + samples ms) r.1

    run_lem :
        (ms : List (Measured V L)) (n : ℕ) (s : ImuProcess V) → Counts n s → Runs n ms (run ms s)
    run_lem [] n s c = (refl, subst (λ k. Counts k s) (more n) c)
    run_lem (m ∷ ms) n s c =
        let done = step m n s c in
        let rest = run_lem ms (n + length m.imu) (process v m s).1 done.0 in
        (
          ap (put_on (process v m s).0) rest.0
              ∙ ap (λ o. put_on o (handed_on (n + length m.imu) ms)) done.1
              ∙ put_on-if m.lidar (handed_on (n + length m.imu) ms) (leb 1 (length m.imu))
                  (leb 100 (n + length m.imu)),
          subst (λ k. Counts k (run (m ∷ ms) s).1) (omega arith) rest.1,
        )

    -- From the start, the clouds handed on are just those with samples of their own, from the one on with which
    -- there are 100 samples; and the start of the IMU is over exactly when there are as many.
    pub run-new_imu_process :
        (ms : List (Measured V L))
        → ((run ms (new_imu_process v)).0 ≡ handed_on 0 ms)
          × ((run ms (new_imu_process v)).1.imu_need_init ≡ not (leb 100 (samples ms)))
    run-new_imu_process ms =
        let done = run_lem ms 0 (new_imu_process v) (record {
          enabled = refl;
          needed = refl;
          counted = λ need started. refl;
          first = λ e. refl;
        }) in
        (done.0, done.1.needed ∙ ap (λ k. not (leb 100 k)) (omega arith))
