-- ===== src/PointLio/Preprocess/Round.antt =====
-- One round of the loop of `avia_handler`, preprocess.cpp.
use sentry25navi.Prelude.{
  ℕ, ◌+◌, ◌%◌, ◌^◌, ◌≤◌, ◌<◌, ◌≡◌, ◌≢◌, refl, sym, ap, ◌∙◌, Bool, true, false, ◌&&◌, Option, some,
  List, [], ◌∷◌, ◌++◌, ◌==◌, Bool-cases, ◌⊎◌, inl, inr, arith, ==_iff,
}
use sentry25navi.Livox.Messages.{CustomPoint, PointXyzi}
use sentry25navi.Perception.Clouds.{Numbers}
use sentry25navi.PointLio.Records.{PointType}
use sentry25navi.PointLio.Preprocess.{blank, is_valid, time_after, filled, moved, avia_round}
use sentry25navi.PointLio.Scans.{Preprocess, Literals, is_far}

next_mod : (v m : ℕ) → 2 ≤ m → v % m ≡ 0 → (v + 1) % m ≢ 0
next_mod v m h e = grind arith

now_zero : (v m : ℕ) → v + 1 < 2 ^ 32 → ((v + 1) % 2 ^ 32 % m == 0) ≡ true → (v + 1) % m ≡ 0
now_zero v m few hit =
    let whole : (v + 1) % 2 ^ 32 ≡ v + 1 = omega arith in
    ap (λ (w : ℕ). w % m) (sym whole) ∙ (==_iff _ _).0 hit

right_of : (a b : Bool) → (a && b) ≡ true → b ≡ true
right_of a b h = ground arith

module _ {F : Type 0} (n : Numbers F) (l : Literals F) (s : Preprocess F) where
  -- The point kept of a point of the message. With a filter of 2 or more its time is the one after time 0.
  pub record IsOf (p : CustomPoint F) (q : PointType F (PointXyzi F)) : Type 0 where
    pub place : q.point ≡ record { x = p.x; y = p.y; z = p.z; intensity = l.of_byte p.reflectivity }
    pub valid : is_valid n l s.n_scans p ≡ true
    pub far : is_far n s.blind q.point ≡ true
    pub thinned : 2 ≤ s.point_filter_num → q.curvature ≡ time_after n l (n.zero_f) p.offset_time

  -- With a filter of 2 or more, the point before the next that is filled is blank.
  abbrev pub Fresh : ℕ → PointType F (PointXyzi F) → Type 0
  Fresh v before =
      2 ≤ s.point_filter_num → (before.curvature ≡ n.zero_f) ⊎ (v % s.point_filter_num ≡ 0)

  abbrev pub Kept :
      CustomPoint F → List (PointType F (PointXyzi F)) → List (PointType F (PointXyzi F)) → Type 0
  Kept p surf surf' =
      (surf' ≡ surf) ⊎ ((q : PointType F (PointXyzi F)) × IsOf p q × (surf' ≡ surf ++ q ∷ []))

  -- What one round leaves.
  pub record Rounds (p : CustomPoint F) (v : ℕ) (surf : List (PointType F (PointXyzi F)))
      (o : Option (ℕ × PointType F (PointXyzi F) × List (PointType F (PointXyzi F)))) (v' : ℕ)
      (before' : PointType F (PointXyzi F)) (surf' : List (PointType F (PointXyzi F)))
      : Type 0 where
    pub run : o ≡ some (v', before', surf')
    pub count : v' ≤ v + 1
    pub fresh : Fresh v' before'
    pub kept : Kept p surf surf'

  abbrev Rounding :
      CustomPoint F → ℕ → PointType F (PointXyzi F) → List (PointType F (PointXyzi F)) → Type 0
  Rounding p v before surf =
      (v' : ℕ) × (before' : PointType F (PointXyzi F)) × (surf' : List (PointType F (PointXyzi F)))
      × Rounds p v surf (avia_round n l s p v before surf) v' before' surf'

  not_zero : {m : ℕ} → 0 < m → (m == 0) ≡ false
  not_zero h = ground arith

  -- The time of a point that is filled.
  filled_thinned :
      (p : CustomPoint F) (v : ℕ) (before : PointType F (PointXyzi F))
      → v + 1 < 2 ^ 32
      → Fresh v before
      → ((v + 1) % 2 ^ 32 % s.point_filter_num == 0) ≡ true
      → 2 ≤ s.point_filter_num
      → (filled n l before.curvature p).curvature ≡ time_after n l (n.zero_f) p.offset_time
  filled_thinned p v before few fresh hit two = elim (fresh two) [
    | inl e ↦ ap (λ t. time_after n l t p.offset_time) e
    | inr e ↦ absurd (next_mod v s.point_filter_num two e (now_zero v s.point_filter_num few hit))
  ]

  valid_round :
      (p : CustomPoint F) (v : ℕ) (before : PointType F (PointXyzi F))
      (surf : List (PointType F (PointXyzi F)))
      → 0 < s.point_filter_num
      → v + 1 < 2 ^ 32
      → Fresh v before
      → is_valid n l s.n_scans p ≡ true
      → Rounding p v before surf
  unfolding avia_round
  valid_round p v before surf pos few fresh good =
      let count = (v + 1) % 2 ^ 32 in
      let q = filled n l before.curvature p in
      elim (Bool-cases (count % s.point_filter_num == 0)) [
        | inr miss ↦ (
          count,
          blank n l,
          surf,
          record {
            run = simp (good, not_zero pos, miss);
            count = omega arith;
            fresh = λ h. inl refl;
            kept = inl refl;
          },
        )
        | inl hit ↦ elim (Bool-cases (moved n l q.point before.point && is_far n s.blind q.point)) [
          | inr drops ↦ (
            count,
            q,
            surf,
            record {
              run = simp (good, not_zero pos, hit, drops);
              count = omega arith;
              fresh = λ h. inr ((==_iff _ _).0 hit);
              kept = inl refl;
            },
          )
          | inl keeps ↦ (
            count,
            q,
            surf ++ q ∷ [],
            record {
              run = simp (good, not_zero pos, hit, keeps);
              count = omega arith;
              fresh = λ h. inr ((==_iff _ _).0 hit);
              kept = inr (
                q,
                record {
                  place = refl;
                  valid = good;
                  far = right_of _ _ keeps;
                  thinned = filled_thinned p v before few fresh hit;
                },
                refl,
              );
            },
          )
        ]
      ]

  pub avia_round_lem :
      (p : CustomPoint F) (v : ℕ) (before : PointType F (PointXyzi F))
      (surf : List (PointType F (PointXyzi F)))
      → 0 < s.point_filter_num
      → v + 1 < 2 ^ 32
      → Fresh v before
      → (v' : ℕ) × (before' : PointType F (PointXyzi F)) × (surf' : List
          (PointType F (PointXyzi F)))
        × Rounds p v surf (avia_round n l s p v before surf) v' before' surf'
  unfolding avia_round
  avia_round_lem p v before surf pos few fresh = elim (Bool-cases (is_valid n l s.n_scans p)) [
    | inr bad ↦ (
      v,
      blank n l,
      surf,
      record { run = simp bad; count = omega arith; fresh = λ h. inl refl; kept = inl refl },
    )
    | inl good ↦ valid_round p v before surf pos few fresh good
  ]
