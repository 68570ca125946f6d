-- ===== src/PointLio/Preprocess/Avia.antt =====
-- What `avia_handler` of preprocess.cpp keeps of a message of the driver.
use mathlib.Core.List.{append-nil, append_assoc}
use sentry25navi.Prelude.{
  ℕ, zero, suc, ◌+◌, ◌-◌, ◌^◌, ◌≤◌, ◌<◌, ◌≡◌, refl, sym, ap, ◌∙◌, subst, true, some, List, [], ◌∷◌,
  ◌++◌, ltb, length, get_elem?, get_elem?-some, take, drop, inl, inr, arith,
}
use sentry25navi.Livox.Messages.{CustomPoint, CustomMsg, PointXyzi}
use sentry25navi.Perception.Clouds.{Numbers}
use sentry25navi.PointLio.Records.{PointType}
use sentry25navi.PointLio.Preprocess.{blank, avia_round, avia_loop, avia_handler}
use sentry25navi.PointLio.Scans.{Preprocess, Literals}
use sentry25navi.PointLio.Preprocess.Round.{IsOf, Fresh, avia_round_lem}
use sentry25navi.Prelude.Picks.{Picks, done, skip, pick}

drop-at {ℓ} :
    {A : Type ℓ} (xs : List A) (i : ℕ) {a : A}
    → get_elem? xs i ≡ some a
    → drop i xs ≡ a ∷ drop (suc i) xs
drop-at [] i h = absurd (ground arith)
drop-at (x ∷ xs) zero h = ground arith
drop-at (x ∷ xs) (suc i) h = drop-at xs i h

below : {a b : ℕ} → a < b → ltb a b ≡ true
below h = ground arith

module _ {F : Type 0} (n : Numbers F) (l : Literals F) (s : Preprocess F) where
  one_round :
      (points : List (CustomPoint F)) (rounds i v : ℕ) (before : PointType F (PointXyzi F))
      (surf : List (PointType F (PointXyzi F))) {p : CustomPoint F} {v' : ℕ}
      {before' : PointType F (PointXyzi F)} {surf' : List (PointType F (PointXyzi F))}
      → get_elem? points i ≡ some p
      → avia_round n l s p v before surf ≡ some (v', before', surf')
      → avia_loop n l s points (suc rounds) i v before surf
        ≡ avia_loop n l s points rounds (i + 1) v' before' surf'
  unfolding avia_loop
  one_round points rounds i v before surf at e = simp (at, e)

  avia_loop_lem :
      (points : List (CustomPoint F)) (rounds i v : ℕ) (before : PointType F (PointXyzi F))
      (surf : List (PointType F (PointXyzi F)))
      → 0 < s.point_filter_num
      → i + rounds ≤ length points
      → v + rounds < 2 ^ 32
      → Fresh n l s v before
      → (new : List (PointType F (PointXyzi F))) × (avia_loop n l s points rounds i v before surf
          ≡ some (surf ++ new))
        × Picks (IsOf n l s) (take rounds (drop i points)) new
  unfolding avia_loop
  avia_loop_lem points zero i v before surf pos inside few fresh =
      ([], ap some (sym (append-nil surf)), done)
  avia_loop_lem points (suc rounds) i v before surf pos inside few fresh =
      let (p, at) = get_elem?-some points i (omega arith) in
      let (v', before', surf', r) = avia_round_lem n l s p v before surf pos (omega arith) fresh in
      let (new, run, picks) =
        avia_loop_lem points rounds (i + 1) v' before' surf' pos (omega arith)
          (omega (arith, r.count)) r.fresh in
      let next : i + 1 ≡ suc i = omega arith in
      let picks' : Picks (IsOf n l s) (take rounds (drop (suc i) points)) new =
        subst (λ (j : ℕ). Picks (IsOf n l s) (take rounds (drop j points)) new) next picks in
      rw (drop-at points i at) (elim r.kept [
        | inl same ↦ (
          new,
          one_round points rounds i v before surf at r.run
              ∙ run
              ∙ ap (λ (k : List _). some (k ++ new)) same,
          skip picks',
        )
        | inr (q, is, grown) ↦ (
          q ∷ new,
          one_round points rounds i v before surf at r.run
              ∙ run
              ∙ ap (λ (k : List _). some (k ++ new)) grown
              ∙ ap some (append_assoc surf (q ∷ []) new),
          pick is picks',
        )
      ])

  handled :
      (msg : CustomMsg F)
      → 0 < s.point_filter_num
      → msg.point_num ≤ length msg.points
      → msg.point_num < 2 ^ 31
      → (points : List (CustomPoint F)) → points ≡ msg.points
      → (surf : List (PointType F (PointXyzi F))) × (avia_loop n l s msg.points
            (msg.point_num - 1)
            1
            0
            (blank n l)
            []
          ≡ some surf)
        × Picks (IsOf n l s) (take (msg.point_num - 1) (drop 1 msg.points)) surf
  unfolding avia_loop
  handled msg pos whole few [] e =
      let none_left : msg.point_num - 1 ≡ 0 = omega (arith, ap (length {0}) e) in
      rw none_left ([], refl, done)
  handled msg pos whole few (p ∷ rest) e =
      avia_loop_lem msg.points (msg.point_num - 1) 1 0 (blank n l) [] pos
        (omega (arith, ap (length {0}) e)) (omega arith) (λ h. inl refl)

  -- A message that has the points it announces, fewer than 2 ^ 31, makes no fault, if the filter is at
  -- least 1. What is kept are some of its points but the first, in order, at their places, each with a
  -- line and a tag that count and outside of the blind zone. With a filter of 2 or more no time but that
  -- of the point itself counts: it is kept if it is below a millisecond, and otherwise the point gets the
  -- step between two lines as its time.
  pub avia_handler_lem :
      (msg : CustomMsg F)
      → 0 < s.point_filter_num
      → msg.point_num ≤ length msg.points
      → msg.point_num < 2 ^ 31
      → (surf : List (PointType F (PointXyzi F))) × (avia_handler n l msg s
          ≡ some (record s { pl_surf = surf }))
        × Picks (IsOf n l s) (take (msg.point_num - 1) (drop 1 msg.points)) surf
  unfolding avia_handler
  avia_handler_lem msg pos whole few =
      let (surf, run, picks) = handled msg pos whole few msg.points refl in
      (surf, simp (below few, run), picks)
