-- ===== src/Perception/Segmentation/Filters.antt =====
-- What the filters of the detector keep, segmentation/utility.hpp.
use mathlib.Core.List.{append-nil, append_assoc}
use sentry25navi.Prelude.{
  ℕ, zero, suc, ◌+◌, ◌-◌, ◌≤◌, ◌<◌, ◌≡◌, refl, sym, ap, ◌∙◌, Bool, true, false, some, List, [], ◌∷◌,
  ◌++◌, if◌then◌else◌, length, get_elem?, get_elem?-some, take, drop, arith,
}
use sentry25navi.Perception.Clouds.{PointXyz, Numbers}
use sentry25navi.Perception.Segmentation.{
  Limits, keeps_livox, keeps_standard, origin, livox_loop, livox_msg_handler, standard_loop,
  standard_msg_handler,
}

-- The elements that a test keeps, each tested with the element before it, kept or not.
abbrev pub kept {ℓ} : {A : Type ℓ} → (A → A → Bool) → A → List A → List A
kept keeps before [] = []
kept keeps before (p ∷ rest) = (if keeps before p then p ∷ [] else []) ++ kept keeps p rest

pub push_if {ℓ} :
    {A : Type ℓ} (b : Bool) (xs : List A) (p : A) (rest : List A)
    → (if b then xs ++ p ∷ [] else xs) ++ rest ≡ xs ++ ((if b then p ∷ [] else []) ++ rest)
push_if true xs p rest = append_assoc xs (p ∷ []) rest
push_if false xs p rest = refl

drop-get_elem? {ℓ} :
    {A : Type ℓ} (xs : List A) (i : ℕ) {a : A}
    → get_elem? xs i ≡ some a
    → drop i xs ≡ a ∷ drop (suc i) xs
drop-get_elem? [] i h = absurd (ground arith)
drop-get_elem? (x ∷ xs) zero h = ground arith
drop-get_elem? (x ∷ xs) (suc i) h = drop-get_elem? xs i h

module _ {F : Type 0} (n : Numbers F) (limits : Limits F) where
  standard_loop_lem :
      (before : PointXyz F) (rest out : List (PointXyz F))
      → standard_loop n limits before rest out ≡ out ++ kept (keeps_standard n limits) before rest
  unfolding standard_loop
  standard_loop_lem before [] out = sym (append-nil out)
  standard_loop_lem before (p ∷ rest) out =
      standard_loop_lem p rest (if keeps_standard n limits before p then out ++ p ∷ [] else out)
      ∙ push_if (keeps_standard n limits before p) out p (kept (keeps_standard n limits) p rest)

  -- The first point of a cloud is dropped, and of the others those are kept that differ from their
  -- predecessor and lie in range.
  pub standard_msg_handler_lem :
      (p : PointXyz F) (rest : List (PointXyz F))
      → standard_msg_handler n limits (p ∷ rest) ≡ kept (keeps_standard n limits) p rest
  unfolding standard_msg_handler
  standard_msg_handler_lem p rest = standard_loop_lem p rest []

  livox_loop_lem :
      (points : List (PointXyz F)) (rounds i : ℕ) (before : PointXyz F) (out : List (PointXyz F))
      → i + rounds ≤ length points
      → livox_loop n limits points rounds i before out
        ≡ some (out ++ kept (keeps_livox n limits) before (take rounds (drop i points)))
  unfolding livox_loop
  livox_loop_lem points zero i before out inside = ap some (sym (append-nil out))
  livox_loop_lem points (suc rounds) i before out inside =
      let (p, at) = get_elem?-some points i (omega arith) in
      let next : i + 1 ≡ suc i = omega arith in
      rw (drop-get_elem? points i at) (
        rw (at, livox_loop, next)
          (livox_loop_lem points rounds (suc i) p
              (if keeps_livox n limits before p then out ++ p ∷ [] else out) (omega arith)
            ∙ ap some (
                push_if (keeps_livox n limits before p) out p
                  (kept (keeps_livox n limits) p (take rounds (drop (suc i) points))))))

  -- Of a message that has the points it announces, the first is dropped. Of the others those are kept that
  -- differ from their predecessor and are not near, but the second is compared with the origin.
  pub livox_msg_handler_lem :
      (points : List (PointXyz F)) (point_num : ℕ)
      → 0 < point_num
      → point_num ≤ length points
      → livox_msg_handler n limits points point_num
        ≡ some
            (kept (keeps_livox n limits) (origin n limits) (take (point_num - 1) (drop 1 points)))
  unfolding livox_msg_handler
  livox_msg_handler_lem points point_num some_points inside =
      livox_loop_lem points (point_num - 1) 1 (origin n limits) [] (omega arith)
