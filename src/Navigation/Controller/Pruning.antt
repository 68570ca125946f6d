-- ===== src/Navigation/Controller/Pruning.antt =====
-- The search for the pose to go to, `FindNearstPose` of controller.cpp.
use sentry25navi.Prelude.{
  ℕ, zero, suc, ◌+◌, ◌-◌, ◌≤◌, ◌<◌, ◌≡◌, refl, false, ◌&&◌, List, ◌==◌, length, get_elem?,
  get_elem?-lt, get_elem?-some, arith, inl, inr, Bool-cases, Option-cases,
}
use sentry25navi.Navigation.Controller.{
  Doubles, Pose, done, fault, read, min, sq_dist_threshold, is_same_direction,
  get_euclidean_distance, find_loop, find_nearst_pose,
}

pub read-done : {A : Type 0} (xs : List A) (i : ℕ) → i < length xs → (a : A) × (read xs i ≡ done a)
read-done xs i h = let (a, e) = get_elem?-some xs i h in (a, rw (e, read) refl)

module _ {F : Type 0} (n : Doubles F) (robot : Pose F) (path : List (Pose F)) (ahead : F) where
  open n use {lit, lt}

  find_loop_lem :
      (fuel i : ℕ) (sq : F)
      → length path < fuel + i
      → i ≤ length path
      → (i ≡ 0 → lt sq (sq_dist_threshold n) ≡ false)
      → (r : ℕ) × (find_loop n robot path ahead fuel i sq ≡ done r)
        × (r ≤ length path)
        × (i ≤ r + 1)
  unfolding find_loop
  find_loop_lem zero i sq enough inside far = absurd (omega arith)
  find_loop_lem (suc fuel) i sq enough inside far = elim (Option-cases (get_elem? path i)) [
    | inl past ↦ (i, rw (past, find_loop) refl, inside, omega arith)
    | inr (pose, at) ↦
        let new = get_euclidean_distance n robot pose in
        elim (Bool-cases (lt sq new && lt sq (sq_dist_threshold n))) [
          | inl passed ↦ elim (Bool-cases (i == 0)) [
            | inl first ↦ absurd (ground (arith, far))
            | inr later ↦
                let (before, e) = read-done path (i - 1) (omega (arith, get_elem?-lt path i at)) in
                elim (Bool-cases (is_same_direction n robot pose before && lt ahead sq)) [
                  | inl back ↦ (
                    i - 1,
                    rw (at, find_loop) (rw (passed, later) (rw e (rw back refl))),
                    omega arith,
                    omega arith,
                  )
                  | inr stay ↦ (
                    i,
                    rw (at, find_loop) (rw (passed, later) (rw e (rw stay refl))),
                    inside,
                    omega arith,
                  )
                ]
          ]
          | inr go_on ↦
              let (r, e, small, start) =
                find_loop_lem fuel (i + 1) new (omega arith) (omega (arith, get_elem?-lt path i at))
                  (λ z. absurd (omega arith)) in
              (r, rw (at, find_loop) (rw go_on e), small, omega arith)
        ]
  ]

  -- The search ends without a fault, within one round more than the path has poses, on a path that is not
  -- empty and from an index up to its end, if the 10 ^ 10 that stands for no distance is not below the
  -- threshold. The index that it finds is one of the path, and at most one before the start.
  pub find_nearst_pose_lem :
      (prune_index : ℕ)
      → 0 < length path
      → prune_index ≤ length path
      → lt (lit 10_000_000_000) (sq_dist_threshold n) ≡ false
      → (r : ℕ) × (find_nearst_pose n robot path prune_index ahead ≡ done r)
        × (r < length path)
        × (prune_index ≤ r + 1)
  unfolding find_nearst_pose
  find_nearst_pose_lem prune_index poses inside far = elim (Bool-cases (prune_index == 0)) [
    | inl first ↦
        let (r, e, small, start) =
          find_loop_lem (suc (length path)) prune_index (lit 10_000_000_000) (omega arith) inside
            (λ z. far) in
        (min r (length path - 1), rw (first, e) refl, ground arith, ground arith)
    | inr later ↦
        let (before, at) = read-done path (prune_index - 1) (ground arith) in
        let (r, e, small, start) =
          find_loop_lem (suc (length path)) prune_index (get_euclidean_distance n robot before)
            (omega arith) inside (λ z. absurd (ground arith)) in
        (min r (length path - 1), rw (later, at) (rw e refl), ground arith, ground arith)
  ]

  -- From an index past the end of the path the search reads outside of the path.
  pub find_nearst_pose_stale :
      (prune_index : ℕ)
      → length path < prune_index
      → find_nearst_pose n robot path prune_index ahead ≡ fault
  unfolding find_nearst_pose
  find_nearst_pose_stale prune_index stale =
      elim (Option-cases (get_elem? path (prune_index - 1))) [
        | inl missing ↦ ground (arith, missing)
        | inr (pose, at) ↦ absurd (omega (arith, get_elem?-lt path (prune_index - 1) at))
      ]
