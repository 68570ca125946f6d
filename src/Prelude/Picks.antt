-- ===== src/Prelude/Picks.antt =====
-- Lists that are made of some elements of another list.
use sentry25navi.Prelude.{List, [], ◌∷◌}

-- The second list comes from some of the first, in order, each as `R` says.
pub data Picks {A B : Type 0} (R : A → B → Type 0) : List A → List B → Type 0 where
  done : Picks R [] []
  skip : {a : A} {xs : List A} {ys : List B} → Picks R xs ys → Picks R (a ∷ xs) ys
  pick :
      {a : A} {b : B} {xs : List A} {ys : List B}
      → R a b
      → Picks R xs ys
      → Picks R (a ∷ xs) (b ∷ ys)
