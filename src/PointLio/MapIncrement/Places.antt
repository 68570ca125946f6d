-- ===== src/PointLio/MapIncrement/Places.antt =====
-- The places of a point, apart from the code of `map_incremental` in laserMapping.cpp.
use sentry25navi.Prelude.{◌≡◌, true, false, List, [], ◌∷◌}
use sentry25navi.Livox.Messages.{PointXyzi}
use sentry25navi.PointLio.MapIncrement.{Cells, outside, in_cell}

module _ {F : Type 0} (c : Cells F) where
  -- A neighbour is in the cell of `p`.
  pub data Occupied (p : PointXyzi F) : List (PointXyzi F) → Type 0 where
    here :
        (q : PointXyzi F) (near : List (PointXyzi F)) → in_cell c p q ≡ true → Occupied p (q ∷ near)
    there : (q : PointXyzi F) (near : List (PointXyzi F)) → Occupied p near → Occupied p (q ∷ near)

  -- No neighbour is in the cell of `p`.
  pub data Free (p : PointXyzi F) : List (PointXyzi F) → Type 0 where
    none_near : Free p []
    next :
        (q : PointXyzi F) (near : List (PointXyzi F))
        → in_cell c p q ≡ false
        → Free p near
        → Free p (q ∷ near)

  -- The points to thin out and the points as they are, of points with their neighbours.
  pub data Placed
      : List (PointXyzi F × List (PointXyzi F))
        → List (PointXyzi F)
        → List (PointXyzi F)
        → Type 0 where
    done : Placed [] [] []
    alone :
        (p : PointXyzi F) {rest : List (PointXyzi F × List (PointXyzi F))}
        {thin free : List (PointXyzi F)}
        → Placed rest thin free
        → Placed ((p, []) ∷ rest) thin (p ∷ free)
    apart :
        (p q : PointXyzi F) (near : List (PointXyzi F))
        {rest : List (PointXyzi F × List (PointXyzi F))} {thin free : List (PointXyzi F)}
        → outside c p q ≡ true
        → Placed rest thin free
        → Placed ((p, q ∷ near) ∷ rest) thin (p ∷ free)
    fresh :
        (p q : PointXyzi F) (near : List (PointXyzi F))
        {rest : List (PointXyzi F × List (PointXyzi F))} {thin free : List (PointXyzi F)}
        → outside c p q ≡ false
        → Free p (q ∷ near)
        → Placed rest thin free
        → Placed ((p, q ∷ near) ∷ rest) (p ∷ thin) free
    left_out :
        (p q : PointXyzi F) (near : List (PointXyzi F))
        {rest : List (PointXyzi F × List (PointXyzi F))} {thin free : List (PointXyzi F)}
        → outside c p q ≡ false
        → Occupied p (q ∷ near)
        → Placed rest thin free
        → Placed ((p, q ∷ near) ∷ rest) thin free
