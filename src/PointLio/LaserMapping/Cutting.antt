-- ===== src/PointLio/LaserMapping/Cutting.antt =====
-- The loop of laserMapping.cpp that cuts a scan into pieces.
use mathlib.Core.List.{append_assoc}
use sentry25navi.Prelude.{◌≡◌, refl, ap, ◌∙◌, List, [], ◌∷◌, ◌++◌}
use sentry25navi.PointLio.LaserMapping.{cut_loop}
use sentry25navi.PointLio.Records.{Seconds, PointType}
use sentry25navi.PointLio.LaserMapping.Buffers.{filled}
use sentry25navi.PointLio.LaserMapping.Handing.{either}

module _ {F P : Type 0} where
  -- The points of all pieces.
  abbrev pub joined : List (F × List (PointType F P)) → List (PointType F P)
  joined [] = []
  joined ((t, piece) ∷ pieces) = piece ++ joined pieces

  filled-piece :
      (t : F) (div : List (PointType F P)) (p : PointType F P)
      (rest : List (F × List (PointType F P)))
      → filled rest ≡ rest
      → filled ((t, div ++ p ∷ []) ∷ rest) ≡ (t, div ++ p ∷ []) ∷ rest
  filled-piece t [] p rest h = ap (◌∷◌ (t, p ∷ [])) h
  filled-piece t (d ∷ div) p rest h = ap (◌∷◌ (t, d ∷ div ++ p ∷ [])) h

  -- The pieces of a scan, whatever the times of its points, have together its points, in order, and none
  -- of them is empty.
  pub cut_loop_lem :
      (k : Seconds F) (interval stamp time_div : F) (div points : List (PointType F P))
      → (joined (cut_loop k interval stamp time_div div points) ≡ div ++ points)
        × (filled (cut_loop k interval stamp time_div div points)
            ≡ cut_loop k interval stamp time_div div points)
  unfolding cut_loop
  cut_loop_lem k interval stamp time_div [] [] = (refl, refl)
  cut_loop_lem k interval stamp time_div (d ∷ div) [] = (refl, refl)
  cut_loop_lem k interval stamp time_div div (p ∷ ps) =
      let ms = k.of_ms p.curvature in
      let next = cut_loop_lem k interval stamp (k.add time_div ms) [] ps in
      let same = cut_loop_lem k interval stamp time_div (div ++ p ∷ []) ps in
      either (λ (r : List (F × List (PointType F P))). (joined r ≡ div ++ p ∷ ps) × (filled r ≡ r))
        _
        (
          ap (λ (l : List _). (div ++ p ∷ []) ++ l) next.0 ∙ append_assoc div (p ∷ []) ps,
          filled-piece time_div div p _ next.1,
        )
        (same.0 ∙ append_assoc div (p ∷ []) ps, same.1)
