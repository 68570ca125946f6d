-- ===== src/PointLio/Spin.antt =====
-- The handlers for the lidars that turn, src/Point-LIO-master/src/preprocess.cpp.
use sentry25navi.Prelude.{
  ℕ, ◌+◌, ◌%◌, Bool, true, false, ◌&&◌, Option, none, some, List, [], ◌∷◌, ◌++◌, ◌==◌,
  if◌then◌else◌, get_elem?, set, replicate,
}
use sentry25navi.Livox.Lds.{◌>>=◌}
use sentry25navi.Livox.Messages.{PointXyzi}
use sentry25navi.Perception.Clouds.{Numbers}
use sentry25navi.PointLio.Records.{PointType}
use sentry25navi.PointLio.Scans.{Literals, SpinPoint, Preprocess, Layers, square_norm, is_far}

module _ {F : Type 0} where
  abbrev pub last_of : SpinPoint F → List (SpinPoint F) → SpinPoint F
  last_of p [] = p
  last_of p (q ∷ rest) = last_of q rest

module _ {F : Type 0} (n : Numbers F) (l : Literals F) where
  open n use {zero_f, add, sub, mul, abs, lt}

  -- The time of a point of a layer that had one before, from its angle.
  unfoldable pub turned : F → F → F → F → F
  turned omega_l yaw_fp time_last yaw =
      let t =
        if l.le yaw yaw_fp
        then l.div (sub yaw_fp yaw) omega_l
        else l.div (add (sub yaw_fp yaw) l.turn) omega_l in
      if lt t time_last then add t (l.div l.turn omega_l) else t

  -- The layers after a point without a time of its own, and its time; the first point of a layer is skipped.
  unfoldable pub layer_after :
      Preprocess F → Layers F → SpinPoint F → Bool → F → F → Layers F × Option F
  unfolding turned
  layer_after s layers p first yaw_fp time_last =
      let yaw = l.yaw_of p.at.y p.at.x in
      let t = turned (l.turn_speed s.scan_rate) yaw_fp time_last yaw in
      if first
      then (
        record {
          is_first = set layers.is_first p.ring false;
          yaw_fp = set layers.yaw_fp p.ring yaw;
          yaw_last = set layers.yaw_last p.ring yaw;
          time_last = set layers.time_last p.ring zero_f;
        },
        none,
      )
      else (
        record layers {
          yaw_last = set layers.yaw_last p.ring yaw;
          time_last = set layers.time_last p.ring t;
        },
        some t,
      )

  unfoldable pub layer_round : Preprocess F → Layers F → SpinPoint F → Option (Layers F × Option F)
  layer_round s layers p = do
    first ← get_elem? layers.is_first p.ring
    yaw_fp ← get_elem? layers.yaw_fp p.ring
    time_last ← get_elem? layers.time_last p.ring
    some (layer_after s layers p first yaw_fp time_last)

  -- The part that is the same with and without times: the thinning and the blind zone.
  unfoldable pub spin_keep :
      Preprocess F
      → ℕ
      → PointXyzi F
      → F
      → List (PointType F (PointXyzi F))
      → Option (List (PointType F (PointXyzi F)))
  unfolding square_norm
  spin_keep s i p curvature surf =
      if s.point_filter_num == 0
      then none
      else if i % s.point_filter_num == 0 && is_far n s.blind p
      then some (surf ++ record { point = p; curvature = curvature } ∷ [])
      else some surf

  unfoldable pub spin_round :
      Preprocess F
      → (SpinPoint F → F)
      → ℕ
      → Layers F
      → SpinPoint F
      → List (PointType F (PointXyzi F))
      → Option (Layers F × List (PointType F (PointXyzi F)))
  spin_round s time_of i layers p surf =
      if s.given_offset_time
      then (spin_keep s i p.at (time_of p) surf >>= λ surf'. some (layers, surf'))
      else layer_round s layers p >>= λ r. elim r.1 [
        | none ↦ some (r.0, surf)
        | some t ↦ (spin_keep s i p.at t surf >>= λ surf'. some (r.0, surf'))
      ]

  unfoldable pub spin_loop :
      Preprocess F
      → (SpinPoint F → F)
      → ℕ
      → Layers F
      → List (SpinPoint F)
      → List (PointType F (PointXyzi F))
      → Option (List (PointType F (PointXyzi F)))
  spin_loop s time_of i layers [] surf = some surf
  spin_loop s time_of i layers (p ∷ rest) surf =
      spin_round s time_of i layers p surf >>= λ r. spin_loop s time_of (i + 1) r.0 rest r.1

  abbrev pub new_layers : ℕ → Layers F
  new_layers n_scans = record {
    is_first = replicate n_scans true;
    yaw_fp = replicate n_scans zero_f;
    yaw_last = replicate n_scans zero_f;
    time_last = replicate n_scans zero_f;
  }

  unfoldable pub velodyne_handler : List (SpinPoint F) → Preprocess F → Option (Preprocess F)
  velodyne_handler [] s = some (record s { pl_surf = [] })
  velodyne_handler (p ∷ rest) s =
      let s' = record s { given_offset_time = lt zero_f (last_of p rest).time } in
      spin_loop s' (λ q. mul q.time s.time_unit_scale) 0 (new_layers s.n_scans) (p ∷ rest) []
      >>= λ surf. some (record s' { pl_surf = surf })

  unfoldable pub hesai_handler : List (SpinPoint F) → Preprocess F → Option (Preprocess F)
  hesai_handler [] s = some (record s { pl_surf = [] })
  hesai_handler (p ∷ rest) s =
      let s' = record s { given_offset_time = lt zero_f (last_of p rest).time } in
      spin_loop s' (λ q. l.seconds_to_ms (sub q.time p.time)) 0 (new_layers s.n_scans) (p ∷ rest) []
      >>= λ surf. some (record s' { pl_surf = surf })
