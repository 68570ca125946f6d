-- ===== src/PointLio/LocalMap.antt =====
-- The cube of the map around the lidar, `lasermap_fov_segment` of src/Point-LIO-master/src/laserMapping.cpp. An array
-- of three is a function of the axis, and the position of the lidar, which the filter estimates, an
-- argument. The tree of the map is outside of this; the boxes that it is to delete are an output.
mod Boxes
mod Moves
mod Deleting
mod Tests
use sentry25navi.Prelude.{Bool, true, false, ◌||◌, Option, List, [], ◌∷◌, ◌++◌, if◌then◌else◌}

pub data Axis : Type 0 where
  axis_x : Axis
  axis_y : Axis
  axis_z : Axis

-- The arithmetic of `float` and `double`, and the literals.
pub record Lengths (F : Type 0) : Type 0 where
  pub add : F → F → F
  pub sub : F → F → F
  pub mul : F → F → F
  pub div : F → F → F
  pub abs : F → F
  pub le : F → F → Bool
  pub max : F → F → F
  pub one : F
  pub two : F
  pub half : F
  pub nine_tenths : F

pub record MapParameters (F : Type 0) : Type 0 where
  pub cube_len : F
  pub det_range : F
  pub mov_threshold : F

pub record BoxPointType (F : Type 0) : Type 0 where
  pub vertex_min : Axis → F
  pub vertex_max : Axis → F

pub record LocalMap (F : Type 0) : Type 0 where
  pub local_map_points : BoxPointType F
  pub localmap_initialized : Bool
  pub cub_needrm : List (BoxPointType F)

-- The array `v` with entry `i` set to `a`.
abbrev pub put {ℓ} : {A : Type ℓ} → (Axis → A) → Axis → A → Axis → A
put v axis_x a axis_x = a
put v axis_x a axis_y = v axis_y
put v axis_x a axis_z = v axis_z
put v axis_y a axis_x = v axis_x
put v axis_y a axis_y = a
put v axis_y a axis_z = v axis_z
put v axis_z a axis_x = v axis_x
put v axis_z a axis_y = v axis_y
put v axis_z a axis_z = a

module _ {F : Type 0} (l : Lengths F) (p : MapParameters F) where
  open l use {add, sub, mul, div, abs, le, max}

  abbrev pub edge : F
  edge = mul p.mov_threshold p.det_range

  abbrev pub mov_dist : F
  mov_dist =
      max
        (mul (mul (sub p.cube_len (mul (mul l.two p.mov_threshold) p.det_range)) l.half)
          l.nine_tenths)
        (mul p.det_range (sub p.mov_threshold l.one))

  abbrev pub near_min : BoxPointType F → (Axis → F) → Axis → Bool
  near_min box pos i = le (abs (sub (pos i) (box.vertex_min i))) edge

  abbrev pub near_max : BoxPointType F → (Axis → F) → Axis → Bool
  near_max box pos i = le (abs (sub (pos i) (box.vertex_max i))) edge

  -- One round of the loop that moves the box: `old` is the box before the loop.
  unfoldable pub move_round :
      BoxPointType F
      → (Axis → F)
      → Axis
      → BoxPointType F × List (BoxPointType F)
      → BoxPointType F × List (BoxPointType F)
  move_round old pos i (new, cubes) =
      if near_min old pos i
      then (
        record {
          vertex_min = put new.vertex_min i (sub (new.vertex_min i) mov_dist);
          vertex_max = put new.vertex_max i (sub (new.vertex_max i) mov_dist);
        },
        cubes
            ++ record old { vertex_min = put old.vertex_min i (sub (old.vertex_max i) mov_dist) }
              ∷ [],
      )
      else if near_max old pos i
      then (
        record {
          vertex_min = put new.vertex_min i (add (new.vertex_min i) mov_dist);
          vertex_max = put new.vertex_max i (add (new.vertex_max i) mov_dist);
        },
        cubes
            ++ record old { vertex_max = put old.vertex_max i (add (old.vertex_min i) mov_dist) }
              ∷ [],
      )
      else (new, cubes)

  abbrev pub need_move : BoxPointType F → (Axis → F) → Bool
  need_move box pos =
      (near_min box pos axis_x || near_max box pos axis_x)
      || (near_min box pos axis_y || near_max box pos axis_y)
      || (near_min box pos axis_z || near_max box pos axis_z)

  abbrev pub around : (Axis → F) → BoxPointType F
  around pos = record {
    vertex_min = λ i. sub (pos i) (div p.cube_len l.two);
    vertex_max = λ i. add (pos i) (div p.cube_len l.two);
  }

  abbrev pub moved_map : BoxPointType F × List (BoxPointType F) → LocalMap F → LocalMap F
  moved_map r s = record s { local_map_points = r.0; cub_needrm = r.1 }

  -- The new state, and the boxes that the tree is told to delete. The list of them is never emptied.
  unfoldable pub lasermap_fov_segment : (Axis → F) → LocalMap F → LocalMap F × List (BoxPointType F)
  unfolding move_round
  lasermap_fov_segment pos s =
      let box = s.local_map_points in
      let r =
        move_round box pos axis_z
          (move_round box pos axis_y (move_round box pos axis_x (box, s.cub_needrm))) in
      elim s.localmap_initialized [
        | false ↦ (record s { local_map_points = around pos; localmap_initialized = true }, [])
        | true ↦ if need_move box pos then (moved_map r s, r.1) else (s, [])
      ]
