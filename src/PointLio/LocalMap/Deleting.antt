-- ===== src/PointLio/LocalMap/Deleting.antt =====
-- What the map keeps and deletes when the cube moves, `lasermap_fov_segment` of laserMapping.cpp.
use mathlib.Core.List.{append-nil}
use sentry25navi.Prelude.{
  ◌≡◌, refl, sym, ap, subst, Bool, true, false, List, [], ◌++◌, ◌⊎◌, inl, inr, if◌then◌else◌,
}
use sentry25navi.PointLio.LocalMap.{
  Axis, Lengths, MapParameters, BoxPointType, LocalMap, mov_dist, need_move, moved_map, around,
  lasermap_fov_segment,
}
use sentry25navi.PointLio.LocalMap.Boxes.{IsOrdered, Within, Inside, InSome, InSome-right}
use sentry25navi.PointLio.LocalMap.Moves.{after_rounds, slabs, rounds_cubes, kept, cut_off}

module _ {F : Type 0} (l : Lengths F) (p : MapParameters F) where
  -- `r` is the state after a call and what the tree is told to delete, `cubes` what the call adds to that.
  pub record Deletes (s : LocalMap F) (r : LocalMap F × List (BoxPointType F))
      (cubes : List (BoxPointType F)) : Type 0 where
    pub listed : (r.0).cub_needrm ≡ s.cub_needrm ++ cubes
    pub deleted : ((cubes ≡ []) × (r.1 ≡ [])) ⊎ (r.1 ≡ s.cub_needrm ++ cubes)
    pub kept :
        (q : Axis → F)
        → Within l s.local_map_points q
        → Within l (r.0).local_map_points q ⊎ InSome l q r.1
    pub spared : (q : Axis → F) → InSome l q cubes → ¬ Inside l (r.0).local_map_points q

  abbrev decided : (Axis → F) → LocalMap F → Bool → LocalMap F × List (BoxPointType F)
  decided pos s b =
      if b
      then (
        moved_map l p (after_rounds l p s.local_map_points pos s.cub_needrm) s,
        (after_rounds l p s.local_map_points pos s.cub_needrm).1,
      )
      else (s, [])

  abbrev begun : (Axis → F) → LocalMap F → Bool → LocalMap F × List (BoxPointType F)
  begun pos s false =
      (record s { local_map_points = around l p pos; localmap_initialized = true }, [])
  begun pos s true = decided pos s (need_move l p s.local_map_points pos)

  begun_lem :
      (pos : Axis → F) (s : LocalMap F)
      → s.localmap_initialized ≡ true
      → lasermap_fov_segment l p pos s ≡ decided pos s (need_move l p s.local_map_points pos)
  unfolding lasermap_fov_segment
  begun_lem pos s initialized = ap (begun pos s) initialized

  module _ (o : IsOrdered l (mov_dist l p)) where
    decided_lem :
        (pos : Axis → F) (s : LocalMap F) (b : Bool)
        → (cubes : List (BoxPointType F)) × Deletes s (decided pos s b) cubes
    decided_lem pos s false = (
      [],
      record {
        listed = sym (append-nil s.cub_needrm);
        deleted = inl (refl, refl);
        kept = λ q inside. inl inside;
        spared = λ q found. elim found [ ];
      },
    )
    decided_lem pos s true =
        let old = s.local_map_points in
        let added = rounds_cubes l p old pos s.cub_needrm in
        (
          slabs l p old pos,
          record {
            listed = added;
            deleted = inr added;
            kept = λ q inside. elim (kept l p old pos s.cub_needrm o q inside) [
              | inl still ↦ inl still
              | inr cut ↦ inr (subst (InSome l q) (sym added) (InSome-right l q s.cub_needrm _ cut))
            ];
            spared = λ q cut. cut_off l p old pos s.cub_needrm o q cut;
          },
        )

    -- Once the cube of the map is placed, with an order on the numbers and a distance of moves that is not
    -- negative, each point of the cube is afterwards in the new cube or in a box that the call deletes, and
    -- no box that the call adds has a point inside of the new cube. But a call that moves the cube
    -- deletes the boxes of all calls before it once more.
    pub lasermap_fov_segment_lem :
        (pos : Axis → F) (s : LocalMap F)
        → s.localmap_initialized ≡ true
        → (cubes : List (BoxPointType F)) × Deletes s (lasermap_fov_segment l p pos s) cubes
    lasermap_fov_segment_lem pos s initialized =
        let d = decided_lem pos s (need_move l p s.local_map_points pos) in
        (d.0, subst (λ r. Deletes s r d.0) (sym (begun_lem pos s initialized)) d.1)
