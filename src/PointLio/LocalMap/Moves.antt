-- ===== src/PointLio/LocalMap/Moves.antt =====
-- What the moves of the cube leave and delete, `lasermap_fov_segment` of laserMapping.cpp.
use mathlib.Core.List.{append-nil, append_assoc}
use sentry25navi.Prelude.{
  ◌≡◌, ◌≢◌, refl, sym, ap, ◌∙◌, subst, Bool, true, false, List, [], ◌∷◌, ◌++◌, ◌⊎◌, inl, inr,
  if◌then◌else◌, Bool-cases, arith,
}
use sentry25navi.PointLio.LocalMap.{
  Axis, axis_x, axis_y, axis_z, Lengths, MapParameters, BoxPointType, put, mov_dist, near_min,
  near_max, move_round,
}
use sentry25navi.PointLio.LocalMap.Boxes.{
  IsOrdered, OnAxis, Within, Inside, InSome, here, there, InSome-left, InSome-right, InSome-split,
  put_lower, put_upper, put_self,
}

true-not-false : true ≢ false
true-not-false e = ground arith

joined {ℓ} : {A : Type ℓ} (a b c d : List A) → (((a ++ b) ++ c) ++ d) ≡ a ++ (b ++ (c ++ d))
joined a b c d = append_assoc (a ++ b) c d ∙ append_assoc a b (c ++ d)

module _ {F : Type 0} (l : Lengths F) (p : MapParameters F) (old : BoxPointType F)
    (pos : Axis → F) where
  open l use {add, sub, le}

  -- The box that is cut off at the far end of an axis.
  abbrev cut_high : Axis → BoxPointType F
  cut_high i = record old {
    vertex_min = put old.vertex_min i (sub (old.vertex_max i) (mov_dist l p));
  }

  abbrev cut_low : Axis → BoxPointType F
  cut_low i = record old {
    vertex_max = put old.vertex_max i (add (old.vertex_min i) (mov_dist l p));
  }

  abbrev shift_by : Bool → Bool → F → F
  shift_by true b a = sub a (mov_dist l p)
  shift_by false true a = add a (mov_dist l p)
  shift_by false false a = a

  abbrev slab_of : Axis → Bool → Bool → List (BoxPointType F)
  slab_of i true b = cut_high i ∷ []
  slab_of i false true = cut_low i ∷ []
  slab_of i false false = []

  abbrev shifted : Axis → F → F
  shifted i = shift_by (near_min l p old pos i) (near_max l p old pos i)

  abbrev slab : Axis → List (BoxPointType F)
  slab i = slab_of i (near_min l p old pos i) (near_max l p old pos i)

  module _ (o : IsOrdered l (mov_dist l p)) (q : Axis → F) where
    abbrev Covered : Axis → Bool → Bool → Type 0
    Covered i b b' =
        OnAxis l (shift_by b b' (old.vertex_min i)) (shift_by b b' (old.vertex_max i)) (q i)
        ⊎ InSome l q (slab_of i b b')

    covered : (i : Axis) (b b' : Bool) → Within l old q → Covered i b b'
    covered i false false inside = inl (inside i)
    covered i true b' inside =
        elim (Bool-cases (le (q i) (sub (old.vertex_max i) (mov_dist l p)))) [
          | inl upper ↦ inl (record {
            lower = o.trans _ _ _ (o.sub_le (old.vertex_min i)) (inside i).lower;
            upper = upper;
          })
          | inr beyond ↦ inr (
              here (cut_high i) [] (λ j. record {
                lower =
                    put_lower l q old.vertex_min i _ (o.total _ _ beyond) (λ k. (inside k).lower) j;
                upper = (inside j).upper;
              }))
        ]
    covered i false true inside =
        elim (Bool-cases (le (add (old.vertex_min i) (mov_dist l p)) (q i))) [
          | inl lower ↦ inl (record {
            lower = lower;
            upper = o.trans _ _ _ (inside i).upper (o.le_add (old.vertex_max i));
          })
          | inr before ↦ inr (
              here (cut_low i) [] (λ j. record {
                lower = (inside j).lower;
                upper =
                    put_upper l q old.vertex_max i _ (o.total _ _ before) (λ k. (inside k).upper) j;
              }))
        ]

    -- A point of a slab is not strictly between the new sides of its axis.
    spared :
        (i : Axis) (b b' : Bool)
        → InSome l q (slab_of i b b')
        → le (q i) (shift_by b b' (old.vertex_min i)) ≡ false
        → le (shift_by b b' (old.vertex_max i)) (q i) ≡ false
        → true ≡ false
    spared i true b' (here _ _ at) low high =
        sym (subst (λ a. le a (q i) ≡ true) (put_self old.vertex_min i _) (at i).lower) ∙ high
    spared i false true (here _ _ at) low high =
        sym (subst (λ a. le (q i) a ≡ true) (put_self old.vertex_max i _) (at i).upper) ∙ low
    spared i true b' (there _ _ none_left) low high = elim none_left [ ]
    spared i false true (there _ _ none_left) low high = elim none_left [ ]
    spared i false false none_left low high = elim none_left [ ]

  abbrev pub Moving : Type 0
  Moving = BoxPointType F × List (BoxPointType F)

  abbrev round_by : Axis → Moving → Bool → Bool → Moving
  round_by i (new, cubes) b b' =
      if b
      then (
        record {
          vertex_min = put new.vertex_min i (sub (new.vertex_min i) (mov_dist l p));
          vertex_max = put new.vertex_max i (sub (new.vertex_max i) (mov_dist l p));
        },
        cubes ++ cut_high i ∷ [],
      )
      else if b'
      then (
        record {
          vertex_min = put new.vertex_min i (add (new.vertex_min i) (mov_dist l p));
          vertex_max = put new.vertex_max i (add (new.vertex_max i) (mov_dist l p));
        },
        cubes ++ cut_low i ∷ [],
      )
      else (new, cubes)

  -- What a round does, axis by axis.
  record Round (i : Axis) (s r : Moving) : Type 0 where
    cubes : r.1 ≡ s.1 ++ slab i
    low :
        (j : Axis) → (r.0).vertex_min j ≡ put (s.0).vertex_min i (shifted i ((s.0).vertex_min i)) j
    high :
        (j : Axis) → (r.0).vertex_max j ≡ put (s.0).vertex_max i (shifted i ((s.0).vertex_max i)) j

  put_same : (v : Axis → F) (i j : Axis) → v j ≡ put v i (v i) j
  put_same v axis_x axis_x = refl
  put_same v axis_x axis_y = refl
  put_same v axis_x axis_z = refl
  put_same v axis_y axis_x = refl
  put_same v axis_y axis_y = refl
  put_same v axis_y axis_z = refl
  put_same v axis_z axis_x = refl
  put_same v axis_z axis_y = refl
  put_same v axis_z axis_z = refl

  round_cubes :
      (i : Axis) (s : Moving) (b b' : Bool) → (round_by i s b b').1 ≡ s.1 ++ slab_of i b b'
  round_cubes i s true b' = refl
  round_cubes i s false true = refl
  round_cubes i s false false = sym (append-nil s.1)

  round_low :
      (i j : Axis) (s : Moving) (b b' : Bool)
      → ((round_by i s b b').0).vertex_min j
        ≡ put (s.0).vertex_min i (shift_by b b' ((s.0).vertex_min i)) j
  round_low i j s true b' = refl
  round_low i j s false true = refl
  round_low i j s false false = put_same (s.0).vertex_min i j

  round_high :
      (i j : Axis) (s : Moving) (b b' : Bool)
      → ((round_by i s b b').0).vertex_max j
        ≡ put (s.0).vertex_max i (shift_by b b' ((s.0).vertex_max i)) j
  round_high i j s true b' = refl
  round_high i j s false true = refl
  round_high i j s false false = put_same (s.0).vertex_max i j

  move_round_lem : (i : Axis) (s : Moving) → Round i s (move_round l p old pos i s)
  unfolding move_round
  move_round_lem i s = record {
    cubes = round_cubes i s (near_min l p old pos i) (near_max l p old pos i);
    low = λ j. round_low i j s (near_min l p old pos i) (near_max l p old pos i);
    high = λ j. round_high i j s (near_min l p old pos i) (near_max l p old pos i);
  }

  abbrev pub after_rounds : List (BoxPointType F) → Moving
  after_rounds cubes =
      move_round l p old pos axis_z
        (move_round l p old pos axis_y (move_round l p old pos axis_x (old, cubes)))

  abbrev pub slabs : List (BoxPointType F)
  slabs = slab axis_x ++ (slab axis_y ++ slab axis_z)

  module _ (cubes : List (BoxPointType F)) where
    abbrev one : Moving
    one = move_round l p old pos axis_x (old, cubes)

    abbrev two : Moving
    two = move_round l p old pos axis_y one

    Round-one : Round axis_x (old, cubes) one
    Round-one = move_round_lem axis_x (old, cubes)

    Round-two : Round axis_y one two
    Round-two = move_round_lem axis_y one

    Round-three : Round axis_z two (after_rounds cubes)
    Round-three = move_round_lem axis_z two

    rounds_low : (j : Axis) → (after_rounds cubes).0.vertex_min j ≡ shifted j (old.vertex_min j)
    rounds_low axis_x = Round-three.low axis_x ∙ Round-two.low axis_x ∙ Round-one.low axis_x
    rounds_low axis_y =
        Round-three.low axis_y ∙ Round-two.low axis_y ∙ ap (shifted axis_y) (Round-one.low axis_y)
    rounds_low axis_z =
        Round-three.low axis_z ∙ ap (shifted axis_z) (Round-two.low axis_z ∙ Round-one.low axis_z)

    rounds_high : (j : Axis) → (after_rounds cubes).0.vertex_max j ≡ shifted j (old.vertex_max j)
    rounds_high axis_x = Round-three.high axis_x ∙ Round-two.high axis_x ∙ Round-one.high axis_x
    rounds_high axis_y =
        Round-three.high axis_y
        ∙ Round-two.high axis_y
        ∙ ap (shifted axis_y) (Round-one.high axis_y)
    rounds_high axis_z =
        Round-three.high axis_z
        ∙ ap (shifted axis_z) (Round-two.high axis_z ∙ Round-one.high axis_z)

    pub rounds_cubes : (after_rounds cubes).1 ≡ cubes ++ slabs
    rounds_cubes =
        Round-three.cubes
        ∙ ap (λ b. b ++ slab axis_z) (Round-two.cubes ∙ ap (λ b. b ++ slab axis_y) Round-one.cubes)
        ∙ joined cubes (slab axis_x) (slab axis_y) (slab axis_z)

    module _ (o : IsOrdered l (mov_dist l p)) (q : Axis → F) where
      abbrev OnShifted : Axis → Type 0
      OnShifted j = OnAxis l (shifted j (old.vertex_min j)) (shifted j (old.vertex_max j)) (q j)

      by_axis : OnShifted axis_x → OnShifted axis_y → OnShifted axis_z → (j : Axis) → OnShifted j
      by_axis x y z axis_x = x
      by_axis x y z axis_y = y
      by_axis x y z axis_z = z

      covered_at : (j : Axis) → Within l old q → OnShifted j ⊎ InSome l q (slab j)
      covered_at j inside = covered o q j (near_min l p old pos j) (near_max l p old pos j) inside

      held :
          (j : Axis)
          → OnShifted j
          → OnAxis l
              ((after_rounds cubes).0.vertex_min j)
              ((after_rounds cubes).0.vertex_max j)
              (q j)
      held j at = record {
        lower = ap (λ a. le a (q j)) (rounds_low j) ∙ at.lower;
        upper = ap (λ a. le (q j) a) (rounds_high j) ∙ at.upper;
      }

      pub kept : Within l old q → Within l (after_rounds cubes).0 q ⊎ InSome l q slabs
      kept inside = elim (covered_at axis_x inside) [
        | inr cut ↦ inr (InSome-left l q (slab axis_x) (slab axis_y ++ slab axis_z) cut)
        | inl x ↦ elim (covered_at axis_y inside) [
          | inr cut ↦ inr (
              InSome-right l q (slab axis_x) (slab axis_y ++ slab axis_z)
                (InSome-left l q (slab axis_y) (slab axis_z) cut))
          | inl y ↦ elim (covered_at axis_z inside) [
            | inr cut ↦ inr (
                InSome-right l q (slab axis_x) (slab axis_y ++ slab axis_z)
                  (InSome-right l q (slab axis_y) (slab axis_z) cut))
            | inl z ↦ inl (λ j. held j (by_axis x y z j))
          ]
        ]
      ]

      off_axis : (j : Axis) → InSome l q (slab j) → Inside l (after_rounds cubes).0 q → true ≡ false
      off_axis j cut inside =
          spared o q j (near_min l p old pos j) (near_max l p old pos j) cut
            (ap (λ a. le (q j) a) (sym (rounds_low j)) ∙ (inside j).0)
            (ap (λ a. le a (q j)) (sym (rounds_high j)) ∙ (inside j).1)

      pub cut_off : InSome l q slabs → ¬ Inside l (after_rounds cubes).0 q
      cut_off cut inside =
          true-not-false (elim (InSome-split l q (slab axis_x) (slab axis_y ++ slab axis_z) cut) [
            | inl x ↦ off_axis axis_x x inside
            | inr rest ↦ elim (InSome-split l q (slab axis_y) (slab axis_z) rest) [
              | inl y ↦ off_axis axis_y y inside
              | inr z ↦ off_axis axis_z z inside
            ]
          ])
