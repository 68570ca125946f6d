-- ===== src/PointLio/LocalMap/Boxes.antt =====
-- Points in boxes, for the cube of the map in laserMapping.cpp.
use sentry25navi.Prelude.{◌≡◌, refl, true, false, List, [], ◌∷◌, ◌++◌, ◌⊎◌, inl, inr}
use sentry25navi.PointLio.LocalMap.{Axis, axis_x, axis_y, axis_z, Lengths, BoxPointType, put}

-- What is taken of the arithmetic: a total order, and a distance that is not negative.
pub record IsOrdered {F : Type 0} (l : Lengths F) (d : F) : Type 0 where
  pub total : (a b : F) → l.le a b ≡ false → l.le b a ≡ true
  pub trans : (a b c : F) → l.le a b ≡ true → l.le b c ≡ true → l.le a c ≡ true
  pub sub_le : (a : F) → l.le (l.sub a d) a ≡ true
  pub le_add : (a : F) → l.le a (l.add a d) ≡ true

module _ {F : Type 0} (l : Lengths F) where
  pub record OnAxis (lo hi a : F) : Type 0 where
    pub lower : l.le lo a ≡ true
    pub upper : l.le a hi ≡ true

  -- The point `q` is in the box, its sides included.
  abbrev pub Within : BoxPointType F → (Axis → F) → Type 0
  Within box q = (i : Axis) → OnAxis (box.vertex_min i) (box.vertex_max i) (q i)

  -- The point `q` is in the box and on none of its sides.
  abbrev pub Inside : BoxPointType F → (Axis → F) → Type 0
  Inside box q =
      (i : Axis) → (l.le (q i) (box.vertex_min i) ≡ false) × (l.le (box.vertex_max i) (q i) ≡ false)

  pub data InSome (q : Axis → F) : List (BoxPointType F) → Type 0 where
    here :
        (box : BoxPointType F) (boxes : List (BoxPointType F))
        → Within box q
        → InSome q (box ∷ boxes)
    there :
        (box : BoxPointType F) (boxes : List (BoxPointType F))
        → InSome q boxes
        → InSome q (box ∷ boxes)

  pub InSome-left :
      (q : Axis → F) (xs ys : List (BoxPointType F)) → InSome q xs → InSome q (xs ++ ys)
  InSome-left q _ ys (here box xs at) = here box (xs ++ ys) at
  InSome-left q _ ys (there box xs at) = there box (xs ++ ys) (InSome-left q xs ys at)

  pub InSome-right :
      (q : Axis → F) (xs ys : List (BoxPointType F)) → InSome q ys → InSome q (xs ++ ys)
  InSome-right q [] ys at = at
  InSome-right q (x ∷ xs) ys at = there x (xs ++ ys) (InSome-right q xs ys at)

  pub InSome-split :
      (q : Axis → F) (xs ys : List (BoxPointType F))
      → InSome q (xs ++ ys)
      → InSome q xs ⊎ InSome q ys
  InSome-split q [] ys at = inr at
  InSome-split q (x ∷ xs) ys (here _ _ at) = inl (here x xs at)
  InSome-split q (x ∷ xs) ys (there _ _ at) = elim (InSome-split q xs ys at) [
    | inl found ↦ inl (there x xs found)
    | inr found ↦ inr found
  ]

  pub put_lower :
      (q v : Axis → F) (i : Axis) (a : F)
      → l.le a (q i) ≡ true
      → ((j : Axis) → l.le (v j) (q j) ≡ true)
      → (j : Axis) → l.le (put v i a j) (q j) ≡ true
  put_lower q v axis_x a at others axis_x = at
  put_lower q v axis_x a at others axis_y = others axis_y
  put_lower q v axis_x a at others axis_z = others axis_z
  put_lower q v axis_y a at others axis_x = others axis_x
  put_lower q v axis_y a at others axis_y = at
  put_lower q v axis_y a at others axis_z = others axis_z
  put_lower q v axis_z a at others axis_x = others axis_x
  put_lower q v axis_z a at others axis_y = others axis_y
  put_lower q v axis_z a at others axis_z = at

  pub put_upper :
      (q v : Axis → F) (i : Axis) (a : F)
      → l.le (q i) a ≡ true
      → ((j : Axis) → l.le (q j) (v j) ≡ true)
      → (j : Axis) → l.le (q j) (put v i a j) ≡ true
  put_upper q v axis_x a at others axis_x = at
  put_upper q v axis_x a at others axis_y = others axis_y
  put_upper q v axis_x a at others axis_z = others axis_z
  put_upper q v axis_y a at others axis_x = others axis_x
  put_upper q v axis_y a at others axis_y = at
  put_upper q v axis_y a at others axis_z = others axis_z
  put_upper q v axis_z a at others axis_x = others axis_x
  put_upper q v axis_z a at others axis_y = others axis_y
  put_upper q v axis_z a at others axis_z = at

pub put_self {ℓ} : {A : Type ℓ} (v : Axis → A) (i : Axis) (a : A) → put v i a i ≡ a
put_self v axis_x a = refl
put_self v axis_y a = refl
put_self v axis_z a = refl
