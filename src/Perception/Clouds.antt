-- ===== src/Perception/Clouds.antt =====
-- Points and rigid transforms, as the packages take them from PCL and Eigen. A transform of a cloud is that
-- of each point, `T` stands for the matrices and `F` for `float` and `double`.
use sentry25navi.Prelude.{Bool}

pub record PointXyz (F : Type 0) : Type 0 where
  pub x : F
  pub y : F
  pub z : F

pub record Numbers (F : Type 0) : Type 0 where
  pub zero_f : F
  pub add : F → F → F
  pub sub : F → F → F
  pub mul : F → F → F
  pub abs : F → F
  pub lt : F → F → Bool

pub record Transforms (F : Type 0) (T : Type 0) : Type 0 where
  pub compose : T → T → T
  pub apply : T → PointXyz F → PointXyz F
