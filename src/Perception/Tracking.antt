-- ===== src/Perception/Tracking.antt =====
-- The tracker, src/tracking/src/tracking.cpp. PCL's clustering and its centroid are parameters; the period
-- is in seconds. A cluster that names a point outside of the cloud is a fault. `publish_goal` has no body.
mod Poses
mod Tests
use sentry25navi.Prelude.{
  ℕ, zero, suc, ◌/◌, Option, none, some, List, [], ◌∷◌, ◌++◌, ◌==◌, if◌then◌else◌, get_elem?,
}
use sentry25navi.Livox.Lds.{◌>>=◌}
use sentry25navi.Perception.Clouds.{PointXyz}

-- `tolerance` is what the clustering is given, in tenths of a metre.
pub record Clustering (F : Type 0) : Type 0 where
  pub extract : ℕ → List (PointXyz F) → List (List ℕ)
  pub centroid : List (PointXyz F) → PointXyz F

pub record Tracker (F : Type 0) : Type 0 where
  pub obstacle : List (PointXyz F)
  pub timestamp : ℕ
  pub cluster_tolerance : F
  pub obstacle_poses : List (PointXyz F)

-- `1 / freq`, a quotient of integers.
unfoldable pub timer_period : ℕ → Option ℕ
timer_period freq = if freq == 0 then none else some (1 / freq)

module _ {F : Type 0} where
  unfoldable pub cloud_callback : Tracker F → List (PointXyz F) → ℕ → Tracker F
  cloud_callback s cloud stamp = record s { obstacle = cloud; timestamp = stamp }

  unfoldable pub cluster_cloud : List (PointXyz F) → List ℕ → Option (List (PointXyz F))
  cluster_cloud cloud [] = some []
  cluster_cloud cloud (i ∷ is) = do
    p ← get_elem? cloud i
    ps ← cluster_cloud cloud is
    some (p ∷ ps)

  unfoldable pub cluster_poses :
      Clustering F → List (PointXyz F) → List (List ℕ) → Option (List (PointXyz F))
  unfolding cluster_cloud
  cluster_poses k cloud [] = some []
  cluster_poses k cloud (cluster ∷ clusters) = do
    ps ← cluster_cloud cloud cluster
    poses ← cluster_poses k cloud clusters
    some (k.centroid ps ∷ poses)

  -- The poses and their time stamp, if they are published.
  unfoldable pub extract_dynamic_obstacle :
      Clustering F → Tracker F → Option (Option (List (PointXyz F) × ℕ) × Tracker F)
  unfolding cluster_poses
  extract_dynamic_obstacle k s = elim s.obstacle [
    | [] ↦ some (none, s)
    | p ∷ ps ↦
        (cluster_poses k (p ∷ ps) (k.extract 5 (p ∷ ps)) >>= λ poses.
        some (some (poses, s.timestamp), record s { obstacle_poses = poses }))
  ]
