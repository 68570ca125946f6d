-- ===== src/Perception/Tracking/Poses.antt =====
-- The poses that the tracker publishes, tracking.cpp.
use sentry25navi.Prelude.{ℕ, suc, ◌<◌, ◌≡◌, refl, ap, some, List, [], ◌∷◌, length, get_elem?-some}
use sentry25navi.Perception.Clouds.{PointXyz}
use sentry25navi.Perception.Tracking.{
  Clustering, Tracker, cluster_cloud, cluster_poses, extract_dynamic_obstacle, cloud_callback,
}

-- The indices of a cluster are those of points.
abbrev pub AllBelow : ℕ → List ℕ → Type 0
AllBelow n [] = Unit {0}
AllBelow n (i ∷ is) = (i < n) × AllBelow n is

abbrev pub AllIndices : ℕ → List (List ℕ) → Type 0
AllIndices n [] = Unit {0}
AllIndices n (cluster ∷ clusters) = AllBelow n cluster × AllIndices n clusters

module _ {F : Type 0} where
  -- Each pose is the centroid of the points of its cluster, as many as the cluster names.
  abbrev pub AreCentroids :
      Clustering F → List (PointXyz F) → List (List ℕ) → List (PointXyz F) → Type 0
  AreCentroids k cloud [] [] = Unit {0}
  AreCentroids k cloud [] (pose ∷ poses) = ⊥
  AreCentroids k cloud (cluster ∷ clusters) [] = ⊥
  AreCentroids k cloud (cluster ∷ clusters) (pose ∷ poses) =
      ((ps : List (PointXyz F)) × (cluster_cloud cloud cluster ≡ some ps)
        × (length ps ≡ length cluster)
        × (pose ≡ k.centroid ps))
      × AreCentroids k cloud clusters poses

  cluster_cloud_lem :
      (cloud : List (PointXyz F)) (cluster : List ℕ)
      → AllBelow (length cloud) cluster
      → (ps : List (PointXyz F)) × (cluster_cloud cloud cluster ≡ some ps)
        × (length ps ≡ length cluster)
  unfolding cluster_cloud
  cluster_cloud_lem cloud [] h = ([], refl, refl)
  cluster_cloud_lem cloud (i ∷ is) h =
      let (p, at) = get_elem?-some cloud i h.0 in
      let (ps, e, size) = cluster_cloud_lem cloud is h.1 in (p ∷ ps, rw (at, e) refl, ap suc size)

  cluster_poses_lem :
      (k : Clustering F) (cloud : List (PointXyz F)) (clusters : List (List ℕ))
      → AllIndices (length cloud) clusters
      → (poses : List (PointXyz F)) × (cluster_poses k cloud clusters ≡ some poses)
        × AreCentroids k cloud clusters poses
  unfolding cluster_poses
  cluster_poses_lem k cloud [] h = ([], refl, tt)
  cluster_poses_lem k cloud (cluster ∷ clusters) h =
      let (ps, e, size) = cluster_cloud_lem cloud cluster h.0 in
      let (poses, run, rest) = cluster_poses_lem k cloud clusters h.1 in
      (k.centroid ps ∷ poses, rw (e, run) refl, ((ps, e, size, refl), rest))

  -- After a cloud with a point came, of which the clustering names no other points, the timer publishes one
  -- pose for each cluster, in order, the centroid of its points, with the time stamp of that cloud; the
  -- poses of earlier clouds are gone.
  pub extract_dynamic_obstacle-cloud_callback :
      (k : Clustering F) (s : Tracker F) (p : PointXyz F) (ps : List (PointXyz F)) (stamp : ℕ)
      → AllIndices (suc (length ps)) (k.extract 5 (p ∷ ps))
      → (poses : List (PointXyz F)) × (extract_dynamic_obstacle k (cloud_callback s (p ∷ ps) stamp)
          ≡ some (
            some (poses, stamp),
            record s { obstacle = p ∷ ps; timestamp = stamp; obstacle_poses = poses },
          ))
        × AreCentroids k (p ∷ ps) (k.extract 5 (p ∷ ps)) poses
  unfolding extract_dynamic_obstacle cloud_callback
  extract_dynamic_obstacle-cloud_callback k s p ps stamp h =
      let (poses, run, centroids) = cluster_poses_lem k (p ∷ ps) (k.extract 5 (p ∷ ps)) h in
      (poses, rw run refl, centroids)
