-- ===== src/PointLio/LaserMapping/Storing.antt =====
-- What the callbacks for scans of laserMapping.cpp add to the queue of scans, unless scans are gathered.
use sentry25navi.Prelude.{
  ℕ, ◌+◌, ◌<◌, ◌≡◌, refl, true, false, Option, some, List, [], ◌∷◌, ◌++◌, ltb, if◌then◌else◌,
  Bool-cases, inl, inr, arith,
}
use sentry25navi.PointLio.LaserMapping.{
  cut_loop, push_pieces, imu_cbk, standard_pcl_cbk, livox_pcl_cbk,
}
use sentry25navi.PointLio.Records.{Seconds, PointType, Imu, Parameters, LaserMapping, maxn}
use sentry25navi.PointLio.LaserMapping.Handing.{either}
use sentry25navi.PointLio.LaserMapping.Buffers.{Holds, push_pieces_lem}

abbrev pub later_of : {F : Type 0} → Seconds F → F → F → F
later_of k last stamp = if k.lt stamp last then last else stamp

-- What a scan adds to the queue after one with the time stamp `last`.
abbrev pub accepted :
    {F P : Type 0}
    → Seconds F
    → Parameters F
    → (List (PointType F P) → List (PointType F P))
    → F
    → F
    → List (PointType F P)
    → List (F × List (PointType F P))
accepted k c sorted last stamp points =
    if k.lt stamp last
    then []
    else if c.cut_frame
    then cut_loop k c.cut_frame_time_interval stamp stamp [] (sorted points)
    else (stamp, points) ∷ []

below : {a b : ℕ} → a < b → ltb a b ≡ true
below h = ground arith

module _ {F P S : Type 0} (k : Seconds F) (c : Parameters F)
    (sorted : List (PointType F P) → List (PointType F P)) where
  -- What a callback for a scan leaves.
  pub record Stores (s : LaserMapping F P S) (stamp : F) (points : List (PointType F P))
      (q : List (F × List (PointType F P))) (o : Option (LaserMapping F P S))
      (s' : LaserMapping F P S) : Type 0 where
    pub run : o ≡ some s'
    pub holds : Holds c s' (q ++ accepted k c sorted s.last_timestamp_lidar stamp points)
    pub count : s'.scan_count ≡ s.scan_count + 1
    pub last : s'.last_timestamp_lidar ≡ later_of k s.last_timestamp_lidar stamp

  push_pieces-count :
      (news : List (F × List (PointType F P))) (s : LaserMapping F P S)
      → ((push_pieces news s).scan_count ≡ s.scan_count)
        × ((push_pieces news s).last_timestamp_lidar ≡ s.last_timestamp_lidar)
  unfolding push_pieces
  push_pieces-count [] s = (refl, refl)
  push_pieces-count (piece ∷ news) s = push_pieces-count news _

  -- The state with the scan of a callback counted, and its pieces stored.
  abbrev pub stored : LaserMapping F P S → F → List (PointType F P) → LaserMapping F P S
  stored s stamp points =
      push_pieces (accepted k c sorted s.last_timestamp_lidar stamp points) (record s {
        scan_count = s.scan_count + 1;
        last_timestamp_lidar = later_of k s.last_timestamp_lidar stamp;
      })

  pub stored_lem :
      (stamp : F) (points : List (PointType F P)) (s : LaserMapping F P S)
      (q : List (F × List (PointType F P))) {o : Option (LaserMapping F P S)}
      → Holds c s q
      → o ≡ some (stored s stamp points)
      → (s' : LaserMapping F P S) × Stores s stamp points q o s'
  stored_lem stamp points s q h e =
      let news = accepted k c sorted s.last_timestamp_lidar stamp points in
      let timed = record s {
        scan_count = s.scan_count + 1;
        last_timestamp_lidar = later_of k s.last_timestamp_lidar stamp;
      } in
      (
        stored s stamp points,
        record {
          run = e;
          holds =
              push_pieces_lem c news q timed
                (record { scans = h.scans; times = h.times; pushed = h.pushed });
          count = (push_pieces-count news timed).0;
          last = (push_pieces-count news timed).1;
        },
      )

  pub standard_pcl_cbk-stored :
      (stamp : F) (points : List (PointType F P)) (s : LaserMapping F P S)
      → c.con_frame ≡ false
      → s.scan_count + 1 < maxn
      → standard_pcl_cbk k c sorted stamp points s ≡ some (stored s stamp points)
  unfolding standard_pcl_cbk push_pieces
  standard_pcl_cbk-stored stamp points s whole few =
      elim (Bool-cases (k.lt stamp s.last_timestamp_lidar)) [
        | inl old ↦ simp old
        | inr new ↦ elim (Bool-cases c.cut_frame) [
          | inl cut ↦ simp (new, cut, below few)
          | inr uncut ↦ simp (new, uncut, whole, below few)
        ]
      ]

  pub livox_pcl_cbk-stored :
      (stamp : F) (points : List (PointType F P)) (s : LaserMapping F P S)
      → c.con_frame ≡ false
      → s.scan_count + 1 < maxn
      → livox_pcl_cbk k c sorted stamp points s ≡ some (stored s stamp points)
  unfolding livox_pcl_cbk push_pieces
  livox_pcl_cbk-stored stamp points s whole few =
      elim (Bool-cases (k.lt stamp s.last_timestamp_lidar)) [
        | inl old ↦ simp old
        | inr new ↦ elim (Bool-cases c.cut_frame) [
          | inl cut ↦ simp (new, cut, below few)
          | inr uncut ↦ simp (new, uncut, whole, below few)
        ]
      ]

module _ {F P S : Type 0} where
  pub imu_cbk_lem :
      (k : Seconds F) (c : Parameters F) (msg : Imu F S) (s : LaserMapping F P S)
      (q : List (F × List (PointType F P)))
      → Holds c s q
      → Holds c (imu_cbk k c msg s) q
        × ((imu_cbk k c msg s).scan_count ≡ s.scan_count)
        × ((imu_cbk k c msg s).last_timestamp_lidar ≡ s.last_timestamp_lidar)
  unfolding imu_cbk
  imu_cbk_lem k c msg s q h =
      either
        (λ (s' : LaserMapping F P S).
          Holds c s' q
          × (s'.scan_count ≡ s.scan_count)
          × (s'.last_timestamp_lidar ≡ s.last_timestamp_lidar))
        _ (record { scans = h.scans; times = h.times; pushed = h.pushed }, refl, refl)
        (record { scans = h.scans; times = h.times; pushed = h.pushed }, refl, refl)
