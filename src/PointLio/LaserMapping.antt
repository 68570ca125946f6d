-- ===== src/PointLio/LaserMapping.antt =====
-- The buffers of scans and samples of the odometry, src/Point-LIO-master/src/laserMapping.cpp: the callbacks
-- that fill them and `sync_packages`, which hands a scan on with the samples of its time. The globals are one
-- state and a call under the mutex is one step. The points of a message
-- are what the preprocessing made of it, and `std::sort` is a parameter. `none` is a fault: a write past the array of the
-- timing log, or the front of an empty deque.
mod Buffers
mod Cutting
mod Handing
mod Sync
mod Samples
mod Storing
mod Flow
mod Tests
use sentry25navi.Prelude.{
  ℕ, zero, suc, ◌+◌, Bool, true, false, not, ◌&&◌, Option, none, some, List, [], ◌∷◌, ◌++◌, ◌==◌,
  ltb, if◌then◌else◌,
}
use sentry25navi.Livox.Lds.{◌>>=◌}
use sentry25navi.PointLio.Records.{
  Seconds, PointType, Imu, MeasureGroup, Parameters, LaserMapping, maxn,
}

module _ {F P : Type 0} where
  abbrev pub back : PointType F P → List (PointType F P) → PointType F P
  back p [] = p
  back p (q ∷ qs) = back q qs

module _ {F P : Type 0} (k : Seconds F) where
  -- The loop that cuts a scan. `div` holds the points of the piece at hand and `time_div` is its time.
  unfoldable pub cut_loop :
      F → F → F → List (PointType F P) → List (PointType F P) → List (F × List (PointType F P))
  cut_loop interval stamp time_div [] [] = []
  cut_loop interval stamp time_div (d ∷ div) [] = (time_div, d ∷ div) ∷ []
  cut_loop interval stamp time_div div (p ∷ ps) =
      let ms = k.of_ms p.curvature in
      let next = cut_loop interval stamp (k.add time_div ms) [] ps in
      let same = cut_loop interval stamp time_div (div ++ p ∷ []) ps in
      if k.lt interval (k.sub (k.add ms stamp) time_div)
      then (time_div, div ++ p ∷ []) ∷ next
      else same

  -- A point of a scan that is gathered with others, its time counted from the first of them.
  abbrev pub shifted : F → PointType F P → PointType F P
  shifted late p = record p { curvature = k.to_float (k.add p.curvature (k.to_ms late)) }

  unfoldable pub gathered : F → List (PointType F P) → List (PointType F P) → List (PointType F P)
  gathered late con [] = con
  gathered late con (p ∷ ps) = gathered late (con ++ shifted late p ∷ []) ps

  abbrev pub latest : F → List (PointType F P) → F
  latest end [] = end
  latest end (p ∷ ps) = latest (if k.lt end p.curvature then p.curvature else end) ps

  -- The end of a scan that has a first point.
  abbrev pub end_of : F → PointType F P → List (PointType F P) → F
  end_of beg p ps = k.add beg (k.of_ms (latest (back p ps).curvature (p ∷ ps)))

module _ {F P S : Type 0} where
  unfoldable pub push_pieces :
      List (F × List (PointType F P)) → LaserMapping F P S → LaserMapping F P S
  push_pieces [] s = s
  push_pieces (piece ∷ pieces) s = push_pieces pieces (record s {
    lidar_buffer = s.lidar_buffer ++ piece.1 ∷ [];
    time_buffer = s.time_buffer ++ piece.0 ∷ [];
  })

  unfoldable pub pop_scan : LaserMapping F P S → Option (LaserMapping F P S)
  pop_scan s = elim s.lidar_buffer [
    | [] ↦ none
    | scan ∷ scans ↦ elim s.time_buffer [
      | [] ↦ none
      | time ∷ times ↦ some (record s { lidar_buffer = scans; time_buffer = times })
    ]
  ]

  abbrev pub emptied : F → LaserMapping F P S → LaserMapping F P S
  emptied beg s = record s { measures = record s.measures { lidar = []; lidar_beg_time = beg } }

  -- The front of the deque is taken.
  abbrev pub taken : Imu F S → List (Imu F S) → LaserMapping F P S → LaserMapping F P S
  taken i is s = record s {
    measures = record s.measures { imu = s.measures.imu ++ some i ∷ [] };
    imu_last = s.imu_next;
    imu_last_ptr = some i;
    imu_next = i;
    imu_deque = is;
  }

module _ {F P S : Type 0} (k : Seconds F) where
  -- The scan of the measures set, with its times.
  abbrev pub measured :
      F → PointType F P → List (PointType F P) → LaserMapping F P S → LaserMapping F P S
  measured beg p ps s = record s {
    lidar_end_time = end_of k beg p ps;
    measures = record s.measures {
      lidar = p ∷ ps;
      lidar_beg_time = beg;
      lidar_last_time = end_of k beg p ps;
    };
  }

  unfoldable pub sync_without_imu : LaserMapping F P S → Option (Bool × LaserMapping F P S)
  unfolding pop_scan
  sync_without_imu s = elim s.lidar_buffer [
    | [] ↦ some (false, s)
    | scan ∷ scans ↦ elim s.time_buffer [
      | [] ↦ none
      | beg ∷ times ↦ elim scan [
        | [] ↦ (pop_scan (emptied beg s) >>= λ s'. some (false, s'))
        | p ∷ ps ↦ (pop_scan (measured beg p ps s) >>= λ s'. some (true, s'))
      ]
    ]
  ]

  -- The part for a scan that is not pushed yet; `false` is an early return.
  unfoldable pub push_scan :
      List (PointType F P) → LaserMapping F P S → Option (Bool × LaserMapping F P S)
  unfolding pop_scan
  push_scan [] s =
      pop_scan (record s { measures = record s.measures { lidar = [] } }) >>= λ s'. some (false, s')
  push_scan (p ∷ ps) s = elim s.time_buffer [
    | [] ↦ none
    | beg ∷ times ↦ some (true, record (measured beg p ps s) { lidar_pushed = true })
  ]

  -- The loop over the deque, the first argument: `imu_time` is the time read in the round before.
  unfoldable pub imu_loop : List (Imu F S) → F → LaserMapping F P S → LaserMapping F P S
  imu_loop [] imu_time s = s
  imu_loop (i ∷ is) imu_time s =
      let rest = imu_loop is i.stamp (taken i is s) in
      if k.lt imu_time s.lidar_end_time && not (k.lt s.lidar_end_time i.stamp) then rest else s

  unfoldable pub push_imu : Imu F S → LaserMapping F P S → LaserMapping F P S
  unfolding imu_loop
  push_imu i s =
      if s.imu_need_init
      then imu_loop s.imu_deque i.stamp s
      else if not s.init_map
      then imu_loop s.imu_deque i.stamp (record s {
        measures = record s.measures { imu = s.measures.imu ++ s.imu_last_ptr ∷ [] };
      })
      else s

  -- What follows once a scan is pushed.
  unfoldable pub collect : Imu F S → LaserMapping F P S → Option (Bool × LaserMapping F P S)
  unfolding push_imu pop_scan
  collect i s =
      if k.lt s.last_timestamp_imu s.lidar_end_time
      then some (false, s)
      else (pop_scan (push_imu i s) >>= λ s'. some (true, record s' { lidar_pushed = false }))

module _ {F P S : Type 0} (k : Seconds F) (c : Parameters F) where
  -- The branch that gathers `con_frame_num` scans.
  unfoldable pub gather_scan : F → List (PointType F P) → LaserMapping F P S → LaserMapping F P S
  unfolding push_pieces gathered
  gather_scan stamp points s =
      let start = if s.frame_ct == 0 then stamp else s.time_con in
      if ltb s.frame_ct c.con_frame_num
      then record s {
        time_con = start;
        ptr_con = gathered k (k.sub stamp start) s.ptr_con points;
        frame_ct = s.frame_ct + 1;
      }
      else record (push_pieces ((start, s.ptr_con) ∷ []) s) {
        time_con = start;
        ptr_con = [];
        frame_ct = 0;
      }

  unfoldable pub imu_cbk : Imu F S → LaserMapping F P S → LaserMapping F P S
  imu_cbk msg_in s =
      let timestamp = k.of_sec (k.sub msg_in.stamp c.time_lag_imu_to_lidar) in
      let counted = record s { publish_count = s.publish_count + 1 } in
      if k.lt timestamp s.last_timestamp_imu then counted else record counted {
        imu_deque = s.imu_deque ++ record msg_in { stamp = timestamp } ∷ [];
        last_timestamp_imu = timestamp;
      }

  unfoldable pub sync_packages : LaserMapping F P S → Option (Bool × LaserMapping F P S)
  unfolding sync_without_imu push_scan collect
  sync_packages s = if not c.imu_en then sync_without_imu k s else elim s.lidar_buffer [
    | [] ↦ some (false, s)
    | scan ∷ scans ↦ elim s.imu_deque [
      | [] ↦ some (false, s)
      | i ∷ is ↦ (if s.lidar_pushed then some (true, s) else push_scan k scan s) >>= λ r.
          (if not r.0 then some (false, r.1) else collect k i r.1)
    ]
  ]

module _ {F P S : Type 0} (k : Seconds F) (c : Parameters F)
    (sorted : List (PointType F P) → List (PointType F P)) where
  unfoldable pub standard_pcl_cbk :
      F → List (PointType F P) → LaserMapping F P S → Option (LaserMapping F P S)
  unfolding cut_loop push_pieces gather_scan
  standard_pcl_cbk stamp points s =
      let counted = record s { scan_count = s.scan_count + 1 } in
      if k.lt stamp s.last_timestamp_lidar
      then some counted
      else let timed = record counted { last_timestamp_lidar = stamp } in
        let stored =
          if c.cut_frame
          then push_pieces (cut_loop k c.cut_frame_time_interval stamp stamp [] (sorted points))
              timed
          else if c.con_frame
          then gather_scan k c stamp points timed
          else push_pieces ((stamp, points) ∷ []) timed in
        if ltb counted.scan_count maxn then some stored else none

  unfoldable pub livox_pcl_cbk :
      F → List (PointType F P) → LaserMapping F P S → Option (LaserMapping F P S)
  unfolding cut_loop push_pieces gather_scan
  livox_pcl_cbk stamp points s =
      let counted = record s { scan_count = s.scan_count + 1 } in
      if k.lt stamp s.last_timestamp_lidar
      then some counted
      else let timed = record counted { last_timestamp_lidar = stamp } in
        let stored =
          if c.cut_frame
          then push_pieces (cut_loop k c.cut_frame_time_interval stamp stamp [] (sorted points))
              timed
          else if c.con_frame
          then gather_scan k c stamp points timed
          else push_pieces ((stamp, points) ∷ []) timed in
        if ltb counted.scan_count maxn then some stored else none
