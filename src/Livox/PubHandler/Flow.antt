-- ===== src/Livox/PubHandler/Flow.antt =====
-- The thread of the packet handler, `PubHandler::RawDataProcess` of comm/pub_handler.cpp: from the queue of
-- packets to the frames.
use mathlib.Core.List.{append-nil}
use sentry25navi.Prelude.{
  ℕ, ◌<◌, ◌≡◌, ◌≢◌, ◌⊎◌, sym, ap, ◌∙◌, true, Option, none, some, List, [], ◌++◌, ◌==◌,
  if◌then◌else◌, length, arith, inl, inr, Bool-cases, ==_iff,
}
use sentry25navi.Livox.Comm.{PointXyzlt, livox_lidar_type, max_source_lidar}
use sentry25navi.Livox.Lds.{PointFrame}
use sentry25navi.Livox.LidarPubHandler.{LidarPubHandler, new_handler, set_lidars_ext_param}
use sentry25navi.Livox.RawPoints.{Floats, Sdk, RawPacket}
use sentry25navi.Livox.LidarPubHandler.Points.{holds, Adds, point_cloud_process_lem}
use sentry25navi.Livox.PubHandler.{PubHandler, get_lidar_id}
use sentry25navi.Livox.PubHandler.Thread.{handler_of, process_packet}
use sentry25navi.Livox.PubHandler.Maps.{
  find, insert, find-insert, insert-IsMap, length-insert-known, length-insert,
}
use sentry25navi.Livox.PubHandler.Frames.{AllFit, sent_in, waiting}
use sentry25navi.Livox.PubHandler.Timer.{Inv}
use sentry25navi.Livox.PubHandler.SyncTimer.{check_timer_lem, waiting-insert, find-insert-known}

module _ {F : Type 0} (f : Floats F) (sdk : Sdk) where
  -- A packet of a Livox lidar, as the callback makes it, whose bytes hold its points.
  pub record IsGood (pkt : RawPacket) : Type 0 where
    pub type : pkt.lidar_type ≡ livox_lidar_type
    pub lines : pkt.line_num ≢ 0
    pub whole : (k : ℕ) → k < pkt.point_num → holds sdk pkt k ≡ true

  abbrev pub Known : PubHandler F → RawPacket → Type 0
  Known s pkt = find pkt.handle s.handlers ≢ none

  -- A run ends with these frames in this state, which the invariant holds of. For each lidar, the points
  -- that the frames hand on and then those that wait are those that waited and then those that were added.
  pub record Flows (s : PubHandler F) (o : Option (List (PointFrame F) × PubHandler F))
      (added : ℕ → List (PointXyzlt F)) (frames : List (PointFrame F)) (s' : PubHandler F)
      : Type 0 where
    pub run : o ≡ some (frames, s')
    pub valid : Inv s'
    pub kept :
        (id : ℕ) → sent_in id frames ++ waiting id s'.handlers ≡ waiting id s.handlers ++ added id
    pub fits : AllFit frames
    pub known : (id : ℕ) → find id s.handlers ≢ none → find id s'.handlers ≢ none
    pub queue : s'.raw_packet_queue ≡ s.raw_packet_queue
    pub going : s'.is_quit ≡ s.is_quit

  -- What one packet adds to the points of lidar `id`.
  abbrev pub share : RawPacket → List (PointXyzlt F) → ℕ → List (PointXyzlt F)
  share pkt new id = if pkt.handle == id then new else []

  handler_of-points :
      (s : PubHandler F) (id : ℕ) → (handler_of f sdk s id).points_clouds ≡ waiting id s.handlers
  unfolding handler_of set_lidars_ext_param new_handler
  handler_of-points s id = ground arith

  abbrev joined : PubHandler F → RawPacket → List (PointXyzlt F) → LidarPubHandler F
  joined s pkt new = record (handler_of f sdk s pkt.handle) {
    points_clouds = (handler_of f sdk s pkt.handle).points_clouds ++ new;
  }

  with_points : PubHandler F → RawPacket → List (PointXyzlt F) → PubHandler F
  with_points s pkt new = record s { handlers = insert pkt.handle (joined s pkt new) s.handlers }

  with_points-Inv :
      (s : PubHandler F) (pkt : RawPacket) (new : List (PointXyzlt F))
      → Inv s
      → Known s pkt ⊎ (length s.handlers < max_source_lidar)
      → Inv (with_points s pkt new)
  unfolding with_points
  with_points-Inv s pkt new inv room = record {
    size = inv.size;
    times = inv.times;
    reset = inv.reset;
    distinct = insert-IsMap pkt.handle (joined s pkt new) s.handlers inv.distinct;
    few = elim room [
      | inl known ↦ omega (
        arith,
        inv.few,
        length-insert-known pkt.handle (joined s pkt new) s.handlers inv.distinct known,
      )
      | inr free ↦ omega (arith, length-insert pkt.handle (joined s pkt new) s.handlers)
    ];
    interval = inv.interval;
    listening = inv.listening;
  }

  waiting-with_points :
      (s : PubHandler F) (pkt : RawPacket) (new : List (PointXyzlt F)) (id : ℕ)
      → waiting id (with_points s pkt new).handlers ≡ waiting id s.handlers ++ share pkt new id
  unfolding with_points
  waiting-with_points s pkt new id =
      waiting-insert pkt.handle id (joined s pkt new) s.handlers
      ∙ elim (Bool-cases (pkt.handle == id)) [
        | inl same ↦
            rw (same, handler_of-points s pkt.handle)
              (ap (λ (k : ℕ). waiting k s.handlers ++ new) ((==_iff pkt.handle id).0 same))
        | inr other ↦ rw other (sym (append-nil (waiting id s.handlers)))
      ]

  find-with_points :
      (s : PubHandler F) (pkt : RawPacket) (new : List (PointXyzlt F))
      → find pkt.handle (with_points s pkt new).handlers ≢ none
  unfolding with_points
  find-with_points s pkt new =
      ground (arith, find-insert pkt.handle pkt.handle (joined s pkt new) s.handlers)

  -- One packet of a good kind, of a lidar that has a handler or with room for one more handler, is
  -- processed without a fault: its points join those of its lidar, and the frames that the timer hands on
  -- take them from there, with no point lost, doubled or out of order, in any lidar.
  pub process_packet_lem :
      (now : ℕ) (s : PubHandler F) (pkt : RawPacket)
      → Inv s
      → IsGood pkt
      → Known s pkt ⊎ (length s.handlers < max_source_lidar)
      → (new : List (PointXyzlt F)) × (frames : List (PointFrame F)) × (s' : PubHandler F) × Adds
          pkt new
        × Flows s (process_packet f sdk now s pkt) (share pkt new) frames s'
  unfolding process_packet get_lidar_id with_points
  process_packet_lem now s pkt inv good room =
      let (new, run, adds) =
        point_cloud_process_lem f sdk pkt (handler_of f sdk s pkt.handle) good.type good.lines
          (λ k h. good.whole k (omega arith)) in
      let (frames, s', timed) =
        check_timer_lem now (with_points s pkt new) pkt.handle (with_points-Inv s pkt new inv room)
          (find-with_points s pkt new) in
      (
        new,
        frames,
        s',
        adds,
        record {
          run = rw ((==_iff pkt.lidar_type livox_lidar_type).1 good.type, run) timed.run;
          valid = timed.valid;
          kept = λ id. timed.kept id ∙ waiting-with_points s pkt new id;
          fits = timed.fits;
          known = λ id h.
              timed.known id (find-insert-known pkt.handle id (joined s pkt new) s.handlers h);
          queue = timed.queue;
          going = timed.going;
        },
      )
