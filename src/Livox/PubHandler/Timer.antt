-- ===== src/Livox/PubHandler/Timer.antt =====
-- A call of the timer, `PubHandler::CheckTimer` of comm/pub_handler.cpp.
use mathlib.Core.List.{append-nil}
use sentry25navi.Prelude.{
  ℕ, ◌+◌, ◌≤◌, ◌≡◌, ◌≢◌, refl, ap, ◌∙◌, true, false, Option, none, some, List, [], ◌∷◌, ◌++◌, ltb,
  length, arith, inl, inr, Bool-cases,
}
use sentry25navi.Livox.Comm.{PointXyzlt, max_source_lidar}
use sentry25navi.Livox.Ldq.{PointPacket}
use sentry25navi.Livox.Lds.{PointFrame}
use sentry25navi.Livox.PubHandler.{PubHandler}
use sentry25navi.Livox.PubHandler.CheckTimer.{
  publish_point_cloud, drained, stored_clouds, check_timer_free,
}
use sentry25navi.Livox.PubHandler.Maps.{find, IsMap}
use sentry25navi.Livox.PubHandler.Frames.{
  AllFit, points_sent, entries, sent_in, waiting, packets_of, Filled, fill_frame_lem,
  points_sent-packets_of, waiting-drained, drained-IsMap, find-drained, length-drained,
}

module _ {F : Type 0} where
  -- Between two calls: the frame is empty, no lidar has two handlers and there are no more of them than
  -- entries in a frame, the interval is a millisecond at least, and a callback is set.
  pub record Inv (s : PubHandler F) : Type 0 where
    pub size : length s.frame.lidar_point ≡ max_source_lidar
    pub times : length s.frame.base_time ≡ max_source_lidar
    pub reset : s.frame.lidar_num ≡ 0
    pub distinct : IsMap s.handlers
    pub few : length s.handlers ≤ max_source_lidar
    pub interval : s.publish_interval_ms ≢ 0
    pub listening : s.points_callback ≡ true

  -- A call ends with these frames in this state, which the invariant holds of, no point is lost, doubled or
  -- out of order, and each lidar keeps its handler.
  pub record Timed (s : PubHandler F) (o : Option (List (PointFrame F) × PubHandler F))
      (frames : List (PointFrame F)) (s' : PubHandler F) : Type 0 where
    pub run : o ≡ some (frames, s')
    pub valid : Inv s'
    pub kept : (id : ℕ) → sent_in id frames ++ waiting id s'.handlers ≡ waiting id s.handlers
    pub fits : AllFit frames
    pub known : (id : ℕ) → find id s.handlers ≢ none → find id s'.handlers ≢ none
    pub queue : s'.raw_packet_queue ≡ s.raw_packet_queue
    pub going : s'.is_quit ≡ s.is_quit

  pub from_empty :
      {frame : PointFrame F} (frame' : PointFrame F) {n : ℕ}
      (new : List (PointPacket (PointXyzlt F)))
      → frame.lidar_num ≡ 0
      → Filled frame frame' n new
      → entries frame' ≡ new
  from_empty {frame} frame' new reset filled = filled.packets ∙ rw reset refl

  pub unchanged :
      (s : PubHandler F) {o : Option (List (PointFrame F) × PubHandler F)}
      → Inv s
      → o ≡ some ([], s)
      → (frames : List (PointFrame F)) × (s' : PubHandler F) × Timed s o frames s'
  unchanged s inv run = (
    [],
    s,
    record {
      run = run;
      valid = inv;
      kept = λ id. refl;
      fits = tt;
      known = λ id h. h;
      queue = refl;
      going = refl;
    },
  )

  pub check_timer_free_lem :
      (now : ℕ) (s : PubHandler F)
      → Inv s
      → (frames : List (PointFrame F)) × (s' : PubHandler F) × Timed s
          (check_timer_free now s)
          frames
          s'
  unfolding check_timer_free publish_point_cloud
  check_timer_free_lem now s inv = elim (Bool-cases s.first) [
    | inl first ↦ (
      [],
      record s { last_pub_time = now; first = false },
      record {
        run = rw first refl;
        valid = record {
          size = inv.size;
          times = inv.times;
          reset = inv.reset;
          distinct = inv.distinct;
          few = inv.few;
          interval = inv.interval;
          listening = inv.listening;
        };
        kept = λ id. refl;
        fits = tt;
        known = λ id h. h;
        queue = refl;
        going = refl;
      },
    )
    | inr later ↦ elim (Bool-cases (ltb now (s.last_pub_time + s.publish_interval))) [
      | inl early ↦ unchanged s inv (rw (later, early) refl)
      | inr due ↦
          let (frame, e, filled) =
            fill_frame_lem s.handlers s.frame inv.size (omega (arith, inv.reset, inv.few)) in
          (
            frame ∷ [],
            record s {
              last_pub_time = s.last_pub_time + s.publish_interval;
              frame = record frame { lidar_num = 0 };
              handlers = drained s.handlers;
              points = stored_clouds s.points s.handlers;
            },
            record {
              run = rw (later, due) (rw (e, inv.listening) refl);
              valid = record {
                size = filled.size;
                times = filled.times ∙ inv.times;
                reset = refl;
                distinct = drained-IsMap s.handlers inv.distinct;
                few = omega (arith, inv.few, length-drained s.handlers);
                interval = inv.interval;
                listening = inv.listening;
              };
              kept = λ id. rw (waiting-drained id s.handlers) (
                  append-nil (points_sent id (entries frame) ++ [])
                  ∙ append-nil (points_sent id (entries frame))
                  ∙ ap (points_sent id) (from_empty frame (packets_of s.handlers) inv.reset filled)
                  ∙ points_sent-packets_of id s.handlers inv.distinct);
              fits = (
                (
                  omega (arith, filled.count, filled.times, inv.times, inv.reset, inv.few),
                  omega (arith, filled.count, filled.size, inv.reset, inv.few),
                ),
                tt,
              );
              known = λ id. find-drained id s.handlers;
              queue = refl;
              going = refl;
            },
          )
    ]
  ]
