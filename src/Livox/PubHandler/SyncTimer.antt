-- ===== src/Livox/PubHandler/SyncTimer.antt =====
-- A call of the timer where the clocks of the lidars are synchronised, and a call in general: `CheckTimer` of
-- comm/pub_handler.cpp.
use mathlib.Core.List.{append-nil}
use sentry25navi.Prelude.{
  ℕ, ◌≡◌, ◌≢◌, ◌⊎◌, refl, sym, ap, ◌∙◌, true, false, Option, none, some, List, [], ◌∷◌, ◌++◌, ◌==◌,
  if◌then◌else◌, length, arith, inl, inr, Bool-cases, Option-cases, ==_iff, subst,
}
use sentry25navi.Livox.Comm.{PointXyzlt}
use sentry25navi.Livox.Ldq.{PointPacket}
use sentry25navi.Livox.Lds.{PointFrame}
use sentry25navi.Livox.LidarPubHandler.{LidarPubHandler, get_lidar_point_clouds}
use sentry25navi.Livox.PubHandler.{PubHandler}
use sentry25navi.Livox.PubHandler.CheckTimer.{
  publish_point_cloud, fill_entry, is_due, handed_on, check_timer_sync, check_timer,
}
use sentry25navi.Livox.PubHandler.Maps.{
  find, insert, find-insert, insert-IsMap, length-insert-known,
}
use sentry25navi.Livox.PubHandler.Frames.{
  points_sent, entries, cloud_of, waiting, packet_of, Filled, fill_entry_lem, points_sent-packet_of,
}
use sentry25navi.Livox.PubHandler.Timer.{Inv, Timed, from_empty, unchanged, check_timer_free_lem}

not_zero : {n : ℕ} → n ≢ 0 → (n == 0) ≡ false
not_zero nz = ground arith

module _ {F : Type 0} where
  is_due_total :
      (s : PubHandler F) (h : LidarPubHandler F)
      → s.publish_interval_ms ≢ 0
      → (is_due s h ≡ some true) ⊎ (is_due s h ≡ some false)
  unfolding is_due
  is_due_total s h nz = elim (Option-cases (is_due s h)) [
    | inl fault ↦ absurd (ground (arith, fault))
    | inr (due, e) ↦ elim (Bool-cases due) [
      | inl late ↦ inl (e ∙ ap some late)
      | inr early ↦ inr (e ∙ ap some early)
    ]
  ]

  pub waiting-insert :
      (k j : ℕ) (h : LidarPubHandler F) (m : List (ℕ × LidarPubHandler F))
      → waiting j (insert k h m) ≡ (if k == j then h.points_clouds else waiting j m)
  waiting-insert k j h m = elim (Bool-cases (k == j)) [
    | inl same ↦ rw (find-insert k j h m, same) refl
    | inr other ↦ rw (find-insert k j h m, other) refl
  ]

  pub find-insert-known :
      (k j : ℕ) (h : LidarPubHandler F) (m : List (ℕ × LidarPubHandler F))
      → find j m ≢ none
      → find j (insert k h m) ≢ none
  find-insert-known k j h m known = ground (arith, find-insert k j h m)

  -- The points of the lidar that the frame has, and those that wait after the call.
  moved :
      (id j : ℕ) (h : LidarPubHandler F) (m : List (ℕ × LidarPubHandler F))
      → find id m ≡ some h
      → points_sent j (packet_of id h.points_clouds)
          ++ waiting j (insert id (record h { points_clouds = [] }) m)
        ≡ waiting j m
  moved id j h m at = elim (Bool-cases (id == j)) [
    | inl same ↦
        rw
          (
            points_sent-packet_of j id h.points_clouds,
            waiting-insert id j (record h { points_clouds = [] }) m,
            same,
          )
          (append-nil h.points_clouds
            ∙ ap cloud_of (sym (subst (λ (k : ℕ). find k m ≡ some h) ((==_iff id j).0 same) at)))
    | inr other ↦
        rw
          (
            points_sent-packet_of j id h.points_clouds,
            waiting-insert id j (record h { points_clouds = [] }) m,
            other,
          )
          refl
  ]

  handed_on-empty :
      (cloud : List (PointXyzlt F)) (s : PubHandler F)
      → cloud ≡ []
      → handed_on cloud s ≡ some ([], s)
  unfolding handed_on
  handed_on-empty cloud s e = rw e refl

  handed_on-full :
      {cloud : List (PointXyzlt F)} (s : PubHandler F) {p : PointXyzlt F} {ps : List (PointXyzlt F)}
      → s.points_callback ≡ true
      → s.frame.lidar_num ≢ 0
      → cloud ≡ p ∷ ps
      → handed_on cloud s
        ≡ some (s.frame ∷ [], record s { frame = record s.frame { lidar_num = 0 } })
  unfolding handed_on publish_point_cloud
  handed_on-full s listening some_left e = rw (e, not_zero some_left, listening) refl

  Timed-of :
      {s : PubHandler F} {o o' : Option (List (PointFrame F) × PubHandler F)}
      {frames : List (PointFrame F)} {s' : PubHandler F}
      → o ≡ o'
      → Timed s o' frames s'
      → Timed s o frames s'
  Timed-of e t = record {
    run = e ∙ t.run;
    valid = t.valid;
    kept = t.kept;
    fits = t.fits;
    known = t.known;
    queue = t.queue;
    going = t.going;
  }

  sync_due :
      (s : PubHandler F) (id : ℕ) {h : LidarPubHandler F}
      → Inv s
      → find id s.handlers ≡ some h
      → is_due s h ≡ some true
      → (frames : List (PointFrame F)) × (s' : PubHandler F) × Timed s
          (check_timer_sync s id)
          frames
          s'
  unfolding check_timer_sync get_lidar_point_clouds
  sync_due s id {h} inv at due =
      let (frame, e, filled) = fill_entry_lem s.frame id h inv.size (omega (arith, inv.reset)) in
      go frame e filled h.points_clouds refl
    where
      after : PointFrame F → LidarPubHandler F → List (PointXyzlt F) → PubHandler F
      after frame h' cloud = record s {
        frame = frame;
        handlers = insert id h' s.handlers;
        points = insert id cloud s.points;
      }

      rest : ℕ → List (PointXyzlt F)
      rest j = waiting j (insert id (record h { points_clouds = [] }) s.handlers)

      same_length :
          length (insert id (record h { points_clouds = [] }) s.handlers) ≡ length s.handlers
      same_length =
          length-insert-known id (record h { points_clouds = [] }) s.handlers inv.distinct
            (λ none_there. cc)

      go :
          (frame : PointFrame F)
          → fill_entry s.frame id h ≡ some frame
          → Filled s.frame frame 1 (packet_of id h.points_clouds)
          → (ps : List (PointXyzlt F)) → ps ≡ h.points_clouds
          → (frames : List (PointFrame F)) × (s' : PubHandler F) × Timed s
              (check_timer_sync s id)
              frames
              s'
      go frame e filled [] empty = (
        [],
        after frame (record h { points_clouds = [] }) h.points_clouds,
        record {
          run = rw (at, due, e) (handed_on-empty h.points_clouds _ (sym empty));
          valid = record {
            size = filled.size;
            times = filled.times ∙ inv.times;
            reset = ground (arith, filled.exact, inv.reset);
            distinct = insert-IsMap id (record h { points_clouds = [] }) s.handlers inv.distinct;
            few = omega (arith, inv.few, same_length);
            interval = inv.interval;
            listening = inv.listening;
          };
          kept = λ j.
              ap (λ (ps : List (PointXyzlt F)). points_sent j (packet_of id ps) ++ rest j) empty
              ∙ moved id j h s.handlers at;
          fits = tt;
          known = λ j. find-insert-known id j (record h { points_clouds = [] }) s.handlers;
          queue = refl;
          going = refl;
        },
      )
      go frame e filled (p ∷ ps) full = (
        frame ∷ [],
        after (record frame { lidar_num = 0 }) (record h { points_clouds = [] }) h.points_clouds,
        record {
          run =
              rw (at, due, e)
                (handed_on-full _ inv.listening
                  (ground (
                    arith,
                    ap (λ (ps : List (PointXyzlt F)). length (packet_of id ps)) full,
                    filled.exact,
                  ))
                  (sym full));
          valid = record {
            size = filled.size;
            times = filled.times ∙ inv.times;
            reset = refl;
            distinct = insert-IsMap id (record h { points_clouds = [] }) s.handlers inv.distinct;
            few = omega (arith, inv.few, same_length);
            interval = inv.interval;
            listening = inv.listening;
          };
          kept = λ j. rw (append-nil (points_sent j (entries frame))) (
              ap (λ (es : List (PointPacket (PointXyzlt F))). points_sent j es ++ rest j)
                (from_empty frame (packet_of id h.points_clouds) inv.reset filled)
              ∙ moved id j h s.handlers at);
          fits = (
            (
              omega (arith, filled.count, filled.times, inv.times, inv.reset),
              omega (arith, filled.count, filled.size, inv.reset),
            ),
            tt,
          );
          known = λ j. find-insert-known id j (record h { points_clouds = [] }) s.handlers;
          queue = refl;
          going = refl;
        },
      )

  check_timer_sync_lem :
      (s : PubHandler F) (id : ℕ)
      → Inv s
      → find id s.handlers ≢ none
      → (frames : List (PointFrame F)) × (s' : PubHandler F) × Timed s
          (check_timer_sync s id)
          frames
          s'
  unfolding check_timer_sync
  check_timer_sync_lem s id inv known = elim (Option-cases (find id s.handlers)) [
    | inl missing ↦ absurd (known missing)
    | inr (h, at) ↦ elim (is_due_total s h inv.interval) [
      | inl due ↦ sync_due s id inv at due
      | inr early ↦ unchanged s inv (rw (at, early) refl)
    ]
  ]

  -- With the handler of the lidar there, a call of the timer in a state that the invariant holds of does
  -- not fault, with either clock. For each lidar the points that the frames hand on and then those that
  -- wait are the points that waited before, in order: nothing is lost or sent twice.
  pub check_timer_lem :
      (now : ℕ) (s : PubHandler F) (id : ℕ)
      → Inv s
      → find id s.handlers ≢ none
      → (frames : List (PointFrame F)) × (s' : PubHandler F) × Timed s
          (check_timer now s id)
          frames
          s'
  unfolding check_timer
  check_timer_lem now s id inv known = elim (Bool-cases s.is_timestamp_sync) [
    | inl sync ↦
        let (frames, s', timed) = check_timer_sync_lem s id inv known in
        (frames, s', Timed-of (rw sync refl) timed)
    | inr free ↦
        let (frames, s', timed) = check_timer_free_lem now s inv in
        (frames, s', Timed-of (rw free refl) timed)
  ]
