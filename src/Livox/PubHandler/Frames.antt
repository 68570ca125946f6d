-- ===== src/Livox/PubHandler/Frames.antt =====
-- What the timer of the packet handler puts in a frame, and what it leaves (comm/pub_handler.cpp).
use mathlib.Core.List.{append-nil, append_assoc}
use sentry25navi.Prelude.{
  ℕ, suc, ◌+◌, ◌%◌, ◌≤◌, ◌<◌, ◌≡◌, ◌≢◌, refl, sym, ap, ◌∙◌, true, Option, none, some, List, [], ◌∷◌,
  ◌++◌, ◌==◌, if◌then◌else◌, length, length-append, length-set, set, take, take-set, arith, inl,
  inr, Bool-cases, ==_iff, subst,
}
use sentry25navi.Prelude.Word.{u32_mod}
use sentry25navi.Livox.Comm.{PointXyzlt, livox_lidar_type, max_source_lidar}
use sentry25navi.Livox.Ldq.{PointPacket}
use sentry25navi.Livox.Lds.{PointFrame}
use sentry25navi.Livox.LidarPubHandler.{
  LidarPubHandler, get_lidar_point_clouds, get_lidar_base_time,
}
use sentry25navi.Livox.PubHandler.CheckTimer.{fill_entry, fill_frame, drained}
use sentry25navi.Livox.PubHandler.Maps.{find, IsAbove, IsMap, find-above}

module _ {F : Type 0} where
  -- The points for lidar `id` in some packets.
  abbrev pub points_sent : ℕ → List (PointPacket (PointXyzlt F)) → List (PointXyzlt F)
  points_sent id [] = []
  points_sent id (e ∷ es) = (if e.handle == id then e.points else []) ++ points_sent id es

  abbrev pub entries : PointFrame F → List (PointPacket (PointXyzlt F))
  entries frame = take frame.lidar_num frame.lidar_point

  abbrev pub sent_in : ℕ → List (PointFrame F) → List (PointXyzlt F)
  sent_in id [] = []
  sent_in id (frame ∷ frames) = points_sent id (entries frame) ++ sent_in id frames

  -- The arrays of a frame hold its entries.
  abbrev pub Fits : PointFrame F → Type 0
  Fits frame =
      (frame.lidar_num ≤ length frame.base_time) × (frame.lidar_num ≤ length frame.lidar_point)

  abbrev pub AllFit : List (PointFrame F) → Type 0
  AllFit [] = Unit {0}
  AllFit (frame ∷ frames) = Fits frame × AllFit frames

  pub AllFit-append : (fs gs : List (PointFrame F)) → AllFit fs → AllFit gs → AllFit (fs ++ gs)
  AllFit-append [] gs hf hg = hg
  AllFit-append (f ∷ fs) gs hf hg = (hf.0, AllFit-append fs gs hf.1 hg)

  -- The points of lidar `id` that wait.
  abbrev pub cloud_of : Option (LidarPubHandler F) → List (PointXyzlt F)
  cloud_of none = []
  cloud_of (some h) = h.points_clouds

  abbrev pub waiting : ℕ → List (ℕ × LidarPubHandler F) → List (PointXyzlt F)
  waiting id m = cloud_of (find id m)

  abbrev pub packet : ℕ → PointXyzlt F → List (PointXyzlt F) → PointPacket (PointXyzlt F)
  packet id p ps = record {
    lidar_type = livox_lidar_type;
    handle = id;
    points_num = length (p ∷ ps) % u32_mod;
    points = p ∷ ps;
  }

  -- The packets of a frame for these handlers: one for each that has points.
  abbrev pub packet_of : ℕ → List (PointXyzlt F) → List (PointPacket (PointXyzlt F))
  packet_of id [] = []
  packet_of id (p ∷ ps) = packet id p ps ∷ []

  abbrev pub packets_of : List (ℕ × LidarPubHandler F) → List (PointPacket (PointXyzlt F))
  packets_of [] = []
  packets_of ((id, h) ∷ rest) = packet_of id h.points_clouds ++ packets_of rest

  pub record Filled (frame frame' : PointFrame F) (n : ℕ) (new : List (PointPacket (PointXyzlt F)))
      : Type 0 where
    pub size : length frame'.lidar_point ≡ max_source_lidar
    pub times : length frame'.base_time ≡ length frame.base_time
    pub count : frame'.lidar_num ≤ frame.lidar_num + n
    pub exact : frame'.lidar_num ≡ frame.lidar_num + length new
    pub packets : entries frame' ≡ entries frame ++ new

  pub fill_entry_lem :
      (frame : PointFrame F) (id : ℕ) (h : LidarPubHandler F)
      → length frame.lidar_point ≡ max_source_lidar
      → frame.lidar_num < max_source_lidar
      → (frame' : PointFrame F) × (fill_entry frame id h ≡ some frame')
        × Filled frame frame' 1 (packet_of id h.points_clouds)
  unfolding fill_entry get_lidar_point_clouds
  fill_entry_lem frame id h size room = go h.points_clouds refl
    where
      timed : PointFrame F
      timed = record frame {
        base_time = set frame.base_time frame.lidar_num (get_lidar_base_time h);
      }

      go :
          (ps : List (PointXyzlt F))
          → ps ≡ h.points_clouds
          → (frame' : PointFrame F) × (fill_entry frame id h ≡ some frame')
            × Filled frame frame' 1 (packet_of id h.points_clouds)
      go [] e = (
        timed,
        ground arith,
        record {
          size = size;
          times = length-set frame.base_time frame.lidar_num (get_lidar_base_time h);
          count = omega arith;
          exact = rw (← e) (omega arith);
          packets = rw (← e) (sym (append-nil (entries frame)));
        },
      )
      go (p ∷ ps) e = (
        record timed {
          lidar_point = set frame.lidar_point frame.lidar_num (packet id p ps);
          lidar_num = suc frame.lidar_num;
        },
        ground arith,
        record {
          times = length-set frame.base_time frame.lidar_num (get_lidar_base_time h);
          size = length-set frame.lidar_point frame.lidar_num (packet id p ps) ∙ size;
          count = omega arith;
          exact = rw (← e) (omega arith);
          packets =
              rw (← e)
                (take-set frame.lidar_num frame.lidar_point (packet id p ps) (omega (arith, size)));
        },
      )

  pub fill_frame_lem :
      (m : List (ℕ × LidarPubHandler F)) (frame : PointFrame F)
      → length frame.lidar_point ≡ max_source_lidar
      → frame.lidar_num + length m ≤ max_source_lidar
      → (frame' : PointFrame F) × (fill_frame frame m ≡ some frame')
        × Filled frame frame' (length m) (packets_of m)
  unfolding fill_frame
  fill_frame_lem [] frame size room = (
    frame,
    refl,
    record {
      size = size;
      times = refl;
      count = omega arith;
      exact = omega arith;
      packets = sym (append-nil (entries frame));
    },
  )
  fill_frame_lem ((id, h) ∷ rest) frame size room =
      let (mid, e, one) = fill_entry_lem frame id h size (omega arith) in
      let (frame', e', more) = fill_frame_lem rest mid one.size (omega (arith, one.count)) in
      (
        frame',
        rw (e, e') refl,
        record {
          size = more.size;
          times = more.times ∙ one.times;
          count = omega (arith, one.count, more.count);
          exact = omega (
            arith,
            one.exact,
            more.exact,
            length-append (packet_of id h.points_clouds) (packets_of rest),
          );
          packets =
              more.packets
              ∙ ap (λ (es : List (PointPacket (PointXyzlt F))). es ++ packets_of rest) one.packets
              ∙ append_assoc (entries frame) (packet_of id h.points_clouds) (packets_of rest);
        },
      )

  points_sent-append :
      (id : ℕ) (es fs : List (PointPacket (PointXyzlt F)))
      → points_sent id (es ++ fs) ≡ points_sent id es ++ points_sent id fs
  points_sent-append id [] fs = refl
  points_sent-append id (e ∷ es) fs = simp (points_sent-append id es fs, append_assoc)

  pub sent_in-append :
      (id : ℕ) (fs gs : List (PointFrame F))
      → sent_in id (fs ++ gs) ≡ sent_in id fs ++ sent_in id gs
  sent_in-append id [] gs = refl
  sent_in-append id (f ∷ fs) gs = simp (sent_in-append id fs gs, append_assoc)

  pub points_sent-packet_of :
      (id j : ℕ) (ps : List (PointXyzlt F))
      → points_sent id (packet_of j ps) ≡ (if j == id then ps else [])
  points_sent-packet_of id j [] = ground arith
  points_sent-packet_of id j (p ∷ ps) = elim (Bool-cases (j == id)) [
    | inl same ↦ rw same (append-nil (p ∷ ps))
    | inr other ↦ rw other refl
  ]

  -- Each lidar's points are in the frame, when the ids differ.
  pub points_sent-packets_of :
      (id : ℕ) (m : List (ℕ × LidarPubHandler F))
      → IsMap m
      → points_sent id (packets_of m) ≡ waiting id m
  points_sent-packets_of id [] h = refl
  points_sent-packets_of id ((j, handler) ∷ rest) h =
      points_sent-append id (packet_of j handler.points_clouds) (packets_of rest)
      ∙ rw (points_sent-packet_of id j handler.points_clouds, points_sent-packets_of id rest h.1)
          (elim (Bool-cases (j == id)) [
            | inl same ↦ rw (same, alone same) (append-nil handler.points_clouds)
            | inr other ↦ rw other refl
          ])
    where
      alone : (j == id) ≡ true → find id rest ≡ none
      alone same =
          subst (λ (k : ℕ). find k rest ≡ none) ((==_iff j id).0 same) (find-above j rest h.0)

  pub waiting-drained : (id : ℕ) (m : List (ℕ × LidarPubHandler F)) → waiting id (drained m) ≡ []
  unfolding drained get_lidar_point_clouds
  waiting-drained id [] = refl
  waiting-drained id ((j, h) ∷ rest) = elim (Bool-cases (j == id)) [
    | inl same ↦ rw same refl
    | inr other ↦ rw other (waiting-drained id rest)
  ]

  drained-IsAbove : (k : ℕ) (m : List (ℕ × LidarPubHandler F)) → IsAbove k m → IsAbove k (drained m)
  unfolding drained
  drained-IsAbove k [] h = tt
  drained-IsAbove k ((j, handler) ∷ rest) h = (h.0, drained-IsAbove k rest h.1)

  pub drained-IsMap : (m : List (ℕ × LidarPubHandler F)) → IsMap m → IsMap (drained m)
  unfolding drained
  drained-IsMap [] h = tt
  drained-IsMap ((j, handler) ∷ rest) h = (drained-IsAbove j rest h.0, drained-IsMap rest h.1)

  pub find-drained :
      (id : ℕ) (m : List (ℕ × LidarPubHandler F)) → find id m ≢ none → find id (drained m) ≢ none
  unfolding drained get_lidar_point_clouds
  find-drained id [] h = h
  find-drained id ((j, handler) ∷ rest) h = ground (arith, find-drained id rest)

  pub length-drained : (m : List (ℕ × LidarPubHandler F)) → length (drained m) ≡ length m
  unfolding drained
  length-drained [] = refl
  length-drained ((j, handler) ∷ rest) = ap suc (length-drained rest)
