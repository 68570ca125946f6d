-- ===== src/Livox/PubHandler/Loop.antt =====
-- The loop of the packet handler's thread over its queue, `PubHandler::RawDataProcess` of
-- comm/pub_handler.cpp.
use mathlib.Core.List.{append-nil, append_assoc}
use sentry25navi.Prelude.{
  ℕ, ◌≤◌, ◌≡◌, ◌≢◌, refl, sym, ap, ◌∙◌, false, Option, none, some, List, [], ◌∷◌, ◌++◌, length,
  arith, inl,
}
use sentry25navi.Livox.Comm.{PointXyzlt}
use sentry25navi.Livox.Lds.{PointFrame}
use sentry25navi.Livox.RawPoints.{Floats, Sdk, RawPacket}
use sentry25navi.Livox.LidarPubHandler.Points.{Adds}
use sentry25navi.Livox.PubHandler.{PubHandler}
use sentry25navi.Livox.PubHandler.Thread.{process_packet, raw_data_round, raw_data_process}
use sentry25navi.Livox.PubHandler.Maps.{find}
use sentry25navi.Livox.PubHandler.Frames.{AllFit, AllFit-append, sent_in, sent_in-append, waiting}
use sentry25navi.Livox.PubHandler.Timer.{Inv}
use sentry25navi.Livox.PubHandler.Flow.{IsGood, Known, share, process_packet_lem}

chained {ℓ} :
    {A : Type ℓ} (a b w w1 w' x y : List A)
    → a ++ w1 ≡ w ++ x
    → b ++ w' ≡ w1 ++ y
    → (a ++ b) ++ w' ≡ w ++ (x ++ y)
chained a b w w1 w' x y p q =
    append_assoc a b w'
    ∙ ap (◌++◌ a) q
    ∙ sym (append_assoc a w1 y)
    ∙ ap (λ (l : List _). l ++ y) p
    ∙ append_assoc w x y

module _ {F : Type 0} (f : Floats F) (sdk : Sdk) where
  abbrev pub AllGood : PubHandler F → List RawPacket → Type 0
  AllGood s [] = Unit {0}
  AllGood s (pkt ∷ rest) = IsGood f sdk pkt × Known f sdk s pkt × AllGood s rest

  AllGood-later :
      (s s' : PubHandler F)
      → ((id : ℕ) → find id s.handlers ≢ none → find id s'.handlers ≢ none)
      → (queue : List RawPacket) → AllGood s queue
      → AllGood s' queue
  AllGood-later s s' known [] h = tt
  AllGood-later s s' known (pkt ∷ rest) h =
      (h.0, known pkt.handle h.1, AllGood-later s s' known rest h.2)

  -- One list of points for each packet, in the order of the packets.
  abbrev pub AllAdd : List RawPacket → List (List (PointXyzlt F)) → Type 0
  AllAdd [] [] = Unit {0}
  AllAdd [] (new ∷ news) = ⊥
  AllAdd (pkt ∷ rest) [] = ⊥
  AllAdd (pkt ∷ rest) (new ∷ news) = Adds pkt new × AllAdd rest news

  abbrev pub shares : List RawPacket → List (List (PointXyzlt F)) → ℕ → List (PointXyzlt F)
  shares [] news id = []
  shares (pkt ∷ rest) [] id = []
  shares (pkt ∷ rest) (new ∷ news) id = share f sdk pkt new id ++ shares rest news id

  -- What a run of the loop over a queue leaves.
  pub record Drains (s : PubHandler F) (queue : List RawPacket)
      (o : Option (List (PointFrame F) × PubHandler F)) (news : List (List (PointXyzlt F)))
      (frames : List (PointFrame F)) (s' : PubHandler F) : Type 0 where
    pub run : o ≡ some (frames, s')
    pub valid : Inv s'
    pub emptied : s'.raw_packet_queue ≡ []
    pub adds : AllAdd queue news
    pub fits : AllFit frames
    pub kept :
        (id : ℕ)
        → sent_in id frames ++ waiting id s'.handlers
          ≡ waiting id s.handlers ++ shares queue news id

  round-empty :
      (now : ℕ) (s : PubHandler F)
      → [] ≡ s.raw_packet_queue
      → raw_data_round f sdk now s ≡ some ([], s)
  unfolding raw_data_round
  round-empty now s e = ground (arith, e)

  round-take :
      (now : ℕ) (s : PubHandler F) (pkt : RawPacket) (rest : List RawPacket)
      → pkt ∷ rest ≡ s.raw_packet_queue
      → raw_data_round f sdk now s
        ≡ process_packet f sdk now (record s { raw_packet_queue = rest }) pkt
  unfolding raw_data_round
  round-take now s pkt rest e = rw (← e) refl

  round_then :
      (now : ℕ) (times : List ℕ) (s : PubHandler F) {s1 s' : PubHandler F}
      {frames frames' : List (PointFrame F)}
      → s.is_quit ≡ false
      → raw_data_round f sdk now s ≡ some (frames, s1)
      → raw_data_process f sdk times s1 ≡ some (frames', s')
      → raw_data_process f sdk (now ∷ times) s ≡ some (frames ++ frames', s')
  unfolding raw_data_process
  round_then now times s going first later = simp (going, first, later)

  popped-Inv :
      {s : PubHandler F} (rest : List RawPacket)
      → Inv s
      → Inv (record s { raw_packet_queue = rest })
  popped-Inv rest inv = record {
    size = inv.size;
    times = inv.times;
    reset = inv.reset;
    distinct = inv.distinct;
    few = inv.few;
    interval = inv.interval;
    listening = inv.listening;
  }

  loop :
      (times : List ℕ) (s : PubHandler F) (queue : List RawPacket)
      → queue ≡ s.raw_packet_queue
      → Inv s
      → s.is_quit ≡ false
      → length queue ≤ length times
      → AllGood s queue
      → (news : List (List (PointXyzlt F))) × (frames : List (PointFrame F)) × (s' : PubHandler F)
        × Drains s queue (raw_data_process f sdk times s) news frames s'
  unfolding raw_data_process
  loop [] s [] e inv going enough good = (
    [],
    [],
    s,
    record {
      run = refl;
      valid = inv;
      emptied = sym e;
      adds = tt;
      fits = tt;
      kept = λ id. sym (append-nil (waiting id s.handlers));
    },
  )
  loop [] s (pkt ∷ rest) e inv going enough good = absurd (omega arith)
  loop (now ∷ times) s [] e inv going enough good =
      let (news, frames, s', d) = loop times s [] e inv going (omega arith) tt in
      (
        news,
        frames,
        s',
        record {
          run = round_then now times s going (round-empty now s e) d.run;
          valid = d.valid;
          emptied = d.emptied;
          adds = d.adds;
          fits = d.fits;
          kept = d.kept;
        },
      )
  loop (now ∷ times) s (pkt ∷ rest) e inv going enough good =
      let s0 = record s { raw_packet_queue = rest } in
      let (new, frames, s1, adds, flows) =
        process_packet_lem f sdk now s0 pkt (popped-Inv rest inv) good.0 (inl good.1) in
      let (news, frames', s', d) =
        loop times s1 rest (sym flows.queue) flows.valid (flows.going ∙ going) (omega arith)
          (AllGood-later s s1 flows.known rest good.2) in
      (
        new ∷ news,
        frames ++ frames',
        s',
        record {
          run = round_then now times s going (round-take now s pkt rest e ∙ flows.run) d.run;
          valid = d.valid;
          emptied = d.emptied;
          adds = (adds, d.adds);
          fits = AllFit-append frames frames' flows.fits d.fits;
          kept = λ id. rw (sent_in-append id frames frames') (
              chained (sent_in id frames) (sent_in id frames') (waiting id s.handlers)
                (waiting id s1.handlers) (waiting id s'.handlers) (share f sdk pkt new id)
                (shares rest news id) (flows.kept id) (d.kept id));
        },
      )

  -- A loop with at least one round for each packet of the queue, which finds it with no exit requested,
  -- a valid state and good packets of lidars that have a handler, does not fault and empties the queue.
  -- For each lidar, the points that all the frames hand on and then those that wait are the points that
  -- waited before and then those of the lidar's packets, packet by packet in the order of the queue, each
  -- packet with as many points as it announces and with their times.
  pub raw_data_process_lem :
      (times : List ℕ) (s : PubHandler F)
      → Inv s
      → s.is_quit ≡ false
      → length s.raw_packet_queue ≤ length times
      → AllGood s s.raw_packet_queue
      → (news : List (List (PointXyzlt F))) × (frames : List (PointFrame F)) × (s' : PubHandler F)
        × Drains s s.raw_packet_queue (raw_data_process f sdk times s) news frames s'
  raw_data_process_lem times s inv going enough good =
      loop times s s.raw_packet_queue refl inv going enough good
