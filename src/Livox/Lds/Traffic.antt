-- ===== src/Livox/Lds/Traffic.antt =====
-- The producer and the consumer of one ring, in any order of their calls (lds.cpp, ldq.cpp), against a
-- bounded queue that drops what arrives while it is full.
use sentry25navi.Prelude.{
  ℕ, ◌≡◌, refl, Option, none, some, List, [], ◌∷◌, ◌++◌, arith, Bool-cases, inl, inr, length,
  nil_of_length, leb, if◌then◌else◌,
}
use sentry25navi.Livox.Ldq.{StoragePacket, PointPacket, LidarDataQueue, queue_is_empty, queue_pop}
use sentry25navi.Livox.Ldq.Fifo.{
  Payload, arriving, IsValid, contents, queue_is_empty-contents, pop_empty, pop_refines,
}
use sentry25navi.Livox.Comm.{PointXyzlt, Frequency}
use sentry25navi.Livox.Lds.{◌>>=◌, offered}
use sentry25navi.Livox.Lds.Queues.{offered_refines}

pub data Event (F : Type 0) : Type 0 where
  offer : PointPacket (PointXyzlt F) → ℕ → Event F
  drain : Event F

-- What the consumer gets of each event: nothing of an offer, a packet or none of a drain.
abbrev pub Outputs : Type 0 → Type 0
Outputs F = List (Option (Payload (PointXyzlt F)))

-- The bounded queue.
module _ {F : Type 0} (capacity : ℕ) where
  unfoldable pub expected : List (Payload (PointXyzlt F)) → List (Event F) → Outputs F
  expected waiting [] = []
  expected waiting (offer x t ∷ events) =
      none
      ∷ expected (if leb capacity (length waiting) then waiting else waiting ++ arriving x t ∷ [])
          events
  expected [] (drain ∷ events) = none ∷ expected [] events
  expected (p ∷ waiting) (drain ∷ events) = some p ∷ expected waiting events

module _ {F : Type 0} (fresh : StoragePacket (PointXyzlt F)) (n : Frequency F) where
  abbrev view : StoragePacket (PointXyzlt F) → Payload (PointXyzlt F)
  view p = record { base_time = p.base_time; points_num = p.points_num; points = p.points }

  abbrev cons_out : Option (Payload (PointXyzlt F)) → Option (Outputs F) → Option (Outputs F)
  cons_out o none = none
  cons_out o (some os) = some (o ∷ os)

  -- The calls of the code, in the order of the events.
  unfoldable pub run : LidarDataQueue (PointXyzlt F) → List (Event F) → Option (Outputs F)
  run q [] = some []
  run q (offer x t ∷ events) = offered fresh n q x t 0 >>= λ r. cons_out none (run r.0 events)
  run q (drain ∷ events) =
      queue_pop q fresh >>= λ r. cons_out (if r.0 then some (view r.1) else none) (run r.2 events)

  -- Whatever the order of offers and drains, no call on a valid ring faults, and the consumer gets exactly
  -- what a bounded first-in first-out queue of the ring's size hands out.
  pub run_refines :
      (d : StoragePacket (PointXyzlt F)) (events : List (Event F))
      {q : LidarDataQueue (PointXyzlt F)}
      → IsValid q
      → run q events ≡ some (expected q.size (contents d q) events)
  unfolding run expected
  run_refines d [] v = refl
  run_refines d (offer x t ∷ events) {q} v =
      let (q', count, e, v', s, pos, c) = offered_refines fresh n d x t 0 v in
      rw e (rw (run_refines d events v', s, c) refl)
  run_refines d (drain ∷ events) {q} v = elim (Bool-cases (queue_is_empty q)) [
    | inl e ↦
        let empty : contents d q ≡ [] =
          nil_of_length (contents d q) (ground (arith, queue_is_empty-contents d v, e)) in
        rw (pop_empty fresh e, run_refines d events v, empty) refl
    | inr some_left ↦
        let (p, q', e, v', s, c) = pop_refines d fresh v some_left in
        rw e (rw (run_refines d events v', s, c) refl)
  ]
