-- ===== src/Livox/Lds/Queues.antt =====
-- One lidar's ring under the producer `PushLidarData` (lds.cpp) and the consumer `QueuePop` (ldq.cpp).
use sentry25navi.Prelude.{
  ℕ, ◌^◌, ◌≤◌, ◌<◌, ◌≡◌, ◌⊎◌, refl, ap, sym, ◌∙◌, false, some, List, [], ◌∷◌, ◌++◌, arith,
  Bool-cases, inl, inr, length, length-replicate, length-append, replicate, leb, if◌then◌else◌,
}
use sentry25navi.Livox.Ldq.{
  StoragePacket, PointPacket, LidarDataQueue, null, init_queue, initial, init_size, queue_used_size,
  queue_is_full, queue_is_empty,
}
use sentry25navi.Livox.Ldq.Pow2.{init_size-IsRoundedUp}
use sentry25navi.Livox.Ldq.Fifo.{
  Payload, arriving, IsValid, contents, queue_is_full-contents, queue_is_empty-contents,
  push_refines,
}
use sentry25navi.Livox.Comm.{PointXyzlt, Frequency, calculate_packet_queue_size}
use sentry25navi.Livox.Lds.{signal_once, ensured, offered}

-- A ring with no array yet, or a valid one.
abbrev pub IsReady : {A : Type 0} → LidarDataQueue A → Type 0
IsReady q = (q.storage_packet ≡ null) ⊎ IsValid q

-- `InitQueue` makes an empty valid ring.
pub initial-IsValid :
    {A : Type 0} (fresh : StoragePacket A) (n : ℕ) → 0 < n → n ≤ 2 ^ 31 → IsValid (initial fresh n)
unfolding initial queue_used_size
initial-IsValid fresh n pos small =
    let up = init_size-IsRoundedUp n pos small in
    record {
      width = up.width;
      slots = replicate (init_size n) fresh;
      width_lt = up.width_lt;
      array = refl;
      slots_num = length-replicate (init_size n) fresh;
      size_power = up.power;
      mask_ones = omega (arith, up.enough, up.tight);
      rd_small = omega arith;
      wr_small = omega arith;
      within = omega arith;
    }

contents-initial :
    {A : Type 0} (d fresh : StoragePacket A) (n : ℕ) → contents d (initial fresh n) ≡ []
unfolding initial queue_used_size contents
contents-initial d fresh n = refl

pub signal_once-pos : (count : ℕ) → 0 < signal_once count
unfolding signal_once
signal_once-pos count = ground arith

-- A ring that something was put into is not empty.
not-empty_of_put :
    {A : Type 0} (d : StoragePacket A) (q : LidarDataQueue A)
    → IsValid q
    → (ps : List (Payload A)) (p : Payload A) → contents d q ≡ ps ++ p ∷ []
    → queue_is_empty q ≡ false
not-empty_of_put d q v ps p c =
    ground (arith, queue_is_empty-contents d v, ap length c, length-append ps (p ∷ []))

module _ {F : Type 0} (fresh : StoragePacket (PointXyzlt F)) (n : Frequency F) where
  abbrev pub queue_size : F → ℕ
  queue_size = calculate_packet_queue_size n

  pub queue_size_bounds :
      (f : F) → n.truncate f < 2 ^ 31 → (0 < queue_size f) × (queue_size f ≤ 2 ^ 31)
  unfolding calculate_packet_queue_size
  queue_size_bounds f small = (ground arith, ground arith)

  -- Before each push the ring has an array, and what waited in it still waits.
  pub ensured-IsValid :
      (d : StoragePacket (PointXyzlt F)) {q : LidarDataQueue (PointXyzlt F)} (f : F)
      → n.truncate f < 2 ^ 31
      → IsReady q
      → (q' : LidarDataQueue (PointXyzlt F)) × (ensured fresh n q f ≡ some q')
        × IsValid q'
        × (contents d q' ≡ contents d q)
  unfolding ensured init_queue contents
  ensured-IsValid d {q} f small (inl bare) =
      let (pos, le) = queue_size_bounds f small in
      (
        initial fresh (queue_size f),
        rw (bare, ensured) refl,
        initial-IsValid fresh (queue_size f) pos le,
        contents-initial d fresh (queue_size f) ∙ rw bare refl,
      )
  ensured-IsValid d {q} f small (inr v) = (q, ground (arith, v.array), v, refl)

  -- A full ring drops what it is offered, and any other takes it at the end. Either way the consumer is
  -- signalled.
  pub offered_refines :
      (d : StoragePacket (PointXyzlt F)) {q : LidarDataQueue (PointXyzlt F)}
      (x : PointPacket (PointXyzlt F)) (t count : ℕ)
      → IsValid q
      → (q' : LidarDataQueue (PointXyzlt F)) × (count' : ℕ) × (offered fresh n q x t count
          ≡ some (q', count'))
        × IsValid q'
        × (q'.size ≡ q.size)
        × (0 < count')
        × (contents d q' ≡ (
            if leb q.size (length (contents d q))
            then contents d q
            else contents d q ++ arriving x t ∷ []))
  unfolding offered
  offered_refines d {q} x t count v = elim (Bool-cases (queue_is_full q)) [
    | inl full ↦ (
      q,
      signal_once count,
      rw (full, offered) refl,
      v,
      refl,
      signal_once-pos count,
      rw (sym (queue_is_full-contents d v) ∙ full) refl,
    )
    | inr room ↦
        let (q', e, v', s, c) = push_refines d x t v room in
        let filled : queue_is_empty q' ≡ false =
          not-empty_of_put d q' v' (contents d q) (arriving x t) c in
        (
          q',
          signal_once count,
          ground (arith, room, e, filled),
          v',
          s,
          signal_once-pos count,
          rw (sym (queue_is_full-contents d v) ∙ room) c,
        )
  ]
