-- ===== src/Livox/Ldq/Fifo.antt =====
-- The ring as a bounded first-in first-out queue of what is pushed (ldq.cpp).
use native.Mathlib.Nat.{
  pow-suc, one-le-pow, mod-mod_of_dvd, dvd_refl, dvd-mul_right_of_dvd, mod-lt, mod-eq_of_lt,
  mod-eq-sub-mod, mod-add-mod, pow-le-pow_right,
}
use native.Mathlib.Decide.{ℕ_discrete, dec_lt}
use Prim.Native.Nat.{◌∣◌}
use mathlib.Core.Path.{ap₂}
use native.Mathlib.Nat.{add-zero}
use sentry25navi.Prelude.{
  ℕ, zero, suc, ◌+◌, ◌-◌, ◌%◌, ◌^◌, ◌≤◌, ◌<◌, ◌≡◌, ◌≢◌, refl, ap, sym, ◌∙◌, true, false, arith,
  bit_and, some, List, [], ◌∷◌, ◌++◌, length, set, take, get_or, length-set, get_or-set_self,
  get_or-set_ne, get_elem?-eq-get_or, take-take, leb, ◌==◌,
}
use sentry25navi.Prelude.Bits.{bit_and_mask}
use sentry25navi.Prelude.Word.{u32_mod, ◌+u32◌}
use sentry25navi.Livox.Ldq.{
  StoragePacket, PointPacket, LidarDataQueue, Storage, live, queue_used_size, queue_is_full,
  queue_is_empty, queue_pop, queue_push_any, stored,
}

pow-dvd-pow : (k n : ℕ) → k ≤ n → 2 ^ k ∣ 2 ^ n
pow-dvd-pow k zero h = let e : k ≡ 0 = omega arith in rw e (dvd_refl (2 ^ 0))
pow-dvd-pow k (suc n) h = elim (ℕ_discrete k (suc n)) [
  | yes e ↦ rw e (dvd_refl (2 ^ suc n))
  | no ne ↦ rw pow-suc (dvd-mul_right_of_dvd (2 ^ k) (pow-dvd-pow k n (omega arith)) 2)
]

-- Fewer than `s` steps round a ring of `s` slots do not come back to the start.
add-mod-ne : (a m s : ℕ) → 0 < m → m < s → (a + m) % s ≢ a % s
add-mod-ne a m s pos small = elim (dec_lt (a % s + m) s) [
  | yes p ↦ omega (arith, mod-add-mod a s m, mod-eq_of_lt p)
  | no p ↦ omega (
    arith,
    mod-add-mod a s m,
    mod-lt a {m = s} (omega arith),
    mod-eq-sub-mod {n = a % s + m} {m = s} (omega arith),
    mod-eq_of_lt {n = a % s + m - s} {m = s} (omega (arith, mod-lt a {m = s} (omega arith))),
  )
]

suc-mod-eq : (a b s : ℕ) → a % s ≡ b % s → (a + 1) % s ≡ (b + 1) % s
suc-mod-eq a b s e = sym (mod-add-mod a s 1) ∙ ap (λ (t : ℕ). (t + 1) % s) e ∙ mod-add-mod b s 1

-- What a packet holds for its reader.
pub record Payload (A : Type 0) : Type 0 where
  pub base_time : ℕ
  pub points_num : ℕ
  pub points : List A

module _ {A : Type 0} where
  abbrev pub payload : StoragePacket A → Payload A
  payload p = record {
    base_time = p.base_time;
    points_num = p.points_num;
    points = take p.points_num p.points;
  }

  abbrev pub arriving : PointPacket A → ℕ → Payload A
  arriving lidar_data base_time = record {
    base_time = base_time;
    points_num = lidar_data.points_num;
    points = take lidar_data.points_num lidar_data.points;
  }

  -- A live array of a power of two slots, and two running indices that are not further apart.
  pub record IsValid (q : LidarDataQueue A) : Type 0 where
    pub width : ℕ
    pub slots : List (StoragePacket A)
    pub width_lt : width < 32
    pub array : q.storage_packet ≡ live slots
    pub slots_num : length slots ≡ q.size
    pub size_power : q.size ≡ 2 ^ width
    pub mask_ones : q.mask + 1 ≡ q.size
    pub rd_small : q.rd_idx < u32_mod
    pub wr_small : q.wr_idx < u32_mod
    pub within : queue_used_size q ≤ q.size

  -- The payloads of `n` slots from running index `start` on; `d` stands in for a missing slot.
  abbrev window : StoragePacket A → List (StoragePacket A) → ℕ → ℕ → ℕ → List (Payload A)
  window d ps size start zero = []
  window d ps size start (suc n) =
      payload (get_or ps (start % size) d) ∷ window d ps size (start + 1) n

  abbrev contents_of : StoragePacket A → Storage A → ℕ → ℕ → ℕ → List (Payload A)
  contents_of d (live ps) size start n = window d ps size start n
  contents_of d _ size start n = []

  -- The packets that wait, oldest first.
  unfoldable pub contents : StoragePacket A → LidarDataQueue A → List (Payload A)
  contents d q = contents_of d q.storage_packet q.size q.rd_idx (queue_used_size q)

  window-mod :
      (d : StoragePacket A) (ps : List (StoragePacket A)) (size a b n : ℕ)
      → a % size ≡ b % size
      → window d ps size a n ≡ window d ps size b n
  window-mod d ps size a b zero e = refl
  window-mod d ps size a b (suc n) e =
      ap₂ ◌∷◌ (ap (λ (i : ℕ). payload (get_or ps i d)) e)
        (window-mod d ps size (a + 1) (b + 1) n (suc-mod-eq a b size e))

  length-window :
      (d : StoragePacket A) (ps : List (StoragePacket A)) (size a n : ℕ)
      → length (window d ps size a n) ≡ n
  length-window d ps size a zero = refl
  length-window d ps size a (suc n) = ap suc (length-window d ps size (a + 1) n)

  -- A write just past a window extends it by what is written.
  window-set :
      (d : StoragePacket A) (ps : List (StoragePacket A)) (size start n i : ℕ) (v : StoragePacket A)
      → length ps ≡ size
      → n < size
      → i ≡ (start + n) % size
      → window d (set ps i v) size start (suc n) ≡ window d ps size start n ++ payload v ∷ []
  window-set d ps size start zero i v len h e =
      let at : i ≡ start % size = omega (arith, e, ap (λ (t : ℕ). t % size) (add-zero start)) in
      rw (← at, get_or-set_self ps i v d (omega (arith, mod-lt start {m = size} (omega arith))))
        refl
  window-set d ps size start (suc n) i v len h e =
      ap₂ ◌∷◌
        (ap payload (
          get_or-set_ne ps i (start % size) v d
            (λ same. add-mod-ne start (suc n) size (omega arith) h (sym e ∙ same))))
        (window-set d ps size (start + 1) n i v len (omega arith)
          (e ∙ ap (λ (t : ℕ). t % size) (omega arith)))

  -- The masked running index is the index in the ring.
  slot_index : {q : LidarDataQueue A} (x : ℕ) → IsValid q → bit_and x q.mask ≡ x % q.size
  slot_index {q} x v =
      ap (bit_and x) mask ∙ bit_and_mask v.width x ∙ ap (λ (t : ℕ). x % t) (sym v.size_power)
    where
      mask : q.mask ≡ 2 ^ v.width - 1
      mask = omega (arith, v.mask_ones, v.size_power)

  -- The wrap of a running index at 2 ^ 32 does not move its slot.
  wrap_index : {q : LidarDataQueue A} (x : ℕ) → IsValid q → x % u32_mod % q.size ≡ x % q.size
  wrap_index {q} x v =
      rw v.size_power
        (mod-mod_of_dvd (2 ^ v.width) x (pow-dvd-pow v.width 32 (omega (arith, v.width_lt))))

  used-lt : {q : LidarDataQueue A} → IsValid q → q.size ≤ 2 ^ 31
  used-lt v =
      omega (arith, v.size_power, pow-le-pow_right {n = 2} (omega arith) {i = v.width} {j = 31})

  pub length-contents :
      (d : StoragePacket A) {q : LidarDataQueue A}
      → IsValid q
      → length (contents d q) ≡ queue_used_size q
  unfolding contents queue_used_size
  length-contents d {q} v = rw v.array (length-window d v.slots q.size q.rd_idx (queue_used_size q))

  pub queue_is_empty-contents :
      (d : StoragePacket A) {q : LidarDataQueue A}
      → IsValid q
      → queue_is_empty q ≡ (length (contents d q) == 0)
  unfolding queue_is_empty queue_used_size
  queue_is_empty-contents d v = ground (arith, length-contents d v, v.rd_small, v.wr_small)

  pub queue_is_full-contents :
      (d : StoragePacket A) {q : LidarDataQueue A}
      → IsValid q
      → queue_is_full q ≡ leb q.size (length (contents d q))
  unfolding queue_is_full queue_used_size
  queue_is_full-contents d v = ground (arith, length-contents d v, v.mask_ones)

  pub push_refines :
      (d : StoragePacket A) {q : LidarDataQueue A} (x : PointPacket A) (t : ℕ)
      → IsValid q
      → queue_is_full q ≡ false
      → (q' : LidarDataQueue A) × (queue_push_any q x t ≡ some (1, q'))
        × IsValid q'
        × (q'.size ≡ q.size)
        × (contents d q' ≡ contents d q ++ arriving x t ∷ [])
  unfolding contents queue_push_any queue_is_full queue_used_size
  push_refines d {q} x t v room = (pushed, ran, valid, refl, extended)
    where
      i : ℕ
      i = q.wr_idx % q.size

      old : StoragePacket A
      old = get_or v.slots i d

      slots' : List (StoragePacket A)
      slots' = set v.slots i (stored old x t)

      pushed : LidarDataQueue A
      pushed = record q { storage_packet = live slots'; wr_idx = q.wr_idx +u32 1 }

      i-lt : i < length v.slots
      i-lt = omega (
        arith,
        v.slots_num,
        mod-lt q.wr_idx {m = q.size} (rw v.size_power (one-le-pow v.width 2 (omega arith))),
      )

      ran : queue_push_any q x t ≡ some (1, pushed)
      ran = ground (arith, v.array, slot_index q.wr_idx v, get_elem?-eq-get_or v.slots i d i-lt)

      grown : queue_used_size pushed ≡ suc (queue_used_size q)
      grown = ground (arith, used-lt v)

      valid : IsValid pushed
      valid = record {
        width = v.width;
        slots = slots';
        width_lt = v.width_lt;
        array = refl;
        slots_num = length-set v.slots i (stored old x t) ∙ v.slots_num;
        size_power = v.size_power;
        mask_ones = v.mask_ones;
        rd_small = v.rd_small;
        wr_small = omega arith;
        within = ground (arith, grown);
      }

      place : i ≡ (q.rd_idx + queue_used_size q) % q.size
      place =
          ap (λ (k : ℕ). k % q.size) (omega (arith, v.rd_small, v.wr_small))
          ∙ wrap_index (q.rd_idx + queue_used_size q) v

      extended : contents d pushed ≡ contents d q ++ arriving x t ∷ []
      extended =
          rw (v.array, grown)
            (window-set d v.slots q.size q.rd_idx (queue_used_size q) i (stored old x t) v.slots_num
                (ground (arith, v.mask_ones)) place
              ∙ ap
                  (λ (p : List A).
                    window d v.slots q.size q.rd_idx (queue_used_size q)
                    ++ record { base_time = t; points_num = x.points_num; points = p } ∷ [])
                  (take-take x.points_num x.points))

  pub pop_empty :
      {q : LidarDataQueue A} (out : StoragePacket A)
      → queue_is_empty q ≡ true
      → queue_pop q out ≡ some (false, out, q)
  unfolding queue_pop queue_is_empty
  pop_empty out e = ground (arith, e)

  -- A pop hands over the oldest packet, in the type and handle that the caller's packet has.
  abbrev pub handed : StoragePacket A → Payload A → StoragePacket A
  handed out p = record out {
    base_time = p.base_time;
    points_num = p.points_num;
    points = p.points;
  }

  pub pop_refines :
      (d : StoragePacket A) {q : LidarDataQueue A} (out : StoragePacket A)
      → IsValid q
      → queue_is_empty q ≡ false
      → (p : Payload A) × (q' : LidarDataQueue A) × (queue_pop q out
          ≡ some (true, handed out p, q'))
        × IsValid q'
        × (q'.size ≡ q.size)
        × (contents d q ≡ p ∷ contents d q')
  unfolding contents queue_pop queue_is_empty queue_used_size
  pop_refines d {q} out v some_left = (payload old, popped, ran, valid, refl, shorter)
    where
      i : ℕ
      i = q.rd_idx % q.size

      old : StoragePacket A
      old = get_or v.slots i d

      popped : LidarDataQueue A
      popped = record q { rd_idx = q.rd_idx +u32 1 }

      i-lt : i < length v.slots
      i-lt = omega (
        arith,
        v.slots_num,
        mod-lt q.rd_idx {m = q.size} (rw v.size_power (one-le-pow v.width 2 (omega arith))),
      )

      ran : queue_pop q out ≡ some (true, handed out (payload old), popped)
      ran = ground (arith, v.array, slot_index q.rd_idx v, get_elem?-eq-get_or v.slots i d i-lt)

      shrunk : queue_used_size q ≡ suc (queue_used_size popped)
      shrunk = ground arith

      valid : IsValid popped
      valid = record {
        width = v.width;
        slots = v.slots;
        width_lt = v.width_lt;
        array = v.array;
        slots_num = v.slots_num;
        size_power = v.size_power;
        mask_ones = v.mask_ones;
        rd_small = omega arith;
        wr_small = v.wr_small;
        within = omega (arith, shrunk, v.within);
      }

      shorter : contents d q ≡ payload old ∷ contents d popped
      shorter =
          rw (v.array, shrunk)
            (ap (◌∷◌ (payload old)) (
              sym (
                window-mod d v.slots q.size (q.rd_idx +u32 1) (q.rd_idx + 1)
                  (queue_used_size popped) (wrap_index (q.rd_idx + 1) v))))
