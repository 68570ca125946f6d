-- ===== src/Livox/Ldq.antt =====
-- The ring of point packets of one lidar, comm/ldq.h and comm/ldq.cpp, with the types of comm/comm.h
-- that it holds. The type of a point is a parameter: the queue only copies points.
-- A queue or packet reference is never null here: every caller passes the address of an object.
-- `none` is a fault: the code dereferences a null or freed array, or an index outside of it.
pub mod Pow2
pub mod Fifo
mod Tests
use sentry25navi.Prelude.{
  ℕ, zero, suc, ◌+◌, ◌^◌, Bool, true, false, not, ◌&&◌, Option, none, some, List, bit_and, leb, ltb,
  ◌==◌, if◌then◌else◌, get_elem?, set, replicate, take,
}
use sentry25navi.Prelude.Word.{◌+u32◌, ◌-u32◌}

pub record StoragePacket (A : Type 0) : Type 0 where
  pub lidar_type : ℕ
  pub handle : ℕ
  pub base_time : ℕ
  pub points_num : ℕ
  pub points : List A

-- `points` points to an array of at least `points_num` points.
pub record PointPacket (A : Type 0) : Type 0 where
  pub handle : ℕ
  pub lidar_type : ℕ
  pub points_num : ℕ
  pub points : List A

-- The owning pointer `storage_packet`: null, deleted but not reset, or a live array.
pub data Storage (A : Type 0) : Type 0 where
  null : Storage A
  freed : Storage A
  live : List (StoragePacket A) → Storage A

pub record LidarDataQueue (A : Type 0) : Type 0 where
  pub storage_packet : Storage A
  pub rd_idx : ℕ
  pub wr_idx : ℕ
  pub mask : ℕ
  pub size : ℕ

unfoldable pub is_power_of_2 : ℕ → Bool
is_power_of_2 size = not (size == 0) && (bit_and size (size -u32 1) == 0)

-- The `for` loop: `rounds` rounds are left of 32, and `i` is the round that comes.
unfoldable pub roundup_loop : ℕ → ℕ → ℕ → ℕ → ℕ
roundup_loop zero i size power2_val = power2_val
roundup_loop (suc rounds) i size power2_val =
    let rest = roundup_loop rounds (i + 1) size (2 ^ i) in if leb size (2 ^ i) then 2 ^ i else rest

unfoldable pub roundup_power_of_2 : ℕ → ℕ
unfolding roundup_loop
roundup_power_of_2 size = roundup_loop 32 0 size 0

-- The number of slots for a requested size.
unfoldable pub init_size : ℕ → ℕ
unfolding is_power_of_2 roundup_power_of_2
init_size queue_size =
    if is_power_of_2 queue_size then queue_size else roundup_power_of_2 queue_size

module _ {A : Type 0} where
  -- `delete[]` of the array that the pointer holds; none at a pointer whose array is gone already.
  abbrev pub delete_array : Storage A → Option (Storage A)
  delete_array null = some null
  delete_array freed = none
  delete_array (live ps) = some freed

  -- The ring that `InitQueue` builds: `new` succeeds, and `fresh` is what it leaves in a packet.
  unfoldable pub initial : StoragePacket A → ℕ → LidarDataQueue A
  initial fresh queue_size =
      let real = init_size queue_size in
      record {
        storage_packet = live (replicate real fresh);
        rd_idx = 0;
        wr_idx = 0;
        mask = real -u32 1;
        size = real;
      }

  -- The result is the code's `true`.
  unfoldable pub init_queue :
      StoragePacket A → LidarDataQueue A → ℕ → Option (Bool × LidarDataQueue A)
  init_queue fresh queue queue_size = elim (delete_array queue.storage_packet) [
    | none ↦ none
    | some s ↦ some (true, initial fresh queue_size)
  ]

  -- The array is deleted, and the pointer keeps its value.
  unfoldable pub de_init_queue : LidarDataQueue A → Option (Bool × LidarDataQueue A)
  de_init_queue queue = elim (delete_array queue.storage_packet) [
    | none ↦ none
    | some s ↦
        some (true, record { storage_packet = s; rd_idx = 0; wr_idx = 0; mask = 0; size = 0 })
  ]

  unfoldable pub reset_queue : LidarDataQueue A → LidarDataQueue A
  reset_queue queue = record queue { rd_idx = 0; wr_idx = 0 }

  unfoldable pub queue_used_size : LidarDataQueue A → ℕ
  queue_used_size queue = queue.wr_idx -u32 queue.rd_idx

  unfoldable pub queue_unused_size : LidarDataQueue A → ℕ
  unfolding queue_used_size
  queue_unused_size queue = queue.size -u32 queue_used_size queue

  unfoldable pub queue_is_full : LidarDataQueue A → Bool
  queue_is_full queue = ltb queue.mask (queue.wr_idx -u32 queue.rd_idx)

  unfoldable pub queue_is_empty : LidarDataQueue A → Bool
  queue_is_empty queue = queue.rd_idx == queue.wr_idx

  abbrev slot : Storage A → ℕ → Option (StoragePacket A)
  slot null i = none
  slot freed i = none
  slot (live ps) i = get_elem? ps i

  -- `resize` to `points_num`, then `memcpy` of that many points.
  abbrev copy_out : StoragePacket A → StoragePacket A → StoragePacket A
  copy_out storage_packet p = record storage_packet {
    base_time = p.base_time;
    points_num = p.points_num;
    points = take p.points_num p.points;
  }

  -- What a call that fills `*storage_packet` leaves: its result, and the packet.
  unfoldable pub queue_pre_pop :
      LidarDataQueue A → StoragePacket A → Option (Bool × StoragePacket A)
  unfolding queue_is_empty
  queue_pre_pop queue storage_packet =
      if queue_is_empty queue
      then some (false, storage_packet)
      else elim (slot queue.storage_packet (bit_and queue.rd_idx queue.mask)) [
        | none ↦ none
        | some p ↦ some (true, copy_out storage_packet p)
      ]

  unfoldable pub queue_pop_update : LidarDataQueue A → LidarDataQueue A
  queue_pop_update queue = record queue { rd_idx = queue.rd_idx +u32 1 }

  unfoldable pub queue_pop :
      LidarDataQueue A → StoragePacket A → Option (Bool × StoragePacket A × LidarDataQueue A)
  unfolding queue_pre_pop queue_pop_update
  queue_pop queue storage_packet = elim (queue_pre_pop queue storage_packet) [
    | none ↦ none
    | some (done, p) ↦ some (done, p, if done then queue_pop_update queue else queue)
  ]

  -- The packet that a push leaves in its slot: the slot keeps its own type and handle.
  abbrev pub stored : StoragePacket A → PointPacket A → ℕ → StoragePacket A
  stored p lidar_data base_time = record p {
    base_time = base_time;
    points_num = lidar_data.points_num;
    points = take lidar_data.points_num lidar_data.points;
  }

  abbrev write_slot : Storage A → ℕ → PointPacket A → ℕ → Option (Storage A)
  write_slot null i lidar_data base_time = none
  write_slot freed i lidar_data base_time = none
  write_slot (live ps) i lidar_data base_time = elim (get_elem? ps i) [
    | none ↦ none
    | some p ↦ some (live (set ps i (stored p lidar_data base_time)))
  ]

  -- The result is always 1.
  unfoldable pub queue_push_any :
      LidarDataQueue A → PointPacket A → ℕ → Option (ℕ × LidarDataQueue A)
  queue_push_any queue lidar_data base_time =
      elim (write_slot queue.storage_packet (bit_and queue.wr_idx queue.mask) lidar_data
        base_time) [
          | none ↦ none
          | some s ↦ some (1, record queue { storage_packet = s; wr_idx = queue.wr_idx +u32 1 })
        ]
