-- ===== src/Livox/Lds/Tests.antt =====
-- Runs of the data source on concrete states (lds.cpp).
use sentry25navi.Prelude.{
  leb, if◌then◌else◌, ℕ, ◌<◌, ◌≡◌, refl, none, some, List, [], ◌∷◌, arith, set, inl, replicate,
}
use sentry25navi.Livox.Ldq.{LidarDataQueue, initial, init_size, queue_used_size}
use sentry25navi.Livox.Ldq.Fifo.{arriving, IsValid, contents}
use sentry25navi.Livox.Comm.{PointXyzlt}
use sentry25navi.Livox.CacheIndex.{
  get_index, get_free_index, find, generate_index_key, take_slot, decimal, first_free, assign,
  key_eq,
}
use sentry25navi.Livox.CacheIndex.Laws.{get_free_index-IsValid, empty-IsValid}
use sentry25navi.Livox.Samples.{freq, fresh, packet, device, table, state, ring, ring-IsValid}
use sentry25navi.Livox.Lds.{PointFrame, push_lidar_data}
use sentry25navi.Livox.Lds.Traffic.{Event, offer, drain, expected, run, run_refines}
use sentry25navi.Livox.Lds.Push.{Inv, push_lidar_data_lem}
use sentry25navi.Livox.Lds.Init.{IsBare, Each}

abbrev events : List (Event ℕ)
events = drain ∷ offer packet 5 ∷ offer packet 6 ∷ drain ∷ drain ∷ drain ∷ []

run_refines_example :
    run fresh freq ring events
    ≡ some (none ∷ none ∷ none ∷ some (arriving packet 5) ∷ some (arriving packet 6) ∷ none ∷ [])
unfolding expected contents initial queue_used_size init_size
run_refines_example = run_refines fresh freq fresh events ring-IsValid

all-IsBare : Each IsBare (replicate 32 device)
all-IsBare i lidar h = ground arith

state-Inv : Inv fresh freq state
state-Inv = record {
  devices = refl;
  table = get_free_index-IsValid 8 77 empty-IsValid;
  ready = λ i lidar h. inl (all-IsBare i lidar h);
  freq = omega arith;
}

push_lidar_data_lem_example :
    (q : LidarDataQueue (PointXyzlt ℕ)) × (count : ℕ) × (push_lidar_data fresh freq state packet 3 5
      ≡ some (record state {
        lidars = set state.lidars 3 (record device { queue = q });
        pcd_semaphore = count;
      }))
    × IsValid q
    × (0 < count)
    × (contents fresh q ≡ (if leb q.size 0 then [] else arriving packet 5 ∷ []))
unfolding contents
push_lidar_data_lem_example =
    push_lidar_data_lem fresh freq fresh state packet 3 5 (omega arith) refl (inl refl)

abbrev frame : PointFrame ℕ
frame = record { base_time = 5 ∷ 6 ∷ []; lidar_num = 2; lidar_point = packet ∷ packet ∷ [] }

found : get_index table 8 77 ≡ some 0
unfolding get_index get_free_index find take_slot generate_index_key decimal first_free assign
    key_eq
found = refl
