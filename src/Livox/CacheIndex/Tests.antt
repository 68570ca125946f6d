-- ===== src/Livox/CacheIndex/Tests.antt =====
-- Runs of the slot table on concrete tables (cache_index.cpp).
use sentry25navi.Prelude.{ℕ, ◌≡◌, refl, true, none, some, [], arith, get_elem?, replicate}
use sentry25navi.Livox.CacheIndex.{
  CacheIndex, empty, find, key_eq, decimal, first_free, assign, take_slot, generate_index_key,
  get_free_index, get_index,
}
use sentry25navi.Livox.CacheIndex.Laws.{IsValid, empty-IsValid, get_free_index-IsValid}
use sentry25navi.Livox.CacheIndex.Sharing.{get_index-get_free_index, get_free_index-none}

abbrev table : CacheIndex
table = (get_free_index empty 8 77).1

table-IsValid : IsValid table
table-IsValid = get_free_index-IsValid 8 77 empty-IsValid

abbrev full : CacheIndex
full = record { map_index = []; index_cache = replicate 32 true }

full-IsValid : IsValid full
unfolding find
full-IsValid = record {
  flags_num = refl;
  taken = λ k i h. absurd (ground arith);
  apart = λ j k i h g. absurd (ground arith);
}

found : get_index table 8 77 ≡ some 0
unfolding get_index get_free_index find take_slot generate_index_key decimal first_free assign
    key_eq
found = refl

full-none : (get_free_index full 8 77).0 ≡ none
unfolding get_free_index find take_slot generate_index_key decimal first_free
full-none = refl

empty_gives : (get_free_index empty 8 77).0 ≡ some 0
unfolding get_free_index find take_slot generate_index_key decimal first_free
empty_gives = refl

abbrev handle : ℕ
handle = 77

get_index-get_free_index_example :
    (get_index table 8 77 ≡ some 0) × (get_index table 8 78 ≡ get_index empty 8 78)
get_index-get_free_index_example =
    get_index-get_free_index empty 77 78 0 (omega arith) (omega arith) (omega arith) empty_gives

get_free_index-none_example : get_elem? full.index_cache 31 ≡ some true
get_free_index-none_example = get_free_index-none 77 31 full-IsValid full-none (omega arith)
