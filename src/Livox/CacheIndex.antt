-- ===== src/Livox/CacheIndex.antt =====
-- The table of lidar slots, comm/cache_index.h and comm/cache_index.cpp: a map from a device's key to its
-- slot, and a flag for each slot. Where the code returns 0 with a slot in `index`, a call returns `some`
-- of the slot; where it returns -1, `none`.
pub mod Keys
pub mod Laws
pub mod Sharing
mod Tests
use sentry25navi.Prelude.{
  ℕ, zero, suc, ◌+◌, ◌-◌, ◌*◌, ◌/◌, ◌%◌, Bool, true, false, ◌&&◌, Option, none, some, List, [], ◌∷◌,
  ◌++◌, ltb, ◌==◌, if◌then◌else◌, set, replicate,
}
use sentry25navi.Livox.Comm.{max_source_lidar, livox_lidar_type}

-- `std::string` as its bytes.
abbrev pub Key : Type 0
Key = List ℕ

unfoldable pub key_eq : Key → Key → Bool
key_eq [] [] = true
key_eq [] (d ∷ k) = false
key_eq (c ∷ j) [] = false
key_eq (c ∷ j) (d ∷ k) = c == d && key_eq j k

-- `std::to_string` of an unsigned number of at most `digits` decimal digits.
unfoldable pub decimal : ℕ → ℕ → List ℕ
decimal zero n = []
decimal (suc digits) n =
    let rest = decimal digits (n / 10) ++ (b'0' + n % 10) ∷ [] in
    if ltb n 10 then (b'0' + n) ∷ [] else rest

-- "livox_lidar_"
abbrev pub key_prefix : Key
key_prefix = b'l' ∷ b'i' ∷ b'v' ∷ b'o' ∷ b'x' ∷ b'_' ∷ b'l' ∷ b'i' ∷ b'd' ∷ b'a' ∷ b'r' ∷ b'_' ∷ []

-- A `uint32_t` has at most 10 digits.
unfoldable pub generate_index_key : ℕ → ℕ → Option Key
generate_index_key lidar_type handle =
    if lidar_type == livox_lidar_type then some (key_prefix ++ decimal 10 handle) else none

-- `std::map`: an association list with the operations that the code uses.
unfoldable pub find : Key → List (Key × ℕ) → Option ℕ
find k [] = none
find k ((j, i) ∷ m) = if key_eq j k then some i else find k m

unfoldable pub assign : Key → ℕ → List (Key × ℕ) → List (Key × ℕ)
assign k v [] = (k, v) ∷ []
assign k v ((j, i) ∷ m) = if key_eq j k then (j, v) ∷ m else (j, i) ∷ assign k v m

unfoldable pub erase : Key → List (Key × ℕ) → List (Key × ℕ)
erase k [] = []
erase k ((j, i) ∷ m) = if key_eq j k then erase k m else (j, i) ∷ erase k m

pub record CacheIndex : Type 0 where
  pub map_index : List (Key × ℕ)
  pub index_cache : List Bool

-- The constructor.
abbrev pub empty : CacheIndex
empty = record { map_index = []; index_cache = replicate max_source_lidar false }

-- The `for` loop over the flags, from slot `i` on.
unfoldable pub first_free : ℕ → List Bool → Option ℕ
first_free i [] = none
first_free i (true ∷ flags) = first_free (i + 1) flags
first_free i (false ∷ flags) = some i

-- A new slot for a key that has none.
unfoldable pub take_slot : CacheIndex → Key → Option ℕ × CacheIndex
take_slot c key = elim (first_free 0 c.index_cache) [
  | none ↦ (none, c)
  | some i ↦ (
    some i,
    record { map_index = assign key i c.map_index; index_cache = set c.index_cache i true },
  )
]

unfoldable pub get_free_index : CacheIndex → ℕ → ℕ → Option ℕ × CacheIndex
get_free_index c lidar_type handle = elim (generate_index_key lidar_type handle) [
  | none ↦ (none, c)
  | some key ↦ elim (find key c.map_index) [ none ↦ take_slot c key | some i ↦ (some i, c) ]
]

unfoldable pub get_index : CacheIndex → ℕ → ℕ → Option ℕ
get_index c lidar_type handle = elim (generate_index_key lidar_type handle) [
  | none ↦ none
  | some key ↦ find key c.map_index
]

unfoldable pub lvx_get_index : CacheIndex → ℕ → ℕ → Option ℕ × CacheIndex
lvx_get_index c lidar_type handle = elim (generate_index_key lidar_type handle) [
  | none ↦ (none, c)
  | some key ↦ elim (find key c.map_index) [
    | none ↦ get_free_index c lidar_type handle
    | some i ↦ (some i, c)
  ]
]

-- Of the device only its type and handle are read.
unfoldable pub reset_index : CacheIndex → ℕ → ℕ → CacheIndex
reset_index c lidar_type handle = elim (generate_index_key lidar_type handle) [
  | none ↦ c
  | some key ↦ elim (find key c.map_index) [
    | none ↦ c
    | some i ↦ record { map_index = erase key c.map_index; index_cache = set c.index_cache i false }
  ]
]
