-- ===== src/Livox/CacheIndex/Sharing.antt =====
-- What the callers of the slot table rely on (cache_index.cpp): slots are found again, are not shared, run
-- out only after 32 devices, and a reset frees exactly one.
use sentry25navi.Prelude.{
  ℕ, ◌^◌, ◌<◌, ◌≡◌, ◌≢◌, refl, ap, sym, ◌∙◌, true, false, none, some, if◌then◌else◌, arith,
  Bool-cases, Option-cases, inl, inr, get_elem?, get_elem?-set_self, get_elem?-lt,
}
use sentry25navi.Livox.CacheIndex.{
  Key, key_eq, find, CacheIndex, first_free, take_slot, generate_index_key, get_free_index,
  get_index, reset_index,
}
use sentry25navi.Livox.CacheIndex.Keys.{
  key_eq_iff, find-assign, find-erase, generate_index_key_injective,
}
use sentry25navi.Livox.CacheIndex.Laws.{IsValid, first_free-none}
use sentry25navi.Livox.Comm.{max_source_lidar, livox_lidar_type}

generate_index_key-known : (h : ℕ) → (k : Key) × (generate_index_key livox_lidar_type h ≡ some k)
unfolding generate_index_key
generate_index_key-known h = (_, refl)

-- In a valid table two devices never have one slot, and every slot is below 32.
pub get_index_apart :
    {c : CacheIndex} (h j i : ℕ)
    → IsValid c
    → h < 2 ^ 32
    → j < 2 ^ 32
    → get_index c livox_lidar_type h ≡ some i
    → get_index c livox_lidar_type j ≡ some i
    → (h ≡ j) × (i < max_source_lidar)
unfolding get_index
get_index_apart {c} h j i v hs js p q =
    let (k, e) = generate_index_key-known h in
    let (l, f) = generate_index_key-known j in
    let at : find k c.map_index ≡ some i = ground (arith, e, p) in
    let bt : find l c.map_index ≡ some i = ground (arith, f, q) in
    let same : k ≡ l = v.apart k l i at bt in
    (
      generate_index_key_injective h j hs js e (f ∙ ap some (sym same)),
      omega (arith, v.flags_num, get_elem?-lt c.index_cache i (v.taken k i at)),
    )

take_slot-find :
    (c : CacheIndex) (k j : Key) {i : ℕ}
    → (take_slot c k).0 ≡ some i
    → find j (take_slot c k).1.map_index ≡ (if key_eq k j then some i else find j c.map_index)
unfolding take_slot
take_slot-find c k j {i} h = elim (Option-cases (first_free 0 c.index_cache)) [
  | inl e ↦ absurd (ground (arith, e))
  | inr (n, e) ↦
      rw (e, take_slot)
        (find-assign k j n c.map_index
          ∙ ap (λ (m : ℕ). if key_eq k j then some m else find j c.map_index) (ground (arith, e)))
]

-- The slot that `GetFreeIndex` gives out is the one that a later `GetIndex` finds for the same device,
-- and no other device's slot moves.
pub get_index-get_free_index :
    (c : CacheIndex) (h j i : ℕ)
    → h < 2 ^ 32
    → j < 2 ^ 32
    → h ≢ j
    → (get_free_index c livox_lidar_type h).0 ≡ some i
    → (get_index (get_free_index c livox_lidar_type h).1 livox_lidar_type h ≡ some i)
      × (get_index (get_free_index c livox_lidar_type h).1 livox_lidar_type j
          ≡ get_index c livox_lidar_type j)
unfolding get_free_index get_index
get_index-get_free_index c h j i hs js ne p =
    let (k, e) = generate_index_key-known h in
    let (l, f) = generate_index_key-known j in
    let other : key_eq k l ≡ false = elim (Bool-cases (key_eq k l)) [
      | inl same ↦ absurd (
          ne (
            generate_index_key_injective h j hs js e (f ∙ ap some (sym ((key_eq_iff k l).0 same)))))
      | inr apart ↦ apart
    ] in
    elim (Option-cases (find k c.map_index)) [
      | inl g ↦ ground (
        arith,
        e,
        f,
        g,
        other,
        take_slot-find c k k {i = i},
        take_slot-find c k l {i = i},
        key_eq_iff k k,
      )
      | inr (n, g) ↦ ground (arith, e, f, g)
    ]

-- `GetFreeIndex` fails for a known type only when the flags of all 32 slots are taken.
pub get_free_index-none :
    {c : CacheIndex} (h n : ℕ)
    → IsValid c
    → (get_free_index c livox_lidar_type h).0 ≡ none
    → n < max_source_lidar
    → get_elem? c.index_cache n ≡ some true
unfolding get_free_index take_slot
get_free_index-none {c} h n v p small =
    let (k, e) = generate_index_key-known h in
    first_free-none 0 c.index_cache n (ground (arith, e)) (omega (arith, v.flags_num))

-- After a reset the device has no slot, and every other device has the one that it had.
pub get_index-reset_index :
    (c : CacheIndex) (h j : ℕ)
    → h < 2 ^ 32
    → j < 2 ^ 32
    → h ≢ j
    → (get_index (reset_index c livox_lidar_type h) livox_lidar_type h ≡ none)
      × (get_index (reset_index c livox_lidar_type h) livox_lidar_type j
          ≡ get_index c livox_lidar_type j)
unfolding reset_index get_index
get_index-reset_index c h j hs js ne =
    let (k, e) = generate_index_key-known h in
    let (l, f) = generate_index_key-known j in
    ground (
      arith,
      e,
      f,
      find-erase k k c.map_index,
      find-erase k l c.map_index,
      key_eq_iff k k,
      λ (same : k ≡ l). ne (generate_index_key_injective h j hs js e (f ∙ ap some (sym same))),
      key_eq_iff k l,
    )

-- The slot of a device that is reset is free again, so a new device can be taken.
pub reset_index_frees :
    {c : CacheIndex} (h i : ℕ)
    → IsValid c
    → get_index c livox_lidar_type h ≡ some i
    → get_elem? (reset_index c livox_lidar_type h).index_cache i ≡ some false
unfolding reset_index get_index
reset_index_frees {c} h i v p =
    let (k, e) = generate_index_key-known h in
    let at : find k c.map_index ≡ some i = ground (arith, e) in
    ground (
      arith,
      e,
      at,
      get_elem?-set_self c.index_cache i false (get_elem?-lt c.index_cache i (v.taken k i at)),
    )
