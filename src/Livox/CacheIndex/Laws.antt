-- ===== src/Livox/CacheIndex/Laws.antt =====
-- The invariant of the slot table, and that each call keeps it (cache_index.cpp).
use sentry25navi.Prelude.{
  ℕ, zero, suc, ◌+◌, ◌<◌, ◌≡◌, refl, ap, ◌∙◌, Bool, true, false, none, some, List, [], ◌∷◌, arith,
  Bool-cases, Option-cases, inl, inr, length, get_elem?, set, length-set, get_elem?-set_self,
  get_elem?-set_ne, get_elem?-lt,
}
use native.Mathlib.Decide.{ℕ_discrete}
use sentry25navi.Livox.CacheIndex.{
  Key, key_eq, find, assign, erase, CacheIndex, empty, first_free, take_slot, generate_index_key,
  get_free_index, get_index, lvx_get_index, reset_index,
}
use sentry25navi.Livox.CacheIndex.Keys.{key_eq_iff, find-assign, find-erase}
use sentry25navi.Livox.Comm.{max_source_lidar}

-- A slot that the map names is flagged as taken, and no two keys name one slot.
pub record IsValid (c : CacheIndex) : Type 0 where
  pub flags_num : length c.index_cache ≡ max_source_lidar
  pub taken :
      (k : Key) (i : ℕ) → find k c.map_index ≡ some i → get_elem? c.index_cache i ≡ some true
  pub apart :
      (j k : Key) (i : ℕ) → find j c.map_index ≡ some i → find k c.map_index ≡ some i → j ≡ k

pub first_free-some :
    (i : ℕ) (flags : List Bool) (p : ℕ)
    → first_free i flags ≡ some p
    → (n : ℕ) × (p ≡ i + n) × (get_elem? flags n ≡ some false)
unfolding first_free
first_free-some i [] p h = absurd (ground arith)
first_free-some i (false ∷ flags) p h = (0, ground arith, refl)
first_free-some i (true ∷ flags) p h =
    let (n, e, f) = first_free-some (i + 1) flags p h in (suc n, omega (arith, e), f)

pub first_free-none :
    (i : ℕ) (flags : List Bool) (n : ℕ)
    → first_free i flags ≡ none
    → n < length flags
    → get_elem? flags n ≡ some true
unfolding first_free
first_free-none i [] n h lt = absurd (omega arith)
first_free-none i (false ∷ flags) n h lt = absurd (ground arith)
first_free-none i (true ∷ flags) zero h lt = refl
first_free-none i (true ∷ flags) (suc n) h lt = first_free-none (i + 1) flags n h (omega arith)

pub first_free-at :
    (flags : List Bool) (p : ℕ) → first_free 0 flags ≡ some p → get_elem? flags p ≡ some false
first_free-at flags p h =
    let (n, e, f) = first_free-some 0 flags p h in let same : p ≡ n = omega (arith, e) in rw same f

pub empty-IsValid : IsValid empty
unfolding find
empty-IsValid = record {
  flags_num = refl;
  taken = λ k i h. absurd (ground arith);
  apart = λ j k i h g. absurd (ground arith);
}

-- Giving a free slot to a key that has none keeps the invariant.
pub assigned-IsValid :
    {c : CacheIndex} (key : Key) (i : ℕ)
    → IsValid c
    → get_elem? c.index_cache i ≡ some false
    → IsValid
        (record { map_index = assign key i c.map_index; index_cache = set c.index_cache i true })
assigned-IsValid {c} key i v free = record {
  flags_num = length-set c.index_cache i true ∙ v.flags_num;
  taken = taken;
  apart = apart;
}
  where
    flag :
        (n : ℕ)
        → get_elem? c.index_cache n ≡ some true
        → get_elem? (set c.index_cache i true) n ≡ some true
    flag n h = elim (ℕ_discrete i n) [
      | yes e ↦ absurd (ground (arith, ap (get_elem? c.index_cache) e))
      | no ne ↦ get_elem?-set_ne c.index_cache true ne ∙ h
    ]

    taken :
        (k : Key) (n : ℕ)
        → find k (assign key i c.map_index) ≡ some n
        → get_elem? (set c.index_cache i true) n ≡ some true
    taken k n h = elim (Bool-cases (key_eq key k)) [
      | inl e ↦
          let at : i ≡ n = ground (arith, e, find-assign key k i c.map_index) in
          rw (← at) (get_elem?-set_self c.index_cache i true (get_elem?-lt c.index_cache i free))
      | inr ne ↦ flag n (v.taken k n (ground (arith, ne, find-assign key k i c.map_index)))
    ]

    apart :
        (j k : Key) (n : ℕ)
        → find j (assign key i c.map_index) ≡ some n
        → find k (assign key i c.map_index) ≡ some n
        → j ≡ k
    apart j k n h g = ground (
      arith,
      find-assign key j i c.map_index,
      find-assign key k i c.map_index,
      key_eq_iff key j,
      key_eq_iff key k,
      v.apart j k n,
      v.taken j n,
      v.taken k n,
      free,
    )

pub take_slot-IsValid : {c : CacheIndex} (key : Key) → IsValid c → IsValid (take_slot c key).1
unfolding take_slot
take_slot-IsValid {c} key v = elim (Option-cases (first_free 0 c.index_cache)) [
  | inl e ↦ rw (e, take_slot) v
  | inr (i, e) ↦ rw (e, take_slot) (assigned-IsValid key i v (first_free-at c.index_cache i e))
]

-- Giving a slot back keeps the invariant: no other key names it.
erased-IsValid :
    {c : CacheIndex} (key : Key) (i : ℕ)
    → IsValid c
    → find key c.map_index ≡ some i
    → IsValid
        (record { map_index = erase key c.map_index; index_cache = set c.index_cache i false })
erased-IsValid {c} key i v held = record {
  flags_num = length-set c.index_cache i false ∙ v.flags_num;
  taken = λ k n h. elim (ℕ_discrete i n) [
    | yes e ↦ absurd (
        ground (arith, find-erase key k c.map_index, key_eq_iff key k, v.apart key k n, h, held, e))
    | no ne ↦
        get_elem?-set_ne c.index_cache false ne
        ∙ v.taken k n (ground (arith, find-erase key k c.map_index, h))
  ];
  apart = λ j k n h g.
      v.apart j k n (ground (arith, find-erase key j c.map_index, h))
        (ground (arith, find-erase key k c.map_index, g));
}

-- Every call that changes the table keeps it valid, whatever type and handle it is asked for.
pub get_free_index-IsValid :
    {c : CacheIndex} (t h : ℕ) → IsValid c → IsValid (get_free_index c t h).1
unfolding get_free_index
get_free_index-IsValid {c} t h v = elim (Option-cases (generate_index_key t h)) [
  | inl e ↦ rw (e, get_free_index) v
  | inr (key, e) ↦ elim (Option-cases (find key c.map_index)) [
    | inl f ↦ rw (e, get_free_index) (rw f (take_slot-IsValid key v))
    | inr (i, f) ↦ rw (e, get_free_index) (rw f v)
  ]
]

-- `LvxGetIndex` and `GetFreeIndex` give the same slot and leave the same table.
pub lvx_get_index-eq-get_free_index :
    (c : CacheIndex) (t h : ℕ) → lvx_get_index c t h ≡ get_free_index c t h
unfolding lvx_get_index get_free_index
lvx_get_index-eq-get_free_index c t h = ground arith

-- A reset keeps the table valid.
pub reset_index-IsValid : {c : CacheIndex} (t h : ℕ) → IsValid c → IsValid (reset_index c t h)
unfolding reset_index
reset_index-IsValid {c} t h v = elim (Option-cases (generate_index_key t h)) [
  | inl e ↦ rw (e, reset_index) v
  | inr (key, e) ↦ elim (Option-cases (find key c.map_index)) [
    | inl f ↦ rw (e, reset_index) (rw f v)
    | inr (i, f) ↦ rw (e, reset_index) (rw f (erased-IsValid key i v f))
  ]
]

-- A slot that `GetIndex` finds is one of the 32.
pub get_index-lt :
    {c : CacheIndex} (t h : ℕ) {i : ℕ} → IsValid c → get_index c t h ≡ some i → i < max_source_lidar
unfolding get_index
get_index-lt {c} t h {i} v e = elim (Option-cases (generate_index_key t h)) [
  | inl none_for ↦ absurd (ground (arith, none_for))
  | inr (k, known) ↦
      omega (arith, v.flags_num, get_elem?-lt c.index_cache i (v.taken k i (ground (arith, known))))
]

-- So is a slot that `GetFreeIndex` gives.
pub get_free_index-lt :
    {c : CacheIndex} (t h : ℕ) {i : ℕ}
    → IsValid c
    → (get_free_index c t h).0 ≡ some i
    → i < max_source_lidar
unfolding get_free_index take_slot
get_free_index-lt {c} t h {i} v e = elim (Option-cases (generate_index_key t h)) [
  | inl none_for ↦ absurd (ground (arith, none_for))
  | inr (k, known) ↦ elim (Option-cases (find k c.map_index)) [
    | inr (m, f) ↦
        omega (
          arith,
          v.flags_num,
          get_elem?-lt c.index_cache i (v.taken k i (ground (arith, known, f))),
        )
    | inl f ↦ elim (Option-cases (first_free 0 c.index_cache)) [
      | inl g ↦ absurd (ground (arith, known, f, g))
      | inr (p, g) ↦ omega (
        arith,
        v.flags_num,
        get_elem?-lt c.index_cache i (first_free-at c.index_cache i (ground (arith, known, f, g))),
      )
    ]
  ]
]
