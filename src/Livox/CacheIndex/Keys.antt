-- ===== src/Livox/CacheIndex/Keys.antt =====
-- Keys of devices, and the map over them (cache_index.cpp).
use native.Mathlib.Nat.{pow-suc}
use sentry25navi.Prelude.{
  ℕ, zero, suc, ◌+◌, ◌-◌, ◌*◌, ◌/◌, ◌%◌, ◌^◌, ◌<◌, ◌≡◌, ◌↔◌, refl, ap, true, none, some, List, [],
  ◌∷◌, ◌++◌, ltb, if◌then◌else◌, arith, Bool-cases, inl, inr,
}
use sentry25navi.Livox.CacheIndex.{Key, key_eq, decimal, generate_index_key, find, assign, erase}
use sentry25navi.Livox.Comm.{livox_lidar_type}

pub key_eq_iff : (j k : Key) → (key_eq j k ≡ true) ↔ (j ≡ k)
unfolding key_eq
key_eq_iff [] [] = (λ h. refl, λ h. refl)
key_eq_iff [] (d ∷ k) = (λ h. ground arith, λ h. ground arith)
key_eq_iff (c ∷ j) [] = (λ h. ground arith, λ h. ground arith)
key_eq_iff (c ∷ j) (d ∷ k) =
    (λ h. ground (arith, key_eq_iff j k), λ h. ground (arith, key_eq_iff j k))

-- The number that decimal digits stand for, after the digits read so far.
abbrev number_from : ℕ → List ℕ → ℕ
number_from acc [] = acc
number_from acc (c ∷ rest) = number_from (10 * acc + (c - b'0')) rest

number_from-append :
    (acc : ℕ) (ds : List ℕ) (c : ℕ)
    → number_from acc (ds ++ c ∷ []) ≡ 10 * number_from acc ds + (c - b'0')
number_from-append acc [] c = refl
number_from-append acc (d ∷ ds) c = number_from-append (10 * acc + (d - b'0')) ds c

-- Printing loses nothing.
number_from-decimal : (digits n : ℕ) → n < 10 ^ digits → number_from 0 (decimal digits n) ≡ n
unfolding decimal
number_from-decimal zero n h = omega arith
number_from-decimal (suc digits) n h = elim (Bool-cases (ltb n 10)) [
  | inl small ↦ rw small (omega arith)
  | inr large ↦ rw large (
      omega (
        arith,
        number_from-append 0 (decimal digits (n / 10)) (b'0' + n % 10),
        number_from-decimal digits (n / 10) (omega (arith, pow-suc 10 digits)),
      ))
]

-- The key of a known device type exists, and no two handles share one.
pub generate_index_key_injective :
    (h j : ℕ) {k : Key}
    → h < 2 ^ 32
    → j < 2 ^ 32
    → generate_index_key livox_lidar_type h ≡ some k
    → generate_index_key livox_lidar_type j ≡ some k
    → h ≡ j
unfolding generate_index_key
generate_index_key_injective h j hs js p q = omega (
  arith,
  ap (number_from 0) same,
  number_from-decimal 10 h (omega arith),
  number_from-decimal 10 j (omega arith),
)
  where
    same : decimal 10 h ≡ decimal 10 j
    same = cc

-- Lookups after a change, for each pair of keys.
pub find-assign :
    (k j : Key) (v : ℕ) (m : List (Key × ℕ))
    → find j (assign k v m) ≡ (if key_eq k j then some v else find j m)
unfolding find assign
find-assign k j v [] = refl
find-assign k j v ((i, w) ∷ m) =
    ground (arith, key_eq_iff k j, key_eq_iff i k, key_eq_iff i j, find-assign k j v m)

pub find-erase :
    (k j : Key) (m : List (Key × ℕ)) → find j (erase k m) ≡ (if key_eq k j then none else find j m)
unfolding find erase
find-erase k j [] = ground arith
find-erase k j ((i, w) ∷ m) =
    ground (arith, key_eq_iff k j, key_eq_iff i k, key_eq_iff i j, find-erase k j m)
