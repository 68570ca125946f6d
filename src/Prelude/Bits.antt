-- ===== src/Prelude/Bits.antt =====
-- `bit_and` at variables: one binary digit at a time, a mask of ones, and the test for a power of two.
use Prim.Native.Nat.{
  ℕ, zero, suc, ◌+◌, ◌-◌, ◌*◌, ◌/◌, ◌%◌, ◌^◌, ◌≤◌, ◌<◌, min, bit_and, digits, bit_and-bitwise,
}
use mathlib.Core.Path.{◌≡◌, refl, ap, sym, ◌∙◌}
use mathlib.Core.Logic.{◌≢◌}
use native.Mathlib.Nat.{
  pow-suc, one-le-pow, mul-add-mod_self_left, mod-eq_of_lt, mod-lt, div-add-mod,
}
use native.Mathlib.Decide.{ℕ_discrete}
use native.Mathlib.Omega.{arith}

abbrev common : ℕ → ℕ → ℕ → ℕ
common rounds x y = digits (λ d. zero) min rounds x y

-- A round past the digits of the first number adds nothing.
common-suc : (rounds x y : ℕ) → x ≤ rounds → common (suc rounds) x y ≡ common rounds x y
common-suc zero zero y le = refl
common-suc (suc rounds) zero y le = refl
common-suc zero (suc x) y le = absurd (omega arith)
common-suc (suc rounds) (suc x) y le =
    omega (arith, common-suc rounds (suc x / 2) (y / 2) (omega arith))

common-bit_and : (rounds x y : ℕ) → x ≤ rounds → common rounds x y ≡ bit_and x y
common-bit_and zero x y le =
    let at : x ≡ 0 = omega arith in rw at (omega (arith, bit_and-bitwise 0 y))
common-bit_and (suc rounds) x y le = elim (ℕ_discrete x (suc rounds)) [
  | yes last ↦ rw last (omega (arith, bit_and-bitwise (suc rounds) y))
  | no before ↦ common-suc rounds x y (omega arith) ∙ common-bit_and rounds x y (omega arith)
]

-- The lowest digit apart from the others.
pub bit_and_low : (x y : ℕ) → bit_and x y ≡ min (x % 2) (y % 2) + 2 * bit_and (x / 2) (y / 2)
bit_and_low zero y = omega (arith, common-bit_and 0 0 y, common-bit_and 0 0 (y / 2))
bit_and_low (suc x) y =
    omega (arith, bit_and-bitwise (suc x) y, common-bit_and x (suc x / 2) (y / 2) (omega arith))

nothing_common : (bound x : ℕ) → x ≤ bound → bit_and x 0 ≡ 0
nothing_common bound x le = sym (common-bit_and bound x 0 le) ∙ go bound x
  where
    go : (rounds y : ℕ) → common rounds y 0 ≡ 0
    go zero y = refl
    go (suc rounds) zero = refl
    go (suc rounds) (suc y) = omega (arith, go rounds (suc y / 2))

all_common : (bound x : ℕ) → x ≤ bound → bit_and x x ≡ x
all_common zero x le = let at : x ≡ 0 = omega arith in rw at (omega (arith, common-bit_and 0 0 0))
all_common (suc bound) x le = elim (ℕ_discrete x 0) [
  | yes at ↦ rw at (omega (arith, common-bit_and 0 0 0))
  | no pos ↦ omega (arith, bit_and_low x x, all_common bound (x / 2) (omega arith))
]

mod-double : (m a : ℕ) → 0 < m → a % (2 * m) ≡ a / 2 % m * 2 + a % 2
mod-double m a h =
    rw (split, mul-add-mod_self_left (2 * m) (a / 2 / m) (a / 2 % m * 2 + a % 2))
      (rw (mod-eq_of_lt small) refl)
  where
    split : a % (2 * m) ≡ (2 * m * (a / 2 / m) + (a / 2 % m * 2 + a % 2)) % (2 * m)
    split = ap (λ (t : ℕ). t % (2 * m)) (omega (arith, div-add-mod (a / 2) m))

    small : a / 2 % m * 2 + a % 2 < 2 * m
    small = omega (arith, mod-lt (a / 2) h)

-- A mask of k ones keeps the k low digits.
pub bit_and_mask : (k a : ℕ) → bit_and a (2 ^ k - 1) ≡ a % 2 ^ k
bit_and_mask zero a = omega (arith, nothing_common a a (omega arith))
bit_and_mask (suc k) a = omega (
  arith,
  bit_and_low a (2 ^ suc k - 1),
  ap (bit_and (a / 2)) half,
  bit_and_mask k (a / 2),
  mod-double (2 ^ k) a (one-le-pow k 2 (omega arith)),
  ap (λ (m : ℕ). a % m) double,
  pow-suc 2 k,
  one-le-pow k 2 (omega arith),
)
  where
    double : 2 ^ suc k ≡ 2 * 2 ^ k
    double = omega (arith, pow-suc 2 k)

    half : (2 ^ suc k - 1) / 2 ≡ 2 ^ k - 1
    half = omega (arith, pow-suc 2 k, one-le-pow k 2 (omega arith))

power_upto : (f n : ℕ) → n ≤ f → n ≢ 0 → bit_and n (n - 1) ≡ 0 → (k : ℕ) × (n ≡ 2 ^ k)
power_upto zero n h nz e = absurd (nz (omega arith))
power_upto (suc f) n h nz e = elim (ℕ_discrete (n % 2) 0) [
  | yes even ↦
      let (k, p) = power_upto f (n / 2) (omega arith) (omega arith) (halved even) in
      (suc k, omega (arith, p, pow-suc 2 k))
  | no odd ↦ (0, omega (arith, alone odd))
]
  where
    halved : n % 2 ≡ 0 → bit_and (n / 2) (n / 2 - 1) ≡ 0
    halved even =
        let same : (n - 1) / 2 ≡ n / 2 - 1 = omega arith in
        omega (arith, bit_and_low n (n - 1), ap (bit_and (n / 2)) same)

    alone : n % 2 ≢ 0 → n / 2 ≡ 0
    alone odd =
        let same : (n - 1) / 2 ≡ n / 2 = omega arith in
        omega (
          arith,
          bit_and_low n (n - 1),
          ap (bit_and (n / 2)) same,
          all_common (n / 2) (n / 2) (omega arith),
        )

-- Only a power of two has no digit in common with its predecessor.
pub power_of_bit_and : (n : ℕ) → n ≢ 0 → bit_and n (n - 1) ≡ 0 → (k : ℕ) × (n ≡ 2 ^ k)
power_of_bit_and n = power_upto n n (omega arith)
