-- ===== src/Livox/Ldq/Pow2.antt =====
-- The number of slots that `InitQueue` makes of a requested size (ldq.h and ldq.cpp).
use native.Mathlib.Nat.{pow-suc, one-le-pow}
use sentry25navi.Prelude.{
  ℕ, zero, suc, ◌+◌, ◌-◌, ◌*◌, ◌^◌, ◌≤◌, ◌<◌, ◌≡◌, ◌≢◌, refl, inl, inr, ap, true, false, Bool-cases,
  arith, leb, leb→le, not-leb→lt,
}
use native.Mathlib.Numerals.{add-one}
use sentry25navi.Prelude.Bits.{power_of_bit_and}
use sentry25navi.Prelude.Word.{u32_mod, ◌-u32◌}
use sentry25navi.Livox.Ldq.{is_power_of_2, roundup_loop, roundup_power_of_2, init_size}

pub pow-lt-pow : (k n : ℕ) → 2 ^ k < 2 ^ n → k < n
pow-lt-pow zero zero h = absurd (omega arith)
pow-lt-pow zero (suc n) h = omega arith
pow-lt-pow (suc k) zero h = absurd (omega (arith, one-le-pow (suc k) 2 (omega arith)))
pow-lt-pow (suc k) (suc n) h =
    omega (arith, pow-lt-pow k n (omega (arith, pow-suc 2 k, pow-suc 2 n)))

-- What a slot count `r` for the request `n` has to be.
pub record IsRoundedUp (n r : ℕ) : Type 0 where
  pub width : ℕ
  pub width_lt : width < 32
  pub power : r ≡ 2 ^ width
  pub enough : n ≤ r
  pub tight : r < 2 * n

roundup_loop-IsRoundedUp :
    (rounds i size p : ℕ)
    → rounds + i ≡ 32
    → size ≤ 2 ^ 31
    → 2 ^ i < 2 * size
    → IsRoundedUp size (roundup_loop rounds i size p)
unfolding roundup_loop
roundup_loop-IsRoundedUp zero i size p e small h =
    let at_end : i ≡ 32 = omega arith in absurd (omega (arith, ap (λ (t : ℕ). 2 ^ t) at_end))
roundup_loop-IsRoundedUp (suc rounds) i size p e small h = elim (Bool-cases (leb size (2 ^ i))) [
  | inl fits ↦ rw fits (record {
    width = i;
    width_lt = omega arith;
    power = refl;
    enough = leb→le size (2 ^ i) fits;
    tight = h;
  })
  | inr more ↦
      rw more (roundup_loop-IsRoundedUp rounds (i + 1) size (2 ^ i) (omega arith) small (next more))
]
  where
    next : leb size (2 ^ i) ≡ false → 2 ^ (i + 1) < 2 * size
    next more = rw add-one (omega (arith, pow-suc 2 i, not-leb→lt size (2 ^ i) more))

is_power_of_2-power : (n : ℕ) → n < u32_mod → is_power_of_2 n ≡ true → (k : ℕ) × (n ≡ 2 ^ k)
unfolding is_power_of_2
is_power_of_2-power n small h = power_of_bit_and n (ground arith) (ground (arith, before))
  where
    before : n ≢ 0 → n -u32 1 ≡ n - 1
    before nz = omega arith

-- `InitQueue` gives the least power of two that holds the requested number of packets, for each
-- request from 1 to 2 ^ 31.
pub init_size-IsRoundedUp : (n : ℕ) → 0 < n → n ≤ 2 ^ 31 → IsRoundedUp n (init_size n)
unfolding init_size roundup_power_of_2
init_size-IsRoundedUp n pos small = elim (Bool-cases (is_power_of_2 n)) [
  | inl is ↦ rw is (kept (is_power_of_2-power n (omega arith) is))
  | inr isnt ↦ rw isnt (roundup_loop-IsRoundedUp 32 0 n 0 refl small (omega arith))
]
  where
    kept : (k : ℕ) × (n ≡ 2 ^ k) → IsRoundedUp n n
    kept (k, e) = record {
      width = k;
      width_lt = pow-lt-pow k 32 (omega arith);
      power = e;
      enough = omega arith;
      tight = omega arith;
    }
