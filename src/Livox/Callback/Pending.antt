-- ===== src/Livox/Callback/Pending.antt =====
-- The bits of `set_bits` as the set of options whose answer is awaited (livox_lidar_callback.cpp).
use sentry25navi.Prelude.{
  ℕ, ◌+◌, ◌≡◌, refl, Bool, true, false, not, ◌&&◌, ◌==◌, ==_iff, bit_or, arith,
}
use sentry25navi.Livox.Comm.{
  config_data_type, config_scan_pattern, config_blind_spot, config_dual_emit,
}
use sentry25navi.Livox.Callback.{mark, clear_bit}

pub data Setting : Type 0 where
  data_type scan_pattern blind_spot dual_emit : Setting

abbrev pub bit_of : Setting → ℕ
bit_of data_type = config_data_type
bit_of scan_pattern = config_scan_pattern
bit_of blind_spot = config_blind_spot
bit_of dual_emit = config_dual_emit

pub record Awaited : Type 0 where
  pub data_type : Bool
  pub scan_pattern : Bool
  pub blind_spot : Bool
  pub dual_emit : Bool

abbrev pub digit : Bool → ℕ → ℕ
digit true bit = bit
digit false bit = 0

abbrev pub bits_of : Awaited → ℕ
bits_of w =
    digit w.data_type config_data_type
    + digit w.scan_pattern config_scan_pattern
    + digit w.blind_spot config_blind_spot
    + digit w.dual_emit config_dual_emit

abbrev pub is_nothing : Awaited → Bool
is_nothing w = not w.data_type && (not w.scan_pattern && (not w.blind_spot && not w.dual_emit))

abbrev pub without : Setting → Awaited → Awaited
without data_type w = record w { data_type = false }
without scan_pattern w = record w { scan_pattern = false }
without blind_spot w = record w { blind_spot = false }
without dual_emit w = record w { dual_emit = false }

-- A test of all sets of options.
abbrev pub both_ways : (Bool → Bool) → Bool
both_ways test = test true && test false

both_ways_sound : (test : Bool → Bool) → both_ways test ≡ true → (b : Bool) → test b ≡ true
both_ways_sound test h true = ground (arith, h)
both_ways_sound test h false = ground (arith, h)

abbrev pub all_sets : (Awaited → Bool) → Bool
all_sets test = both_ways (λ a. both_ways (λ b. both_ways (λ c.
    both_ways
      (λ d. test (record { data_type = a; scan_pattern = b; blind_spot = c; dual_emit = d })))))

pub all_sets_sound : (test : Awaited → Bool) → all_sets test ≡ true → (w : Awaited) → test w ≡ true
all_sets_sound test h w =
    both_ways_sound (λ d. at w.data_type w.scan_pattern w.blind_spot d)
      (both_ways_sound (λ c. both_ways (λ d. at w.data_type w.scan_pattern c d))
        (both_ways_sound (λ b. both_ways (λ c. both_ways (λ d. at w.data_type b c d)))
          (both_ways_sound (λ a. both_ways (λ b. both_ways (λ c. both_ways (λ d. at a b c d)))) h
            w.data_type)
          w.scan_pattern)
        w.blind_spot)
      w.dual_emit
  where
    at : Bool → Bool → Bool → Bool → Bool
    at a b c d = test (record { data_type = a; scan_pattern = b; blind_spot = c; dual_emit = d })

pub is_nothing-bits_of : (w : Awaited) → (bits_of w == 0) ≡ is_nothing w
is_nothing-bits_of w = ground arith

pub clear_bit-bits_of :
    (o : Setting) (w : Awaited) → clear_bit (bit_of o) (bits_of w) ≡ bits_of (without o w)
unfolding clear_bit
clear_bit-bits_of data_type w =
    (==_iff _ _).0
      (all_sets_sound (λ w. clear_bit 1 (bits_of w) == bits_of (without data_type w)) refl w)
clear_bit-bits_of scan_pattern w =
    (==_iff _ _).0
      (all_sets_sound (λ w. clear_bit 2 (bits_of w) == bits_of (without scan_pattern w)) refl w)
clear_bit-bits_of blind_spot w =
    (==_iff _ _).0
      (all_sets_sound (λ w. clear_bit 4 (bits_of w) == bits_of (without blind_spot w)) refl w)
clear_bit-bits_of dual_emit w =
    (==_iff _ _).0
      (all_sets_sound (λ w. clear_bit 8 (bits_of w) == bits_of (without dual_emit w)) refl w)

abbrev pub with_set : Setting → Awaited → Awaited
with_set data_type w = record w { data_type = true }
with_set scan_pattern w = record w { scan_pattern = true }
with_set blind_spot w = record w { blind_spot = true }
with_set dual_emit w = record w { dual_emit = true }

pub mark-bits_of :
    (o : Setting) (w : Awaited) → mark true (bit_of o) (bits_of w) ≡ bits_of (with_set o w)
unfolding mark
mark-bits_of data_type w =
    (==_iff _ _).0
      (all_sets_sound (λ w. bit_or (bits_of w) 1 == bits_of (with_set data_type w)) refl w)
mark-bits_of scan_pattern w =
    (==_iff _ _).0
      (all_sets_sound (λ w. bit_or (bits_of w) 2 == bits_of (with_set scan_pattern w)) refl w)
mark-bits_of blind_spot w =
    (==_iff _ _).0
      (all_sets_sound (λ w. bit_or (bits_of w) 4 == bits_of (with_set blind_spot w)) refl w)
mark-bits_of dual_emit w =
    (==_iff _ _).0
      (all_sets_sound (λ w. bit_or (bits_of w) 8 == bits_of (with_set dual_emit w)) refl w)
