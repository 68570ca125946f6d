-- ===== src/Livox/Callback/Setup.antt =====
-- When a device that the configuration names starts to sample (livox_lidar_callback.cpp).
use sentry25navi.Prelude.{
  ℕ, ◌≡◌, refl, sym, ◌∙◌, true, false, List, [], ◌∷◌, ◌==◌, ==_iff, arith, Bool-cases, inl, inr,
}
use sentry25navi.Livox.Comm.{UserLivoxLidarConfig, LidarDevice}
use sentry25navi.Livox.Lddc.Polling.{is_sampling}
use sentry25navi.Livox.Callback.{
  LivoxStatus, success, timeout, failure, is_set, mark, pending_bits, option_commands, clear_bit,
  configured, acknowledged,
}
use sentry25navi.Livox.Callback.Pending.{
  Setting, data_type, scan_pattern, blind_spot, dual_emit, bit_of, Awaited, bits_of, is_nothing,
  without, all_sets_sound, is_nothing-bits_of, clear_bit-bits_of,
}

-- The answers to the options of one device, in any order and any number: only a success has an effect.
pub data Answer : Type 0 where
  answer : Setting → LivoxStatus → Answer

-- What is still awaited after them.
unfoldable pub awaited : Awaited → List Answer → Awaited
awaited w [] = w
awaited w (answer o success ∷ rest) = awaited (without o w) rest
awaited w (answer o timeout ∷ rest) = awaited w rest
awaited w (answer o failure ∷ rest) = awaited w rest

is_nothing-without :
    (o : Setting) (w : Awaited) → is_nothing (without o w) ≡ false → is_nothing w ≡ false
is_nothing-without data_type w h = ground (arith, h)
is_nothing-without scan_pattern w h = ground (arith, h)
is_nothing-without blind_spot w h = ground (arith, h)
is_nothing-without dual_emit w h = ground (arith, h)

module _ {F : Type 0} where
  unfoldable pub answered : LidarDevice F → List Answer → LidarDevice F
  answered lidar [] = lidar
  answered lidar (answer o success ∷ rest) = answered (acknowledged (bit_of o) lidar) rest
  answered lidar (answer o timeout ∷ rest) = answered lidar rest
  answered lidar (answer o failure ∷ rest) = answered lidar rest

  -- A device samples exactly when nothing is awaited, and stays so through the answers.
  pub answered-awaited :
      (answers : List Answer) (lidar : LidarDevice F) (w : Awaited)
      → lidar.livox_config.set_bits ≡ bits_of w
      → is_sampling lidar.connect_state ≡ is_nothing w
      → ((answered lidar answers).livox_config.set_bits ≡ bits_of (awaited w answers))
        × (is_sampling (answered lidar answers).connect_state ≡ is_nothing (awaited w answers))
  unfolding answered awaited acknowledged
  answered-awaited [] lidar w bits same = (bits, same)
  answered-awaited (answer o timeout ∷ rest) lidar w bits same =
      answered-awaited rest lidar w bits same
  answered-awaited (answer o failure ∷ rest) lidar w bits same =
      answered-awaited rest lidar w bits same
  answered-awaited (answer o success ∷ rest) lidar w bits same =
      answered-awaited rest (acknowledged (bit_of o) lidar) (without o w)
        (rw bits (clear_bit-bits_of o w)) (starts o lidar w bits same)
    where
      starts :
          (o : Setting) (lidar : LidarDevice F) (w : Awaited)
          → lidar.livox_config.set_bits ≡ bits_of w
          → is_sampling lidar.connect_state ≡ is_nothing w
          → is_sampling (acknowledged (bit_of o) lidar).connect_state ≡ is_nothing (without o w)
      starts o lidar w bits same =
          let left = clear_bit-bits_of o w in
          let test : (clear_bit (bit_of o) lidar.livox_config.set_bits == 0)
              ≡ is_nothing (without o w) =
            rw (bits, left) (is_nothing-bits_of (without o w)) in
          elim (Bool-cases (is_nothing (without o w))) [
            | inl empty ↦ ground (arith, test, empty)
            | inr more ↦ ground (arith, test, more, same, is_nothing-without o w more)
          ]

  -- The options that a configuration sets.
  abbrev pub wanted : UserLivoxLidarConfig F → Awaited
  wanted config = record {
    data_type = is_set config.pcl_data_type;
    scan_pattern = is_set config.pattern_mode;
    blind_spot = is_set config.blind_spot_set;
    dual_emit = is_set config.dual_emit_en;
  }

  pending_bits-wanted :
      (config : UserLivoxLidarConfig F)
      → config.set_bits ≡ 0
      → pending_bits config ≡ bits_of (wanted config)
  unfolding pending_bits mark
  pending_bits-wanted config clean = rw clean (
      (==_iff _ _).0 (
        all_sets_sound
          (λ w.
            mark w.dual_emit 8 (mark w.blind_spot 4 (mark w.scan_pattern 2 (mark w.data_type 1 0)))
            == bits_of w)
          refl (wanted config)))

  -- A device that is set up with at least one option, and does not sample yet, samples exactly when each
  -- of its options had a successful answer, whatever the order of the answers, the failures and the
  -- repetitions between.
  pub configured_lem :
      (answers : List Answer) (lidar : LidarDevice F)
      → lidar.livox_config.set_bits ≡ 0
      → is_sampling lidar.connect_state ≡ false
      → is_nothing (wanted lidar.livox_config) ≡ false
      → is_sampling (answered (configured lidar) answers).connect_state
        ≡ is_nothing (awaited (wanted lidar.livox_config) answers)
  unfolding configured
  configured_lem answers lidar clean still some_option =
      (answered-awaited answers (configured lidar) (wanted lidar.livox_config)
        (pending_bits-wanted lidar.livox_config clean) (still ∙ sym some_option)).1

  -- A device whose configuration sets no option is asked for none, so that no answer comes that would make
  -- it sample, and its set-up leaves it as it was.
  pub configured_nothing :
      (handle : ℕ) (lidar : LidarDevice F)
      → is_nothing (wanted lidar.livox_config) ≡ true
      → (option_commands handle lidar.livox_config ≡ []) × (configured lidar ≡ lidar)
  unfolding configured option_commands pending_bits mark
  configured_nothing handle lidar no_option = (ground (arith, no_option), ground (arith, no_option))
