-- ===== src/Livox/PubHandler/Stamp.antt =====
-- The time stamp of a packet, `LdsStamp` of comm/comm.h and `GetEthPacketTimestamp` of comm/pub_handler.cpp.
use native.Mathlib.Nat.{pow-suc}
use sentry25navi.Prelude.{
  ℕ, zero, suc, ◌+◌, ◌*◌, ◌/◌, ◌%◌, ◌^◌, ◌<◌, ◌≡◌, refl, ◌||◌, List, [], ◌∷◌, ◌==◌, if◌then◌else◌,
  arith,
}

-- The union of eight bytes and a number, on a host with the low byte first.
unfoldable pub stamp_of_bytes : List ℕ → ℕ
stamp_of_bytes [] = 0
stamp_of_bytes (b ∷ bytes) = b + 256 * stamp_of_bytes bytes

-- `kTimestampTypeGptpOrPtp` and `kTimestampTypeGps`
abbrev pub gptp_or_ptp : ℕ
gptp_or_ptp = 1

abbrev pub gps : ℕ
gps = 2

-- A lidar with no synchronised time gets the time of the clock.
unfoldable pub get_eth_packet_timestamp : ℕ → List ℕ → ℕ → ℕ
unfolding stamp_of_bytes
get_eth_packet_timestamp timestamp_type time_stamp now =
    if (timestamp_type == gptp_or_ptp) || (timestamp_type == gps)
    then stamp_of_bytes time_stamp
    else now

-- A number in `n` bytes, the low byte first, as a lidar writes it.
abbrev pub bytes_of : ℕ → ℕ → List ℕ
bytes_of zero t = []
bytes_of (suc n) t = (t % 256) ∷ bytes_of n (t / 256)

stamp_of_bytes-bytes_of : (n t : ℕ) → t < 256 ^ n → stamp_of_bytes (bytes_of n t) ≡ t
unfolding stamp_of_bytes
stamp_of_bytes-bytes_of zero t h = omega arith
stamp_of_bytes-bytes_of (suc n) t h =
    omega (arith, stamp_of_bytes-bytes_of n (t / 256) (omega (arith, pow-suc 256 n)))

-- A time stamp that fits in eight bytes and was written low byte first is read back from a packet whose
-- clock is synchronised, by PTP or by GPS; with any other clock the packet gets the time of the host.
pub get_eth_packet_timestamp-bytes_of :
    (timestamp_type t now : ℕ)
    → t < 2 ^ 64
    → get_eth_packet_timestamp timestamp_type (bytes_of 8 t) now
      ≡ (if (timestamp_type == gptp_or_ptp) || (timestamp_type == gps) then t else now)
unfolding get_eth_packet_timestamp
get_eth_packet_timestamp-bytes_of timestamp_type t now h = rw (stamp_of_bytes-bytes_of 8 t h) refl
