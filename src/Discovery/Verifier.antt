-- ===== src/Discovery/Verifier.antt =====
-- src/discovery/DiscoveryVerifier.cpp; libsodium's check of a detached signature, of a signature and a
-- payload under the public key, is a parameter. The key file is left out.
use vehicle_spy.Base.{ℕ, ◌-◌, Bool, false, not, List, ltb, leb, if◌then◌else◌}
use vehicle_spy.Discovery.Packet.{DiscoveryPacket, serialize_header}

abbrev pub default_max_clock_skew : ℕ
default_max_clock_skew = 300

unfoldable pub is_timestamp_fresh : ℕ → ℕ → ℕ → Bool
is_timestamp_fresh time now skew =
    if ltb now time then leb (time - now) skew else leb (now - time) skew

module _ (crypto_sign_verify : List ℕ → List ℕ → Bool) where
  unfoldable pub verify_signature : DiscoveryPacket → Bool
  unfolding serialize_header
  verify_signature p = crypto_sign_verify p.signature (serialize_header p)

  unfoldable pub verify : DiscoveryPacket → ℕ → ℕ → Bool
  unfolding verify_signature is_timestamp_fresh
  verify p now skew =
      if not (is_timestamp_fresh p.timestamp now skew) then false else verify_signature p
