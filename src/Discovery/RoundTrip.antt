-- ===== src/Discovery/RoundTrip.antt =====
-- A discovery packet survives the wire.
use native.Mathlib.Nat.{pow-le-pow_right}
use vehicle_spy.Base.{
  ℕ, zero, suc, ◌+◌, ◌*◌, ◌/◌, ◌%◌, ◌^◌, ◌<◌, ◌≤◌, ◌≡◌, ◌≢◌, refl, sym, ap, ◌∙◌, arith, false, List,
  [], ◌∷◌, ◌++◌, length, take, drop, take_exact, drop_past, take_le, le→not-ltb, ◌==◌, some,
  length-append, append_assoc,
}
use vehicle_spy.Base.Bits.{pow_add}
use vehicle_spy.Discovery.Beacon.{build_header, nonce_field}
use vehicle_spy.Discovery.Packet.{
  DiscoveryPacket, IsSized, write_be, read_be, read_be16, to_bytes, serialize_header, parse, slice,
  magic,
}

pub length-write_be : (k v : ℕ) → length (write_be k v) ≡ k
unfolding write_be
length-write_be zero v = refl
length-write_be (suc k) v =
    omega (arith, length-append (write_be k (v / 256)) (v % 256 ∷ []), length-write_be k (v / 256))

read_be-append :
    (value : ℕ) (bs : List ℕ) (b : ℕ)
    → read_be value (bs ++ b ∷ []) ≡ read_be value bs * 256 % 2 ^ 64 + b
unfolding read_be
read_be-append value [] b = refl
read_be-append value (c ∷ bs) b = read_be-append (value * 256 % 2 ^ 64 + c) bs b

-- Eight bytes at most, so nothing is shifted out.
read_be-write_be : (k v : ℕ) → v < 2 ^ (8 * k) → k ≤ 8 → read_be 0 (write_be k v) ≡ v
unfolding write_be read_be
read_be-write_be zero v h l = omega arith
read_be-write_be (suc k) v h l =
    let width : 2 ^ (8 * suc k) ≡ 256 * 2 ^ (8 * k) =
      ap (λ (t : ℕ). 2 ^ t) (omega arith) ∙ pow_add 8 (8 * k) in
    let fits : 2 ^ (8 * suc k) ≤ 2 ^ 64 =
      pow-le-pow_right {n = 2} (omega arith) {i = 8 * suc k} {j = 64} (omega arith) in
    read_be-append 0 (write_be k (v / 256)) (v % 256)
    ∙ omega (arith, read_be-write_be k (v / 256) (omega arith) (omega arith))

-- The bytes of a packet, part by part.
abbrev layout : List ℕ → List ℕ → List ℕ → ℕ → ℕ → ℕ → ℕ → List ℕ → List ℕ
layout id nonce time c0 c1 o0 o1 signature =
    magic ++ 1 ∷ 1 ∷ (id ++ (nonce ++ (time ++ (c0 ∷ c1 ∷ o0 ∷ o1 ∷ signature))))

module _ (id nonce time : List ℕ) (c0 c1 o0 o1 : ℕ) (signature : List ℕ) (id_len : length id ≡ 16)
    (nonce_len : length nonce ≡ 8) (time_len : length time ≡ 8)
    (signature_len : length signature ≡ 64) where
  tail_of : List ℕ
  tail_of = c0 ∷ c1 ∷ o0 ∷ o1 ∷ signature

  behind_id :
      (k : ℕ)
      → drop (16 + k) (id ++ (nonce ++ (time ++ tail_of))) ≡ drop k (nonce ++ (time ++ tail_of))
  behind_id k = drop_past 16 k id _ id_len

  behind_time : (k : ℕ) → drop (32 + k) (id ++ (nonce ++ (time ++ tail_of))) ≡ drop k tail_of
  behind_time k =
      ap (λ (t : ℕ). drop t (id ++ (nonce ++ (time ++ tail_of)))) (omega arith)
      ∙ behind_id (8 + (8 + k))
      ∙ drop_past 8 (8 + k) nonce (time ++ tail_of) nonce_len
      ∙ drop_past 8 k time tail_of time_len

  length-layout : 106 ≤ length (layout id nonce time c0 c1 o0 o1 signature)
  length-layout = omega (
    arith,
    length-append id (nonce ++ (time ++ (c0 ∷ c1 ∷ o0 ∷ o1 ∷ signature))),
    length-append nonce (time ++ (c0 ∷ c1 ∷ o0 ∷ o1 ∷ signature)),
    length-append time (c0 ∷ c1 ∷ o0 ∷ o1 ∷ signature),
  )

  pub parse-layout :
      c0 * 256 + c1 ≢ 0
      → parse (layout id nonce time c0 c1 o0 o1 signature)
        ≡ some (record {
          device_id = id;
          nonce = nonce;
          timestamp = read_be 0 time;
          can_port = c0 * 256 + c1;
          ota_port = o0 * 256 + o1;
          signature = signature;
        })
  unfolding parse tail_of read_be16
  parse-layout port =
      rw
        (
          le→not-ltb (length (layout id nonce time c0 c1 o0 o1 signature)) 106 length-layout,
          behind_time 0,
          not_zero,
        )
        (λ i. some (record {
          device_id = take_exact 16 id (nonce ++ (time ++ tail_of)) id_len i;
          nonce = nonce_at i;
          timestamp = read_be 0 (time_at i);
          can_port = c0 * 256 + c1;
          ota_port = read_be16 (behind_time 2 i);
          signature = signature_at i;
        }))
    where
      not_zero : ((c0 * 256 + c1) == 0) ≡ false
      not_zero = ground arith

      nonce_at : slice 22 8 (layout id nonce time c0 c1 o0 o1 signature) ≡ nonce
      nonce_at = ap (take 8) (behind_id 0) ∙ take_exact 8 nonce (time ++ tail_of) nonce_len

      time_at : slice 30 8 (layout id nonce time c0 c1 o0 o1 signature) ≡ time
      time_at =
          ap (take 8) (behind_id 8 ∙ drop_past 8 0 nonce (time ++ tail_of) nonce_len)
          ∙ take_exact 8 time tail_of time_len

      signature_at : slice 42 64 (layout id nonce time c0 c1 o0 o1 signature) ≡ signature
      signature_at = ap (take 64) (behind_time 4) ∙ take_le 64 signature (omega arith)

pub write_be16_value : (v : ℕ) → v < 2 ^ 16 → v / 256 % 256 * 256 + v % 256 ≡ v
write_be16_value v h = omega arith

to_bytes-layout :
    (p : DiscoveryPacket)
    → to_bytes p
      ≡ layout p.device_id p.nonce
          (write_be 8 p.timestamp)
          (p.can_port / 256 % 256)
          (p.can_port % 256)
          (p.ota_port / 256 % 256)
          (p.ota_port % 256)
          p.signature
unfolding to_bytes serialize_header
to_bytes-layout p = simp append_assoc

-- A packet whose arrays and numbers have their declared sizes, and whose CAN port is not 0, is read
-- back from its bytes.
pub parse-to_bytes :
    (p : DiscoveryPacket) → IsSized p → p.can_port ≢ 0 → parse (to_bytes p) ≡ some p
parse-to_bytes p v port =
    let can = write_be16_value p.can_port v.can_port_fits in
    ap parse (to_bytes-layout p)
    ∙ parse-layout p.device_id p.nonce (write_be 8 p.timestamp) _ _ _ _ p.signature v.device_id_len
        v.nonce_len (length-write_be 8 p.timestamp) v.signature_len (λ e. port (sym can ∙ e))
    ∙ (λ i. some (record {
      device_id = p.device_id;
      nonce = p.nonce;
      timestamp = read_be-write_be 8 p.timestamp v.timestamp_fits (omega arith) i;
      can_port = can i;
      ota_port = write_be16_value p.ota_port v.ota_port_fits i;
      signature = p.signature;
    }))

-- The host reads the beacon that the firmware builds from an identifier of 16 bytes, a time
-- below 2 ^ 64 and ports below 2 ^ 16, the TCP port not 0, whatever 64 bytes stand behind the
-- header: the identifier, the time, the ports, and the nonce as four little-endian bytes and
-- four zeros.
pub parse-build_header :
    (id : List ℕ) (tcp ota time nonce : ℕ) (signature : List ℕ)
    → length id ≡ 16
    → length signature ≡ 64
    → time < 2 ^ 64
    → tcp < 2 ^ 16
    → ota < 2 ^ 16
    → tcp ≢ 0
    → parse (build_header id tcp ota time nonce ++ signature)
      ≡ some (record {
        device_id = id;
        nonce = nonce_field nonce;
        timestamp = time;
        can_port = tcp;
        ota_port = ota;
        signature = signature;
      })
unfolding build_header
parse-build_header id tcp ota time nonce signature a b t c o port =
    let can = write_be16_value tcp c in
    simp append_assoc (
      parse-layout id (nonce_field nonce) (write_be 8 time) _ _ _ _ signature a refl
        (length-write_be 8 time) b (λ e. port (sym can ∙ e))
      ∙ (λ i. some (record {
        device_id = id;
        nonce = nonce_field nonce;
        timestamp = read_be-write_be 8 time t (omega arith) i;
        can_port = can i;
        ota_port = write_be16_value ota o i;
        signature = signature;
      })))
