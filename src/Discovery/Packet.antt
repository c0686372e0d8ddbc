-- ===== src/Discovery/Packet.antt =====
-- src/discovery/DiscoveryPacket.cpp. The fixed arrays of the source are lists here, and `IsSized` says
-- that they have their length; copies to increasing offsets are a concatenation.
use vehicle_spy.Base.{
  ℕ, zero, suc, ◌+◌, ◌*◌, ◌/◌, ◌%◌, ◌^◌, ◌<◌, ◌≡◌, Bool, true, not, ◌&&◌, List, [], ◌∷◌, ◌++◌, ltb,
  ◌==◌, if◌then◌else◌, length, take, drop, get_or, Option, none, some,
}

pub record DiscoveryPacket : Type 0 where
  pub device_id : List ℕ
  pub nonce : List ℕ
  pub timestamp : ℕ
  pub can_port : ℕ
  pub ota_port : ℕ
  pub signature : List ℕ

abbrev pub magic : List ℕ
magic = 0x56 ∷ 0x53 ∷ 0x49 ∷ 0x4D ∷ []

abbrev pub header_len : ℕ
header_len = 42

abbrev pub packet_len : ℕ
packet_len = 106

unfoldable pub write_be16 : ℕ → List ℕ
write_be16 v = v / 256 % 256 ∷ v % 256 ∷ []

-- The last byte is written first, and the value shifted: `k` bytes.
unfoldable pub write_be : ℕ → ℕ → List ℕ
write_be zero v = []
write_be (suc k) v = write_be k (v / 256) ++ v % 256 ∷ []

unfoldable pub read_be16 : List ℕ → ℕ
read_be16 src = get_or src 0 0 * 256 + get_or src 1 0

-- The loop of readBigEndian64, on a `uint64_t`.
unfoldable pub read_be : ℕ → List ℕ → ℕ
read_be value [] = value
read_be value (b ∷ bs) = read_be (value * 256 % 2 ^ 64 + b) bs

abbrev pub version_and_type : List ℕ
version_and_type = 1 ∷ 1 ∷ []

unfoldable pub serialize_header : DiscoveryPacket → List ℕ
unfolding write_be16
serialize_header p =
    magic
    ++ (version_and_type
        ++ (p.device_id
            ++ (p.nonce
                ++ (write_be 8 p.timestamp ++ (write_be16 p.can_port ++ write_be16 p.ota_port)))))

unfoldable pub to_bytes : DiscoveryPacket → List ℕ
to_bytes p = serialize_header p ++ p.signature

abbrev pub slice : ℕ → ℕ → List ℕ → List ℕ
slice offset len bytes = take len (drop offset bytes)

-- The loop that compares the magic number, from index `i` on.
unfoldable pub has_magic : List ℕ → ℕ → List ℕ → Bool
has_magic [] i bytes = true
has_magic (m ∷ ms) i bytes = get_or bytes i 0 == m && has_magic ms (suc i) bytes

unfoldable pub parse : List ℕ → Option DiscoveryPacket
unfolding has_magic read_be16
parse bytes =
    if ltb (length bytes) packet_len
    then none
    else if not (has_magic magic 0 bytes)
    then none
    else if not (get_or bytes 4 0 == 1)
    then none
    else if not (get_or bytes 5 0 == 1)
    then none
    else if read_be16 (drop 38 bytes) == 0
    then none
    else some (record {
      device_id = slice 6 16 bytes;
      nonce = slice 22 8 bytes;
      timestamp = read_be 0 (slice 30 8 bytes);
      can_port = read_be16 (drop 38 bytes);
      ota_port = read_be16 (drop 40 bytes);
      signature = slice header_len 64 bytes;
    })

-- The arrays have their declared lengths and the numbers their declared widths.
pub record IsSized (p : DiscoveryPacket) : Type 0 where
  pub device_id_len : length p.device_id ≡ 16
  pub nonce_len : length p.nonce ≡ 8
  pub signature_len : length p.signature ≡ 64
  pub timestamp_fits : p.timestamp < 2 ^ 64
  pub can_port_fits : p.can_port < 2 ^ 16
  pub ota_port_fits : p.ota_port < 2 ^ 16
