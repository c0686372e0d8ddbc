-- ===== src/Discovery/Beacon.antt =====
-- firmware/vanilla/DiscoveryManager.cpp. A `uint32_t` time wraps at 2 ^ 32. The radio, the clock and
-- the UDP socket answer through `Env`; what is sent to them is a list of effects; the signer is a
-- parameter.
use vehicle_spy.Base.{
  ℕ, ◌+◌, ◌-◌, ◌/◌, ◌%◌, ◌^◌, Bool, true, false, not, List, [], ◌∷◌, ◌++◌, ltb, leb, ◌==◌,
  if◌then◌else◌, replicate,
}
use vehicle_spy.Base.Text.{Text}
use vehicle_spy.Discovery.Packet.{magic, version_and_type, write_be, write_be16, packet_len}

abbrev pub clock_mod : ℕ
clock_mod = 2 ^ 32

-- `a - b` on `uint32_t`.
abbrev pub since : ℕ → ℕ → ℕ
since a b = (a + clock_mod - b) % clock_mod

pub record Manager : Type 0 where
  pub device_id : List ℕ
  pub connect_time : ℕ
  pub last_broadcast : ℕ
  pub backoff_active : Bool
  pub broadcast_count : ℕ
  pub reset_count : ℕ

pub record Env : Type 0 where
  pub mode : ℕ
  pub millis : ℕ
  pub timestamp : ℕ
  pub broadcast_ip : Text
  pub begin_packet_ok : Bool
  pub written : ℕ
  pub end_packet_ok : Bool

pub data Effect : Type 0 where
  begin_udp : ℕ → Effect
  begin_packet : Text → ℕ → Effect
  write : List ℕ → Effect
  end_packet : Effect
  callback : List ℕ → Effect

abbrev pub discovery_port : ℕ
discovery_port = 3335

abbrev pub tcp_port : ℕ
tcp_port = 3333

abbrev pub ota_http_port : ℕ
ota_http_port = 80

-- Backoff schedule.
unfoldable pub discovery_interval : ℕ → ℕ
discovery_interval age =
    if ltb age 120000
    then 500
    else if ltb age 300000
    then 10000
    else if ltb age 600000
    then 30000
    else 10000

-- `memcpy` of a `uint32_t` on a little-endian device, and four zeros.
abbrev pub nonce_field : ℕ → List ℕ
nonce_field n = n % 256 ∷ n / 256 % 256 ∷ n / 65536 % 256 ∷ n / 16777216 % 256 ∷ 0 ∷ 0 ∷ 0 ∷ 0 ∷ []

unfoldable pub build_header : List ℕ → ℕ → ℕ → ℕ → ℕ → List ℕ
unfolding write_be16
build_header id tcp ota time nonce =
    magic
    ++ (version_and_type
        ++ (id ++ (nonce_field nonce ++ (write_be 8 time ++ (write_be16 tcp ++ write_be16 ota)))))

unfoldable pub build_discovery_packet : List ℕ → ℕ → ℕ → ℕ → ℕ → List ℕ
build_discovery_packet id tcp ota time nonce = build_header id tcp ota time nonce ++ replicate 64 0

unfoldable pub reset_backoff : Manager → ℕ → Manager
reset_backoff m now = record m {
  connect_time = now;
  last_broadcast = 0;
  backoff_active = true;
  reset_count = (m.reset_count + 1) % clock_mod;
}

unfoldable pub init : Manager → Env → Manager × List Effect
init m e = (reset_backoff m e.millis, begin_udp discovery_port ∷ [])

-- Access point (2) or station (1).
unfoldable pub should_broadcast : Env → Bool
should_broadcast e = if e.mode == 2 then true else if e.mode == 1 then true else false

module _ (sign : List ℕ → List ℕ) where
  pub packet_at : Manager → Env → List ℕ
  packet_at m e =
      sign (build_discovery_packet m.device_id tcp_port ota_http_port e.timestamp e.millis)

  unfoldable pub broadcast : Manager → Env → Manager × List Effect × Bool
  unfolding packet_at
  broadcast m e =
      let packet = packet_at m e in
      let opening = begin_packet e.broadcast_ip discovery_port in
      if not e.begin_packet_ok
      then (m, opening ∷ [], false)
      else if not (e.written == packet_len)
      then (m, opening ∷ write packet ∷ [], false)
      else if not e.end_packet_ok
      then (m, opening ∷ write packet ∷ end_packet ∷ [], false)
      else (
        record m { broadcast_count = (m.broadcast_count + 1) % clock_mod },
        opening ∷ write packet ∷ end_packet ∷ callback packet ∷ [],
        true,
      )

  unfoldable pub update : Manager → Env → ℕ → Manager × List Effect
  update m e now =
      let interval = discovery_interval (since now m.connect_time) in
      let sent = broadcast (record m { last_broadcast = now }) e in
      if not (should_broadcast e)
      then (m, [])
      else if leb interval (since now m.last_broadcast)
      then (sent.0, sent.1)
      else (m, [])
