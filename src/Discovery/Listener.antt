-- ===== src/Discovery/Listener.antt =====
-- src/discovery/UDPDiscovery.cpp: the host's search for devices. What the socket reports is an
-- argument: a datagram is the sender's address and the bytes; at the end of a list recvFrom has
-- nothing more. The log lines and the callback are left out, and so is the clock: the windows are
-- those that begin before the deadline.
use vehicle_spy.Base.{
  ℕ, ◌/◌, ◌%◌, ◌^◌, Bool, true, false, ◌||◌, Option, none, some, List, [], ◌∷◌, ◌++◌, if◌then◌else◌,
}
use vehicle_spy.Base.Text.{Text, text_eq}
use vehicle_spy.Base.Decimal.{print_dec}
use vehicle_spy.Discovery.Packet.{DiscoveryPacket, parse}

pub record Device : Type 0 where
  pub device_id : List ℕ
  pub address : Text
  pub can_port : ℕ
  pub ota_port : ℕ
  pub timestamp : ℕ

unfoldable pub ipv4_dotted_quad : ℕ → Text
unfolding print_dec
ipv4_dotted_quad a =
    print_dec (a / 2 ^ 24 % 256)
    ++ b'.'
      ∷ (print_dec (a / 2 ^ 16 % 256)
          ++ b'.' ∷ (print_dec (a / 2 ^ 8 % 256) ++ b'.' ∷ print_dec (a % 256)))

abbrev pub device_of : ℕ → DiscoveryPacket → Device
device_of from packet = record {
  device_id = packet.device_id;
  address = ipv4_dotted_quad from;
  can_port = packet.can_port;
  ota_port = packet.ota_port;
  timestamp = packet.timestamp;
}

abbrev pub received_from : ℕ → Option DiscoveryPacket → Option Device
received_from from none = none
received_from from (some packet) = some (device_of from packet)

-- One packet; neither its time nor its signature is looked at.
unfoldable pub try_receive : ℕ × List ℕ → Option Device
unfolding parse ipv4_dotted_quad
try_receive (from, bytes) = received_from from (parse bytes)

abbrev pub received_then : Option Device → List Device → List Device
received_then none later = []
received_then (some device) later = device ∷ later

-- `while (tryReceive())`: what is pushed until a datagram is refused.
unfoldable pub drain : List (ℕ × List ℕ) → List Device
unfolding try_receive
drain [] = []
drain (datagram ∷ more) = received_then (try_receive datagram) (drain more)

-- What a window of at most 100 ms brings.
pub data Window : Type 0 where
  stop_requested interrupted failed silent : Window
  readable : List (ℕ × List ℕ) → Window

abbrev pub is_empty : List Device → Bool
is_empty [] = true
is_empty (d ∷ ds) = false

-- What is pending, and whether polling goes on.
unfoldable pub poll_step : Window → List Device → List Device × Bool
unfolding drain
poll_step stop_requested pending = (pending, false)
poll_step interrupted pending = (pending, false)
poll_step failed pending = (pending, true)
poll_step silent pending = (pending, is_empty pending)
poll_step (readable datagrams) pending =
    let found = pending ++ drain datagrams in (found, is_empty found)

unfoldable pub seen_before : Text → List Text → Bool
unfolding text_eq
seen_before a [] = false
seen_before a (b ∷ seen) = text_eq a b || seen_before a seen

unfoldable pub drain_pending_deduplicated : List Text → List Device → List Device
unfolding seen_before
drain_pending_deduplicated seen [] = []
drain_pending_deduplicated seen (d ∷ ds) =
    let known = drain_pending_deduplicated seen ds in
    let added = d ∷ drain_pending_deduplicated (seen ++ d.address ∷ []) ds in
    if seen_before d.address seen then known else added

unfoldable pub poll_loop : List Window → List Device → List Device
unfolding poll_step
poll_loop [] pending = pending
poll_loop (w ∷ ws) pending =
    let after = poll_step w pending in
    let rest = poll_loop ws after.0 in if after.1 then rest else after.0

unfoldable pub poll : List Window → List Device → List Device
unfolding poll_loop drain_pending_deduplicated
poll windows pending = drain_pending_deduplicated [] (poll_loop windows pending)
