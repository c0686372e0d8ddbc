-- ===== src/Tests/Discovering.antt =====
-- The discovery beacon.
use vehicle_spy.Base.{ℕ, ◌≤◌, ◌≡◌, ◌≢◌, refl, arith, true, List, [], replicate}
use vehicle_spy.Base.Text.{codes}
use vehicle_spy.Discovery.Packet.{DiscoveryPacket, IsSized}
use vehicle_spy.Discovery.Beacon.{
  Manager, Env, update, discovery_interval, broadcast, should_broadcast, since,
}
use vehicle_spy.Discovery.Cadence.{update_when_due}
use vehicle_spy.Discovery.Search.{Announcement}

abbrev device : List ℕ
device = replicate 16 0xDE

abbrev signature_bytes : List ℕ
signature_bytes = replicate 64 0x5A

abbrev packet : DiscoveryPacket
packet = record {
  device_id = device;
  nonce = replicate 8 7;
  timestamp = 1700000000;
  can_port = 3333;
  ota_port = 80;
  signature = signature_bytes;
}

packet-IsSized : IsSized packet
packet-IsSized = record {
  device_id_len = refl;
  nonce_len = refl;
  signature_len = refl;
  timestamp_fits = omega arith;
  can_port_fits = omega arith;
  ota_port_fits = omega arith;
}

abbrev announcement : ℕ → Announcement
announcement from = record {
  from = from;
  id = device;
  tcp = 3333;
  ota = 80;
  time = 1700000000;
  nonce = 77;
  signature = signature_bytes;
}

abbrev manager : Manager
manager = record {
  device_id = device;
  connect_time = 0;
  last_broadcast = 0;
  backoff_active = true;
  broadcast_count = 0;
  reset_count = 0;
}

abbrev station : Env
station = record {
  mode = 1;
  millis = 600;
  timestamp = 1700000000;
  broadcast_ip = codes "192.168.1.255";
  begin_packet_ok = true;
  written = 150;
  end_packet_ok = true;
}

abbrev sign : List ℕ → List ℕ
sign header = signature_bytes

station_may_broadcast : should_broadcast station ≡ true
unfolding should_broadcast
station_may_broadcast = refl

first_due : discovery_interval (since 600 0) ≤ since 600 0
unfolding discovery_interval
first_due = omega arith

first_sends : (update sign manager station 600).1 ≢ []
first_sends = (update_when_due sign manager station 600 station_may_broadcast first_due).1

abbrev later : Manager
later = (update sign manager station 600).0

second_due : discovery_interval (since 1100 later.connect_time) ≤ since 1100 later.last_broadcast
unfolding discovery_interval update broadcast should_broadcast
second_due = omega arith

second_sends : (update sign later station 1100).1 ≢ []
second_sends = (update_when_due sign later station 1100 station_may_broadcast second_due).1
