-- ===== src/Discovery/Search.antt =====
-- src/discovery/UDPDiscovery.cpp, firmware/vanilla/DiscoveryManager.cpp: a search finds the devices
-- that announce themselves.
use vehicle_spy.Base.{ℕ, ◌^◌, ◌<◌, ◌≡◌, ◌≢◌, false, List, [], ◌∷◌, ◌++◌, length}
use vehicle_spy.Base.Text.{Text}
use vehicle_spy.Discovery.Beacon.{build_header}
use vehicle_spy.Discovery.Listener.{
  Device, ipv4_dotted_quad, Window, stop_requested, interrupted, failed, silent, readable,
  seen_before,
}

-- A device that announces itself: its address, and what its beacon is built from.
pub record Announcement : Type 0 where
  pub from : ℕ
  pub id : List ℕ
  pub tcp : ℕ
  pub ota : ℕ
  pub time : ℕ
  pub nonce : ℕ
  pub signature : List ℕ

pub record IsAnnounced (a : Announcement) : Type 0 where
  pub id_len : length a.id ≡ 16
  pub signature_len : length a.signature ≡ 64
  pub time_fits : a.time < 2 ^ 64
  pub tcp_fits : a.tcp < 2 ^ 16
  pub ota_fits : a.ota < 2 ^ 16
  pub tcp_set : a.tcp ≢ 0

abbrev pub datagram : Announcement → ℕ × List ℕ
datagram a = (a.from, build_header a.id a.tcp a.ota a.time a.nonce ++ a.signature)

abbrev pub announced : Announcement → Device
announced a = record {
  device_id = a.id;
  address = ipv4_dotted_quad a.from;
  can_port = a.tcp;
  ota_port = a.ota;
  timestamp = a.time;
}

-- A window that brings nothing and does not end the search.
abbrev pub IsIdle : Window → Type 0
IsIdle silent = Unit
IsIdle failed = Unit
IsIdle interrupted = ⊥
IsIdle stop_requested = ⊥
IsIdle (readable datagrams) = ⊥

-- No address is among those seen, and none comes twice.
unfoldable pub AreNew : List Text → List Device → Type 0
AreNew seen [] = Unit
AreNew seen (d ∷ ds) = (seen_before d.address seen ≡ false) × AreNew (seen ++ d.address ∷ []) ds
