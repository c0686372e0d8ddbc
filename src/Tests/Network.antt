-- ===== src/Tests/Network.antt =====
-- The TCP server.
use vehicle_spy.Base.{◌≡◌, ◌≢◌, refl, true, List, [], ◌∷◌, ◌++◌, none, some, All}
use vehicle_spy.Base.Text.{codes, trim_by}
use vehicle_spy.Firmware.Tcp.Manager.{Manager, Arrival, Tick, fresh, receive, cycles, trim}
use vehicle_spy.Firmware.Tcp.Access.{cycles_unauthorized, IsHarmless, IsUnauthorized}
use vehicle_spy.Firmware.Tcp.Chunks.{receive-append}

abbrev adopted : Manager
adopted = record { current = some 1; client_ip = codes "10.0.0.7"; partial_line = codes "PI" }

receive-append_example : receive 1 (codes "NG 4" ++ codes "2\rATI\rAT") adopted ≡ (
  (receive 1 (codes "2\rATI\rAT") (receive 1 (codes "NG 4") adopted).0).0,
  (receive 1 (codes "NG 4") adopted).1
      ++ (receive 1 (codes "2\rATI\rAT") (receive 1 (codes "NG 4") adopted).0).1,
)
receive-append_example =
    receive-append 1 (codes "NG 4") (codes "2\rATI\rAT") adopted (refl, (refl, tt))

abbrev stranger : Arrival
stranger = record { id = 2; remote_ip = codes "10.0.0.8"; first_line = codes "AUTH guess" }

abbrev ticks : List Tick
ticks =
    record { arrival = some stranger; connected = true; incoming = [] }
    ∷ record { arrival = none; connected = true; incoming = codes "ATREBOOT\r" }
    ∷ []

guess_differs : trim (codes "AUTH guess") ≢ codes "AUTH secret"
unfolding trim trim_by
guess_differs e = cc e

ticks-IsUnauthorized : All (IsUnauthorized (codes "secret")) ticks
ticks-IsUnauthorized = (guess_differs, (tt, tt))

cycles_unauthorized_example :
    ((cycles (codes "secret") ticks fresh).0.current ≡ none)
    × All IsHarmless (cycles (codes "secret") ticks fresh).1
cycles_unauthorized_example =
    cycles_unauthorized (codes "secret") ticks fresh refl ticks-IsUnauthorized
