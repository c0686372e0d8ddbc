-- ===== src/Firmware/Wifi/Runs.antt =====
-- firmware/vanilla/WiFiManager.cpp: sequences of ticks and disconnect events.
use vehicle_spy.Base.{ℕ, List, [], ◌∷◌}
use vehicle_spy.Firmware.Wifi.State.{Context, Setup, Radio}
use vehicle_spy.Firmware.Wifi.Manager.{update, on_disconnected}
use vehicle_spy.Firmware.Wifi.Diagram.{phase, ◌⟶◌, Inv, on_disconnected-Inv, on_disconnected-⟶}
use vehicle_spy.Firmware.Wifi.Steps.{update-Inv, update-⟶}

-- What the manager is called with: a tick of the loop, or a disconnect event of the radio.
pub data Event : Type 0 where
  tick : Setup → Radio → ℕ → Event
  dropped : ℕ → Event

abbrev pub react : Event → Context → Context
react (tick s r now) c = (update s r now c).0
react (dropped reason) c = (on_disconnected reason c).0

unfoldable pub run : List Event → Context → Context
run [] c = c
run (e ∷ es) c = run es (react e c)

pub react-Inv : (e : Event) (c : Context) → Inv c → Inv (react e c)
react-Inv (tick s r now) c h = update-Inv s r now c h
react-Inv (dropped reason) c h = on_disconnected-Inv reason c h

pub react-⟶ : (e : Event) (c : Context) → Inv c → phase c ⟶ phase (react e c)
react-⟶ (tick s r now) c h = update-⟶ s r now c h
react-⟶ (dropped reason) c h = on_disconnected-⟶ reason c h
