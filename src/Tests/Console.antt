-- ===== src/Tests/Console.antt =====
-- The serial console, the AT commands and the reset button.
use vehicle_spy.Base.{ℕ, ◌≡◌, refl, arith, Bool, true, [], ◌∷◌, none, replicate, inl, All, ltb}
use vehicle_spy.Base.Text.{codes}
use vehicle_spy.Firmware.Framer.{Framer, drain, drain-stream, stream, IsCommand, IsPlain}
use vehicle_spy.Firmware.At.Commands.{Env}
use vehicle_spy.Firmware.At.Dispatcher.{handle_tcp_command}
use vehicle_spy.Firmware.At.Credentials.{IsStorable, handle_tcp_command-IsStorable}
use vehicle_spy.Firmware.At.Matching.{fresh}
use vehicle_spy.Firmware.Reset.{run, cleared}
use vehicle_spy.Firmware.Reset.Hold.{run_held}

abbrev empty_framer : Framer
empty_framer = record { max_len = 8; buffer = [] }

atz-IsPlain : IsPlain (codes "ATZ")
atz-IsPlain = (refl, (refl, (refl, tt)))

atz-IsCommand : IsCommand 8 (codes "ATZ", b'\r')
atz-IsCommand = ((λ e. cc e), omega arith, atz-IsPlain, refl)

drain-stream_example :
    drain (stream ((codes "ATZ", b'\r') ∷ [])) (empty_framer, []) ≡ (empty_framer, codes "ATZ" ∷ [])
drain-stream_example = drain-stream ((codes "ATZ", b'\r') ∷ []) 8 [] (atz-IsCommand, tt)

abbrev env : Env
env = record {
  stores = λ ssid pass. true;
  loaded = none;
  stores_token = λ t. true;
  clears = true;
  device_id = replicate 16 0xAB;
  version = codes "1.2.3";
}

handle_tcp_command-IsStorable_example :
    All IsStorable (handle_tcp_command env (codes "ATSETWIFI home,secret") fresh).1
handle_tcp_command-IsStorable_example =
    handle_tcp_command-IsStorable env (codes "ATSETWIFI home,secret") fresh (inl refl)

-- Pressed for the first four reads.
abbrev four_reads : ℕ → Bool
four_reads i = ltb i 4

run_held_example : run 3 300 100 four_reads ≡ cleared
run_held_example =
    run_held 2 3 300 100 four_reads refl (refl, (refl, (refl, tt))) (omega arith) (omega arith)
      (omega arith)

abbrev one_read : ℕ → Bool
one_read i = ltb i 1
