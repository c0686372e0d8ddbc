-- ===== src/Tests/Dialogue.antt =====
-- The provisioning dialogue.
use vehicle_spy.Base.{◌≡◌, refl, inl, some, true, not, none, List, [], ◌∷◌, arith, replicate}
use vehicle_spy.Base.Text.{Text, codes, text_eq, starts_with, take_while}
use vehicle_spy.Base.Decimal.{dec_value}
use vehicle_spy.Base.Search.{contains}
use vehicle_spy.Cli.Options.{CliOptions}
use vehicle_spy.Cli.Target.{parse_tcp_target, split_last}
use vehicle_spy.Tests.Commands.{keyboard}
use vehicle_spy.Firmware.At.Dispatcher.{handle_tcp_command}
use vehicle_spy.Cli.Validate.{is_parsed, validate_provisioning_transport}
use vehicle_spy.Firmware.At.Commands.{Env, matches, execute}
use vehicle_spy.Firmware.At.Matching.{fresh}
use vehicle_spy.Firmware.At.SetWifi.{stored_and_restarted}
use vehicle_spy.Firmware.Tcp.Manager.{Manager, receive}
use vehicle_spy.Provisioning.Polling.{Answer, quiet, got, run_provisioning_command, run_status}
use vehicle_spy.Provisioning.Run.{PortAnswers, run_provisioning}
use vehicle_spy.Provisioning.Transport.{create_provisioning_port}
use vehicle_spy.Provisioning.Steps.{is_healthy, received}
use vehicle_spy.Provisioning.Chunks.{report_of, run_status-received}
use vehicle_spy.Provisioning.Strip.{Ending, cr, lf, crlf, lay_out, AreLines}
use vehicle_spy.Provisioning.Acks.{is_acked, run_provisioning_command-lay_out}
use vehicle_spy.Provisioning.Accepted.{
  is_bare_usb, create_provisioning_port-validate_provisioning_transport,
}
use vehicle_spy.Provisioning.Handshake.{opening, open_console-accept}
use vehicle_spy.Provisioning.Delivery.{
  done_for, written, asked, device_run, sent_back, run_provisioning-receive,
}

-- A heartbeat in two pieces, with a read of nothing between them.
abbrev pieces : List Answer
pieces = got (codes "x\r\n[STA") ∷ quiet ∷ got (codes "TE] ip=1\r\nmore") ∷ []

run_status-received_example : run_status pieces 8 ≡ report_of 8 (received pieces)
unfolding is_healthy
run_status-received_example = run_status-received pieces 8 (refl, (refl, (refl, tt)))

abbrev lines : List (Text × Ending)
lines =
    (codes "[STATE] wifi=CONNECTED", crlf)
    ∷ (codes "OK WiFi credentials stored", cr)
    ∷ (codes "ok", lf)
    ∷ []

lines-AreLines : AreLines lines (codes "[STATE] half")
unfolding AreLines lay_out
lines-AreLines = ground arith

abbrev arriving : List Answer
arriving =
    got (codes "[STATE] wifi=CONNEC")
    ∷ quiet
    ∷ got (codes "TED\r\nOK WiFi credentials stored\rok\n[STATE] half")
    ∷ []

run_provisioning_command-lay_out_example :
    (run_provisioning_command true arriving
      (codes "ATSETWIFIhome,secret")
      (b's' ∷ codes "tored")
      120).1.rc
    ≡ 0
unfolding received lay_out is_acked contains is_healthy
run_provisioning_command-lay_out_example =
    run_provisioning_command-lay_out b's' (codes "tored") (codes "ATSETWIFIhome,secret") 120
      arriving lines (codes "[STATE] half") (refl, (refl, (refl, tt))) refl lines-AreLines refl

abbrev no_device : Text → List Text
no_device pattern_ = []

abbrev over_tcp : CliOptions
over_tcp = record keyboard {
  wifi = record keyboard.wifi { clear_wifi_creds = true; transport = codes "tcp:esp32:3333" };
}

over_tcp-valid : validate_provisioning_transport over_tcp ≡ []
unfolding validate_provisioning_transport parse_tcp_target text_eq starts_with split_last take_while
    dec_value
over_tcp-valid = refl

create_provisioning_port-validate_provisioning_transport_example :
    is_parsed
      (create_provisioning_port no_device (codes "/dev/cu.usbserial") (codes "tcp:esp32:3333"))
    ≡ not (is_bare_usb (codes "tcp:esp32:3333"))
create_provisioning_port-validate_provisioning_transport_example =
    create_provisioning_port-validate_provisioning_transport no_device (codes "/dev/cu.usbserial")
      over_tcp (λ e. cc) refl over_tcp-valid

abbrev unserved : Manager
unserved = record { current = some 4; client_ip = codes "10.0.0.9"; partial_line = codes "AT" }

open_console-accept_example :
    ((opening
        (codes "vehicle-sim-2026")
        (codes "vehicle-sim-2026")
        7
        (codes "10.0.0.5")
        unserved
        (codes "[STATE]")).0
      ≡ text_eq (codes "vehicle-sim-2026") (codes "vehicle-sim-2026"))
    × ((opening
          (codes "vehicle-sim-2026")
          (codes "vehicle-sim-2026")
          7
          (codes "10.0.0.5")
          unserved
          (codes "[STATE]")).1.waiting
        ≡ b'\n' ∷ codes "[STATE]")
open_console-accept_example =
    open_console-accept (codes "vehicle-sim-202") b'6' (codes "vehicle-sim-2026") 7
      (codes "10.0.0.5") unserved (codes "[STATE]") (ground arith) refl

abbrev device_env : Env
device_env = record {
  stores = λ ssid pass. true;
  loaded = none;
  stores_token = λ t. true;
  clears = true;
  device_id = replicate 16 0xAB;
  version = codes "1.2.3";
}

abbrev adopted : Manager
adopted = record { current = some 7; client_ip = codes "10.0.0.5"; partial_line = [] }

abbrev console_port : PortAnswers
console_port = record {
  opens = true;
  writes = true;
  answers =
      quiet
      ∷ got (codes "OK WiFi credentials stored. Reboot")
      ∷ got (codes "ing to connect...\r\r>")
      ∷ [];
}

answered :
    received console_port.answers
    ≡ sent_back (
        device_run device_env fresh 7 adopted
          (asked no_device [] (codes "tcp:esp32") (codes "home") (codes "secret") console_port))
unfolding received sent_back device_run run_provisioning done_for written receive handle_tcp_command
    text_eq matches execute
answered = refl

run_provisioning-receive_example :
    (device_run device_env fresh 7 adopted
        (asked no_device [] (codes "tcp:esp32") (codes "home") (codes "secret") console_port)
      ≡ stored_and_restarted (codes "home") (codes "secret"))
    × ((asked no_device [] (codes "tcp:esp32") (codes "home") (codes "secret") console_port).1.rc
        ≡ 0)
unfolding is_healthy
run_provisioning-receive_example =
    run_provisioning-receive no_device [] (codes "tcp:esp32") b'h' b't' (codes "ome")
      (codes "secre") console_port device_env fresh 7 adopted refl refl (refl, (refl, (refl, tt)))
      answered refl (inl refl) refl (ground arith) (ground arith) refl refl refl refl
