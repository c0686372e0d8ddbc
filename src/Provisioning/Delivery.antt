-- ===== src/Provisioning/Delivery.antt =====
-- From the command line of the host to the store of the device, over TCP:
-- src/cli/ProvisioningRunner.cpp, firmware/vanilla/TcpServerManager.cpp and AtCommandDispatcher.cpp.
use vehicle_spy.Base.{
  ℕ, ◌≡◌, refl, sym, ap, ◌∙◌, Bool, true, false, List, [], ◌∷◌, ◌++◌, All, arith, append-nil,
  append_assoc,
}
use vehicle_spy.Base.Text.{
  Text, codes, Lacks, is_blank, starts_with, text_eq, trim_by, drop_while, trim_end-append,
}
use vehicle_spy.Base.Search.{contains}
use vehicle_spy.Cli.Options.{WifiProvisioningOptions}
use vehicle_spy.Firmware.At.Commands.{Effect, tcp_print, Env, fits}
use vehicle_spy.Firmware.At.Dispatcher.{Dispatcher, handle_tcp_command}
use vehicle_spy.Firmware.At.Matching.{IsWellFormed}
use vehicle_spy.Firmware.At.SetWifi.{
  set_wifi_command, pair_text, stored_and_restarted, handle_tcp_command_set_wifi,
}
use vehicle_spy.Firmware.Tcp.Chunks.{commands_line, commands_last, receive_lem}
use vehicle_spy.Firmware.Tcp.Manager.{
  Manager, handle_tcp_at_command, is_ws, trim, handle_line, commands, receive,
}
use vehicle_spy.Firmware.Tcp.Manager
use vehicle_spy.Provisioning.Reply.{strip_state_lines}
use vehicle_spy.Provisioning.Polling.{Answer, Report, frame_of, run_provisioning_command}
use vehicle_spy.Provisioning.Run.{
  PortCall, Run, write_frame, open_port, close_port, PortAnswers, provision_timeout_s,
  run_provisioning, command_run,
}
use vehicle_spy.Provisioning.Steps.{is_healthy, received}
use vehicle_spy.Provisioning.Acks.{command_succeeds}

-- The bytes that are written to a port.
unfoldable pub written : List PortCall → Text
written [] = []
written (write_frame s ∷ calls) = s ++ written calls
written (open_port ∷ calls) = written calls
written (close_port ∷ calls) = written calls

-- What the device does for the commands that its TCP server passes on.
unfoldable pub done_for : Env → Dispatcher → List Manager.Effect → List Effect
done_for env dis [] = []
done_for env dis (handle_tcp_at_command cmd ∷ effects) =
    (handle_tcp_command env cmd dis).1 ++ done_for env dis effects
done_for env dis (_ ∷ effects) = done_for env dis effects

-- What the device sends back.
unfoldable pub sent_back : List Effect → Text
sent_back [] = []
sent_back (tcp_print s ∷ effects) = s ++ sent_back effects
sent_back (_ ∷ effects) = sent_back effects

-- The command line asks for a network's name and password to be stored.
abbrev pub asking : Text → Text → Text → WifiProvisioningOptions
asking transport ssid pass = record {
  set_wifi_ssid = ssid;
  set_wifi_pass = pass;
  clear_wifi_creds = false;
  reboot_esp32 = false;
  status_requested = false;
  transport = transport;
}

visible : (d : ℕ) → is_ws d ≡ false → is_blank d ≡ false
visible d w = ground arith

frame_lem :
    (writes : Bool) (answers : List Answer) (command expect : Text) (timeout_s : ℕ)
    → (run_provisioning_command writes answers command expect timeout_s).0 ≡ frame_of command
unfolding run_provisioning_command
frame_lem true answers command expect timeout_s = refl
frame_lem false answers command expect timeout_s = refl

reply_holds_ack :
    (ssid pass : Text)
    → contains (codes "stored") (strip_state_lines (sent_back (stored_and_restarted ssid pass)))
      ≡ true
unfolding contains strip_state_lines sent_back starts_with
reply_holds_ack ssid pass = refl

module _ (c d : ℕ) (s p : Text) where
  abbrev command : Text
  command = set_wifi_command (pair_text (c ∷ s) (p ++ d ∷ []))

  trimmed : is_ws d ≡ false → trim command ≡ command
  unfolding trim trim_by drop_while
  trimmed w =
      let before = codes "ATSETWIFI" ++ ((c ∷ s) ++ b',' ∷ p) in
      let same : command ≡ before ++ d ∷ [] =
        sym (append_assoc (codes "ATSETWIFI" ++ (c ∷ s)) (b',' ∷ p) (d ∷ [])) in
      ap trim same ∙ trim_end-append is_ws before d [] w tt ∙ sym same

  line_passed : (id : ℕ) → handle_line id command ≡ handle_tcp_at_command command ∷ []
  unfolding handle_line starts_with text_eq
  line_passed id = refl

  -- The frame is one line of the device, and nothing is left of it.
  frame_received :
      (id : ℕ) (m : Manager)
      → m.partial_line ≡ []
      → Lacks b'\r' command
      → is_ws d ≡ false
      → (receive id (frame_of command) m).1 ≡ handle_tcp_at_command command ∷ []
  frame_received id m e l w =
      ap (λ r. r.1) (receive_lem id (frame_of command) m (rw e tt))
      ∙ ap (λ q. (commands id (q ++ frame_of command)).0) e
      ∙ ap (λ r. r.0) (commands_line id (frame_of command) command [] refl l)
      ∙ ap (λ r. handle_line id (trim command) ++ r.0) (commands_last id [] tt)
      ∙ ap (λ q. handle_line id q ++ []) (trimmed w)
      ∙ ap (λ q. q ++ []) (line_passed id)

  module _ (glob : Text → List Text) (default_port transport : Text) (port : PortAnswers)
      (opens : port.opens ≡ true) where
    abbrev run : List PortCall × Report
    run = run_provisioning glob default_port (asking transport (c ∷ s) (p ++ d ∷ [])) port

    frame_written : written run.0 ≡ frame_of command
    unfolding run_provisioning command_run written
    frame_written = rw opens (
        ap (λ q. q ++ [])
          (frame_lem port.writes port.answers command (codes "stored") provision_timeout_s)
        ∙ append-nil (frame_of command))

    reported :
        port.writes ≡ true
        → All (λ a. is_healthy a ≡ true) port.answers
        → contains (codes "stored") (strip_state_lines (received port.answers)) ≡ true
        → run.1.rc ≡ 0
    unfolding run_provisioning command_run
    reported w h k =
        rw (opens, w)
          (command_succeeds b's' (codes "tored") command provision_timeout_s port.answers h k)

-- What the device does with what a run on the host writes to it.
unfoldable pub device_run : Env → Dispatcher → ℕ → Manager → Run → List Effect
device_run env dis id m run = done_for env dis (receive id (written run.0) m).1

abbrev pub asked : (Text → List Text) → Text → Text → Text → Text → PortAnswers → Run
asked glob default_port transport ssid pass port =
    run_provisioning glob default_port (asking transport ssid pass) port

-- The command line asks a device that it reaches over TCP to store a name, which begins with no blank
-- and holds no comma, and a password, which ends with no white space. Neither holds a carriage return,
-- both have lengths that the device takes, and its store takes the pair. The device, whose dispatcher
-- is well formed and which waits for a line, stores exactly that pair, answers and restarts. Its answer
-- arrives by the deadline, and the command succeeds on the host.
pub run_provisioning-receive :
    (glob : Text → List Text) (default_port transport : Text) (c d : ℕ) (s p : Text)
    (port : PortAnswers) (env : Env) (dis : Dispatcher) (id : ℕ) (m : Manager)
    → port.opens ≡ true
    → port.writes ≡ true
    → All (λ a. is_healthy a ≡ true) port.answers
    → received port.answers
      ≡ sent_back
          (device_run env dis id m (asked glob default_port transport (c ∷ s) (p ++ d ∷ []) port))
    → m.partial_line ≡ []
    → IsWellFormed dis
    → is_blank c ≡ false
    → Lacks b',' (c ∷ s)
    → Lacks b'\r' (set_wifi_command (pair_text (c ∷ s) (p ++ d ∷ [])))
    → is_ws d ≡ false
    → fits 32 (c ∷ s) ≡ true
    → fits 64 (p ++ d ∷ []) ≡ true
    → env.stores (c ∷ s) (p ++ d ∷ []) ≡ true
    → (device_run env dis id m (asked glob default_port transport (c ∷ s) (p ++ d ∷ []) port)
        ≡ stored_and_restarted (c ∷ s) (p ++ d ∷ []))
      × ((asked glob default_port transport (c ∷ s) (p ++ d ∷ []) port).1.rc ≡ 0)
unfolding done_for device_run
run_provisioning-receive glob default_port transport c d s p port env dis id m opens writes healthy
      answered idle dispatches b comma line w f g stores =
    let command = set_wifi_command (pair_text (c ∷ s) (p ++ d ∷ [])) in
    let stored =
      ap (λ q. done_for env dis (receive id q m).1)
        (frame_written c d s p glob default_port transport port opens)
      ∙ ap (done_for env dis) (frame_received c d s p id m idle line w)
      ∙ append-nil (handle_tcp_command env command dis).1
      ∙ handle_tcp_command_set_wifi env dis c d s p dispatches b comma (visible d w) f g stores in
    (
      stored,
      reported c d s p glob default_port transport port opens writes healthy (
          ap (λ q. contains (codes "stored") (strip_state_lines q)) (answered ∙ ap sent_back stored)
          ∙ reply_holds_ack (c ∷ s) (p ++ d ∷ [])),
    )
