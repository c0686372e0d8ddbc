-- ===== src/Firmware/At/Dispatcher.antt =====
-- firmware/vanilla/AtCommandDispatcher.cpp: registration, matching, and what follows a response.
use vehicle_spy.Base.{Bool, true, List, [], ◌∷◌, ◌++◌, if◌then◌else◌, Option, none, some}
use vehicle_spy.Base.Text.{Text, codes}
use vehicle_spy.Firmware.At.Commands.{
  AtResult, Effect, tcp_print, tcp_flush, serial_println, serial_flush, restart, Env, Handler, atz,
  ate, atsp, ath, atcsm, atma, atpc, athelo, atsetwifi, atdumpwifi, atsettoken, atclearwifi, ati,
  atreboot, matches, execute, normalize_at_command,
}

pub record Dispatcher : Type 0 where
  pub handlers : List Handler
  pub handlers_registered : Bool

abbrev pub firmware_handlers : List Handler
firmware_handlers =
    atz ∷ ate ∷ atsp ∷ ath ∷ atcsm ∷ atma ∷ atpc ∷ athelo ∷ atsetwifi ∷ atdumpwifi ∷ atsettoken
    ∷ atclearwifi ∷ ati ∷ atreboot ∷ []

unfoldable pub register_firmware_handlers : Dispatcher → Dispatcher
register_firmware_handlers d =
    if d.handlers_registered
    then d
    else record { handlers = d.handlers ++ firmware_handlers; handlers_registered = true }

unfoldable pub find_handler : List Handler → Text → Option Handler
find_handler [] cmd = none
find_handler (h ∷ hs) cmd =
    let later = find_handler hs cmd in if matches h cmd then some h else later

abbrev pub send_tcp_prompt : Text → List Effect
send_tcp_prompt response = tcp_print (response ++ codes "\r\r>") ∷ tcp_flush ∷ []

abbrev pub send_serial_prompt : Text → List Effect
send_serial_prompt response = serial_println response ∷ []

abbrev pub flush_effects : Bool → List Effect
flush_effects flush =
    if flush then tcp_flush ∷ serial_println (codes "REBOOT") ∷ serial_flush ∷ [] else []

abbrev pub reboot_effects : Bool → List Effect
reboot_effects reboot = if reboot then restart ∷ [] else []

abbrev pub after_execute : (Text → List Effect) → List Effect × AtResult → List Effect
after_execute send (done, r) =
    done ++ send r.response ++ flush_effects r.should_flush_client ++ reboot_effects r.should_reboot

abbrev pub respond : Env → (Text → List Effect) → Text → Option Handler → List Effect
respond env send cmd none = send (codes "?")
respond env send cmd (some h) = after_execute send (execute env h cmd)

unfoldable pub handle_command :
    Env → (Text → List Effect) → Text → Dispatcher → Dispatcher × List Effect
unfolding register_firmware_handlers find_handler normalize_at_command
handle_command env send cmd d =
    let ready = register_firmware_handlers d in
    (ready, respond env send cmd (find_handler ready.handlers (normalize_at_command cmd)))

unfoldable pub handle_tcp_command : Env → Text → Dispatcher → Dispatcher × List Effect
unfolding handle_command
handle_tcp_command env = handle_command env send_tcp_prompt

unfoldable pub handle_serial_command : Env → Text → Dispatcher → Dispatcher × List Effect
unfolding handle_command
handle_serial_command env = handle_command env send_serial_prompt
