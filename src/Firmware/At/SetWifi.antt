-- ===== src/Firmware/At/SetWifi.antt =====
-- ATSETWIFI from the bytes of the command to the store: firmware/vanilla/AtCommandDispatcher.cpp.
use vehicle_spy.Base.{
  ℕ, ◌≡◌, refl, sym, ap, ◌∙◌, true, false, List, [], ◌∷◌, ◌++◌, some, drop, append_assoc, All,
}
use vehicle_spy.Base.Text.{
  Text, codes, is_blank, trim_by, trim_end, drop_while, trim_end-append, upper, split_at-append,
  Lacks, trim_end_stop,
}
use vehicle_spy.Firmware.At.Commands.{
  Effect, store_wifi, tcp_print, serial_println, tcp_flush, serial_flush, restart, atsetwifi,
  AtResult, matches, normalize_at_command, Env, fits, set_wifi, execute, trim_wifi_params,
  unless_empty, parse_set_wifi_params, reply_and_reboot,
}
use vehicle_spy.Firmware.At.Dispatcher.{
  Dispatcher, firmware_handlers, find_handler, respond, send_tcp_prompt, send_serial_prompt,
  after_execute, handle_tcp_command, handle_serial_command,
}
use vehicle_spy.Firmware.At.Matching.{IsWellFormed, handle_command_lem}

-- Bytes that are not blank stay in front.
trim_end_visible :
    (p s : Text)
    → All (λ c. is_blank c ≡ false) p
    → trim_end is_blank (p ++ s) ≡ p ++ trim_end is_blank s
trim_end_visible [] s h = refl
trim_end_visible (c ∷ p) s h =
    trim_end_stop is_blank c (p ++ s) h.0 ∙ ap (◌∷◌ c) (trim_end_visible p s h.1)

abbrev stored_reply : AtResult
stored_reply = reply_and_reboot (codes "OK WiFi credentials stored. Rebooting to connect...")

abbrev pub set_wifi_command : Text → Text
set_wifi_command params = codes "ATSETWIFI" ++ params

find_handler-set_wifi :
    (params : Text)
    → find_handler firmware_handlers (upper (trim_end is_blank (set_wifi_command params)))
      ≡ some atsetwifi
unfolding find_handler matches upper
find_handler-set_wifi params =
    ap (λ s. find_handler firmware_handlers (upper s))
      (trim_end_visible (codes "ATSETWIFI") params
        (refl, (refl, (refl, (refl, (refl, (refl, (refl, (refl, (refl, tt))))))))))

pub set_wifi_found :
    (params : Text)
    → find_handler firmware_handlers (normalize_at_command (set_wifi_command params))
      ≡ some atsetwifi
unfolding normalize_at_command trim_by drop_while
set_wifi_found params = find_handler-set_wifi params

-- A blank before the command is trimmed for matching.
set_wifi_found_behind :
    (b : ℕ) (params : Text)
    → is_blank b ≡ true
    → find_handler firmware_handlers (normalize_at_command (b ∷ set_wifi_command params))
      ≡ some atsetwifi
unfolding normalize_at_command trim_by drop_while
set_wifi_found_behind b params h = rw h (find_handler-set_wifi params)

-- The parameters of a name that begins, and a password that ends, with a byte that is not blank.
abbrev pub pair_text : Text → Text → Text
pair_text ssid pass = ssid ++ b',' ∷ pass

trim_by_visible :
    (c : ℕ) (s : Text) → is_blank c ≡ false → trim_by is_blank (c ∷ s) ≡ trim_end is_blank (c ∷ s)
unfolding trim_by drop_while
trim_by_visible c s h = rw (h, trim_by, drop_while) refl

trim_wifi_params_pair :
    (c d : ℕ) (s p : Text)
    → is_blank c ≡ false
    → is_blank d ≡ false
    → trim_wifi_params (pair_text (c ∷ s) (p ++ d ∷ [])) ≡ pair_text (c ∷ s) (p ++ d ∷ [])
unfolding trim_wifi_params
trim_wifi_params_pair c d s p h k =
    let all : trim_end is_blank (pair_text (c ∷ s) (p ++ d ∷ []))
        ≡ pair_text (c ∷ s) (p ++ d ∷ []) =
      ap (trim_end is_blank) (sym (append_assoc (c ∷ s) (b',' ∷ p) (d ∷ [])))
      ∙ trim_end-append is_blank ((c ∷ s) ++ b',' ∷ p) d [] k tt
      ∙ append_assoc (c ∷ s) (b',' ∷ p) (d ∷ []) in
    let begins : trim_by is_blank (pair_text (c ∷ s) (p ++ d ∷ []))
        ≡ pair_text (c ∷ s) (p ++ d ∷ []) =
      trim_by_visible c (s ++ b',' ∷ (p ++ d ∷ [])) h ∙ all in
    ap (λ t. unless_empty t (pair_text (c ∷ s) (p ++ d ∷ []))) begins

parse_set_wifi_params_pair :
    (c : ℕ) (s pass : Text)
    → Lacks b',' (c ∷ s)
    → parse_set_wifi_params (pair_text (c ∷ s) pass)
      ≡ record { ssid = c ∷ s; password = pass; valid = true }
unfolding parse_set_wifi_params
parse_set_wifi_params_pair c s pass h =
    rw (split_at-append b',' (c ∷ s) pass h, parse_set_wifi_params) refl

set_wifi_stored :
    (env : Env) (ssid pass : Text)
    → fits 32 ssid ≡ true
    → fits 64 pass ≡ true
    → env.stores ssid pass ≡ true
    → set_wifi env (record { ssid = ssid; password = pass; valid = true })
      ≡ (store_wifi ssid pass ∷ [], stored_reply)
unfolding set_wifi
set_wifi_stored env ssid pass h k e = rw (h, k, e) refl

execute_set_wifi :
    (env : Env) (cmd : Text) (c d : ℕ) (s p : Text)
    → drop 9 cmd ≡ pair_text (c ∷ s) (p ++ d ∷ [])
    → is_blank c ≡ false
    → Lacks b',' (c ∷ s)
    → is_blank d ≡ false
    → fits 32 (c ∷ s) ≡ true
    → fits 64 (p ++ d ∷ []) ≡ true
    → env.stores (c ∷ s) (p ++ d ∷ []) ≡ true
    → execute env atsetwifi cmd ≡ (store_wifi (c ∷ s) (p ++ d ∷ []) ∷ [], stored_reply)
unfolding execute
execute_set_wifi env cmd c d s p q h l k f g e =
    ap (λ t. set_wifi env (parse_set_wifi_params (trim_wifi_params t))) q
    ∙ ap (λ t. set_wifi env (parse_set_wifi_params t)) (trim_wifi_params_pair c d s p h k)
    ∙ ap (set_wifi env) (parse_set_wifi_params_pair c s (p ++ d ∷ []) l)
    ∙ set_wifi_stored env (c ∷ s) (p ++ d ∷ []) f g e

-- What ATSETWIFI does when the store takes the pair: store, answer, flush, restart.
abbrev pub stored_and_restarted : Text → Text → List Effect
stored_and_restarted ssid pass =
    store_wifi ssid pass
    ∷ tcp_print (codes "OK WiFi credentials stored. Rebooting to connect...\r\r>")
    ∷ tcp_flush
    ∷ tcp_flush
    ∷ serial_println (codes "REBOOT")
    ∷ serial_flush
    ∷ restart
    ∷ []

-- ATSETWIFI, on a dispatcher that is well formed, with a name of 1 to 32 bytes that begins with
-- no blank and holds no comma, a comma, and a password of 1 to 64 bytes that ends with no blank,
-- stores exactly that pair if the store takes it; then it answers, flushes, and restarts last.
pub handle_tcp_command_set_wifi :
    (env : Env) (dis : Dispatcher) (c d : ℕ) (s p : Text)
    → IsWellFormed dis
    → is_blank c ≡ false
    → Lacks b',' (c ∷ s)
    → is_blank d ≡ false
    → fits 32 (c ∷ s) ≡ true
    → fits 64 (p ++ d ∷ []) ≡ true
    → env.stores (c ∷ s) (p ++ d ∷ []) ≡ true
    → (handle_tcp_command env (set_wifi_command (pair_text (c ∷ s) (p ++ d ∷ []))) dis).1
      ≡ stored_and_restarted (c ∷ s) (p ++ d ∷ [])
unfolding handle_tcp_command
handle_tcp_command_set_wifi env dis c d s p w h l k f g e =
    let cmd = set_wifi_command (pair_text (c ∷ s) (p ++ d ∷ [])) in
    ap (λ t. t.1) (handle_command_lem env send_tcp_prompt cmd dis w)
    ∙ ap (respond env send_tcp_prompt cmd) (set_wifi_found (pair_text (c ∷ s) (p ++ d ∷ [])))
    ∙ ap (after_execute send_tcp_prompt) (execute_set_wifi env cmd c d s p refl h l k f g e)

-- ATSETWIFI behind a blank on the serial console is recognised, but the parameters are cut from
-- the command as it came: the name that is stored begins with the letter I of the command, if
-- name and password have valid lengths, the name holds no comma, the password ends with no
-- blank, and the store takes the pair; then the device answers, flushes and restarts.
pub handle_serial_command_shifted :
    (env : Env) (dis : Dispatcher) (b d : ℕ) (s p : Text)
    → IsWellFormed dis
    → is_blank b ≡ true
    → Lacks b',' s
    → is_blank d ≡ false
    → fits 32 (b'I' ∷ s) ≡ true
    → fits 64 (p ++ d ∷ []) ≡ true
    → env.stores (b'I' ∷ s) (p ++ d ∷ []) ≡ true
    → (handle_serial_command env (b ∷ set_wifi_command (pair_text s (p ++ d ∷ []))) dis).1
      ≡ store_wifi (b'I' ∷ s) (p ++ d ∷ [])
        ∷ serial_println (codes "OK WiFi credentials stored. Rebooting to connect...")
        ∷ tcp_flush
        ∷ serial_println (codes "REBOOT")
        ∷ serial_flush
        ∷ restart
        ∷ []
unfolding handle_serial_command
handle_serial_command_shifted env dis b d s p w h l k f g e =
    let cmd = b ∷ set_wifi_command (pair_text s (p ++ d ∷ [])) in
    ap (λ t. t.1) (handle_command_lem env send_serial_prompt cmd dis w)
    ∙ ap (respond env send_serial_prompt cmd)
        (set_wifi_found_behind b (pair_text s (p ++ d ∷ [])) h)
    ∙ ap (after_execute send_serial_prompt)
        (execute_set_wifi env cmd b'I' d s p refl refl (refl, l) k f g e)
