-- ===== src/Firmware/At/Commands.antt =====
-- firmware/vanilla/AtCommandDispatcher.cpp: the handlers. The stores answer through `Env`, and what
-- is done to them is a list of effects. `FIRMWARE_BUILD_VERSION` is a parameter.
use vehicle_spy.Base.{
  ℕ, ◌+◌, ◌-◌, Bool, true, false, not, ◌&&◌, ◌||◌, List, [], ◌∷◌, ◌++◌, ltb, leb, ◌==◌,
  if◌then◌else◌, length, drop, Option, none, some,
}
use vehicle_spy.Base.Text.{
  Text, codes, text_eq, starts_with, trim_by, split_at, is_blank, upper, take_while,
}
use vehicle_spy.Base.Hex.{print_byte}
use vehicle_spy.Base.Decimal.{print_dec}

pub record AtResult : Type 0 where
  pub response : Text
  pub should_reboot : Bool
  pub should_flush_client : Bool

pub record SetWifiParams : Type 0 where
  pub ssid : Text
  pub password : Text
  pub valid : Bool

pub data Effect : Type 0 where
  set_monitor : Bool → Effect
  store_wifi : Text → Text → Effect
  store_token : Text → Effect
  clear_wifi : Effect
  tcp_print serial_println : Text → Effect
  tcp_flush serial_flush restart : Effect

pub record Env : Type 0 where
  pub stores : Text → Text → Bool
  pub loaded : Option (Text × Text)
  pub stores_token : Text → Bool
  pub clears : Bool
  pub device_id : List ℕ
  pub version : Text

unfoldable pub normalize_at_command : Text → Text
unfolding trim_by upper
normalize_at_command cmd = upper (trim_by is_blank cmd)

-- The loop of `buildHeloResponse`, on what the buffer of 128 bytes holds before its zero byte.
unfoldable pub helo_loop : List ℕ → Text → Text
helo_loop [] buf = buf
helo_loop (b ∷ ids) buf =
    let more = helo_loop ids (buf ++ print_byte b) in
    if ltb (length buf) (128 - 3) then more else buf

-- The carriage return goes where there is room for it and a zero byte. A prefix that does not fit the
-- buffer would be written behind it: there is no response then.
unfoldable pub finish_helo : Text → Option Text
finish_helo buf =
    if leb (length buf + 2) 128
    then some (buf ++ b'\r' ∷ [])
    else if ltb (length buf) 128
    then some buf
    else none

abbrev pub helo_prefix : Text → Text → Text
helo_prefix name version =
    codes "ACK DEVICE=" ++ name ++ codes " FIRMWARE=" ++ version ++ codes " DEVICEID="

unfoldable pub build_helo_response : List ℕ → Text → Text → Option Text
unfolding helo_loop finish_helo
build_helo_response ids name version = finish_helo (helo_loop ids (helo_prefix name version))

unfoldable pub parse_set_wifi_params : Text → SetWifiParams
unfolding split_at
parse_set_wifi_params params = elim (split_at b',' params) [
  | none ↦ record { ssid = []; password = []; valid = false }
  | some ([], behind) ↦ record { ssid = []; password = []; valid = false }
  | some (c ∷ ssid, behind) ↦ record { ssid = c ∷ ssid; password = behind; valid = true }
]

unfoldable pub is_valid_auth_token : Text → Text → Bool
unfolding text_eq
is_valid_auth_token received expected = text_eq received (codes "AUTH " ++ expected)

abbrev pub reply : Text → AtResult
reply r = record { response = r; should_reboot = false; should_flush_client = false }

abbrev pub reply_and_reboot : Text → AtResult
reply_and_reboot r = record { response = r; should_reboot = true; should_flush_client = true }

abbrev pub unless_empty : Text → Text → Text
unless_empty [] params = params
unless_empty (c ∷ s) params = c ∷ s

-- Blanks alone stay as they are.
unfoldable pub trim_wifi_params : Text → Text
unfolding trim_by
trim_wifi_params params = unless_empty (trim_by is_blank params) params

-- A length from 1 to a limit.
abbrev pub fits : ℕ → Text → Bool
fits max s = leb 1 (length s) && leb (length s) max

unfoldable pub set_wifi : Env → SetWifiParams → List Effect × AtResult
set_wifi env p =
    if not p.valid
    then ([], reply (codes "ERROR Invalid format. Use: ATSETWIFI<ssid>,<pass>"))
    else if not (fits 32 p.ssid)
    then ([], reply (codes "ERROR Invalid SSID length (1-32 chars)"))
    else if not (fits 64 p.password)
    then ([], reply (codes "ERROR Invalid password length (1-64 chars)"))
    else if env.stores p.ssid p.password
    then (
      store_wifi p.ssid p.password ∷ [],
      reply_and_reboot (codes "OK WiFi credentials stored. Rebooting to connect..."),
    )
    else (store_wifi p.ssid p.password ∷ [], reply (codes "ERROR Failed to store credentials"))

unfoldable pub set_token : Env → Text → List Effect × AtResult
set_token env params =
    if length params == 0
    then ([], reply (codes "ERROR Token cannot be empty"))
    else if ltb 64 (length params)
    then ([], reply (codes "ERROR Token too long (max 64 chars)"))
    else if env.stores_token params
    then (store_token params ∷ [], reply_and_reboot (codes "OK Token stored. Rebooting..."))
    else (store_token params ∷ [], reply (codes "ERROR Failed to store token"))

-- A `const char*` ends at the first zero byte.
abbrev pub c_str : Text → Text
c_str = take_while (λ c. not (c == 0))

unfoldable pub dump_wifi : Option (Text × Text) → AtResult
unfolding print_dec take_while
dump_wifi none = reply (codes "OK no stored credentials")
dump_wifi (some (ssid, pass)) =
    reply (c_str (codes "OK stored ssid=" ++ ssid ++ codes " pass_len=" ++ print_dec (length pass)))

unfoldable pub clear_credentials : Env → List Effect × AtResult
clear_credentials env =
    if env.clears
    then (clear_wifi ∷ [], reply_and_reboot (codes "OK WiFi credentials cleared. Rebooting..."))
    else (clear_wifi ∷ [], reply (codes "ERROR Failed to clear credentials"))

-- One constructor for each handler type.
pub data Handler : Type 0 where
  atz ate atsp ath atcsm atma atpc athelo atsetwifi : Handler
  atdumpwifi atsettoken atclearwifi ati atreboot : Handler

unfoldable pub matches : Handler → Text → Bool
unfolding text_eq starts_with
matches atz cmd = text_eq cmd (codes "ATZ")
matches ate cmd = text_eq cmd (codes "ATE0") || text_eq cmd (codes "ATE1")
matches atsp cmd = starts_with (codes "ATSP") cmd
matches ath cmd = text_eq cmd (codes "ATH0") || text_eq cmd (codes "ATH1")
matches atcsm cmd = text_eq cmd (codes "ATCSM0") || text_eq cmd (codes "ATCSM1")
matches atma cmd = text_eq cmd (codes "ATMA")
matches atpc cmd = text_eq cmd (codes "ATPC")
matches athelo cmd = text_eq cmd (codes "ATHELO") || text_eq cmd (codes "HELLO")
matches atsetwifi cmd = starts_with (codes "ATSETWIFI") cmd
matches atdumpwifi cmd = text_eq cmd (codes "ATDUMPWIFI")
matches atsettoken cmd = starts_with (codes "ATSETTOKEN") cmd
matches atclearwifi cmd = text_eq cmd (codes "ATCLEARWIFI")
matches ati cmd = text_eq cmd (codes "ATI")
matches atreboot cmd = text_eq cmd (codes "ATREBOOT")

-- The version that the firmware is built with leaves room for the prefix: there is no case without a
-- response in practice.
abbrev helo_of : Option Text → AtResult
helo_of none = reply []
helo_of (some r) = reply r

-- `originalCmd.substr(n)` is `drop n`: it would throw on a command that is shorter.
unfoldable pub execute : Env → Handler → Text → List Effect × AtResult
unfolding trim_by trim_wifi_params set_wifi parse_set_wifi_params set_token dump_wifi
    clear_credentials build_helo_response
execute env atz cmd = (set_monitor false ∷ [], reply (codes "ELM327 v2.3"))
execute env ate cmd = ([], reply (codes "OK"))
execute env atsp cmd = ([], reply (codes "OK"))
execute env ath cmd = ([], reply (codes "OK"))
execute env atcsm cmd = ([], reply (codes "OK"))
execute env atma cmd = (set_monitor true ∷ [], reply (codes "OK"))
execute env atpc cmd = (set_monitor false ∷ [], reply (codes "OK"))
execute env athelo cmd =
    ([], helo_of (build_helo_response env.device_id (codes "ESP32-CAN-Bridge") env.version))
execute env atsetwifi cmd = set_wifi env (parse_set_wifi_params (trim_wifi_params (drop 9 cmd)))
execute env atdumpwifi cmd = ([], dump_wifi env.loaded)
execute env atsettoken cmd = set_token env (trim_by is_blank (drop 10 cmd))
execute env atclearwifi cmd = clear_credentials env
execute env ati cmd = ([], reply (codes "ESP32 CAN Bridge v" ++ env.version))
execute env atreboot cmd =
    ([], record { response = codes "REBOOT"; should_reboot = true; should_flush_client = false })
