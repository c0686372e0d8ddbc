-- ===== src/Firmware/Tcp/Manager.antt =====
-- firmware/vanilla/TcpServerManager.cpp. A client is known by a number; what it and the listening
-- socket answer within a tick is a `Tick`, and the calls made on them and on the host are effects.
use vehicle_spy.Base.{
  ℕ, zero, suc, Bool, true, false, ◌||◌, List, [], ◌∷◌, ◌++◌, ◌==◌, if◌then◌else◌, length, drop,
  Option, none, some,
}
use vehicle_spy.Base.Text.{Text, codes, text_eq, starts_with, trim_by, split_at}

pub data Effect : Type 0 where
  stop set_no_delay flush : ℕ → Effect
  set_timeout : ℕ → ℕ → Effect
  println : ℕ → Text → Effect
  set_monitor_active : Bool → Effect
  client_connected auth_failed client_disconnected : Text → Effect
  reset_discovery_backoff : Effect
  handle_tcp_at_command : Text → Effect

-- A client that `accept` returns, with the line that its first blocking read gives.
pub record Arrival : Type 0 where
  pub id : ℕ
  pub remote_ip : Text
  pub first_line : Text

-- What one call of `cycle` finds: a new client, if any; or else whether the adopted one is connected,
-- and the bytes that are available from it.
pub record Tick : Type 0 where
  pub arrival : Option Arrival
  pub connected : Bool
  pub incoming : Text

pub record Manager : Type 0 where
  pub current : Option ℕ
  pub client_ip : Text
  pub partial_line : Text

abbrev pub fresh : Manager
fresh = record { current = none; client_ip = []; partial_line = [] }

abbrev pub is_ws : ℕ → Bool
is_ws c = c == b' ' || c == b'\t' || c == b'\r' || c == b'\n' || c == 12 || c == 11

unfoldable pub trim : Text → Text
unfolding trim_by
trim s = trim_by is_ws s

unfoldable pub is_valid_auth_token : Text → Text → Bool
unfolding text_eq
is_valid_auth_token received auth_token = text_eq received (codes "AUTH " ++ auth_token)

abbrev pub auth_timeout_ms : ℕ
auth_timeout_ms = 5000

abbrev pub command_timeout_ms : ℕ
command_timeout_ms = 100

abbrev pub stop_old : Option ℕ → List Effect
stop_old none = []
stop_old (some old) = stop old ∷ []

-- Up to the answer to the first line.
abbrev pub greet : Arrival → List Effect
greet a =
    set_no_delay a.id
    ∷ set_monitor_active false
    ∷ set_timeout a.id auth_timeout_ms
    ∷ set_timeout a.id command_timeout_ms
    ∷ []

abbrev pub welcome : Arrival → List Effect
welcome a =
    println a.id (codes "OK")
    ∷ flush a.id
    ∷ set_monitor_active true
    ∷ client_connected a.remote_ip
    ∷ []

abbrev pub reject : Arrival → List Effect
reject a =
    println a.id (codes "ERROR unauthorized")
    ∷ flush a.id
    ∷ stop a.id
    ∷ auth_failed a.remote_ip
    ∷ []

unfoldable pub accept : Text → Arrival → Manager → Manager × List Effect
unfolding is_valid_auth_token trim
accept token a m =
    if is_valid_auth_token (trim a.first_line) token
    then (
      record { current = some a.id; client_ip = a.remote_ip; partial_line = [] },
      stop_old m.current ++ (greet a ++ welcome a),
    )
    else (fresh, stop_old m.current ++ (greet a ++ reject a))

-- One complete line, trimmed.
unfoldable pub handle_line : ℕ → Text → List Effect
unfolding starts_with
handle_line id cmd =
    if text_eq cmd []
    then []
    else if starts_with (codes "PING ") cmd
    then println id (codes "PONG " ++ drop 5 cmd) ∷ flush id ∷ []
    else handle_tcp_at_command cmd ∷ []

-- The loop over the complete lines, on fuel: the effects, and what is left behind the last one.
unfoldable pub command_loop : ℕ → ℕ → Text → List Effect × Text
unfolding split_at trim handle_line
command_loop zero id buf = ([], buf)
command_loop (suc fuel) id buf = elim (split_at b'\r' buf) [
  | none ↦ ([], buf)
  | some (line, rest) ↦
      (handle_line id (trim line) ++ (command_loop fuel id rest).0, (command_loop fuel id rest).1)
]

-- The buffer's length bounds the number of lines.
unfoldable pub commands : ℕ → Text → List Effect × Text
unfolding command_loop
commands id buf = command_loop (suc (length buf)) id buf

unfoldable pub receive : ℕ → Text → Manager → Manager × List Effect
unfolding commands
receive id [] m = (m, [])
receive id (c ∷ incoming) m =
    let done = commands id (m.partial_line ++ c ∷ incoming) in
    (record m { partial_line = done.1 }, done.0)

-- The client has dropped.
abbrev pub clean_up : Manager → Manager × List Effect
clean_up m = (
  fresh,
  set_monitor_active false ∷ reset_discovery_backoff ∷ client_disconnected m.client_ip ∷ [],
)

abbrev pub cycle_adopted : Tick → Option ℕ → Manager → Manager × List Effect
cycle_adopted t none m = (m, [])
cycle_adopted t (some id) m = if t.connected then receive id t.incoming m else clean_up m

abbrev pub cycle_from : Text → Tick → Option Arrival → Manager → Manager × List Effect
cycle_from token t none m = cycle_adopted t m.current m
cycle_from token t (some a) m = accept token a m

unfoldable pub cycle : Text → Tick → Manager → Manager × List Effect
unfolding accept receive
cycle token t m = cycle_from token t t.arrival m

unfoldable pub write_line_to_client : Bool → Text → Manager → List Effect
write_line_to_client connected line m = elim m.current [
  | none ↦ []
  | some id ↦ if connected then println id line ∷ [] else []
]

-- The address and the partial line stay.
unfoldable pub stop_server : Manager → Manager × List Effect
stop_server m = elim m.current [
  | none ↦ (m, [])
  | some id ↦ (record m { current = none }, stop id ∷ [])
]

-- One call of `cycle` after the other, with the effects in order.
unfoldable pub cycles : Text → List Tick → Manager → Manager × List Effect
unfolding cycle
cycles token [] m = (m, [])
cycles token (t ∷ ts) m =
    let here = cycle token t m in let rest = cycles token ts here.0 in (rest.0, here.1 ++ rest.1)
