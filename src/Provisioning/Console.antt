-- ===== src/Provisioning/Console.antt =====
-- src/cli/ProvisioningRunner.cpp: TcpConsolePort. The socket's answers are a record; the bytes that
-- wait in it are read one by one.
use vehicle_spy.Base.{ℕ, zero, suc, Bool, true, false, not, List, [], ◌∷◌, ◌++◌, if◌then◌else◌}
use vehicle_spy.Base.Text.{Text, codes}
use vehicle_spy.Base.Search.{contains}
use vehicle_spy.Provisioning.Reply.{is_line_end}

-- What the calls of open() answer. `incoming` is what the peer sends within the time that a recv
-- waits; at its end recv fails.
pub record Socket : Type 0 where
  pub connects : Bool
  pub sets_auth_timeout : Bool
  pub sets_no_delay : Bool
  pub sends : Bool
  pub incoming : Text
  pub sets_read_timeout : Bool

pub data SocketCall : Type 0 where
  set_recv_timeout : ℕ → SocketCall
  set_no_delay : SocketCall
  send_all : Text → SocketCall
  close_socket : SocketCall

abbrev pub auth_recv_timeout_ms : ℕ
auth_recv_timeout_ms = 4000

abbrev pub status_recv_timeout_ms : ℕ
status_recv_timeout_ms = 8000

abbrev pub auth_ack_max_len : ℕ
auth_ack_max_len = 64

-- The acknowledgement, and what stays in the socket: up to a terminator, or `room` bytes.
unfoldable pub read_ack : ℕ → Text → Text × Text
read_ack zero s = ([], s)
read_ack (suc room) [] = ([], [])
read_ack (suc room) (c ∷ s) =
    let rest = read_ack room s in if is_line_end c then (c ∷ [], s) else (c ∷ rest.0, rest.1)

pub record Console : Type 0 where
  pub authenticated : Bool
  pub waiting : Text

-- Whether the port is open, the port, and the calls on the socket.
abbrev pub Opened : Type 0
Opened = Bool × Console × List SocketCall

abbrev closed_with : Text → List SocketCall → Opened
closed_with left calls =
    (false, record { authenticated = false; waiting = left }, calls ++ close_socket ∷ [])

unfoldable pub auth_frame : Text → Text
auth_frame token = codes "AUTH " ++ (token ++ b'\r' ∷ [])

unfoldable pub open_console : Text → Socket → Opened
unfolding read_ack auth_frame contains
open_console token s =
    let ack = read_ack auth_ack_max_len s.incoming in
    let bound = set_recv_timeout auth_recv_timeout_ms ∷ [] in
    let sent = bound ++ set_no_delay ∷ send_all (auth_frame token) ∷ [] in
    let reset = sent ++ set_recv_timeout status_recv_timeout_ms ∷ [] in
    if not s.connects
    then (false, record { authenticated = false; waiting = [] }, [])
    else if not s.sets_auth_timeout
    then closed_with s.incoming bound
    else if not s.sets_no_delay
    then closed_with s.incoming (bound ++ set_no_delay ∷ [])
    else if not s.sends
    then closed_with s.incoming sent
    else if not (contains (codes "OK") ack.0)
    then closed_with ack.1 sent
    else if not s.sets_read_timeout
    then closed_with ack.1 reset
    else (true, record { authenticated = true; waiting = ack.1 }, reset)

-- The frame that is written, if the port is open: whether it is sent is the socket's answer.
unfoldable pub write_all : Bool → Text → Console → Bool × List SocketCall
write_all sends frame c = if not c.authenticated then (false, []) else (sends, send_all frame ∷ [])

unfoldable pub close_console : Console → Console × List SocketCall
close_console c = (record c { authenticated = false }, close_socket ∷ [])
