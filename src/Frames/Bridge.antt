-- ===== src/Frames/Bridge.antt =====
-- firmware/vanilla/CanBridge.cpp. What `receive` yields is a list of frames, each with the answer
-- of `connected` at that time; what is printed is the result.
use vehicle_spy.Base.{
  ℕ, ◌+◌, ◌-◌, Bool, true, not, ◌&&◌, List, [], ◌∷◌, ◌++◌, ltb, if◌then◌else◌, length, take, min,
}
use vehicle_spy.Base.Hex.{print_id, print_byte}
use vehicle_spy.Base.Text.{Text}

pub record CanFrame : Type 0 where
  pub identifier : ℕ
  pub data_length_code : ℕ
  pub bytes : List ℕ

abbrev pub buffer_size : ℕ
buffer_size = 32

-- `n += snprintf(buf + n, bufSize - n, …)`: the count of what would have been printed, and the text
-- in the buffer, which keeps room for the final NUL. `n` does not exceed the size on entry.
abbrev pub Printed : Type 0
Printed = ℕ × Text

unfoldable pub print_into : ℕ → Printed → Text → Printed
print_into size (n, text) piece =
    (n + length piece, if ltb n size then text ++ take (size - 1 - n) piece else text)

unfoldable pub print_bytes : ℕ → Printed → List ℕ → Printed
print_bytes size out [] = out
print_bytes size out (b ∷ bs) = print_bytes size (print_into size out (b' ' ∷ print_byte b)) bs

unfoldable pub build_frame_string : CanFrame → ℕ → Text
build_frame_string msg size =
    let head = print_into size (0, []) (print_id msg.identifier) in
    let body = print_bytes size head (take (min msg.data_length_code 8) msg.bytes) in
    (print_into size body (b'\r' ∷ [])).1

pub record Bridge : Type 0 where
  pub monitor_active : Bool
  pub initialized : Bool
  pub serial_quiet_until : ℕ

pub record Output : Type 0 where
  pub serial : List Text
  pub tcp : List Text

unfoldable pub init : Bridge → Bridge
init b = record b { initialized = true }

abbrev pub silent : Output
silent = record { serial = []; tcp = [] }

unfoldable pub emit : Bridge → ℕ → CanFrame × Bool → Output → Output
emit b now (msg, connected) out =
    let line = build_frame_string msg buffer_size in
    record {
      serial = if ltb now b.serial_quiet_until then out.serial else out.serial ++ line ∷ [];
      tcp = if connected && b.monitor_active then out.tcp ++ line ∷ [] else out.tcp;
    }

unfoldable pub drain : Bridge → ℕ → List (CanFrame × Bool) → Output → Output
drain b now [] out = out
drain b now (f ∷ fs) out = drain b now fs (emit b now f out)

unfoldable pub process_frames : Bridge → Bool → ℕ → List (CanFrame × Bool) → Bridge × Output
process_frames b monitor now frames =
    let b' = record b { monitor_active = monitor } in
    if not b.initialized then (b, silent) else (b', drain b' now frames silent)
