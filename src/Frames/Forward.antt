-- ===== src/Frames/Forward.antt =====
-- Where the bridge sends what it receives.
use vehicle_spy.Base.{
  ℕ, Bool, List, [], ◌∷◌, ◌++◌, ltb, if◌then◌else◌, ◌≡◌, arith, append-nil, append_assoc,
}
use vehicle_spy.Base.Text.{Text}
use vehicle_spy.Frames.Bridge.{
  CanFrame, Bridge, Output, build_frame_string, buffer_size, drain, emit, process_frames, silent,
}

abbrev pub line_of : CanFrame × Bool → Text
line_of f = build_frame_string f.0 buffer_size

-- The lines of all frames, and of those that came while a client was connected.
pub lines : List (CanFrame × Bool) → List Text
lines [] = []
lines (f ∷ fs) = line_of f ∷ lines fs

pub lines_while_connected : List (CanFrame × Bool) → List Text
lines_while_connected [] = []
lines_while_connected (f ∷ fs) =
    if f.1 then line_of f ∷ lines_while_connected fs else lines_while_connected fs

drain_serial :
    (b : Bridge) (now : ℕ) (fs : List (CanFrame × Bool)) (out : Output)
    → (drain b now fs out).serial
      ≡ out.serial ++ (if ltb now b.serial_quiet_until then [] else lines fs)
unfolding drain emit lines
drain_serial b now [] out = ground (arith, append-nil out.serial)
drain_serial b now (f ∷ fs) out = ground (
  arith,
  drain_serial b now fs (emit b now f out),
  append_assoc out.serial (line_of f ∷ []) (lines fs),
)

drain_tcp :
    (b : Bridge) (now : ℕ) (fs : List (CanFrame × Bool)) (out : Output)
    → (drain b now fs out).tcp
      ≡ out.tcp ++ (if b.monitor_active then lines_while_connected fs else [])
unfolding drain emit lines_while_connected
drain_tcp b now [] out = ground (arith, append-nil out.tcp)
drain_tcp b now (f ∷ fs) out = ground (
  arith,
  drain_tcp b now fs (emit b now f out),
  append_assoc out.tcp (line_of f ∷ []) (lines_while_connected fs),
)

-- An initialised bridge prints every received frame to the serial console, in order, unless the
-- quiet deadline lies ahead, and to the client every frame that came while it was connected,
-- in order, if the monitor is active; one that is not initialised prints nothing.
pub process_frames_lem :
    (b : Bridge) (monitor : Bool) (now : ℕ) (fs : List (CanFrame × Bool))
    → (process_frames b monitor now fs).1 ≡ (
        if b.initialized
        then record {
          serial = if ltb now b.serial_quiet_until then [] else lines fs;
          tcp = if monitor then lines_while_connected fs else [];
        }
        else silent)
unfolding process_frames
process_frames_lem b monitor now fs =
    let b' = record b { monitor_active = monitor } in
    ground (arith, drain_serial b' now fs silent, drain_tcp b' now fs silent)
