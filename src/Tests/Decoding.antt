-- ===== src/Tests/Decoding.antt =====
-- The decoders and the bridge's frames.
use vehicle_spy.Base.{
  ◌+◌, ◌-◌, ◌*◌, ◌/◌, ◌%◌, ◌^◌, ◌≡◌, refl, arith, Bool, true, false, List, [], ◌∷◌, some, take, min,
}
use vehicle_spy.Base.Int.{negsuc}
use vehicle_spy.Decoder.{
  extract_raw_bits, mapper_raw_bits, motorola, to_signed, extract_signal, map_signal,
}
use vehicle_spy.Decoder.Intel.{extract_raw_bits_lem}
use vehicle_spy.Decoder.Motorola.{mapper_raw_bits_motorola}
use vehicle_spy.Decoder.Signed.{to_signed_lem}
use vehicle_spy.Decoder.Values.{le_value, be_value, AreBytes}
use vehicle_spy.Decoder.Mapping.{extract_signal_lem, map_signal_intel}
use vehicle_spy.Frames.Bridge.{CanFrame, Bridge, build_frame_string, buffer_size, process_frames}
use vehicle_spy.Frames.Forward.{process_frames_lem, lines, lines_while_connected}
use vehicle_spy.Frames.Normaliser.{parse_monitor_line, of_frame}
use vehicle_spy.Frames.RoundTrip.{parse_monitor_line-build_frame_string, frame_of}
use vehicle_spy.Tests.Sample.{two_valued, speed, frame}

frame-AreBytes : AreBytes frame
frame-AreBytes = (omega arith, (omega arith, (omega arith, tt)))

extract_raw_bits_example : extract_raw_bits frame 4 12 ≡ le_value frame / 2 ^ 4 % 2 ^ 12
extract_raw_bits_example =
    extract_raw_bits_lem frame 4 12 frame-AreBytes (omega arith) (omega arith)

mapper_raw_bits_motorola_example :
    mapper_raw_bits motorola frame 7 12 ≡ be_value frame / 2 ^ (8 * 3 - (0 + 12)) % 2 ^ 12
mapper_raw_bits_motorola_example =
    mapper_raw_bits_motorola frame 0 12 frame-AreBytes (omega arith) (omega arith) (omega arith)

to_signed_example : to_signed 0xFFE 12 ≡ negsuc 1
to_signed_example = to_signed_lem 0xFFE 12 (omega arith) (omega arith) (omega arith)

extract_signal_example : extract_signal two_valued frame 4 12 true false true ≡ some true
extract_signal_example =
    extract_signal_lem two_valued frame 4 12 true false true frame-AreBytes (omega arith)

speed_mapped : map_signal two_valued frame speed ≡ some true
speed_mapped =
    map_signal_intel two_valued frame speed frame-AreBytes refl (omega arith) (omega arith)
      (omega arith) (omega arith)

not_below_itself : (x : Bool) → two_valued.lt x x ≡ false
not_below_itself true = refl
not_below_itself false = refl

abbrev message : CanFrame
message = record { identifier = 0x123; data_length_code = 2; bytes = 0xAB ∷ 0x0C ∷ 0x7F ∷ [] }

parse_monitor_line-build_frame_string_example :
    parse_monitor_line (build_frame_string message buffer_size)
    ≡ of_frame (frame_of 0x123 (take (min 2 8) (0xAB ∷ 0x0C ∷ 0x7F ∷ [])))
parse_monitor_line-build_frame_string_example =
    parse_monitor_line-build_frame_string message (omega arith)
      (omega arith, (omega arith, (omega arith, tt)))

abbrev ready : Bridge
ready = record { monitor_active = false; initialized = true; serial_quiet_until = 0 }

abbrev two_frames : List (CanFrame × Bool)
two_frames = (message, true) ∷ (message, false) ∷ []

process_frames_example :
    (process_frames ready true 5 two_frames).1
    ≡ record { serial = lines two_frames; tcp = lines_while_connected two_frames }
process_frames_example = process_frames_lem ready true 5 two_frames
