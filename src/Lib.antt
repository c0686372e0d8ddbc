-- ===== src/Lib.antt =====
-- vehicle-spy reads a vehicle's CAN bus through an ESP32 and turns the frames into telemetry. The
-- firmware (firmware/vanilla) forwards frames as lines of text, serves one TCP client and a serial
-- console, announces itself by UDP beacons and shows its state on an LED. The host (src, include)
-- finds the device, reads the lines back into frames, and decodes signals that DBC files define.
--
-- Base: the shared names, Boolean tests, lists over the native numbers, byte strings, and the
--   printing and reading of numbers as printf and from_chars do it.
-- Decoder: src/domain/CANDecoder.cpp and the bit extraction, scaling and clamping of
--   src/domain/DBCSignalMapper.cpp. A frame is a list of bytes. Floating-point numbers are a
--   parameter, FloatOps, as are std::stod and its inverse. Children: Signed (two's complement),
--   Values (the numbers a frame stands for), Intel, Motorola, Mapping.
-- Dbc: src/domain/DBCFileParser.cpp. Line has the parsers of a signal line (a position is the text
--   from there on), Values those of a value table, File whole lines and files; Print is the inverse
--   that the round trip uses. A map from identifiers is an association list.
-- Frames: Bridge is firmware/vanilla/CanBridge.cpp, Reader is src/pipeline/TcpReader.cpp, Normaliser
--   is src/pipeline/Elm327Normaliser.cpp.
-- Discovery: Packet is src/discovery/DiscoveryPacket.cpp, Beacon firmware/vanilla/DiscoveryManager.cpp,
--   Listener src/discovery/UDPDiscovery.cpp, Verifier src/discovery/DiscoveryVerifier.cpp; Search brings
--   the host and the firmware together.
-- Firmware: Framer is firmware/vanilla/SerialCommandFramer.cpp; Reset is FactoryReset.cpp and
--   FactoryResetCheck.cpp; Led is StatusLED.cpp and LedPatternPolicy.cpp; At is
--   AtCommandDispatcher.cpp; Tcp is TcpServerManager.cpp; Wifi is WiFiManager.cpp. In Wifi, State has
--   the context and the pure decisions, Handlers the handler of each state, Campaign the strategies
--   after an authentication failure, Manager the ticks and events that use them; Diagram, Steps and
--   Runs follow the states, Rounds, Budget, Recovery and Join say what becomes of a lost link. Ota is
--   OtaUpdateServer.cpp: Signature and Verify check an image, Server has the handlers of an upload,
--   Post the answer; Image and Upload follow an image through them. The hash is a parameter.
-- Detector: src/domain/VehicleDetector.cpp: Observe keeps what is seen, Evidence and Wmi conclude from
--   CAN ids and from the VIN, Report puts the result together.
-- Events: src/domain/EventDispatcher.cpp.
-- Replay: src/pipeline/ReplayPacing.cpp and PacedFrameScheduler.cpp: Pacing has the operations, Turns
--   what a turn does, Kept which frames are emitted, Due and Schedule when.
-- Cli: src/cli/CliOptions.cpp behind CLI11, src/cli/LogSanitizer.cpp, and the targets of
--   src/pipeline/PipelineFactory.cpp: Target, Options (the folds), Validate, Focus and Examples.
-- Provisioning: src/cli/ProvisioningRunner.cpp. Reply has what is looked for in the device's bytes, Polling
--   the poll loop and the two waits, Console the TCP console, Transport the resolution of transports, Run
--   the commands; Strip, Steps, Chunks and Acks follow the bytes, Accepted and Handshake relate it to the
--   validation and the firmware's authentication, Delivery runs host and device together.
-- Elm: Response and Monitor are src/boundary/ELM327Transport.cpp, Session and Commands
--   src/ble/Elm327Session.cpp, Protocol src/boundary/OBD2Protocol.cpp; Scanning, Banner, Stripping
--   and RoundTrip follow an answer through the reader, Frame and Stream a line of the monitor, Answer
--   and Vin both to the detector; Prompts is about the prompts, Assertion the digits, Fuel the fuel
--   type.
-- Tests: runs on small inputs.
--
-- State is a record with the fields of the class, an operation a function from state to state, and
-- calls on hardware or on another class are a list of effects in the order of the calls. What such a
-- call answers is an argument. Unsigned integers are natural numbers, with the wrap-around written
-- out where the code can reach it. Loops are recursive on a list or on fuel: value entries take a
-- byte each, so a text's length and one more is enough; a complete TCP line takes a byte, so the
-- buffer's length and one more is enough; the reset loop's fuel is the number of polls, and what
-- is said of it names the fuel it needs.
--
-- Not modelled: the file system, sockets, Bluetooth, the terminal, cryptography, and logging; the
-- routes and the form of the update server, the transports of the host, CLI11, which fills in the
-- options of the command line, the serial device behind the provisioning dialogue, and the threads
-- of the ELM327 session, whose notifications are the arguments of its waits.
pub mod Base
pub mod Decoder
pub mod Frames
pub mod Discovery
pub mod Dbc
pub mod Firmware
pub mod Detector
pub mod Events
pub mod Replay
pub mod Cli
pub mod Provisioning
pub mod Elm
pub mod Tests
