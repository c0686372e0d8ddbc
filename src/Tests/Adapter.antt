-- ===== src/Tests/Adapter.antt =====
-- The ELM327 adapter.
use vehicle_spy.Base.{
  ℕ, ◌≡◌, refl, inr, false, true, none, some, List, [], ◌∷◌, ◌++◌, map, All, length, arith,
}
use vehicle_spy.Base.Text.{Text, codes}
use vehicle_spy.Detector.Observe.{empty_detector}
use vehicle_spy.Elm.Response.{response, parse_obd2_response, build_obd2_query, parse_at_response}
use vehicle_spy.Elm.Monitor.{parse_can_frame, build_can_filter}
use vehicle_spy.Elm.Commands.{Period, query_vin, send_and_wait}
use vehicle_spy.Elm.Vin.{query_vin-none}
use vehicle_spy.Elm.Session.{Session, prompt_notified, delivered, handle_all, handle_incoming_data}
use vehicle_spy.Elm.Scanning.{Line, IsLine, lay_lines, line_bytes}
use vehicle_spy.Elm.Banner.{Info, searching, bus_init, ok, info_text, lists, banner_text}
use vehicle_spy.Elm.Assertion.{parse_obd2_response-IsClean, IsClean}
use vehicle_spy.Elm.Answer.{answered, handle_incoming_data-lay_lines}
use vehicle_spy.Elm.Frame.{IsCellOf, lay_frame, data_of}
use vehicle_spy.Elm.Stream.{monitored, handle_incoming_data-lay_frame}
use vehicle_spy.Elm.Prompts.{notifications}

abbrev order : List Info
order = ok ∷ searching ∷ bus_init ∷ []

abbrev order_texts : List Text
order_texts = map info_text order

order-lists : (i : Info) → lists order i ≡ true
unfolding lists
order-lists searching = refl
order-lists bus_init = refl
order-lists ok = refl

abbrev no_overflow : Text → ℕ
no_overflow s = 0

abbrev querying : Session
querying = record {
  can_mode = false;
  prompt_ready = false;
  prompt_buffer = codes "ELM327";
  detector = empty_detector;
}

abbrev monitoring : Session
monitoring = record querying { can_mode = true }

abbrev rpm_line : Line
rpm_line = record {
  label = some (codes "0");
  cells = (65, codes " ") ∷ (12, []) ∷ (26, codes "  ") ∷ (248, []) ∷ [];
  ending = 13;
  padding = codes "\r";
}

rpm_line-IsLine : IsLine rpm_line
rpm_line-IsLine = record {
  label_good = (refl, tt);
  cells_good = (
    (omega arith, (refl, tt)),
    ((omega arith, tt), ((omega arith, (refl, (refl, tt))), ((omega arith, tt), tt))),
  );
  ending_good = refl;
  padding_good = (refl, tt);
}

bytes_of_rpm : line_bytes (rpm_line ∷ []) ≡ 65 ∷ 12 ∷ 26 ∷ 248 ∷ []
unfolding line_bytes
bytes_of_rpm = refl

handle_incoming_data-lay_lines_example :
    handle_incoming_data order_texts no_overflow 7
      ((banner_text (some searching) ++ (codes "..." ++ lay_lines (rpm_line ∷ []))) ++ b'>' ∷ [])
      querying
    ≡ (
      answered 7 (65 ∷ 12 ∷ 26 ∷ 248 ∷ []) querying,
      prompt_notified ∷ delivered (65 ∷ 12 ∷ 26 ∷ 248 ∷ []) ∷ [],
    )
handle_incoming_data-lay_lines_example =
    handle_incoming_data-lay_lines no_overflow 7 querying order (some searching) (codes "...")
      (rpm_line ∷ []) 65 (12 ∷ 26 ∷ 248 ∷ []) refl
      (refl, (refl, (refl, (refl, (refl, (refl, tt)))))) order-lists (refl, (refl, (refl, tt)))
      (rpm_line-IsLine, tt) bytes_of_rpm

abbrev cells : List (Text × ℕ)
cells =
    ([], 0)
    ∷ ([], 17)
    ∷ (codes " ", 34)
    ∷ ([], 51)
    ∷ ([], 68)
    ∷ ([], 85)
    ∷ ([], 102)
    ∷ ([], 255)
    ∷ []

cells-AreCells : All IsCellOf cells
cells-AreCells = (
  (tt, omega arith),
  (
    (tt, omega arith),
    (
      ((refl, tt), omega arith),
      (
        (tt, omega arith),
        ((tt, omega arith), ((tt, omega arith), ((tt, omega arith), ((tt, omega arith), tt)))),
      ),
    ),
  ),
)

eight : length (data_of cells) ≡ 8
unfolding data_of
eight = refl

handle_incoming_data-lay_frame_example :
    handle_incoming_data order_texts no_overflow 7 (lay_frame 280 cells ++ codes "\r\n") monitoring
    ≡ (monitored 7 (24 ∷ 1 ∷ data_of cells) monitoring, delivered (24 ∷ 1 ∷ data_of cells) ∷ [])
handle_incoming_data-lay_frame_example =
    handle_incoming_data-lay_frame order_texts no_overflow 7 monitoring 280 cells (codes "\r\n")
      refl (omega arith) cells-AreCells eight (refl, (refl, tt))

parse_obd2_response-IsClean_example :
    IsClean (parse_obd2_response order_texts (codes "SEARCHING...\r41 0C 1\r>"))
parse_obd2_response-IsClean_example =
    parse_obd2_response-IsClean order_texts (codes "SEARCHING...\r41 0C 1\r>")

-- An answer in two notifications, and an echo behind a prompt.
abbrev chunks : List (ℕ × Text)
chunks = (1, codes "41 0") ∷ (2, codes "C 1A F8\r\r>01 0C") ∷ (3, codes "\r41 0C 1A F8\r\r>") ∷ []

-- The length that precedes the lines of a long answer leaves a byte of its own in the data.
length_line :
    parse_obd2_response order_texts (codes "014\r\n0:4902\r\n>") ≡ response (1 ∷ 73 ∷ 2 ∷ [])
unfolding parse_obd2_response
length_line = refl

-- Of two prompts in one notification the second is reported with the next one.
stale_prompt :
    notifications
      (handle_all order_texts no_overflow ((1, codes ">>") ∷ (2, codes "41 0C") ∷ []) querying).1
    ≡ 2
unfolding handle_all notifications
stale_prompt = refl

-- An answer that is cut into two notifications is delivered in two parts.
cut_answer :
    (handle_all order_texts no_overflow
      ((1, codes "41 0C ") ∷ (2, codes "1A F8\r>") ∷ [])
      querying).1
    ≡ delivered (65 ∷ 12 ∷ []) ∷ prompt_notified ∷ delivered (26 ∷ 248 ∷ []) ∷ []
unfolding handle_all
cut_answer = refl

query : build_obd2_query 1 12 ≡ codes "01 0C\r"
unfolding build_obd2_query
query = refl

chatter : parse_can_frame no_overflow (codes "BUFFER FULL\r") ≡ none
unfolding parse_can_frame
chatter = refl

acknowledged : parse_at_response (codes "ATE0\r\nOK\r\n>") ≡ true
unfolding parse_at_response
acknowledged = refl

filter : build_can_filter 612 ≡ codes "ATCRA264\r"
unfolding build_can_filter
filter = refl

-- The whole VIN in one answer of twenty bytes.
abbrev vin_answer : List (ℕ × Text)
vin_answer = (9, codes "4902015741555A5A5A3447314533343536373839\r>") ∷ []

abbrev vin_period : Period
vin_period = record { early = []; during = vin_answer }

query_vin-none_example : (query_vin order_texts no_overflow vin_period querying).0 ≡ none
unfolding parse_obd2_response
query_vin-none_example =
    query_vin-none order_texts no_overflow vin_period querying refl tt (inr (omega arith), tt)

abbrev early_period : Period
early_period = record { early = (1, codes "OK\r>") ∷ []; during = [] }

-- A prompt that arrives before the wait begins is lost.
early_prompt :
    (send_and_wait order_texts no_overflow (codes "ATZ\r") early_period querying).ready ≡ false
unfolding send_and_wait
early_prompt = refl
