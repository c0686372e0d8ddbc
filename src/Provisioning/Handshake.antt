-- ===== src/Provisioning/Handshake.antt =====
-- The host's TcpConsolePort (src/cli/ProvisioningRunner.cpp) against the firmware's authentication
-- (firmware/vanilla/TcpServerManager.cpp).
use vehicle_spy.Base.{
  ℕ, ◌≡◌, refl, sym, ap, ◌∙◌, inl, inr, Bool, true, false, Option, none, some, List, [], ◌∷◌, ◌++◌,
  Bool-cases, ==-refl, if_true, if_false, ◌⊎◌, if◌then◌else◌, ◌==◌,
}
use vehicle_spy.Base.Text.{
  Text, codes, text_eq, Lacks, split_at, split_at-append, trim_by, drop_while, trim_end-append,
}
use vehicle_spy.Firmware.Tcp.Manager.{
  Effect, println, Arrival, Manager, accept, is_ws, trim, greet, welcome, reject, fresh,
  is_valid_auth_token, stop_old,
}
use vehicle_spy.Provisioning.Console.{Socket, SocketCall, Console, open_console, auth_frame}

-- The bytes that the firmware prints to a client: println adds "\r\n".
pub printed_to : ℕ → List Effect → Text
printed_to id [] = []
printed_to id (println to line ∷ effects) =
    let rest = printed_to id effects in if to == id then line ++ (codes "\r\n" ++ rest) else rest
printed_to id (_ ∷ effects) = printed_to id effects

abbrev line_before : Option (Text × Text) → Text
line_before none = []
line_before (some (line, rest)) = line

-- The client of a host that has sent its frame: the firmware reads a line up to a carriage return.
abbrev pub arrival_of : ℕ → Text → Text → Arrival
arrival_of id ip frame = record {
  id = id;
  remote_ip = ip;
  first_line = line_before (split_at b'\r' frame);
}

-- A socket whose calls succeed, on which the firmware's answer comes and what it sends after it.
abbrev pub answering : Text → Socket
answering s = record {
  connects = true;
  sets_auth_timeout = true;
  sets_no_delay = true;
  sends = true;
  incoming = s;
  sets_read_timeout = true;
}

-- The host connects with its token to a device that has its own.
abbrev pub opening : Text → Text → ℕ → Text → Manager → Text → Bool × Console × List SocketCall
opening host_token device_token id ip m after =
    let told = (accept device_token (arrival_of id ip (auth_frame host_token)) m).1 in
    open_console host_token (answering (printed_to id told ++ after))

after_stop :
    (id : ℕ) (old : Option ℕ) (effects : List Effect)
    → printed_to id (stop_old old ++ effects) ≡ printed_to id effects
unfolding printed_to
after_stop id none effects = refl
after_stop id (some old) effects = refl

welcome_printed :
    (id : ℕ) (ip frame : Text)
    → printed_to id (greet (arrival_of id ip frame) ++ welcome (arrival_of id ip frame))
      ≡ codes "OK\r\n"
unfolding printed_to
welcome_printed id ip frame = rw (==-refl id) refl

reject_printed :
    (id : ℕ) (ip frame : Text)
    → printed_to id (greet (arrival_of id ip frame) ++ reject (arrival_of id ip frame))
      ≡ codes "ERROR unauthorized\r\n"
unfolding printed_to
reject_printed id ip frame = rw (==-refl id) refl

opened : (token after : Text) → (open_console token (answering (codes "OK\r\n" ++ after))).0 ≡ true
unfolding open_console
opened token after = refl

ack_consumed :
    (token after : Text)
    → (open_console token (answering (codes "OK\r\n" ++ after))).1.waiting ≡ b'\n' ∷ after
unfolding open_console
ack_consumed token after = refl

refusal_consumed :
    (token after : Text)
    → (open_console token (answering (codes "ERROR unauthorized\r\n" ++ after))).1.waiting
      ≡ b'\n' ∷ after
unfolding open_console
refusal_consumed token after = refl

not_opened :
    (token after : Text)
    → (open_console token (answering (codes "ERROR unauthorized\r\n" ++ after))).0 ≡ false
unfolding open_console
not_opened token after = refl

module _ (p : Text) (d : ℕ) (l : Lacks b'\r' (p ++ d ∷ [])) (w : is_ws d ≡ false) where
  abbrev host : Text
  host = p ++ d ∷ []

  first_line_lem : line_before (split_at b'\r' (auth_frame host)) ≡ codes "AUTH " ++ host
  unfolding auth_frame
  first_line_lem =
      ap line_before
        (split_at-append b'\r' (codes "AUTH " ++ host) [] (refl, (refl, (refl, (refl, (refl, l))))))

  trimmed : trim (codes "AUTH " ++ host) ≡ codes "AUTH " ++ host
  unfolding trim trim_by drop_while
  trimmed = trim_end-append is_ws (codes "AUTH " ++ p) d [] w tt

  token_lem :
      (device : Text)
      → is_valid_auth_token (trim (line_before (split_at b'\r' (auth_frame host)))) device
        ≡ text_eq host device
  unfolding is_valid_auth_token text_eq
  token_lem device =
      ap (λ s. is_valid_auth_token (trim s) device) first_line_lem
      ∙ ap (λ s. is_valid_auth_token s device) trimmed

  module _ (device : Text) (id : ℕ) (ip : Text) (m : Manager) where
    abbrev arrival : Arrival
    arrival = arrival_of id ip (auth_frame host)

    abbrev adopted : Manager
    adopted = record { current = some id; client_ip = ip; partial_line = [] }

    abbrev granted : List Effect
    granted = stop_old m.current ++ (greet arrival ++ welcome arrival)

    abbrev refused : List Effect
    refused = stop_old m.current ++ (greet arrival ++ reject arrival)

    abbrev told : List Effect
    told = (accept device (arrival_of id ip (auth_frame host)) m).1

    accept_granted :
        text_eq host device ≡ true → told ≡ stop_old m.current ++ (greet arrival ++ welcome arrival)
    unfolding accept
    accept_granted h =
        ap (λ (r : Manager × List Effect). r.1)
          (if_true (is_valid_auth_token (trim arrival.first_line) device) (adopted, granted)
            (fresh, refused) (token_lem device ∙ h))

    accept_refused :
        text_eq host device ≡ false → told ≡ stop_old m.current ++ (greet arrival ++ reject arrival)
    unfolding accept
    accept_refused h =
        ap (λ (r : Manager × List Effect). r.1)
          (if_false (is_valid_auth_token (trim arrival.first_line) device) (adopted, granted)
            (fresh, refused) (token_lem device ∙ h))

    told_granted : text_eq host device ≡ true → printed_to id told ≡ codes "OK\r\n"
    told_granted h =
        ap (printed_to id) (accept_granted h)
        ∙ after_stop id m.current (greet arrival ++ welcome arrival)
        ∙ welcome_printed id ip (auth_frame host)

    told_refused : text_eq host device ≡ false → printed_to id told ≡ codes "ERROR unauthorized\r\n"
    told_refused h =
        ap (printed_to id) (accept_refused h)
        ∙ after_stop id m.current (greet arrival ++ reject arrival)
        ∙ reject_printed id ip (auth_frame host)

    handshake_cases :
        (after : Text)
        → (text_eq host device ≡ true) ⊎ (text_eq host device ≡ false)
        → (opening host device id ip m after).0 ≡ text_eq host device
    handshake_cases after (inl h) =
        ap (λ s. (open_console host (answering (s ++ after))).0) (told_granted h)
        ∙ opened host after
        ∙ sym h
    handshake_cases after (inr h) =
        ap (λ s. (open_console host (answering (s ++ after))).0) (told_refused h)
        ∙ not_opened host after
        ∙ sym h

    left_waiting :
        (after : Text)
        → (text_eq host device ≡ true) ⊎ (text_eq host device ≡ false)
        → (opening host device id ip m after).1.waiting ≡ b'\n' ∷ after
    left_waiting after (inl h) =
        ap (λ s. (open_console host (answering (s ++ after))).1.waiting) (told_granted h)
        ∙ ack_consumed host after
    left_waiting after (inr h) =
        ap (λ s. (open_console host (answering (s ++ after))).1.waiting) (told_refused h)
        ∙ refusal_consumed host after

-- A host whose token holds no carriage return and ends with no white space opens the console of a
-- device exactly if the device has the same token, whoever was its client before. Of the device's
-- answer the line feed is left, and nothing of what it sends after that has been read.
pub open_console-accept :
    (p : Text) (d : ℕ) (device : Text) (id : ℕ) (ip : Text) (m : Manager) (after : Text)
    → Lacks b'\r' (p ++ d ∷ [])
    → is_ws d ≡ false
    → ((opening (p ++ d ∷ []) device id ip m after).0 ≡ text_eq (p ++ d ∷ []) device)
      × ((opening (p ++ d ∷ []) device id ip m after).1.waiting ≡ b'\n' ∷ after)
open_console-accept p d device id ip m after l w =
    let cases = Bool-cases (text_eq (p ++ d ∷ []) device) in
    (
      handshake_cases p d l w device id ip m after cases,
      left_waiting p d l w device id ip m after cases,
    )
