-- ===== src/Firmware/Ota/Post.antt =====
-- firmware/vanilla/OtaUpdateServer.cpp: the answer to the request, and markValidOnBoot. The calls of
-- the callbacks are effects; a callback that is not set does nothing.
use vehicle_spy.Base.{
  ℕ, zero, suc, ◌+◌, arith, ◌≡◌, refl, Bool, true, false, not, Option, none, some, List, [], ◌∷◌,
  ◌++◌, map, leb, ◌==◌, if◌then◌else◌,
}
use vehicle_spy.Base.Search.{contains}
use vehicle_spy.Base.Text.{Text, codes, starts_with}
use vehicle_spy.Firmware.Ota.Server.{
  OtaError, no_error, sodium_not_ready, bad_signature_header, no_signature, update_begin_failed,
  update_write_failed, update_end_failed, update_error, no_ota_partition, signature_verify_failed,
  set_boot_partition_failed, upload_aborted, upload_timeout, error_message, http_code, Server,
  report_error, is_empty,
}

-- `std::tolower` on a byte in the C locale.
abbrev to_lower : ℕ → ℕ
to_lower c = if leb b'A' c then (if leb c b'Z' then c + 32 else c) else c

pub data Answer : Type 0 where
  http_send : ℕ → Text → Answer
  set_no_delay : Answer
  client_flush : Answer
  client_stop : Answer
  on_error : OtaError → Text → Answer
  on_success : Answer

abbrev pub reboot_flush_count : ℕ
reboot_flush_count = 10

unfoldable pub flushes : ℕ → List Answer
flushes zero = []
flushes (suc n) = client_flush ∷ flushes n

-- The error is guessed again from the text of its message.
unfoldable pub error_of_message : Text → OtaError
unfolding contains
error_of_message message =
    let lower = map to_lower message in
    if contains (codes "signature") lower
    then signature_verify_failed
    else if contains (codes "sodium") lower
    then sodium_not_ready
    else update_error

abbrev answer_error : Text → OtaError → List Answer
answer_error message e =
    http_send (http_code e) (codes "OTA error: " ++ message) ∷ on_error e message ∷ []

unfoldable pub handle_post : Bool → Server → List Answer
unfolding error_of_message flushes
handle_post has_error s =
    if not (is_empty s.ota_err)
    then answer_error s.ota_err (error_of_message s.ota_err)
    else if has_error
    then http_send 400 (codes "OTA error: update failed")
      ∷ on_error update_error (codes "update failed")
      ∷ []
    else set_no_delay
      ∷ http_send 200 (codes "Update Success! Rebooting...")
      ∷ (flushes reboot_flush_count ++ client_stop ∷ on_success ∷ [])

-- Whether the image that runs is marked valid: the state of the running partition, where there is
-- one and its state can be read.
unfoldable pub mark_valid_on_boot : Option (Option ℕ) → Bool
mark_valid_on_boot none = false
mark_valid_on_boot (some none) = false
mark_valid_on_boot (some (some state)) = state == 1

-- The errors that an upload reports.
unfoldable pub is_reported : OtaError → Bool
is_reported no_error = false
is_reported no_signature = false
is_reported _ = true

pub sent : List Answer → Option (ℕ × Text)
sent [] = none
sent (http_send code body ∷ rest) = some (code, body)
sent (_ ∷ rest) = sent rest

-- The request that follows an upload which reported an error is answered with that error's own
-- status code and message.
pub handle_post-report_error :
    (e : OtaError) (has_error : Bool) (s : Server)
    → is_reported e ≡ true
    → sent (handle_post has_error (report_error e s))
      ≡ some (http_code e, codes "OTA error: " ++ error_message e)
unfolding handle_post report_error error_message http_code error_of_message contains sent
    is_reported starts_with
handle_post-report_error no_error has_error s h = absurd (ground arith)
handle_post-report_error sodium_not_ready has_error s h = refl
handle_post-report_error bad_signature_header has_error s h = refl
handle_post-report_error no_signature has_error s h = absurd (ground arith)
handle_post-report_error update_begin_failed has_error s h = refl
handle_post-report_error update_write_failed has_error s h = refl
handle_post-report_error update_end_failed has_error s h = refl
handle_post-report_error update_error has_error s h = refl
handle_post-report_error no_ota_partition has_error s h = refl
handle_post-report_error signature_verify_failed has_error s h = refl
handle_post-report_error set_boot_partition_failed has_error s h = refl
handle_post-report_error upload_aborted has_error s h = refl
handle_post-report_error upload_timeout has_error s h = refl
