-- ===== src/Firmware/Ota/Server.antt =====
-- firmware/vanilla/OtaUpdateServer.cpp: the handlers. What the HTTP server, the updater, the clock
-- and the partition table answer is part of an event; the routes of setup() and the form of
-- handleGet() are left out.
use vehicle_spy.Base.{
  ℕ, ◌*◌, Bool, true, false, not, Option, none, some, List, [], ◌∷◌, ◌++◌, ltb, ◌==◌, if◌then◌else◌,
  length,
}
use vehicle_spy.Base.Text.{Text, codes}
use vehicle_spy.Discovery.Beacon.{since}
use vehicle_spy.Firmware.Ota.Signature.{parse_hex_sig}
use vehicle_spy.Firmware.Ota.Verify.{Partition, Crypto, verify_partition}

pub data OtaError : Type 0 where
  no_error : OtaError
  sodium_not_ready : OtaError
  bad_signature_header : OtaError
  no_signature : OtaError
  update_begin_failed : OtaError
  update_write_failed : OtaError
  update_end_failed : OtaError
  update_error : OtaError
  no_ota_partition : OtaError
  signature_verify_failed : OtaError
  set_boot_partition_failed : OtaError
  upload_aborted : OtaError
  upload_timeout : OtaError

unfoldable pub error_message : OtaError → Text
error_message sodium_not_ready = codes "sodium library not ready"
error_message bad_signature_header = codes "invalid signature header format"
error_message no_signature = codes "missing signature header"
error_message update_begin_failed = codes "failed to begin update"
error_message update_write_failed = codes "firmware write failed"
error_message update_end_failed = codes "failed to end update"
error_message update_error = codes "update error"
error_message no_ota_partition = codes "no OTA partition available"
error_message signature_verify_failed = codes "signature verification failed"
error_message set_boot_partition_failed = codes "failed to set boot partition"
error_message upload_aborted = codes "upload aborted"
error_message upload_timeout = codes "upload timeout"
error_message no_error = codes "unknown error"

unfoldable pub http_code : OtaError → ℕ
http_code no_error = 200
http_code signature_verify_failed = 403
http_code bad_signature_header = 403
http_code sodium_not_ready = 403
http_code no_signature = 401
http_code _ = 400

pub record Server : Type 0 where
  pub sodium_ready : Bool
  pub upload_start_time : ℕ
  pub ota_sig : List ℕ
  pub ota_has_sig : Bool
  pub ota_err : Text

pub data Effect : Type 0 where
  update_begin : ℕ → Effect
  update_write : List ℕ → Effect
  update_end : Effect
  update_abort : Effect
  set_boot : Effect
  report : OtaError → Effect

-- A chunk of an upload, with the answers it meets: START with the header and whether the update
-- begins, WRITE with the number of bytes that are written, END with what finishing, the partition
-- table and selecting the partition give.
pub data Upload : Type 0 where
  upload_start : Text → Bool → ℕ → Upload
  upload_write : List ℕ → ℕ → ℕ → Upload
  upload_end : Bool → Bool → Option Partition → ℕ → Bool → Upload
  upload_abort : Upload

abbrev pub upload_timeout_ms : ℕ
upload_timeout_ms = 300000

abbrev pub flash_max_size : ℕ
flash_max_size = 1024 * 1024

abbrev pub is_empty : Text → Bool
is_empty [] = true
is_empty (c ∷ s) = false

unfoldable pub report_error : OtaError → Server → Server
unfolding error_message
report_error e s = record s { ota_err = error_message e }

unfoldable pub handle_start : Text → Bool → ℕ → Server → Server × List Effect
unfolding report_error parse_hex_sig
handle_start header begins now s =
    let fresh = record s { ota_err = []; ota_has_sig = false; upload_start_time = now } in
    let parsed = parse_hex_sig header s.ota_sig in
    let with_sig = record fresh { ota_sig = parsed.1 } in
    let ready = record with_sig { ota_has_sig = true } in
    if not s.sodium_ready
    then (report_error sodium_not_ready fresh, report sodium_not_ready ∷ [])
    else if not parsed.0
    then (report_error bad_signature_header with_sig, report bad_signature_header ∷ [])
    else if not begins
    then (
      report_error update_begin_failed ready,
      update_begin flash_max_size ∷ report update_begin_failed ∷ [],
    )
    else (ready, update_begin flash_max_size ∷ [])

unfoldable pub handle_write : List ℕ → ℕ → ℕ → Server → Server × List Effect
unfolding report_error
handle_write bytes written now s =
    if not (is_empty s.ota_err)
    then (s, [])
    else if ltb upload_timeout_ms (since now s.upload_start_time)
    then (report_error upload_timeout s, update_abort ∷ report upload_timeout ∷ [])
    else if not (written == length bytes)
    then (report_error update_write_failed s, update_write bytes ∷ report update_write_failed ∷ [])
    else (s, update_write bytes ∷ [])

abbrev pub is_some {ℓ} : {A : Type ℓ} → Option A → Bool
is_some none = false
is_some (some x) = true

module _ {C : Type 0} (crypto : Crypto C) where
  unfoldable pub handle_end :
      Bool → Bool → Option Partition → ℕ → Bool → Server → Server × List Effect
  unfolding report_error
  handle_end ends has_error target size selects s =
      if not (is_empty s.ota_err)
      then (s, [])
      else if not ends
      then (report_error update_end_failed s, update_end ∷ report update_end_failed ∷ [])
      else if has_error
      then (report_error update_error s, update_end ∷ report update_error ∷ [])
      else if not (is_some target)
      then (report_error no_ota_partition s, update_end ∷ report no_ota_partition ∷ [])
      else if not (verify_partition crypto target size s.ota_sig)
      then (
        report_error signature_verify_failed s,
        update_end ∷ update_abort ∷ report signature_verify_failed ∷ [],
      )
      else if not selects
      then (
        report_error set_boot_partition_failed s,
        update_end ∷ set_boot ∷ report set_boot_partition_failed ∷ [],
      )
      else (s, update_end ∷ set_boot ∷ [])

  unfoldable pub handle_upload : Upload → Server → Server × List Effect
  unfolding handle_start handle_write report_error
  handle_upload (upload_start header begins now) s = handle_start header begins now s
  handle_upload (upload_write bytes written now) s = handle_write bytes written now s
  handle_upload (upload_end ends has_error target size selects) s =
      handle_end ends has_error target size selects s
  handle_upload upload_abort s =
      (report_error upload_aborted s, update_abort ∷ report upload_aborted ∷ [])

  unfoldable pub handle_uploads : List Upload → Server → Server × List Effect
  unfolding handle_upload
  handle_uploads [] s = (s, [])
  handle_uploads (u ∷ us) s =
      let one = handle_upload u s in let rest = handle_uploads us one.0 in (rest.0, one.1 ++ rest.1)
