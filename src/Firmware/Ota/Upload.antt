-- ===== src/Firmware/Ota/Upload.antt =====
-- firmware/vanilla/OtaUpdateServer.cpp: when an upload selects the partition to boot from.
use vehicle_spy.Base.{
  ℕ, ◌≡◌, refl, sym, ap, ◌∙◌, inl, inr, Bool, true, false, not, ◌&&◌, ◌||◌, Option, none, some,
  List, [], ◌∷◌, ◌++◌, map, arith, ltb, ◌==◌, Bool-cases, length,
}
use vehicle_spy.Base.Text.{Text}
use vehicle_spy.Discovery.Beacon.{since}
use vehicle_spy.Firmware.Ota.Signature.{parse_hex_sig}
use vehicle_spy.Firmware.Ota.Verify.{Partition, Crypto, verify_partition}
use vehicle_spy.Firmware.Ota.Server.{
  OtaError, sodium_not_ready, bad_signature_header, update_begin_failed, update_write_failed,
  upload_timeout, error_message, Server, Effect, set_boot, Upload, upload_start, upload_write,
  upload_end, upload_timeout_ms, is_empty, report_error, handle_start, handle_write, handle_end,
  handle_upload, handle_uploads,
}

is_set_boot : Effect → Bool
is_set_boot set_boot = true
is_set_boot _ = false

-- A partition is selected somewhere in the effects.
pub boots : List Effect → Bool
boots [] = false
boots (e ∷ es) = is_set_boot e || boots es

-- A piece of an image, with the number of bytes that are written and the time.
pub record Piece : Type 0 where
  pub piece : List ℕ
  pub written : ℕ
  pub at : ℕ

abbrev pub write_of : Piece → Upload
write_of p = upload_write p.piece p.written p.at

-- Every piece came in time and was written whole.
pub all_written : ℕ → List Piece → Bool
all_written start [] = true
all_written start (p ∷ ps) =
    not (ltb upload_timeout_ms (since p.at start))
    && p.written == length p.piece
    && all_written start ps

boots-append : (xs ys : List Effect) → boots (xs ++ ys) ≡ (boots xs || boots ys)
unfolding boots
boots-append [] ys = refl
boots-append (x ∷ xs) ys = ground (arith, boots-append xs ys)

given_three : (a b c d : Bool) → (a && b && c) ≡ true → (a && b && c && d) ≡ d
given_three a b c d h = ground arith

refused_three : (a b c d : Bool) → (a && b && c) ≡ false → (a && b && c && d) ≡ false
refused_three a b c d h = ground arith

error_message_given : (e : OtaError) → is_empty (error_message e) ≡ false
unfolding error_message
error_message_given e = ground arith

module _ {C : Type 0} (crypto : Crypto C) where
  -- Once an error stands, nothing more happens in the upload.
  writes_stuck :
      (ps : List Piece) (u : Upload) (s : Server)
      → is_empty s.ota_err ≡ false
      → handle_uploads crypto (map write_of ps ++ u ∷ []) s ≡ handle_uploads crypto (u ∷ []) s
  unfolding handle_uploads handle_upload handle_write
  writes_stuck [] u s h = refl
  writes_stuck (p ∷ ps) u s h = rw h (writes_stuck ps u s h)

  end_stuck :
      (ends has_error : Bool) (target : Option Partition) (size : ℕ) (selects : Bool) (s : Server)
      → is_empty s.ota_err ≡ false
      → boots (handle_uploads crypto (upload_end ends has_error target size selects ∷ []) s).1
        ≡ false
  unfolding handle_uploads handle_upload handle_end boots
  end_stuck ends has_error target size selects s h = rw h refl

  -- What the end of a healthy upload asks for.
  abbrev accepted : Bool → Bool → Option Partition → ℕ → List ℕ → Bool
  accepted ends has_error target size sig =
      ends && not has_error && verify_partition crypto target size sig

  end_healthy :
      (ends has_error : Bool) (target : Option Partition) (size : ℕ) (selects : Bool) (s : Server)
      → is_empty s.ota_err ≡ true
      → boots (handle_uploads crypto (upload_end ends has_error target size selects ∷ []) s).1
        ≡ accepted ends has_error target size s.ota_sig
  unfolding handle_uploads handle_upload handle_end boots is_set_boot verify_partition
  end_healthy ends has_error none size selects s h = ground arith
  end_healthy ends has_error (some p) size selects s h = ground arith

  module _ (p : Piece) (s : Server) (h : is_empty s.ota_err ≡ true) where
    abbrev is_late : Bool
    is_late = ltb upload_timeout_ms (since p.at s.upload_start_time)

    abbrev is_whole : Bool
    is_whole = p.written == length p.piece

    write_boots_nothing : boots (handle_upload crypto (write_of p) s).1 ≡ false
    unfolding handle_upload handle_write boots is_set_boot
    write_boots_nothing = ground arith

    write_late : is_late ≡ true → is_empty (handle_upload crypto (write_of p) s).0.ota_err ≡ false
    unfolding handle_upload handle_write report_error
    write_late l = rw (h, l) (error_message_given upload_timeout)

    write_short :
        is_late ≡ false
        → is_whole ≡ false
        → is_empty (handle_upload crypto (write_of p) s).0.ota_err ≡ false
    unfolding handle_upload handle_write report_error
    write_short l w = rw (h, l, w) (error_message_given update_write_failed)

    write_whole : is_late ≡ false → is_whole ≡ true → (handle_upload crypto (write_of p) s).0 ≡ s
    unfolding handle_upload handle_write
    write_whole l w = rw (h, l, w) refl

  module _ (ends has_error : Bool) (target : Option Partition) (size : ℕ) (selects : Bool) where
    abbrev finish : Upload
    finish = upload_end ends has_error target size selects

    after_error :
        (ps : List Piece) (s : Server)
        → is_empty s.ota_err ≡ false
        → boots (handle_uploads crypto (map write_of ps ++ finish ∷ []) s).1 ≡ false
    after_error ps s h =
        ap (λ q. boots q.1) (writes_stuck ps finish s h)
        ∙ end_stuck ends has_error target size selects s h

    -- The first chunk, and what follows it.
    first :
        (u : Upload) (us : List Upload) (s : Server)
        → boots (handle_upload crypto u s).1 ≡ false
        → boots (handle_uploads crypto (u ∷ us) s).1
          ≡ boots (handle_uploads crypto us (handle_upload crypto u s).0).1
    unfolding handle_uploads
    first u us s h =
        boots-append (handle_upload crypto u s).1
          (handle_uploads crypto us (handle_upload crypto u s).0).1
        ∙ rw h refl

    writes_lem :
        (ps : List Piece) (s : Server)
        → is_empty s.ota_err ≡ true
        → boots (handle_uploads crypto (map write_of ps ++ finish ∷ []) s).1
          ≡ (all_written s.upload_start_time ps && accepted ends has_error target size s.ota_sig)
    unfolding all_written
    writes_lem [] s h = end_healthy ends has_error target size selects s h
    writes_lem (p ∷ ps) s h =
        first (write_of p) (map write_of ps ++ finish ∷ []) s (write_boots_nothing p s h)
        ∙ elim (Bool-cases (is_late p s h)) [
          | inl l ↦
              rw l (after_error ps (handle_upload crypto (write_of p) s).0 (write_late p s h l))
          | inr l ↦ elim (Bool-cases (is_whole p s h)) [
            | inl w ↦
                rw (l, w)
                  (ap (λ q. boots (handle_uploads crypto (map write_of ps ++ finish ∷ []) q).1)
                      (write_whole p s h l w)
                    ∙ writes_lem ps s h)
            | inr w ↦
                rw (l, w)
                  (after_error ps (handle_upload crypto (write_of p) s).0 (write_short p s h l w))
          ]
        ]

    module _ (header : Text) (begins : Bool) (now : ℕ) (s : Server) where
      abbrev opening : Upload
      opening = upload_start header begins now

      abbrev sig : List ℕ
      sig = (parse_hex_sig header s.ota_sig).1

      abbrev starts : Bool
      starts = s.sodium_ready && (parse_hex_sig header s.ota_sig).0 && begins

      start_boots_nothing : boots (handle_upload crypto opening s).1 ≡ false
      unfolding handle_upload handle_start boots is_set_boot
      start_boots_nothing = ground arith

      start_refused : starts ≡ false → is_empty (handle_upload crypto opening s).0.ota_err ≡ false
      unfolding handle_upload handle_start report_error
      start_refused r = ground (
        arith,
        error_message_given sodium_not_ready,
        error_message_given bad_signature_header,
        error_message_given update_begin_failed,
      )

      start_taken :
          starts ≡ true
          → (is_empty (handle_upload crypto opening s).0.ota_err ≡ true)
            × ((handle_upload crypto opening s).0.ota_sig ≡ sig)
            × ((handle_upload crypto opening s).0.upload_start_time ≡ now)
      unfolding handle_upload handle_start
      start_taken r = ground arith

      -- An upload, from its start over its pieces to its end, asks for a new boot partition exactly
      -- if the crypto library is ready, the header holds a signature, the update begins, every piece
      -- is written whole and in time, the update ends without an error, there is a partition, and
      -- the image in it is verified against the signature of this header; whatever was uploaded before.
      pub upload_lem :
          (ps : List Piece)
          → boots (handle_uploads crypto (opening ∷ (map write_of ps ++ finish ∷ [])) s).1 ≡ (
              s.sodium_ready
              && (parse_hex_sig header s.ota_sig).0
              && begins
              && all_written now ps
              && ends
              && not has_error
              && verify_partition crypto target size (parse_hex_sig header s.ota_sig).1)
      upload_lem ps =
          first opening (map write_of ps ++ finish ∷ []) s start_boots_nothing
          ∙ elim (Bool-cases starts) [
            | inl r ↦
                let taken = start_taken r in
                writes_lem ps (handle_upload crypto opening s).0 taken.0
                ∙ rw (taken.1, taken.2) (ground arith)
            | inr r ↦
                after_error ps (handle_upload crypto opening s).0 (start_refused r)
                ∙ sym (ground arith)
          ]
