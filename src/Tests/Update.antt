-- ===== src/Tests/Update.antt =====
-- The update server.
use vehicle_spy.Base.{
  ℕ, Bool, replicate, append-nil, append_assoc, ◌≡◌, true, false, not, ◌&&◌, some, List, [], ◌∷◌,
  ◌++◌, map, ltb, ◌==◌, if◌then◌else◌, take, length,
}
use vehicle_spy.Firmware.Ota.Signature.{parse_hex_sig, print_sig}
use vehicle_spy.Firmware.Ota.Verify.{verify_partition}
use vehicle_spy.Firmware.Ota.Server.{
  Server, upload_start, upload_end, upload_timeout, error_message, handle_uploads,
}
use vehicle_spy.Firmware.Ota.Image.{
  partition_of, Streaming, crypto_of, verify_partition-partition_of,
}
use vehicle_spy.Firmware.Ota.Upload.{boots, Piece, write_of, all_written, upload_lem}

-- A hash that keeps its whole input; a signature of the first byte fits.
abbrev first_byte : List ℕ → List ℕ → Bool
first_byte (a ∷ _) (b ∷ _) = a == b
first_byte _ _ = false

abbrev whole : Streaming (List ℕ)
whole = record {
  begin = [];
  absorb = λ c xs. c ++ xs;
  accepts = first_byte;
  absorb_nil = append-nil;
  absorb_append = append_assoc;
}

abbrev unwritten : List ℕ
unwritten = replicate 64 0

abbrev image : List ℕ
image = 127 ∷ 2 ∷ 3 ∷ []

abbrev key : List ℕ
key = replicate 64 127

verify_partition-partition_of_example :
    verify_partition (crypto_of whole) (some (partition_of image)) 2 key ≡ (
      if ltb (length image) 2
      then false
      else whole.accepts (whole.absorb whole.begin (take 2 image)) key)
verify_partition-partition_of_example = verify_partition-partition_of whole image 2 key

abbrev server : Server
server = record {
  sodium_ready = true;
  upload_start_time = 0;
  ota_sig = unwritten;
  ota_has_sig = false;
  ota_err = error_message upload_timeout;
}

abbrev pieces : List Piece
pieces =
    record { piece = 127 ∷ 2 ∷ []; written = 2; at = 5 }
    ∷ record { piece = 3 ∷ []; written = 1; at = 9 }
    ∷ []

upload_lem_example :
    boots
      (handle_uploads
        (crypto_of whole)
        (upload_start (print_sig key) true 4
          ∷ (map write_of pieces ++ upload_end true false (some (partition_of image)) 3 true ∷ []))
        server).1
    ≡ (server.sodium_ready
        && (parse_hex_sig (print_sig key) server.ota_sig).0
        && true
        && all_written 4 pieces
        && true
        && not false
        && verify_partition
            (crypto_of whole)
            (some (partition_of image))
            3
            (parse_hex_sig (print_sig key) server.ota_sig).1)
upload_lem_example =
    upload_lem (crypto_of whole) true false (some (partition_of image)) 3 true (print_sig key) true
      4 server pieces
