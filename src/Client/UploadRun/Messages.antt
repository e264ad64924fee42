-- ===== src/Client/UploadRun/Messages.antt =====
-- What a peer reads of the messages that client/upload.go writes without `WriteMessage`.
use gosoulseek.Prelude.{◌%◌, ◌^◌, ◌≤◌, ◌<◌, ◌≡◌, ◌∙◌, ap, refl, arith, false}
use gosoulseek.Prelude.{Bytes, [], ◌∷◌, ◌++◌, append_assoc, length, length-append, some}
use gosoulseek.Protocol.LittleEndian.{le_bytes, le_value, length-le_bytes}
use gosoulseek.Protocol.Reader.{read_full, unexpected_eof}
use gosoulseek.Protocol.Codes.{peer_code}
use gosoulseek.Protocol.Decode.Codec.{encoded}
use gosoulseek.Protocol.Writer.{Sink, Writer, write_bytes, write_uint32, write_string, buffer}
use gosoulseek.Peer.Transfer.{TransferRequest, encode_upload_failed, transfer_upload}
use gosoulseek.Connection.{read_message, write_message, failed, read_payload}
use gosoulseek.Client.TransferState.{has, succeeded, cancelled}
use gosoulseek.Client.Transfer.{Transfer}
use gosoulseek.Client.UploadRun.{
  request_message, send_transfer_request, failure_notice, notify_peer_of_failure,
}

-- The hand-made frame of the request is the one that `WriteMessage` makes, on every connection, also on
-- one that fails.
pub send_transfer_request-write_message :
    (sink : Sink) (t : Transfer) (w : Writer)
    → send_transfer_request sink t w ≡ write_message sink (request_message t) w
unfolding send_transfer_request write_message write_uint32
send_transfer_request-write_message sink t w = refl

notice_layout :
    (filename : Bytes)
    → encoded encode_upload_failed (record { filename = filename })
      ≡ le_bytes 4 46 ++ (le_bytes 4 (length filename % 2 ^ 32) ++ filename)
unfolding encode_upload_failed peer_code write_string le_bytes
notice_layout filename = simp append_assoc

-- What the request says.
abbrev pub offer : Transfer → TransferRequest
offer t = record {
  direction = transfer_upload;
  token = t.token;
  filename = t.filename;
  file_size = t.size;
}

-- A message that announces 46 bytes, of which too few come.
short_message :
    (xs : Bytes)
    → 1 ≤ length xs
    → length xs < 46
    → (read_message (46 ∷ (0 ∷ (0 ∷ (0 ∷ xs))))).0 ≡ failed (read_payload (some unexpected_eof))
unfolding read_message read_full le_value
short_message xs some_there few = ground (arith, some_there, few)

code_46 : le_bytes 4 46 ≡ 46 ∷ (0 ∷ (0 ∷ (0 ∷ [])))
unfolding le_bytes
code_46 = refl

-- The notice of a failed upload is written without a frame, so that the peer takes its code for a length:
-- if the name of the file has less than 42 bytes and nothing follows, the peer waits for more and reads no
-- message at all.
pub failure_notice_unread :
    (t : Transfer)
    → has t.state succeeded ≡ false
    → has t.state cancelled ≡ false
    → length t.filename < 42
    → (read_message (notify_peer_of_failure buffer t [])).0
      ≡ failed (read_payload (some unexpected_eof))
unfolding notify_peer_of_failure failure_notice write_bytes
failure_notice_unread t failing unasked short =
    let n = length t.filename % 2 ^ 32 in
    let notice : notify_peer_of_failure buffer t []
        ≡ le_bytes 4 46 ++ (le_bytes 4 n ++ t.filename) =
      ground (arith, failing, unasked) ∙ notice_layout t.filename in
    let more = length-append (le_bytes 4 n) t.filename in
    let size = length-le_bytes 4 n in
    let xs = le_bytes 4 n ++ t.filename in
    ap (λ bs. (read_message bs).0) (notice ∙ ap (λ c. c ++ xs) code_46)
    ∙ short_message xs (omega (arith, more, size)) (omega (arith, more, size, short))
