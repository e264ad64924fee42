-- ===== src/Client/Delivery.antt =====
-- An upload and a download at the two ends of one connection: `streamFile` of client/upload.go answers
-- `transferData` of client/download.go.
use gosoulseek.Prelude.{ℕ, ◌-◌, ◌≤◌, ◌<◌, ◌≡◌, ◌∙◌, ap, sym, arith}
use gosoulseek.Prelude.{Bytes, List, [], ◌++◌, append-nil, All, length, drop, none}
use gosoulseek.Prelude.{length-drop, take_all, drop_all}
use gosoulseek.Prelude.Int.{pos, to_uint64}
use gosoulseek.Protocol.LittleEndian.{le_bytes}
use gosoulseek.Client.Transfer.{Transfer}
use gosoulseek.Client.Outcome.Endings.{IsOpen}
use gosoulseek.Client.Receiving.{returned, Pass, FileWriter, Received, offset_bytes, transfer_data}
use gosoulseek.Client.Receiving.Finishing.{TakesAll, Good}
use gosoulseek.Client.Receiving.Results.{Ready, transfer_data_finishes}
use gosoulseek.Client.Sending.{SendPass, Sending, Outside, stream_file}
use gosoulseek.Client.Sending.Account.{Sends}
use gosoulseek.Client.Sending.Results.{Calm, asked, stream_file_completes}

-- The downloader's offset as the uploader meets it.
offset_asked :
    (size start : ℕ) (tr : Transfer)
    → Ready size start tr
    → offset_bytes tr ≡ asked (pos start) ++ []
unfolding offset_bytes
offset_asked size start tr ready =
    ap (λ z. le_bytes 8 (to_uint64 z)) ready.from ∙ sym (append-nil (asked (pos start)))

-- A download that resumes at an offset gets the rest of the file: the uploader takes the offset that the
-- downloader sends, both ends return without an error, the downloader's writer has the file's bytes from
-- the offset on, and none is left on the connection. The pieces in which the file is read and the bytes come
-- do not matter.
pub upload_reaches_download :
    (writer : FileWriter) (now size start : ℕ) (w : Outside) (sends : List SendPass)
    (receives : List Pass) (content : Bytes) (up down : Transfer)
    → Ready size start down
    → up.size ≡ pos size
    → IsOpen up
    → Calm w up content
    → length content ≡ size
    → TakesAll writer
    → All Sends sends
    → size - start < length sends
    → All Good receives
    → size - start ≤ length receives
    → (t : Sending) × (u : Received) × (stream_file w sends (offset_bytes down) up
        ≡ returned none t)
      × (transfer_data writer now none receives t.outgoing down
          ≡ (offset_bytes down, returned none u))
      × (u.written ≡ drop start content)
      × (u.incoming ≡ [])
upload_reaches_download writer now size start w sends receives content up down ready sized open_up
      calm whole takes good_sends enough_sends good_receives enough =
    let n = size - start in
    let rest = length-drop start content (omega (arith, whole, ready.ordered)) in
    let (t, sent, out) =
      stream_file_completes w sends size start [] content up calm sized ready.small ready.ordered
        open_up good_sends enough_sends in
    let all : t.outgoing ≡ drop start content =
      out ∙ take_all n (drop start content) (omega (arith, rest, whole)) in
    let long : length t.outgoing ≡ n = omega (arith, ap length all, rest, whole) in
    let (u, received, written, left) =
      transfer_data_finishes writer now size start receives t.outgoing down ready takes
        good_receives (omega (arith, long)) enough in
    (
      t,
      u,
      ap (λ bs. stream_file w sends bs up) (offset_asked size start down ready) ∙ sent,
      received,
      written ∙ (take_all n t.outgoing (omega (arith, long)) ∙ all),
      left ∙ drop_all n t.outgoing (omega (arith, long)),
    )
