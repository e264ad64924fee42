-- ===== src/Client/UploadRun.antt =====
-- The rest of an upload in client/upload.go, around `streamFile`: the request, the wait for the peer's answer,
-- and what is done when it is over. `fail` and `complete` are those of a download.
pub mod Waiting
pub mod Messages
use gosoulseek.Prelude.{
  ℕ, zero, suc, ◌%◌, ◌^◌, ◌==◌, ltb, if◌then◌else◌, Bool, true, false, take, length,
}
use gosoulseek.Prelude.{Bytes, List, [], ◌∷◌, Option, none, some}
use gosoulseek.Protocol.LittleEndian.{le_bytes, le_value}
use gosoulseek.Protocol.Codes.{peer_code, PeerCode}
use gosoulseek.Protocol.Decode.{Result, DecodeError, ok, err}
use gosoulseek.Protocol.Decode.Codec.{encoded}
use gosoulseek.Protocol.Reader.{source, read_full}
use gosoulseek.Protocol.Writer.{Sink, Writer, ◌▸◌, write_bytes, clean}
use gosoulseek.Peer.Transfer.{
  TransferRequest, TransferResponse, encode_transfer_request, decode_transfer_response,
  encode_upload_denied, encode_upload_failed, transfer_upload,
}
use gosoulseek.Client.Errors.{TransferError, other}
use gosoulseek.Client.TransferState.{codes, has, succeeded, cancelled}
use gosoulseek.Client.Transfer.{Transfer}
use gosoulseek.Client.Queue.{dequeue_upload}
use gosoulseek.Client.Registry.{remove}
use gosoulseek.Client.UploadRequest.{Uploads}
use gosoulseek.Client.Slots.{SlotManager, release_upload_slot}
use gosoulseek.Client.Sending.{short_read}

unfoldable pub request_message : Transfer → Bytes
request_message t = encoded encode_transfer_request (record {
  direction = transfer_upload;
  token = t.token;
  filename = t.filename;
  file_size = t.size;
})

-- `sendTransferRequest`: the length is written byte by byte.
unfoldable pub send_transfer_request : Sink → Transfer → Writer → Writer
unfolding request_message
send_transfer_request sink t w =
    let message = request_message t in
    w ▸ write_bytes sink (le_bytes 4 (length message % 2 ^ 32)) ▸ write_bytes sink message

-- How the wait for an answer goes; `undecided` is only met when the fuel runs out.
pub data Waited : Type 0 where
  answered : TransferResponse → Waited
  wait_failed : TransferError → Waited
  undecided : Waited

-- What a message says to an upload that waits: nothing, if it is about something else.
unfoldable pub answer_of : ℕ → Bytes → Option Waited
answer_of token msg =
    if ltb (length msg) 4
    then none
    else if le_value (take 4 msg) == peer_code PeerCode.transfer_response
    then elim (decode_transfer_response msg) [
      | err e ↦ some (wait_failed (other (codes "decode")))
      | ok resp ↦ if resp.token == token then some (answered resp) else none
    ]
    else none

-- The loop of `waitForResponse`, on what the peer sends before it closes. Every message takes four bytes at
-- least, so that the number of bytes is fuel enough.
unfoldable pub wait_loop : ℕ → ℕ → Bytes → Waited
unfolding answer_of short_read
wait_loop token zero stream = undecided
wait_loop token (suc fuel) stream =
    let (head, r) = read_full 4 (source stream) in
    elim head [
      | none ↦ wait_failed (short_read r.err)
      | some bs ↦
          let (body, q) = read_full (le_value bs) (source r.rest) in
          elim body [
            | none ↦ wait_failed (short_read q.err)
            | some msg ↦ elim (answer_of token msg) [
              | some w ↦ w
              | none ↦ wait_loop token fuel q.rest
            ]
          ]
    ]

unfoldable pub wait_for_response : ℕ → Bytes → Waited
unfolding wait_loop
wait_for_response token stream = wait_loop token (suc (length stream)) stream

-- The notice of a failure: a cancelled upload is denied.
unfoldable pub failure_notice : Transfer → Bytes
failure_notice t =
    if has t.state cancelled
    then encoded encode_upload_denied (record { filename = t.filename; reason = codes "Cancelled" })
    else encoded encode_upload_failed (record { filename = t.filename })

-- `notifyPeerOfFailure`: the notice is written as it is, and an error is dropped.
unfoldable pub notify_peer_of_failure : Sink → Transfer → Bytes → Bytes
unfolding failure_notice
notify_peer_of_failure sink t conn =
    if has t.state succeeded then conn else (write_bytes sink (failure_notice t) (clean conn)).out

-- `cleanup`, where the peer's connection, the slots, the queue and the registry are there: what the peer
-- is sent, and what is left; `none` is a panic.
unfoldable pub clean_up_upload :
    Sink
    → ℕ
    → Bytes
    → Transfer
    → Bytes
    → SlotManager × Uploads
    → Bytes × (SlotManager × Option Uploads)
unfolding notify_peer_of_failure
clean_up_upload sink now username t conn (slots, s) = (
  notify_peer_of_failure sink t conn,
  (
    release_upload_slot now username slots,
    elim (remove t.token s.registry) [
      | none ↦ none
      | some registry ↦
          some (record s { registry = registry; queue = dequeue_upload t.token s.queue })
    ],
  ),
)
