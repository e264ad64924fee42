-- ===== src/Client/PeerMessages.antt =====
-- What a peer's messages do: `handleIncomingPeerMessages` and its handlers in client/client.go,
-- `handleTransferRequest` and `deliverTransferConnection` in client/download.go. A connection is the bytes
-- that were written to it, and a panic is `none`.
pub mod Methods
pub mod Safety
pub mod Late
use gosoulseek.Prelude.{ℕ, ◌==◌, ltb, if◌then◌else◌, Bool, true, false, take, length}
use gosoulseek.Prelude.{Bytes, List, [], ◌∷◌, Option, none, some}
use Prim.Native.Nat.{bit_or}
use gosoulseek.Protocol.LittleEndian.{le_value}
use gosoulseek.Protocol.Codes.{peer_code, PeerCode}
use gosoulseek.Protocol.Decode.{Result, ok, err}
use gosoulseek.Protocol.Decode.Codec.{encoded}
use gosoulseek.Protocol.Writer.{Sink, Writer, clean}
use gosoulseek.Peer.Transfer.{
  TransferRequest, decode_transfer_request, encode_transfer_response,
  decode_place_in_queue_response, decode_place_in_queue_request, decode_upload_denied,
  decode_upload_failed, transfer_download, transfer_upload,
}
use gosoulseek.Peer.SearchResponse.{decode_search_response}
use gosoulseek.Connection.{write_message}
use gosoulseek.Client.KeyMap.{load, store, nat_key}
use gosoulseek.Client.Channel.{Channel, Sent, sent, full, panicked, try_send}
use gosoulseek.Client.TransferState.{completed, rejected, errored}
use gosoulseek.Client.Errors.{TransferError, transfer_rejected, transfer_failed}
use gosoulseek.Client.Transfer.{
  Transfer, TransferReadyInfo, set_state, emit_progress, set_queue_position,
}
use gosoulseek.Client.Registry.{Registry, get_by_file, get_by_remote_token, modify}
use gosoulseek.Client.Queue.{Position, place, denied, resolve_position}
use gosoulseek.Client.UploadRequest.{Uploads, send_place_in_queue, handle_queue_download}
use gosoulseek.Client.Search.{SearchRegistry, deliver}

-- A method of the transfer at an address, which may panic.
unfoldable pub attempt : (Transfer → Option Transfer) → ℕ → Registry → Option Registry
attempt f p r = elim (load p r.heap) [
  | none ↦ some r
  | some t ↦ elim (f t) [ none ↦ none | some u ↦ some (record r { heap = store p u r.heap }) ]
]

-- A method of the download of a user's file, if there is one.
unfoldable pub on_download :
    (Transfer → Option Transfer) → Bytes → Bytes → Registry → Option Registry
unfolding attempt
on_download f username filename r = elim (get_by_file username filename transfer_download r) [
  | none ↦ some r
  | some p ↦ attempt f p r
]

-- The transfer has failed with an error of the peer's.
unfoldable pub peer_failure : ℕ → ℕ → TransferError → Transfer → Option Transfer
peer_failure now flag e t =
    emit_progress (set_state now (bit_or completed flag) (record t { error = some e }))

handle_place_in_queue_response : Bytes → Bytes → Registry → Option Registry
unfolding on_download
handle_place_in_queue_response payload username r = elim (decode_place_in_queue_response payload) [
  | err e ↦ some r
  | ok resp ↦ on_download (set_queue_position resp.place) username resp.filename r
]

handle_upload_denied : ℕ → Bytes → Bytes → Registry → Option Registry
unfolding on_download peer_failure
handle_upload_denied now payload username r = elim (decode_upload_denied payload) [
  | err e ↦ some r
  | ok msg ↦
      on_download (peer_failure now rejected (transfer_rejected msg.reason)) username msg.filename r
]

handle_upload_failed : ℕ → Bytes → Bytes → Registry → Option Registry
unfolding on_download peer_failure
handle_upload_failed now payload username r = elim (decode_upload_failed payload) [
  | err e ↦ some r
  | ok msg ↦
      on_download (peer_failure now errored (transfer_failed username msg.filename)) username
        msg.filename r
]

-- The signal on the transfer's ready channel; a full channel drops it.
unfoldable pub signal_ready : TransferReadyInfo → Transfer → Option Transfer
signal_ready info t = elim t.transfer_ready_ch [
  | none ↦ some t
  | some ch ↦ elim (try_send ch info) [
    | sent ch' ↦ some (record t { transfer_ready_ch = some ch' })
    | full ↦ some t
    | panicked ↦ none
  ]
]

-- The connection is handed to the transfer that waits for it; where none waits, it is left alone.
unfoldable pub hand_over : ℕ → Transfer → Option Transfer
hand_over conn t = elim t.transfer_conn_ch [
  | none ↦ some t
  | some ch ↦ elim (try_send ch conn) [
    | sent ch' ↦ some (record t { transfer_conn_ch = some ch' })
    | full ↦ some t
    | panicked ↦ none
  ]
]

unfoldable pub deliver_transfer_connection : Bytes → ℕ → ℕ → Registry → Option Registry
unfolding attempt hand_over
deliver_transfer_connection username remote_token conn r =
    elim (get_by_remote_token username remote_token r) [
      | none ↦ some r
      | some p ↦ attempt (hand_over conn) p r
    ]

-- `GetDownloadPlaceInQueue`: `none` is one of its errors.
unfoldable get_download_place_in_queue : Bool → Bytes → Bytes → Registry → Option ℕ
get_download_place_in_queue logged_in username filename r =
    if logged_in
    then elim (get_by_file username filename transfer_download r) [
      | none ↦ none
      | some p ↦ elim (load p r.heap) [ none ↦ none | some t ↦ some t.queue_position ]
    ]
    else none

-- What the messages of peers act on.
pub record PeerState : Type 0 where
  pub uploads : Uploads
  pub searches : SearchRegistry

with_registry : PeerState → Option Registry → Option PeerState
with_registry s none = none
with_registry s (some r) = some (record s { uploads = record s.uploads { registry = r } })

module _ (sink : Sink) where
  -- `handleTransferRequest` for a message that was decoded.
  accept_request : TransferRequest → Bytes → Bytes × Registry → Bytes × Option Registry
  unfolding attempt signal_ready
  accept_request req username (conn, r) =
      let answer =
        encoded encode_transfer_response
          (record { token = req.token; allowed = true; file_size = req.file_size; reason = [] }) in
      let info : TransferReadyInfo = record {
        remote_token = req.token;
        file_size = req.file_size;
      } in
      if req.direction == transfer_upload
      then elim (get_by_file username req.filename transfer_download r) [
        | none ↦ (conn, some r)
        | some p ↦ ((write_message sink answer (clean conn)).out, attempt (signal_ready info) p r)
      ]
      else (conn, some r)

  handle_transfer_request : Bytes → Bytes → Bytes × Registry → Bytes × Option Registry
  unfolding accept_request
  handle_transfer_request payload username (conn, r) = elim (decode_transfer_request payload) [
    | err e ↦ (conn, some r)
    | ok req ↦ accept_request req username (conn, r)
  ]

  -- `handlePlaceInQueueRequest` where the place was resolved.
  answer_place : Bytes → Position → Bytes → Bytes
  answer_place filename (denied e) conn = conn
  answer_place filename (place position) conn =
      if position == 0 then conn else send_place_in_queue sink filename position conn

  handle_place_in_queue_request : Bytes → Bytes → Bytes × Uploads → Bytes
  unfolding answer_place
  handle_place_in_queue_request payload username (conn, s) =
      elim (decode_place_in_queue_request payload) [
        | err e ↦ conn
        | ok req ↦ answer_place req.filename (resolve_position username req.filename s.queue) conn
      ]

pub handle_search_response : (Bytes → Option Bytes) → Bytes → SearchRegistry → Option SearchRegistry
handle_search_response inflate payload r = elim (decode_search_response inflate payload) [
  | err e ↦ some r
  | ok resp ↦ elim (deliver resp r) [ none ↦ none | some (taken, after) ↦ some after ]
]

with_searches : PeerState → Option SearchRegistry → Option PeerState
with_searches s none = none
with_searches s (some r) = some (record s { searches = r })

-- `now` is the clock, and `inflate` the decompression.
module _ (sink : Sink) (inflate : Bytes → Option Bytes) (now : ℕ) where
  -- The `switch` on the code.
  by_code : ℕ → Bytes → Bytes → Bytes × PeerState → Bytes × Option PeerState
  unfolding handle_search_response with_searches with_registry handle_transfer_request
      handle_place_in_queue_response handle_upload_denied handle_upload_failed
      handle_place_in_queue_request
  by_code code payload username (conn, s) =
      let r = s.uploads.registry in
      if code == peer_code PeerCode.search_response
      then (conn, with_searches s (handle_search_response inflate payload s.searches))
      else if code == peer_code PeerCode.transfer_request
      then (let (written, after) = handle_transfer_request sink payload username (conn, r) in
          (written, with_registry s after))
      else if code == peer_code PeerCode.place_in_queue_response
      then (conn, with_registry s (handle_place_in_queue_response payload username r))
      else if code == peer_code PeerCode.upload_denied
      then (conn, with_registry s (handle_upload_denied now payload username r))
      else if code == peer_code PeerCode.upload_failed
      then (conn, with_registry s (handle_upload_failed now payload username r))
      else if code == peer_code PeerCode.queue_download
      then (let (written, after) =
            handle_queue_download sink now payload username (conn, s.uploads) in
          (written, some (record s { uploads = after })))
      else if code == peer_code PeerCode.place_in_queue_request
      then (handle_place_in_queue_request sink payload username (conn, s.uploads), some s)
      else (conn, some s)

  -- One pass of the loop, with a message that was read.
  pub handle_peer_message : Bytes → Bytes → Bytes × PeerState → Bytes × Option PeerState
  unfolding by_code
  handle_peer_message payload username (conn, s) =
      if ltb (length payload) 4
      then (conn, some s)
      else by_code (le_value (take 4 payload)) payload username (conn, s)

-- The loop of `handleIncomingPeerMessages` over the messages of a peer, each with the clock.
pub handle_peer_messages :
    Sink
    → (Bytes → Option Bytes)
    → Bytes
    → List (ℕ × Bytes)
    → Bytes × PeerState
    → Bytes × Option PeerState
unfolding handle_peer_message
handle_peer_messages sink inflate username [] (conn, s) = (conn, some s)
handle_peer_messages sink inflate username ((now, payload) ∷ rest) (conn, s) =
    let (written, after) = handle_peer_message sink inflate now payload username (conn, s) in
    elim after [
      | none ↦ (written, none)
      | some t ↦ handle_peer_messages sink inflate username rest (written, t)
    ]
