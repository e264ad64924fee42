-- ===== src/Client/Download.antt =====
-- client/download.go and client/download_options.go: a download from its call to its end. The phases that need
-- the network are given by how they ended; the clock is a function of the step.
pub mod Ends
use gosoulseek.Prelude.{
  ℕ, zero, suc, ◌+◌, ◌%◌, ◌^◌, ◌==◌, ltb, if◌then◌else◌, Bool, true, false, not, ◌&&◌, ◌||◌, take,
  length,
}
use gosoulseek.Prelude.{Bytes, bytes_eq, List, [], ◌∷◌, Option, none, some}
use gosoulseek.Prelude.Int.{ℤ, pos, ltbℤ, eqbℤ}
use Prim.Native.Nat.{bit_or}
use gosoulseek.Protocol.LittleEndian.{le_bytes, le_value}
use gosoulseek.Protocol.Codes.{peer_code, PeerCode}
use gosoulseek.Protocol.Decode.{Result, ok, err}
use gosoulseek.Protocol.Decode.Codec.{encoded}
use gosoulseek.Peer.Transfer.{
  TransferRequest, TransferResponse, encode_transfer_request, encode_transfer_response,
  decode_transfer_request, decode_transfer_response, decode_upload_denied, decode_upload_failed,
  transfer_download, transfer_upload,
}
use gosoulseek.Peer.Init.{Init, encode_init}
use gosoulseek.Connection.{Frame, payload, failed, read_message}
use gosoulseek.Client.Errors.{
  TransferError, wrapped, other, transfer_rejected, transfer_failed, size_mismatch,
}
use gosoulseek.Client.TransferState.{codes, queued, locally, remotely, requested, initializing}
use gosoulseek.Client.Transfer.{Transfer, set_state, emit_progress, init_download_channels}
use gosoulseek.Client.Registry.{Registry, Answer, registered, refused, register_download, modify}
use gosoulseek.Client.Outcome.{fail_transfer, complete_transfer}

pub record DownloadConfig : Type 0 where
  pub start_offset : ℤ
  pub expected_size : ℤ

-- A `DownloadOption` changes the configuration.
abbrev pub DownloadOption : Type 0
DownloadOption = DownloadConfig → DownloadConfig

unfoldable with_start_offset : ℤ → DownloadOption
with_start_offset offset c = record c { start_offset = offset }

unfoldable with_expected_size : ℤ → DownloadOption
with_expected_size size c = record c { expected_size = size }

-- The options, the first one first.
unfoldable pub apply_options : List DownloadOption → DownloadConfig → DownloadConfig
apply_options [] c = c
apply_options (f ∷ fs) c = apply_options fs (f c)

-- `Download`: the last token given out, the registry, and the transfer's address or an error. Its
-- orchestrator is below.
unfoldable pub download :
    Bool → Bytes → Bytes → List DownloadOption → ℕ × Registry → ℕ × (Registry × Answer)
unfolding apply_options
download logged_in username filename opts (last, r) =
    if logged_in
    then (let cfg = apply_options opts (record { start_offset = pos 0; expected_size = pos 0 }) in
        let token = (last + 1) % 2 ^ 32 in
        let (after, answer) = register_download username filename token r in
        elim answer [
          | refused e ↦ (token, (after, refused e))
          | registered p ↦ (
            token,
            (
              modify (λ t. init_download_channels (record t { start_offset = cfg.start_offset })) p
                  after,
              registered p,
            ),
          )
        ])
    else (last, (r, refused (other (codes "not logged in"))))

-- The request for a file carries no size.
unfoldable download_request : Transfer → Bytes
download_request t = encoded encode_transfer_request (record {
  direction = transfer_download;
  token = t.token;
  filename = t.filename;
  file_size = pos 0;
})

unfoldable pub check_size_mismatch : ℤ → ℤ → Option TransferError
check_size_mismatch expected remote =
    if ltbℤ (pos 0) expected && not (eqbℤ remote expected)
    then some (size_mismatch expected remote)
    else none

-- How a part of a download ends: with the transfer as it is then, and an error if it failed; a panic is
-- `none`.
abbrev pub Part : Type 0
Part = Transfer → Option (Option TransferError × Transfer)

-- `SetState` and `emitProgress`
unfoldable pub enter : ℕ → ℕ → Transfer → Option Transfer
enter now state t = emit_progress (set_state now state t)

-- `handleTransferResponse`, where `immediate` and `wait` are the two ways in which the data comes.
unfoldable pub handle_transfer_response : ℕ → ℤ → Part → Part → TransferResponse → Part
unfolding check_size_mismatch enter
handle_transfer_response now expected immediate wait resp t =
    if resp.allowed
    then elim (check_size_mismatch expected resp.file_size) [
      | some e ↦ some (some e, t)
      | none ↦ immediate (record t { size = resp.file_size })
    ]
    else if bytes_eq resp.reason (codes "Queued")
    then elim (enter now (bit_or queued remotely) t) [ none ↦ none | some told ↦ wait told ]
    else some (some (transfer_rejected resp.reason), t)

-- How the phases before the answer end, and the peer's answer.
pub data Negotiation : Type 0 where
  no_address : TransferError → Negotiation
  no_peer : TransferError → Negotiation
  not_sent : TransferError → Negotiation
  no_response : TransferError → Negotiation
  response : TransferResponse → Negotiation

-- `fail` or `complete`, when all is over.
unfoldable pub settle : ℕ → Option TransferError → Transfer → Option Transfer
settle now (some e) t = fail_transfer now e t
settle now none t = complete_transfer now t

-- `run` from the second phase on.
unfoldable pub run_connected : (ℕ → ℕ) → ℤ → Part → Part → Negotiation → Transfer → Option Transfer
unfolding handle_transfer_response settle
run_connected clock expected immediate wait (no_address e) t =
    settle (clock 1) (some (wrapped (codes "get peer address") e)) t
run_connected clock expected immediate wait (no_peer e) t =
    settle (clock 2) (some (wrapped (codes "connect to peer") e)) t
run_connected clock expected immediate wait (not_sent e) t =
    settle (clock 3) (some (wrapped (codes "send transfer request") e)) t
run_connected clock expected immediate wait (no_response e) t =
    settle (clock 4) (some (wrapped (codes "wait for response") e)) t
run_connected clock expected immediate wait (response resp) t =
    elim (handle_transfer_response (clock 4) expected immediate wait resp t) [
      | none ↦ none
      | some (e, after) ↦ settle (clock 5) e after
    ]

-- Whether the second phase is reached.
unfoldable pub has_address : Negotiation → Bool
has_address (no_address e) = false
has_address _ = true

-- `run`, without its `cleanup`.
unfoldable pub run : (ℕ → ℕ) → ℤ → Part → Part → Negotiation → Transfer → Option Transfer
unfolding run_connected enter has_address
run clock expected immediate wait n t = elim (enter (clock 0) (bit_or queued locally) t) [
  | none ↦ none
  | some begun ↦
      if has_address n
      then elim (enter (clock 1) requested begun) [
        | none ↦ none
        | some asked ↦ run_connected clock expected immediate wait n asked
      ]
      else run_connected clock expected immediate wait n begun
]

-- What `performImmediateTransfer` writes before the data: a handshake of type F, framed by the
-- connection, and then the token.
unfoldable transfer_handshake : Bytes → Transfer → Bytes × Bytes
transfer_handshake username t = (
  encoded encode_init (record { username = username; conn_type = codes "F"; token = t.token }),
  le_bytes 4 t.token,
)

-- What a message means to a download that waits in the peer's queue.
pub data Heard : Type 0 where
  goes_on : Heard
  ready : ℕ → ℤ → Heard
  stops : TransferError → Heard

unfoldable pub hear_request : ℤ → Bytes → TransferRequest → Heard
unfolding check_size_mismatch
hear_request expected filename req =
    if not (req.direction == transfer_upload) || not (bytes_eq req.filename filename)
    then goes_on
    else elim (check_size_mismatch expected req.file_size) [
      | some e ↦ stops e
      | none ↦ ready req.token req.file_size
    ]

-- The `switch` of `readPeerMessagesUntilReady`; the report of a place is left out.
unfoldable pub hear : ℤ → Bytes → Bytes → Bytes → Heard
unfolding hear_request
hear expected username filename msg =
    let code = le_value (take 4 msg) in
    if ltb (length msg) 4
    then goes_on
    else if code == peer_code PeerCode.transfer_request
    then elim (decode_transfer_request msg) [
      | err e ↦ goes_on
      | ok req ↦ hear_request expected filename req
    ]
    else if code == peer_code PeerCode.upload_denied
    then elim (decode_upload_denied msg) [
      | err e ↦ goes_on
      | ok denied ↦
          if bytes_eq denied.filename filename
          then stops (transfer_rejected denied.reason)
          else goes_on
    ]
    else if code == peer_code PeerCode.upload_failed
    then elim (decode_upload_failed msg) [
      | err e ↦ goes_on
      | ok f ↦
          if bytes_eq f.filename filename
          then stops (transfer_failed username f.filename)
          else goes_on
    ]
    else goes_on

-- How the loop of `readPeerMessagesUntilReady` ends; `unheard` is only met when the fuel runs out.
pub data Listened : Type 0 where
  heard : Heard → Listened
  lost : Listened
  unheard : Listened

-- Its loop on what the peer sends before it closes. Every message takes four bytes at least.
unfoldable pub listen : ℤ → Bytes → Bytes → ℕ → Bytes → Listened
unfolding hear
listen expected username filename zero stream = unheard
listen expected username filename (suc fuel) stream =
    let (frame, rest) = read_message stream in
    elim frame [
      | failed e ↦ lost
      | payload msg ↦ elim (hear expected username filename msg) [
        | goes_on ↦ listen expected username filename fuel rest
        | ready token size ↦ heard (ready token size)
        | stops e ↦ heard (stops e)
      ]
    ]
