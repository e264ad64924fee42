-- ===== src/Peer/Transfer.antt =====
-- messages/peer/transfer.go: the messages that negotiate a transfer.
pub mod Codecs
pub mod RoundTrip
use gosoulseek.Prelude.{
  ℕ, ◌≤◌, ◌<◌, ◌^◌, ◌≡◌, ◌==◌, if◌then◌else◌, Bool, true, false, Bytes, [], length,
}
use gosoulseek.Prelude.Int.{ℤ, pos, to_uint64}
use gosoulseek.Protocol.Codes.{peer_code, PeerCode}
use gosoulseek.Protocol.Reader.{Read, ◌>>=◌, return, source, read_uint8, read_uint32, read_int64}
use gosoulseek.Protocol.Reader.{read_string, max_string_length}
use gosoulseek.Protocol.Writer.{
  Writer, Sink, ◌▸◌, write_uint8, write_uint32, write_uint64, write_string,
}
use gosoulseek.Protocol.Decode.{Result, decode_coded}

-- `TransferDirection` is a `uint32`; these are its two constants.
abbrev pub transfer_download : ℕ
transfer_download = 0

abbrev pub transfer_upload : ℕ
transfer_upload = 1

pub record TransferRequest : Type 0 where
  pub direction : ℕ
  pub token : ℕ
  pub filename : Bytes
  pub file_size : ℤ

pub record TransferResponse : Type 0 where
  pub token : ℕ
  pub allowed : Bool
  pub file_size : ℤ
  pub reason : Bytes

pub record QueueDownload : Type 0 where
  pub filename : Bytes

pub record PlaceInQueueResponse : Type 0 where
  pub filename : Bytes
  pub place : ℕ

pub record PlaceInQueueRequest : Type 0 where
  pub filename : Bytes

pub record UploadFailed : Type 0 where
  pub filename : Bytes

pub record UploadDenied : Type 0 where
  pub filename : Bytes
  pub reason : Bytes

-- The encoders.
module _ (sink : Sink) where
  unfoldable pub encode_transfer_request : TransferRequest → Writer → Writer
  encode_transfer_request m w =
      w
      ▸ write_uint32 sink (peer_code PeerCode.transfer_request)
      ▸ write_uint32 sink m.direction
      ▸ write_uint32 sink m.token
      ▸ write_string sink m.filename
      ▸ (if m.direction == transfer_upload
          then write_uint64 sink (to_uint64 m.file_size)
          else (λ w. w))

  unfoldable pub encode_transfer_response : TransferResponse → Writer → Writer
  encode_transfer_response m w =
      w
      ▸ write_uint32 sink (peer_code PeerCode.transfer_response)
      ▸ write_uint32 sink m.token
      ▸ (if m.allowed
          then (λ w. w ▸ write_uint8 sink 1 ▸ write_uint64 sink (to_uint64 m.file_size))
          else (λ w. w ▸ write_uint8 sink 0 ▸ write_string sink m.reason))

  unfoldable pub encode_queue_download : QueueDownload → Writer → Writer
  encode_queue_download m w =
      w ▸ write_uint32 sink (peer_code PeerCode.queue_download) ▸ write_string sink m.filename

  unfoldable pub encode_place_in_queue_response : PlaceInQueueResponse → Writer → Writer
  encode_place_in_queue_response m w =
      w
      ▸ write_uint32 sink (peer_code PeerCode.place_in_queue_response)
      ▸ write_string sink m.filename
      ▸ write_uint32 sink m.place

  unfoldable pub encode_place_in_queue_request : PlaceInQueueRequest → Writer → Writer
  encode_place_in_queue_request m w =
      w
      ▸ write_uint32 sink (peer_code PeerCode.place_in_queue_request)
      ▸ write_string sink m.filename

  unfoldable pub encode_upload_failed : UploadFailed → Writer → Writer
  encode_upload_failed m w =
      w ▸ write_uint32 sink (peer_code PeerCode.upload_failed) ▸ write_string sink m.filename

  unfoldable pub encode_upload_denied : UploadDenied → Writer → Writer
  encode_upload_denied m w =
      w
      ▸ write_uint32 sink (peer_code PeerCode.upload_denied)
      ▸ write_string sink m.filename
      ▸ write_string sink m.reason

-- The fields of each message, as its decoder reads them behind the code.
pub request_fields : Read TransferRequest
request_fields = do
  direction ← read_uint32
  token ← read_uint32
  filename ← read_string
  size ← if direction == transfer_upload then read_int64 else return (pos 0)
  return (record { direction = direction; token = token; filename = filename; file_size = size })

-- `Reason` stays empty where the request is allowed, and `FileSize` stays 0 where it is not.
response_outcome : ℕ → Bool → Read TransferResponse
response_outcome token true = do
  size ← read_int64
  return (record { token = token; allowed = true; file_size = size; reason = [] })
response_outcome token false = do
  reason ← read_string
  return (record { token = token; allowed = false; file_size = pos 0; reason = reason })

pub response_fields : Read TransferResponse
response_fields = do token ← read_uint32; flag ← read_uint8; response_outcome token (flag == 1)

pub queue_fields : Read QueueDownload
queue_fields = do filename ← read_string; return (record { filename = filename })

pub place_fields : Read PlaceInQueueResponse
place_fields = do
  filename ← read_string
  place ← read_uint32
  return (record { filename = filename; place = place })

pub place_request_fields : Read PlaceInQueueRequest
place_request_fields = do filename ← read_string; return (record { filename = filename })

pub failed_fields : Read UploadFailed
failed_fields = do filename ← read_string; return (record { filename = filename })

pub denied_fields : Read UploadDenied
denied_fields = do
  filename ← read_string
  reason ← read_string
  return (record { filename = filename; reason = reason })

pub decode_transfer_request : Bytes → Result TransferRequest
unfolding request_fields
decode_transfer_request payload =
    decode_coded (peer_code PeerCode.transfer_request) request_fields (source payload)

pub decode_transfer_response : Bytes → Result TransferResponse
unfolding response_fields response_outcome
decode_transfer_response payload =
    decode_coded (peer_code PeerCode.transfer_response) response_fields (source payload)

pub decode_queue_download : Bytes → Result QueueDownload
unfolding queue_fields
decode_queue_download payload =
    decode_coded (peer_code PeerCode.queue_download) queue_fields (source payload)

pub decode_place_in_queue_response : Bytes → Result PlaceInQueueResponse
unfolding place_fields
decode_place_in_queue_response payload =
    decode_coded (peer_code PeerCode.place_in_queue_response) place_fields (source payload)

pub decode_place_in_queue_request : Bytes → Result PlaceInQueueRequest
unfolding place_request_fields
decode_place_in_queue_request payload =
    decode_coded (peer_code PeerCode.place_in_queue_request) place_request_fields (source payload)

unfoldable pub decode_upload_failed : Bytes → Result UploadFailed
unfolding failed_fields
decode_upload_failed payload =
    decode_coded (peer_code PeerCode.upload_failed) failed_fields (source payload)

unfoldable pub decode_upload_denied : Bytes → Result UploadDenied
unfolding denied_fields
decode_upload_denied payload =
    decode_coded (peer_code PeerCode.upload_denied) denied_fields (source payload)
