-- ===== src/Peer/Transfer/Codecs.antt =====
-- The messages of messages/peer/transfer.go as codecs.
use gosoulseek.Prelude.{
  ℕ, ◌≡◌, ◌≢◌, ap, sym, arith, ◌==◌, if◌then◌else◌, Bool-cases, inl, inr, Bool, true, false,
}
use gosoulseek.Prelude.{[], ◌++◌, append_assoc, append-nil, Bytes}
use gosoulseek.Prelude.Int.{ℤ, pos, to_uint64, IsInt64}
use gosoulseek.Protocol.Codes.{peer_code, PeerCode}
use gosoulseek.Protocol.LittleEndian.{le_bytes}
use gosoulseek.Protocol.Reader.{source}
use gosoulseek.Protocol.Reader.{IsUint32, IsShort}
use gosoulseek.Protocol.Reader.Methods.{if-Reads, reads, read_int64-Parses}
use gosoulseek.Protocol.Codes.Bounds.{peer_code_small}
use gosoulseek.Protocol.Reader.Locality.{Reads, Parses}
use gosoulseek.Protocol.Reader.Methods.{read_uint8-Parses, read_uint32-Parses, read_string-Parses}
use gosoulseek.Protocol.Writer.{buffer, clean}
use gosoulseek.Protocol.Writer.Buffer.{string_bytes, writes}
use gosoulseek.Protocol.Decode.Codec.{Codec}
use gosoulseek.Peer.Transfer.{
  TransferRequest, TransferResponse, QueueDownload, PlaceInQueueResponse, PlaceInQueueRequest,
  UploadFailed, UploadDenied, transfer_upload, request_fields, response_outcome, response_fields,
  queue_fields, place_fields, place_request_fields, failed_fields, denied_fields,
  encode_transfer_request, encode_transfer_response, encode_queue_download,
  encode_place_in_queue_response, encode_place_in_queue_request, encode_upload_failed,
  encode_upload_denied,
}

-- The fields fit their widths, and the size stands on the wire only where the peer offers a file.
pub record IsWireRequest (m : TransferRequest) : Type 0 where
  pub direction : IsUint32 m.direction
  pub token : IsUint32 m.token
  pub filename : IsShort m.filename
  pub size : IsInt64 m.file_size
  pub no_size : m.direction ≢ transfer_upload → m.file_size ≡ pos 0

request_body : TransferRequest → Bytes
request_body m =
    le_bytes 4 m.direction
    ++ (le_bytes 4 m.token
        ++ (string_bytes m.filename
            ++ (if m.direction == transfer_upload then le_bytes 8 (to_uint64 m.file_size) else [])))

request_fields-Reads : Reads request_fields
unfolding request_fields
request_fields-Reads = search (reads, if-Reads) depth 12

request_fields-Parses :
    (m : TransferRequest) → IsWireRequest m → Parses request_fields (request_body m) m
unfolding request_fields request_body
request_fields-Parses m v rest = elim (Bool-cases (m.direction == transfer_upload)) [
  | inl up ↦ simp (
    append_assoc,
    up,
    read_uint32-Parses m.direction v.direction,
    read_uint32-Parses m.token v.token,
    read_string-Parses m.filename v.filename,
    read_int64-Parses m.file_size v.size,
  )
  | inr down ↦
      simp
        (
          append_assoc,
          down,
          read_uint32-Parses m.direction v.direction,
          read_uint32-Parses m.token v.token,
          read_string-Parses m.filename v.filename,
        )
        (ap (λ z. (record m { file_size = z }, source rest)) (sym (v.no_size (ground arith))))
]

request_writes :
    (m : TransferRequest)
    → encode_transfer_request buffer m (clean [])
      ≡ clean (le_bytes 4 (peer_code PeerCode.transfer_request) ++ request_body m)
unfolding encode_transfer_request request_body
request_writes m = elim (Bool-cases (m.direction == transfer_upload)) [
  | inl up ↦ simp (writes, append_assoc, up)
  | inr down ↦ simp (writes, append_assoc, append-nil, down)
]

pub request_codec :
    Codec (peer_code PeerCode.transfer_request) request_fields encode_transfer_request IsWireRequest
request_codec = record {
  body = request_body;
  small = peer_code_small PeerCode.transfer_request;
  reads = request_fields-Reads;
  parses = request_fields-Parses;
  writes = request_writes;
}

-- The size stands on the wire where the answer allows, and the reason where it does not.
pub record IsWireResponse (m : TransferResponse) : Type 0 where
  pub token : IsUint32 m.token
  pub size : IsInt64 m.file_size
  pub reason : IsShort m.reason
  pub outcome : if m.allowed then (m.reason ≡ []) else (m.file_size ≡ pos 0)

outcome_body : Bool → TransferResponse → Bytes
outcome_body true m = le_bytes 1 1 ++ le_bytes 8 (to_uint64 m.file_size)
outcome_body false m = le_bytes 1 0 ++ string_bytes m.reason

response_body : TransferResponse → Bytes
response_body m = le_bytes 4 m.token ++ outcome_body m.allowed m

response_outcome-Reads : (t : ℕ) (b : Bool) → Reads (response_outcome t b)
unfolding response_outcome
response_outcome-Reads t true = search reads depth 12
response_outcome-Reads t false = search reads depth 12

response_fields-Reads : Reads response_fields
unfolding response_fields
response_fields-Reads = search (reads, response_outcome-Reads) depth 12

allowed-Parses :
    (b : Bool) (t : ℕ) (z : ℤ) (s rest : Bytes)
    → IsUint32 t
    → IsInt64 z
    → IsShort s
    → (if b then (s ≡ []) else (z ≡ pos 0))
    → let m : TransferResponse = record { token = t; allowed = b; file_size = z; reason = s } in
      response_fields (source (response_body m ++ rest)) ≡ (m, source rest)
unfolding response_fields response_body outcome_body response_outcome
allowed-Parses true t z s rest ht hz hs e =
    simp
      (
        append_assoc,
        read_uint32-Parses t ht,
        read_uint8-Parses 1 (omega arith),
        read_int64-Parses z hz,
      )
      (rw e)
allowed-Parses false t z s rest ht hz hs e =
    simp
      (
        append_assoc,
        read_uint32-Parses t ht,
        read_uint8-Parses 0 (omega arith),
        read_string-Parses s hs,
      )
      (rw e)

response_fields-Parses :
    (m : TransferResponse) → IsWireResponse m → Parses response_fields (response_body m) m
response_fields-Parses m v rest =
    allowed-Parses m.allowed m.token m.file_size m.reason rest v.token v.size v.reason v.outcome

response_writes :
    (m : TransferResponse)
    → encode_transfer_response buffer m (clean [])
      ≡ clean (le_bytes 4 (peer_code PeerCode.transfer_response) ++ response_body m)
unfolding encode_transfer_response response_body outcome_body
response_writes m = elim (Bool-cases m.allowed) [
  | inl allowed ↦ simp (writes, append_assoc, allowed)
  | inr denied ↦ simp (writes, append_assoc, denied)
]

pub response_codec :
    Codec
      (peer_code PeerCode.transfer_response)
      response_fields
      encode_transfer_response
      IsWireResponse
response_codec = record {
  body = response_body;
  small = peer_code_small PeerCode.transfer_response;
  reads = response_fields-Reads;
  parses = response_fields-Parses;
  writes = response_writes;
}

queue_fields-Parses :
    (m : QueueDownload) → IsShort m.filename → Parses queue_fields (string_bytes m.filename) m
unfolding queue_fields
queue_fields-Parses m v rest = rw (read_string-Parses m.filename v)

pub queue_codec :
    Codec
      (peer_code PeerCode.queue_download)
      queue_fields
      encode_queue_download
      (λ m. IsShort m.filename)
queue_codec = record {
  body = λ m. string_bytes m.filename;
  small = peer_code_small PeerCode.queue_download;
  reads = unfold queue_fields in search reads depth 12;
  parses = queue_fields-Parses;
  writes = λ m. unfold encode_queue_download in simp writes;
}

place_request_fields-Parses :
    (m : PlaceInQueueRequest)
    → IsShort m.filename
    → Parses place_request_fields (string_bytes m.filename) m
unfolding place_request_fields
place_request_fields-Parses m v rest = rw (read_string-Parses m.filename v)

pub place_request_codec :
    Codec
      (peer_code PeerCode.place_in_queue_request)
      place_request_fields
      encode_place_in_queue_request
      (λ m. IsShort m.filename)
place_request_codec = record {
  body = λ m. string_bytes m.filename;
  small = peer_code_small PeerCode.place_in_queue_request;
  reads = unfold place_request_fields in search reads depth 12;
  parses = place_request_fields-Parses;
  writes = λ m. unfold encode_place_in_queue_request in simp writes;
}

failed_fields-Parses :
    (m : UploadFailed) → IsShort m.filename → Parses failed_fields (string_bytes m.filename) m
unfolding failed_fields
failed_fields-Parses m v rest = rw (read_string-Parses m.filename v)

pub failed_codec :
    Codec
      (peer_code PeerCode.upload_failed)
      failed_fields
      encode_upload_failed
      (λ m. IsShort m.filename)
failed_codec = record {
  body = λ m. string_bytes m.filename;
  small = peer_code_small PeerCode.upload_failed;
  reads = unfold failed_fields in search reads depth 12;
  parses = failed_fields-Parses;
  writes = λ m. unfold encode_upload_failed in simp writes;
}

abbrev pub IsWirePlace : PlaceInQueueResponse → Type 0
IsWirePlace m = IsShort m.filename × IsUint32 m.place

place_fields-Parses :
    (m : PlaceInQueueResponse)
    → IsWirePlace m
    → Parses place_fields (string_bytes m.filename ++ le_bytes 4 m.place) m
unfolding place_fields
place_fields-Parses m (f, p) rest =
    simp (append_assoc, read_string-Parses m.filename f, read_uint32-Parses m.place p)

pub place_codec :
    Codec
      (peer_code PeerCode.place_in_queue_response)
      place_fields
      encode_place_in_queue_response
      IsWirePlace
place_codec = record {
  body = λ m. string_bytes m.filename ++ le_bytes 4 m.place;
  small = peer_code_small PeerCode.place_in_queue_response;
  reads = unfold place_fields in search reads depth 12;
  parses = place_fields-Parses;
  writes = λ m. unfold encode_place_in_queue_response in simp (writes, append_assoc);
}

abbrev pub IsWireDenied : UploadDenied → Type 0
IsWireDenied m = IsShort m.filename × IsShort m.reason

denied_fields-Parses :
    (m : UploadDenied)
    → IsWireDenied m
    → Parses denied_fields (string_bytes m.filename ++ string_bytes m.reason) m
unfolding denied_fields
denied_fields-Parses m (f, r) rest =
    simp (append_assoc, read_string-Parses m.filename f, read_string-Parses m.reason r)

pub denied_codec :
    Codec (peer_code PeerCode.upload_denied) denied_fields encode_upload_denied IsWireDenied
denied_codec = record {
  body = λ m. string_bytes m.filename ++ string_bytes m.reason;
  small = peer_code_small PeerCode.upload_denied;
  reads = unfold denied_fields in search reads depth 12;
  parses = denied_fields-Parses;
  writes = λ m. unfold encode_upload_denied in simp (writes, append_assoc);
}
