-- ===== src/Peer/Transfer/RoundTrip.antt =====
-- Every message of messages/peer/transfer.go is decoded as it was encoded, and no cut one is accepted.
use gosoulseek.Prelude.{ℕ, ◌≡◌, ◌≢◌, ◌∷◌, ◌++◌, Bytes}
use gosoulseek.Protocol.Reader.{IsShort}
use gosoulseek.Protocol.Decode.{ok}
use gosoulseek.Protocol.Decode.Codec.{encoded, decode-encode, decode_truncated}
use gosoulseek.Peer.Transfer.{
  TransferRequest, TransferResponse, QueueDownload, PlaceInQueueResponse, PlaceInQueueRequest,
  UploadFailed, UploadDenied, encode_transfer_request, encode_transfer_response,
  encode_queue_download, encode_place_in_queue_response, encode_place_in_queue_request,
  encode_upload_failed, encode_upload_denied, decode_transfer_request, decode_transfer_response,
  decode_queue_download, decode_place_in_queue_response, decode_place_in_queue_request,
  decode_upload_failed, decode_upload_denied,
}
use gosoulseek.Peer.Transfer.Codecs.{
  IsWireRequest, IsWireResponse, IsWirePlace, IsWireDenied, request_codec, response_codec,
  queue_codec, place_codec, place_request_codec, failed_codec, denied_codec,
}

-- A transfer request whose fields fit the wire, and which carries a size only if it offers an upload,
-- is decoded as it was encoded, whatever bytes follow it.
pub transfer_request_roundtrip :
    (m : TransferRequest) (rest : Bytes)
    → IsWireRequest m
    → decode_transfer_request (encoded encode_transfer_request m ++ rest) ≡ ok m
unfolding decode_transfer_request
transfer_request_roundtrip m rest v = decode-encode _ _ _ request_codec m rest v

-- A transfer response whose fields fit the wire, and which carries a size or a reason according to
-- its verdict, is decoded as it was encoded, whatever bytes follow it.
pub transfer_response_roundtrip :
    (m : TransferResponse) (rest : Bytes)
    → IsWireResponse m
    → decode_transfer_response (encoded encode_transfer_response m ++ rest) ≡ ok m
unfolding decode_transfer_response
transfer_response_roundtrip m rest v = decode-encode _ _ _ response_codec m rest v

-- The five messages about the upload queue, with strings of at most 10 MB and a place below 2^32, are
-- decoded as they were encoded, whatever bytes follow them.
pub queue_messages_roundtrip :
    (q : QueueDownload) (p : PlaceInQueueResponse) (r : PlaceInQueueRequest) (f : UploadFailed)
    (d : UploadDenied) (rest : Bytes)
    → IsShort q.filename
    → IsWirePlace p
    → IsShort r.filename
    → IsShort f.filename
    → IsWireDenied d
    → (decode_queue_download (encoded encode_queue_download q ++ rest) ≡ ok q)
      × (decode_place_in_queue_response (encoded encode_place_in_queue_response p ++ rest) ≡ ok p)
      × (decode_place_in_queue_request (encoded encode_place_in_queue_request r ++ rest) ≡ ok r)
      × (decode_upload_failed (encoded encode_upload_failed f ++ rest) ≡ ok f)
      × (decode_upload_denied (encoded encode_upload_denied d ++ rest) ≡ ok d)
unfolding decode_queue_download decode_place_in_queue_response decode_place_in_queue_request
    decode_upload_failed decode_upload_denied
queue_messages_roundtrip q p r f d rest vq vp vr vf vd = (
  decode-encode _ _ _ queue_codec q rest vq,
  decode-encode _ _ _ place_codec p rest vp,
  decode-encode _ _ _ place_request_codec r rest vr,
  decode-encode _ _ _ failed_codec f rest vf,
  decode-encode _ _ _ denied_codec d rest vd,
)

-- No proper prefix of an encoded transfer request is accepted, as whatever message.
pub transfer_request_truncated :
    (m other : TransferRequest) (front : Bytes) (x : ℕ) (back : Bytes)
    → IsWireRequest m
    → encoded encode_transfer_request m ≡ front ++ (x ∷ back)
    → decode_transfer_request front ≢ ok other
unfolding decode_transfer_request
transfer_request_truncated m other front x back v e =
    decode_truncated _ _ _ request_codec m other front x back v e

-- No proper prefix of an encoded transfer response is accepted, as whatever message.
pub transfer_response_truncated :
    (m other : TransferResponse) (front : Bytes) (x : ℕ) (back : Bytes)
    → IsWireResponse m
    → encoded encode_transfer_response m ≡ front ++ (x ∷ back)
    → decode_transfer_response front ≢ ok other
unfolding decode_transfer_response
transfer_response_truncated m other front x back v e =
    decode_truncated _ _ _ response_codec m other front x back v e
