-- ===== src/Tests/Wire.antt =====
-- The messages of messages/peer and the frames of connection/connection.go, on concrete bytes.
use gosoulseek.Prelude.{◌≡◌, ◌≤◌, refl, arith, false, Bytes, [], ◌∷◌, ◌++◌, List, map, length, some}
use gosoulseek.Prelude.Int.{pos, to_uint64}
use gosoulseek.Protocol.LittleEndian.{le_bytes, le_value}
use gosoulseek.Protocol.Reader.{read_uint32, read_full}
use gosoulseek.Protocol.Writer.{
  Sink, Writer, write_error, write_uint32, write_uint64, write_string, write_bytes,
}
use gosoulseek.Protocol.Decode.{decode_coded, err, unexpected_code}
use gosoulseek.Protocol.Decode.Codec.{encoded}
use gosoulseek.Protocol.Codes.{peer_code}
use gosoulseek.Peer.Transfer.{
  TransferRequest, TransferResponse, QueueDownload, PlaceInQueueResponse, PlaceInQueueRequest,
  UploadFailed, UploadDenied, encode_transfer_request, encode_queue_download,
  encode_place_in_queue_response, encode_place_in_queue_request, encode_upload_failed,
  encode_upload_denied, decode_upload_failed, decode_upload_denied,
}
use gosoulseek.Peer.Transfer.Codecs.{IsWireRequest, IsWireResponse}
use gosoulseek.Peer.Init.{Init, PierceFirewall}
use gosoulseek.Peer.Init.RoundTrip.{IsWireInit}
use gosoulseek.Connection.{payload, read_message, max_message_size}
use gosoulseek.Connection.Frames.{
  frame, frames, read_messages, read_messages-frames, read_message_sound,
}

-- An offer of 5000 bytes.
abbrev offer : TransferRequest
offer = record { direction = 1; token = 7; filename = b'm' ∷ (b'p' ∷ []); file_size = pos 5000 }

offer-IsWireRequest : IsWireRequest offer
offer-IsWireRequest = record {
  direction = omega arith;
  token = omega arith;
  filename = omega arith;
  size = omega arith;
  no_size = λ h. absurd (h refl);
}

abbrev refusal : TransferResponse
refusal = record { token = 7; allowed = false; file_size = pos 0; reason = b'n' ∷ (b'o' ∷ []) }

refusal-IsWireResponse : IsWireResponse refusal
refusal-IsWireResponse = record {
  token = omega arith;
  size = omega arith;
  reason = omega arith;
  outcome = refl;
}

-- The offer without its last four bytes.
abbrev cut_offer : Bytes
cut_offer =
    le_bytes 4 40
    ++ (le_bytes 4 1 ++ (le_bytes 4 7 ++ (le_bytes 4 2 ++ (b'm' ∷ (b'p' ∷ le_bytes 4 5000)))))

offer_bytes : encoded encode_transfer_request offer ≡ cut_offer ++ (0 ∷ (0 ∷ (0 ∷ (0 ∷ []))))
unfolding to_uint64 encode_transfer_request write_uint32 write_uint64 write_string write_bytes
    le_bytes peer_code
offer_bytes = refl

abbrev name : Bytes
name = b'a' ∷ []

abbrev queue_download : QueueDownload
queue_download = record { filename = name }

abbrev place : PlaceInQueueResponse
place = record { filename = name; place = 3 }

abbrev place_request : PlaceInQueueRequest
place_request = record { filename = name }

abbrev failed : UploadFailed
failed = record { filename = name }

abbrev denied : UploadDenied
denied = record { filename = name; reason = [] }

abbrev hello : Init
hello = record { username = name; conn_type = b'P' ∷ []; token = 300 }

abbrev pierce : PierceFirewall
pierce = record { token = 70000 }

hello-IsWireInit : IsWireInit hello
hello-IsWireInit = record { username = omega arith; conn_type = omega arith; token = omega arith }

abbrev two_messages : List Bytes
two_messages = (1 ∷ (2 ∷ [])) ∷ ((3 ∷ []) ∷ [])

read_messages-frames_example :
    read_messages 2 (frames two_messages ++ (9 ∷ [])) ≡ (map payload two_messages, 9 ∷ [])
read_messages-frames_example = read_messages-frames two_messages (9 ∷ []) (omega arith, omega arith)

abbrev two_bytes : Bytes
two_bytes = 5 ∷ (6 ∷ [])

one_message_read :
    read_message (2 ∷ (0 ∷ (0 ∷ (0 ∷ (5 ∷ (6 ∷ (7 ∷ []))))))) ≡ (payload two_bytes, 7 ∷ [])
unfolding read_message read_full le_value
one_message_read = refl

read_message_sound_example :
    (length two_bytes ≤ max_message_size)
    × (frame two_bytes ++ (7 ∷ []) ≡ 2 ∷ (0 ∷ (0 ∷ (0 ∷ (5 ∷ (6 ∷ (7 ∷ [])))))))
read_message_sound_example =
    read_message_sound (2 ∷ (0 ∷ (0 ∷ (0 ∷ (5 ∷ (6 ∷ (7 ∷ []))))))) two_bytes (7 ∷ [])
      (ground arith) one_message_read

-- A writer behind an error of a sink that refuses everything.
abbrev refusing : Sink
refusing out b = (out, some (write_error 2))

abbrev broken : Writer
broken = record { out = 1 ∷ []; err = some (write_error 1) }

-- The messages about the queue, byte by byte.
queue_messages_bytes :
    (encoded encode_queue_download queue_download ≡ le_bytes 4 43 ++ (le_bytes 4 1 ++ name))
    × (encoded encode_place_in_queue_request place_request
        ≡ le_bytes 4 51 ++ (le_bytes 4 1 ++ name))
    × (encoded encode_upload_failed failed ≡ le_bytes 4 46 ++ (le_bytes 4 1 ++ name))
    × (encoded encode_place_in_queue_response place
        ≡ le_bytes 4 44 ++ (le_bytes 4 1 ++ (name ++ le_bytes 4 3)))
    × (encoded encode_upload_denied denied
        ≡ le_bytes 4 50 ++ (le_bytes 4 1 ++ (name ++ le_bytes 4 0)))
unfolding encode_queue_download encode_place_in_queue_request encode_upload_failed
    encode_place_in_queue_response encode_upload_denied write_uint32 write_string write_bytes
    le_bytes peer_code
queue_messages_bytes = (refl, refl, refl, refl, refl)

-- The message of the other code is refused.
messages_confused :
    (decode_upload_failed (le_bytes 4 50 ++ (0 ∷ [])) ≡ err (unexpected_code 50))
    × (decode_upload_denied (le_bytes 4 46 ++ (0 ∷ [])) ≡ err (unexpected_code 46))
unfolding decode_upload_failed decode_upload_denied decode_coded read_uint32 read_full le_bytes
    le_value peer_code
messages_confused = (refl, refl)
