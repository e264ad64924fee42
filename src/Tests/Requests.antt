-- ===== src/Tests/Requests.antt =====
-- The requests of client/upload_request.go, on one shared file.
use gosoulseek.Prelude.{◌+◌, ◌≡◌, refl, arith, Bytes, bytes_eq, [], ◌∷◌, ◌++◌, All, none, some}
use gosoulseek.Peer.Transfer.{encode_place_in_queue_response}
use gosoulseek.Prelude.Int.{pos}
use gosoulseek.Protocol.Writer.{buffer, write_uint32, write_string, write_bytes}
use gosoulseek.Protocol.LittleEndian.{le_bytes}
use gosoulseek.Protocol.Codes.{peer_code}
use gosoulseek.Connection.{write_message}
use gosoulseek.Protocol.Decode.{ok}
use gosoulseek.Protocol.Decode.Codec.{encoded}
use gosoulseek.Peer.Transfer.{
  QueueDownload, decode_queue_download, encode_queue_download, transfer_upload,
}
use gosoulseek.Peer.Transfer.RoundTrip.{queue_messages_roundtrip}
use gosoulseek.Client.KeyMap.{load}
use gosoulseek.Client.SharedFile.{SharedFile}
use gosoulseek.Client.Queue.{get_position, new_queue_manager, len}
use gosoulseek.Client.Registry.{new_registry, get_by_file, get_by_token}
use gosoulseek.Client.UploadRequest.{
  Uploads, FileSharer, get_shared, validate, send_place_in_queue, handle_queue_download,
  process_next_upload,
}
use gosoulseek.Client.UploadRequest.Places.{IsGrantable, request_placed}
use gosoulseek.Client.UploadRequest.Waiting.{Waits}
use gosoulseek.Client.UploadRequest.Runs.{
  no_uploads, run_uploads, queue_message, tick, uploads_never_start,
}

abbrev ann : Bytes
ann = b'a' ∷ []

abbrev song : SharedFile
song = record {
  local_path = ann;
  soulseek_path = ann;
  size = pos 9;
  extension = [];
  attributes = [];
}

abbrev files : FileSharer
files = some ((ann, song) ∷ [])

abbrev start : Uploads
start = no_uploads files none

abbrev wish : QueueDownload
wish = record { filename = ann }

-- The message of a peer that asks for the file.
abbrev message : Bytes
message = encoded encode_queue_download wish ++ []

wish_decoded : decode_queue_download message ≡ ok wish
wish_decoded =
    (queue_messages_roundtrip wish (record { filename = []; place = 0 }) (record { filename = [] })
      (record { filename = [] }) (record { filename = []; reason = [] }) [] (omega arith)
      (omega arith, omega arith) (omega arith) (omega arith) (omega arith, omega arith)).0

wish-IsGrantable : IsGrantable ann wish.filename start
unfolding get_shared get_by_file get_by_token load new_registry new_queue_manager bytes_eq validate
wish-IsGrantable = record {
  file = song;
  shared = refl;
  permitted = refl;
  unregistered = refl;
  token_free = refl;
  unqueued = tt;
  room = omega arith;
}

request_placed_example :
    let (c, t) = handle_queue_download buffer 5 message ann ([], start) in
    let place = len start.queue + 1 in
    (c ≡ send_place_in_queue buffer ann place [])
    × (get_position ann ann t.queue ≡ place)
    × (get_by_file ann ann transfer_upload t.registry ≡ some start.registry.next)
    × (handle_queue_download buffer 6 message ann ([], t)
        ≡ (send_place_in_queue buffer ann place [], t))
request_placed_example =
    request_placed buffer 5 6 message ann [] [] wish start wish_decoded wish-IsGrantable

uploads_never_start_example :
    (c : Bytes) × (t : Uploads) × (run_uploads buffer
        (queue_message 5 message ann ∷ (tick 6 ∷ []))
        ([], no_uploads files none)
      ≡ some (c, t))
    × All (Waits t.registry) t.queue.queue
    × (process_next_upload 7 t ≡ some t)
uploads_never_start_example =
    uploads_never_start buffer files none (queue_message 5 message ann ∷ (tick 6 ∷ [])) 7

-- The frame of an answer: its length, its code, the name and the place.
place_frame :
    send_place_in_queue buffer ann 2 []
    ≡ le_bytes 4 13 ++ (le_bytes 4 44 ++ (le_bytes 4 1 ++ (ann ++ le_bytes 4 2)))
unfolding send_place_in_queue write_message encode_place_in_queue_response write_uint32 write_string
    write_bytes le_bytes peer_code
place_frame = refl
