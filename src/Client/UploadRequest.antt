-- ===== src/Client/UploadRequest.antt =====
-- client/upload_request.go: a peer asks to queue a file, and is answered with a place or a denial; and
-- the processor of client/upload.go, which looks at the head of the queue.
pub mod Places
pub mod Waiting
pub mod Runs
pub mod Signals
use gosoulseek.Prelude.{
  ℕ, ◌+◌, ◌%◌, ◌^◌, ◌==◌, if◌then◌else◌, Bytes, [], ◌∷◌, List, Option, none, some,
}
use Prim.Native.Nat.{bit_or}
use gosoulseek.Protocol.Decode.{Result, ok, err}
use gosoulseek.Protocol.Decode.Codec.{encoded}
use gosoulseek.Protocol.Writer.{Sink, Writer, clean}
use gosoulseek.Peer.Transfer.{
  QueueDownload, decode_queue_download, encode_upload_denied, encode_place_in_queue_response,
  transfer_upload,
}
use gosoulseek.Connection.{write_message}
use gosoulseek.Client.KeyMap.{load, bytes_key}
use gosoulseek.Client.TransferState.{codes, queued, locally, completed, errored}
use gosoulseek.Client.SharedFile.{SharedFile}
use gosoulseek.Client.Errors.{TransferError, other}
use gosoulseek.Client.Transfer.{Transfer, set_state, emit_progress, set_shared_file}
use gosoulseek.Client.Queue.{QueueEntry, QueueManager, enqueue_upload, dequeue_upload, get_position}
use gosoulseek.Client.Registry.{
  Registry, Answer, registered, refused, register_upload, get_by_token, get_by_file, deref, modify,
  remove,
}

-- The files that are shared, by their path; `nil` where sharing is off.
abbrev pub FileSharer : Type 0
FileSharer = Option (List (Bytes × SharedFile))

-- What a peer's request meets. `transfer_token` is the last token that was given out.
pub record Uploads : Type 0 where
  pub registry : Registry
  pub queue : QueueManager
  pub transfer_token : ℕ
  pub file_sharer : FileSharer
  pub validator : Option (Bytes → Bytes → Option Bytes)

-- `FileSharer.GetFile`, behind the test for `nil`.
unfoldable pub get_shared : Bytes → FileSharer → Option SharedFile
get_shared path none = none
get_shared path (some files) = load path files

-- The validator's error, where there is a validator and it has one.
unfoldable pub validate : Bytes → Bytes → Uploads → Option Bytes
validate username filename s = elim s.validator [
  | none ↦ none
  | some check ↦ check username filename
]

module _ (sink : Sink) where
  -- An error of the connection is dropped.
  send : Bytes → Bytes → Bytes
  send message conn = (write_message sink message (clean conn)).out

  unfoldable send_upload_denied : Bytes → Bytes → Bytes → Bytes
  unfolding send
  send_upload_denied filename reason =
      send (encoded encode_upload_denied (record { filename = filename; reason = reason }))

  unfoldable pub send_place_in_queue : Bytes → ℕ → Bytes → Bytes
  unfolding send
  send_place_in_queue filename position =
      send
        (encoded encode_place_in_queue_response (record { filename = filename; place = position }))

  -- Steps 6 and 7: a registered upload is queued and its place is sent.
  place_upload : ℕ → Bytes → Bytes → ℕ → Answer → Bytes × Uploads → Bytes × Uploads
  place_upload now username filename token (refused e) (conn, s) =
      (send_upload_denied filename (codes "Internal error") conn, s)
  place_upload now username filename token (registered p) (conn, s) =
      let (queue, position) = enqueue_upload now username filename token s.queue in
      (send_place_in_queue filename position conn, record s { queue = queue })

  -- Steps 5 to 7: a new upload under the next token.
  accept_upload : ℕ → Bytes → Bytes → SharedFile → Bytes × Uploads → Bytes × Uploads
  unfolding place_upload
  accept_upload now username filename file (conn, s) =
      let token = (s.transfer_token + 1) % 2 ^ 32 in
      let (registry, answer) = register_upload username filename token file.size s.registry in
      place_upload now username filename token answer
        (conn, record s { registry = registry; transfer_token = token })

  -- Step 4: the place of an upload that is there already, 1 if it is not in the queue.
  repeated_place : Bytes → Bytes → QueueManager → ℕ
  repeated_place username filename q =
      let position = get_position username filename q in if position == 0 then 1 else position

  -- Steps 2 to 7.
  request_file : ℕ → Bytes → Bytes → Bytes × Uploads → Bytes × Uploads
  unfolding accept_upload repeated_place
  request_file now username filename (conn, s) = elim (get_shared filename s.file_sharer) [
    | none ↦ (send_upload_denied filename (codes "File not shared") conn, s)
    | some file ↦ elim (validate username filename s) [
      | some reason ↦ (send_upload_denied filename reason conn, s)
      | none ↦ elim (get_by_file username filename transfer_upload s.registry) [
        | some p ↦ (send_place_in_queue filename (repeated_place username filename s.queue) conn, s)
        | none ↦ accept_upload now username filename file (conn, s)
      ]
    ]
  ]

  -- `handleQueueDownload`; `now` is the time of the entry in the queue.
  pub handle_queue_download : ℕ → Bytes → Bytes → Bytes × Uploads → Bytes × Uploads
  unfolding request_file
  handle_queue_download now payload username (conn, s) = elim (decode_queue_download payload) [
    | err e ↦ (conn, s)
    | ok msg ↦ request_file now username msg.filename (conn, s)
  ]

-- The transfer of the entry fails: its error, its state, its progress, the queue, the registry.
fail_upload : ℕ → ℕ → ℕ → Transfer → Uploads → Option Uploads
fail_upload now token p tr s =
    let failed =
      set_state now (bit_or completed errored)
        (record tr { error = some (other (codes "file no longer shared")) }) in
    elim (emit_progress failed) [
      | none ↦ none
      | some told ↦ elim (remove token (modify (λ t. told) p s.registry)) [
        | none ↦ none
        | some registry ↦
            some (record s { registry = registry; queue = dequeue_upload token s.queue })
      ]
    ]

-- The transfer of the entry at the head of the queue.
start_upload : ℕ → ℕ → ℕ → Transfer → Uploads → Option Uploads
unfolding fail_upload
start_upload now token p tr s =
    if tr.state == bit_or queued locally
    then elim (get_shared tr.filename s.file_sharer) [
      | none ↦ fail_upload now token p tr s
      | some file ↦ some (record s { registry = modify (set_shared_file file) p s.registry })
    ]
    else some s

process_entry : ℕ → ℕ → Uploads → Option Uploads
unfolding start_upload
process_entry now token s = elim (get_by_token token s.registry) [
  | none ↦ some (record s { queue = dequeue_upload token s.queue })
  | some p ↦ elim (deref p s.registry) [ none ↦ some s | some tr ↦ start_upload now token p tr s ]
]

-- `processNextUpload`; `none` is a panic.
pub process_next_upload : ℕ → Uploads → Option Uploads
unfolding process_entry
process_next_upload now s = elim s.queue.queue [
  | [] ↦ some s
  | entry ∷ rest ↦ process_entry now entry.token s
]
