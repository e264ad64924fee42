-- ===== src/Client/UploadRequest/Places.antt =====
-- The answers of client/upload_request.go to a request that is granted, and to the same one again.
use gosoulseek.Prelude.{ℕ, ◌+◌, ◌%◌, ◌^◌, ◌<◌, ◌≡◌, refl, ap, ◌∙◌, arith, if◌then◌else◌, inl, inr}
use gosoulseek.Prelude.{Bytes, bytes_eq_refl, length, none, some}
use gosoulseek.Protocol.Writer.{Sink}
use gosoulseek.Protocol.Decode.{ok}
use gosoulseek.Peer.Transfer.{QueueDownload, decode_queue_download, transfer_upload}
use gosoulseek.Client.SharedFile.{SharedFile}
use gosoulseek.Client.Queue.{enqueue_upload, get_position, len}
use gosoulseek.Client.Queue.Positions.{Absent, enqueue_upload-get_position}
use gosoulseek.Client.Registry.{
  Registry, Answer, registered, register_upload, get_by_token, get_by_file, file_key,
}
use gosoulseek.Client.Registry.Lookup.{Registers, register_decides}
use gosoulseek.Client.UploadRequest.{
  Uploads, get_shared, validate, send_place_in_queue, place_upload, accept_upload, repeated_place,
  request_file, handle_queue_download,
}

-- A file that is shared, permitted, not registered and not queued, where the next token is free.
pub record IsGrantable (username filename : Bytes) (s : Uploads) : Type 0 where
  pub file : SharedFile
  pub shared : get_shared filename s.file_sharer ≡ some file
  pub permitted : validate username filename s ≡ none
  pub unregistered : get_by_file username filename transfer_upload s.registry ≡ none
  pub token_free : get_by_token ((s.transfer_token + 1) % 2 ^ 32) s.registry ≡ none
  pub unqueued : Absent username filename s.queue.queue
  pub room : length s.queue.queue + 1 < 2 ^ 32

module _ (username filename : Bytes) (s : Uploads) (g : IsGrantable username filename s) where
  token : ℕ
  token = (s.transfer_token + 1) % 2 ^ 32

  outcome : Registry × Answer
  outcome = register_upload username filename token g.file.size s.registry

  granted_registration :
      (outcome.1 ≡ registered s.registry.next)
      × Registers transfer_upload username filename token g.file.size s.registry outcome.0
  unfolding outcome token register_upload
  granted_registration =
      elim (register_decides transfer_upload token username filename g.file.size s.registry
        (omega arith)) [
          | inl both ↦ both
          | inr (_, inl taken, _) ↦ absurd (taken g.token_free)
          | inr (_, inr taken, _) ↦ absurd (taken g.unregistered)
        ]

  granted : ℕ → Uploads
  granted now = record s {
    registry = outcome.0;
    transfer_token = token;
    queue = (enqueue_upload now username filename token s.queue).0;
  }

  asks_for_new :
      (sink : Sink) (now : ℕ) (conn : Bytes)
      → request_file sink now username filename (conn, s)
        ≡ accept_upload sink now username filename g.file (conn, s)
  unfolding request_file
  asks_for_new sink now conn = ground (arith, g.shared, g.permitted, g.unregistered)

  -- The answer to the first request, and to a request in a state that has the upload already.
  first_request :
      (sink : Sink) (now : ℕ) (conn : Bytes)
      → request_file sink now username filename (conn, s)
        ≡ (send_place_in_queue sink filename (len s.queue + 1) conn, granted now)
  unfolding accept_upload place_upload outcome token granted len
  first_request sink now conn =
      let (answer, _) = granted_registration in
      let (place, _) =
        enqueue_upload-get_position now token username filename s.queue g.unqueued g.room in
      let registration : Uploads = record s { registry = outcome.0; transfer_token = token } in
      let accepted : request_file sink now username filename (conn, s)
          ≡ accept_upload sink now username filename g.file (conn, s) =
        asks_for_new sink now conn in
      accepted
      ∙ ap (λ a. place_upload sink now username filename token a (conn, registration)) answer
      ∙ ap (λ n. (send_place_in_queue sink filename n conn, granted now)) place

  later_place : (now : ℕ) → get_position username filename (granted now).queue ≡ len s.queue + 1
  unfolding granted token len
  later_place now =
      (enqueue_upload-get_position now token username filename s.queue g.unqueued g.room).1

  later_file :
      (now : ℕ)
      → get_by_file username filename transfer_upload (granted now).registry ≡ some s.registry.next
  unfolding granted
  later_file now =
      let (_, reg) = granted_registration in
      reg.by_files username filename transfer_upload
      ∙ ap
          (λ b.
            if b
            then some s.registry.next
            else get_by_file username filename transfer_upload s.registry)
          (bytes_eq_refl (file_key transfer_upload username filename))

  still_shared : (now : ℕ) → get_shared filename (granted now).file_sharer ≡ some g.file
  unfolding granted
  still_shared now = g.shared

  still_permitted : (now : ℕ) → validate username filename (granted now) ≡ none
  unfolding granted validate
  still_permitted now = g.permitted

  second_request :
      (sink : Sink) (now later : ℕ) (conn : Bytes)
      → request_file sink later username filename (conn, granted now)
        ≡ (send_place_in_queue sink filename (len s.queue + 1) conn, granted now)
  unfolding request_file repeated_place
  second_request sink now later conn =
      ground (arith, still_shared now, still_permitted now, later_file now, later_place now)

-- A peer's message that asks for a file which is shared, permitted, neither registered nor queued,
-- while the next token is free and the queue has fewer than 2^32 - 1 entries, is answered with the
-- place behind all that is queued; the upload is then found there, and under its file; and the same
-- message again, at any later time, is answered with the same place and changes nothing.
pub request_placed :
    (sink : Sink) (now later : ℕ) (payload username conn conn' : Bytes) (msg : QueueDownload)
    (s : Uploads)
    → decode_queue_download payload ≡ ok msg
    → IsGrantable username msg.filename s
    → let (c, t) = handle_queue_download sink now payload username (conn, s) in
      let place = len s.queue + 1 in
      (c ≡ send_place_in_queue sink msg.filename place conn)
      × (get_position username msg.filename t.queue ≡ place)
      × (get_by_file username msg.filename transfer_upload t.registry ≡ some s.registry.next)
      × (handle_queue_download sink later payload username (conn', t)
          ≡ (send_place_in_queue sink msg.filename place conn', t))
unfolding handle_queue_download
request_placed sink now later payload username conn conn' msg s decoded g =
    let t = granted username msg.filename s g now in
    let first : handle_queue_download sink now payload username (conn, s)
        ≡ (send_place_in_queue sink msg.filename (len s.queue + 1) conn, t) =
      ground (arith, decoded, first_request username msg.filename s g sink now conn) in
    let again : handle_queue_download sink later payload username (conn', t)
        ≡ (send_place_in_queue sink msg.filename (len s.queue + 1) conn', t) =
      ground (arith, decoded, second_request username msg.filename s g sink now later conn') in
    rw first (
      refl,
      later_place username msg.filename s g now,
      later_file username msg.filename s g now,
      again,
    )
