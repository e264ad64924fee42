-- ===== src/Client/UploadRequest/Runs.antt =====
-- Sequences of requests to client/upload_request.go and of ticks of the processor in client/upload.go.
use gosoulseek.Prelude.{ℕ, ◌+◌, ◌%◌, ◌^◌, ◌≡◌, ◌⊎◌, refl, subst, arith, inl, inr, Option-cases}
use gosoulseek.Prelude.{Bytes, List, [], ◌∷◌, All, Option, none, some}
use gosoulseek.Protocol.Writer.{Sink}
use gosoulseek.Protocol.Decode.{Result, DecodeError, ok, err}
use gosoulseek.Peer.Transfer.{decode_queue_download, transfer_upload}
use gosoulseek.Client.SharedFile.{SharedFile}
use gosoulseek.Client.Queue.{QueueEntry, enqueue_upload, new_queue_manager}
use gosoulseek.Client.Registry.{Answer, registered, refused, new_registry, get_by_file}
use gosoulseek.Client.Registry.Invariant.{new_registry-Inv}
use gosoulseek.Client.UploadRequest.{
  Uploads, FileSharer, get_shared, validate, place_upload, accept_upload, request_file,
  handle_queue_download, start_upload, process_entry, process_next_upload,
}
use gosoulseek.Client.UploadRequest.Waiting.{
  Waits, AllWait, all_keep_waiting, new-Waits, after-Inv, All-snoc,
}

module _ (sink : Sink) (now : ℕ) (username filename : Bytes) (conn : Bytes) where
  place_upload-AllWait :
      (token : ℕ) (answer : Answer) (s : Uploads)
      → AllWait s
      → ((p : ℕ) (e : QueueEntry) → answer ≡ registered p → e.token ≡ token → Waits s.registry e)
      → AllWait (place_upload sink now username filename token answer (conn, s)).1
  unfolding place_upload enqueue_upload
  place_upload-AllWait token (refused e) s w fresh = w
  place_upload-AllWait token (registered p) s w fresh = record {
    consistent = w.consistent;
    waiting = All-snoc (Waits s.registry) s.queue.queue _ w.waiting (fresh p _ refl refl);
  }

  accept_upload-AllWait :
      (file : SharedFile) (s : Uploads)
      → AllWait s
      → AllWait (accept_upload sink now username filename file (conn, s)).1
  unfolding accept_upload
  accept_upload-AllWait file s w =
      let token = (s.transfer_token + 1) % 2 ^ 32 in
      place_upload-AllWait token _ _
        (record {
          consistent = after-Inv token username filename file.size s.registry w.consistent;
          waiting =
              all_keep_waiting token username filename file.size s.registry w.consistent
                s.queue.queue w.waiting;
        })
        (new-Waits token username filename file.size s.registry w.consistent)

  request_file-AllWait :
      (s : Uploads) → AllWait s → AllWait (request_file sink now username filename (conn, s)).1
  unfolding request_file
  request_file-AllWait s w = elim (Option-cases (get_shared filename s.file_sharer)) [
    | inl e ↦ subst AllWait (ground (arith, e)) w
    | inr (file, e) ↦ elim (Option-cases (validate username filename s)) [
      | inr (reason, denied) ↦ subst AllWait (ground (arith, e, denied)) w
      | inl valid ↦ elim (Option-cases (get_by_file username filename transfer_upload s.registry)) [
        | inr (p, there) ↦ subst AllWait (ground (arith, e, valid, there)) w
        | inl free ↦ subst AllWait (ground (arith, e, valid, free)) (accept_upload-AllWait file s w)
      ]
    ]
  ]

handle-AllWait :
    (sink : Sink) (now : ℕ) (payload username conn : Bytes) (s : Uploads)
    → AllWait s
    → AllWait (handle_queue_download sink now payload username (conn, s)).1
unfolding handle_queue_download
handle-AllWait sink now payload username conn s w = elim (decoded (decode_queue_download payload)) [
  | inl (e, refused_payload) ↦ subst AllWait (ground (arith, refused_payload)) w
  | inr (msg, accepted) ↦
      subst AllWait (ground (arith, accepted))
        (request_file-AllWait sink now username msg.filename conn s w)
]
  where
    decoded :
        {A : Type 0} (x : Result A) → ((e : DecodeError) × (x ≡ err e)) ⊎ ((a : A) × (x ≡ ok a))
    decoded (err e) = inl (e, refl)
    decoded (ok a) = inr (a, refl)

-- A look at a queue whose uploads all wait changes nothing.
idle_step : (now : ℕ) (s : Uploads) → AllWait s → process_next_upload now s ≡ some s
unfolding process_next_upload process_entry start_upload
idle_step now s w = elim (queue_cases s.queue.queue w.waiting) [
  | inl empty ↦ ground (arith, empty)
  | inr (e, rest, head, waits) ↦ ground (arith, head, waits.found, waits.at, waits.untouched)
]
  where
    queue_cases :
        (es : List QueueEntry)
        → All (Waits s.registry) es
        → (es ≡ [])
          ⊎ ((e : QueueEntry) × (rest : List QueueEntry) × (es ≡ e ∷ rest) × Waits s.registry e)
    queue_cases [] h = inl refl
    queue_cases (e ∷ es) (h, _) = inr (e, es, refl, h)

-- What happens to the uploads: a peer's message, or a tick of the processor.
pub data UploadEvent : Type 0 where
  queue_message : ℕ → Bytes → Bytes → UploadEvent
  tick : ℕ → UploadEvent

-- The connection and the uploads after the events; `none` is a panic.
pub run_uploads : Sink → List UploadEvent → Bytes × Uploads → Option (Bytes × Uploads)
run_uploads sink [] (conn, s) = some (conn, s)
run_uploads sink (queue_message now payload username ∷ es) (conn, s) =
    run_uploads sink es (handle_queue_download sink now payload username (conn, s))
run_uploads sink (tick now ∷ es) (conn, s) = elim (process_next_upload now s) [
  | none ↦ none
  | some t ↦ run_uploads sink es (conn, t)
]

-- Nothing registered and nothing queued.
abbrev pub no_uploads : FileSharer → Option (Bytes → Bytes → Option Bytes) → Uploads
no_uploads files validator = record {
  registry = new_registry;
  queue = new_queue_manager;
  transfer_token = 0;
  file_sharer = files;
  validator = validator;
}

run_uploads-AllWait :
    (sink : Sink) (es : List UploadEvent) (conn : Bytes) (s : Uploads)
    → AllWait s
    → (c : Bytes) × (t : Uploads) × (run_uploads sink es (conn, s) ≡ some (c, t)) × AllWait t
unfolding run_uploads
run_uploads-AllWait sink [] conn s w = (conn, s, refl, w)
run_uploads-AllWait sink (queue_message now payload username ∷ es) conn s w =
    run_uploads-AllWait sink es _ _ (handle-AllWait sink now payload username conn s w)
run_uploads-AllWait sink (tick now ∷ es) conn s w =
    let (c, t, later, v) = run_uploads-AllWait sink es conn s w in
    (c, t, ground (arith, idle_step now s w, later), v)

-- Whatever messages peers send and however often the processor looks, nothing panics, and every upload
-- that is in the queue stays in its first state, so that a further look at the queue changes nothing:
-- no queued upload is ever started.
pub uploads_never_start :
    (sink : Sink) (files : FileSharer) (validator : Option (Bytes → Bytes → Option Bytes))
    (es : List UploadEvent) (now : ℕ)
    → (c : Bytes) × (t : Uploads) × (run_uploads sink es ([], no_uploads files validator)
        ≡ some (c, t))
      × All (Waits t.registry) t.queue.queue
      × (process_next_upload now t ≡ some t)
unfolding new_queue_manager
uploads_never_start sink files validator es now =
    let start : AllWait (no_uploads files validator) = record {
      consistent = new_registry-Inv;
      waiting = tt;
    } in
    let (c, t, reached, w) = run_uploads-AllWait sink es [] (no_uploads files validator) start in
    (c, t, reached, w.waiting, idle_step now t w)
