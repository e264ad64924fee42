-- ===== src/Client/UploadRequest/Signals.antt =====
-- What client/upload_request.go leaves of the channels of the transfers.
use gosoulseek.Prelude.{
  ℕ, ◌+◌, ◌%◌, ◌^◌, ◌≡◌, ◌∙◌, ap, sym, subst, refl, arith, ◌==◌, inl, inr, Bool-cases, Option-cases,
  ◌⊎◌,
}
use gosoulseek.Prelude.{Bytes}
use gosoulseek.Prelude.Int.{ℤ}
use gosoulseek.Protocol.Decode.{Result, DecodeError, ok, err}
use gosoulseek.Protocol.Writer.{Sink}
use gosoulseek.Peer.Transfer.{decode_queue_download, transfer_upload}
use gosoulseek.Client.KeyMap.{nat_key}
use gosoulseek.Client.SharedFile.{SharedFile}
use gosoulseek.Client.Transfer.{Transfer, new_transfer}
use gosoulseek.Client.Registry.{
  Registry, Answer, registered, refused, get_by_file, register_upload, deref,
}
use gosoulseek.Client.Registry.Registration.{register-Inv}
use gosoulseek.Client.UploadRequest.{
  Uploads, get_shared, validate, place_upload, accept_upload, request_file, handle_queue_download,
}
use gosoulseek.Client.Registry.Lookup.{register_decides}
use gosoulseek.Client.PeerMessages.Methods.{Quiet}

-- A new upload has no ready channel.
register_upload-Quiet :
    (username filename : Bytes) (token : ℕ) (size : ℤ) (r : Registry)
    → Quiet r
    → Quiet (register_upload username filename token size r).0
unfolding register_upload deref new_transfer
register_upload-Quiet username filename token size r q = record {
  consistent = register-Inv transfer_upload token username filename size r q.consistent;
  signalled = λ p t h.
      elim (register_decides transfer_upload token username filename size r (omega arith)) [
        | inr (_, _, same) ↦ q.signalled p t (sym (same.same_heap p) ∙ h)
        | inl (_, reg) ↦ elim (Bool-cases (r.next == p)) [
          | inl this ↦ λ ch e.
              let fresh : Transfer = record (new_transfer transfer_upload username filename token) {
                size = size;
              } in
              let same : fresh ≡ t = ground (arith, reg.objects p, this, h) in
              absurd (ground (arith, ap (λ x. x.transfer_ready_ch) same, e))
          | inr other ↦ q.signalled p t (ground (arith, other, h, reg.objects p))
        ]
      ];
}

module _ (sink : Sink) (now : ℕ) (username filename conn : Bytes) where
  place_upload-Quiet :
      (token : ℕ) (answer : Answer) (s : Uploads)
      → Quiet s.registry
      → Quiet (place_upload sink now username filename token answer (conn, s)).1.registry
  unfolding place_upload
  place_upload-Quiet token (refused e) s q = q
  place_upload-Quiet token (registered p) s q = q

  accept_upload-Quiet :
      (file : SharedFile) (s : Uploads)
      → Quiet s.registry
      → Quiet (accept_upload sink now username filename file (conn, s)).1.registry
  unfolding accept_upload
  accept_upload-Quiet file s q =
      let token = (s.transfer_token + 1) % 2 ^ 32 in
      place_upload-Quiet token _ _
        (register_upload-Quiet username filename token file.size s.registry q)

  request_file-Quiet :
      (s : Uploads)
      → Quiet s.registry
      → Quiet (request_file sink now username filename (conn, s)).1.registry
  unfolding request_file
  request_file-Quiet s q = elim (Option-cases (get_shared filename s.file_sharer)) [
    | inl e ↦ subst Quiet (ground (arith, e)) q
    | inr (file, e) ↦ elim (Option-cases (validate username filename s)) [
      | inr (reason, denied) ↦ subst Quiet (ground (arith, e, denied)) q
      | inl valid ↦ elim (Option-cases (get_by_file username filename transfer_upload s.registry)) [
        | inr (p, there) ↦ subst Quiet (ground (arith, e, valid, there)) q
        | inl free ↦ subst Quiet (ground (arith, e, valid, free)) (accept_upload-Quiet file s q)
      ]
    ]
  ]

decoded : {A : Type 0} (x : Result A) → ((e : DecodeError) × (x ≡ err e)) ⊎ ((a : A) × (x ≡ ok a))
decoded (err e) = inl (e, refl)
decoded (ok a) = inr (a, refl)

pub handle_queue_download-Quiet :
    (sink : Sink) (now : ℕ) (payload username conn : Bytes) (s : Uploads)
    → Quiet s.registry
    → Quiet (handle_queue_download sink now payload username (conn, s)).1.registry
unfolding handle_queue_download
handle_queue_download-Quiet sink now payload username conn s q =
    elim (decoded (decode_queue_download payload)) [
      | inl (e, bad) ↦ subst Quiet (ground (arith, bad)) q
      | inr (m, good) ↦
          subst Quiet (ground (arith, good))
            (request_file-Quiet sink now username m.filename conn s q)
    ]
