-- ===== src/Client/PeerMessages/Methods.antt =====
-- The methods of a transfer that the messages of peers call, in a registry that is in order.
use gosoulseek.Prelude.{
  ℕ, ◌≡◌, ◌∙◌, sym, subst, refl, arith, ◌==◌, false, inl, inr, Bool-cases, Option-cases, ltb,
  length,
}
use gosoulseek.Prelude.{Bytes, [], ◌∷◌, ◌++◌, Option, none, some}
use gosoulseek.Peer.Transfer.{transfer_download}
use gosoulseek.Client.KeyMap.{load, store, nat_key, bytes_key, load-store}
use gosoulseek.Client.Channel.{Channel, try_send}
use gosoulseek.Client.Errors.{TransferError}
use gosoulseek.Client.Transfer.{
  Transfer, TransferReadyInfo, set_state, emit_progress, set_queue_position, file_key_of,
}
use gosoulseek.Client.Transfer.Kept.{set_state-SameFile}
use gosoulseek.Client.Registry.{Registry, get_by_file, file_key, modify}
use gosoulseek.Client.Registry.Invariant.{Inv, Keeps, modify-Inv}
use gosoulseek.Client.Registry.Writes.{set_error-Keeps}
use gosoulseek.Client.Outcome.Endings.{emit_progress_open}
use gosoulseek.Client.TransferState.{completed}
use Prim.Native.Nat.{bit_or}
use gosoulseek.Client.PeerMessages.{attempt, on_download, peer_failure, signal_ready}

-- The channel of a transfer's ready signal, if it has one, is open.
abbrev pub IsSignalled : Transfer → Type 0
IsSignalled t = (ch : Channel TransferReadyInfo) → t.transfer_ready_ch ≡ some ch → ch.closed ≡ false

-- The registry is in order, and no ready channel is closed.
pub record Quiet (r : Registry) : Type 0 where
  pub consistent : Inv r
  pub signalled : (p : ℕ) (t : Transfer) → load p r.heap ≡ some t → IsSignalled t

abbrev pub or_same : Option Transfer → Transfer → Transfer
or_same none t = t
or_same (some u) t = u

-- A method that leaves the transfer where the indexes have it, and does not panic on open channels.
pub record Behaves (f : Transfer → Option Transfer) : Type 0 where
  pub keeps : Keeps (λ t. or_same (f t) t)
  pub answers :
      (t : Transfer)
      → t.progress_ch.closed ≡ false
      → IsSignalled t
      → (u : Transfer) × (f t ≡ some u) × IsSignalled u

module _ (f : Transfer → Option Transfer) (b : Behaves f) where
  attempt-Quiet :
      (p : ℕ) (t : Transfer) (r : Registry)
      → Quiet r
      → load p r.heap ≡ some t
      → t.progress_ch.closed ≡ false
      → (u : Registry) × (attempt f p r ≡ some u) × Quiet u
  unfolding attempt modify
  attempt-Quiet p t r q at live =
      let g = λ (t : Transfer). or_same (f t) t in
      let (u, done, heard) = b.answers t live (q.signalled p t at) in
      let after : Registry = record r { heap = store p u r.heap } in
      let same : modify g p r ≡ after = ground (arith, at, done) in
      (
        after,
        ground (arith, at, done),
        record {
          consistent = subst Inv same (modify-Inv g p r b.keeps q.consistent);
          signalled = λ q' s h. elim (Bool-cases (p == q')) [
            | inl this ↦
                let new : u ≡ s = ground (arith, this, h, load-store p q' u r.heap) in
                subst IsSignalled new heard
            | inr other ↦ q.signalled q' s (ground (arith, other, h, load-store p q' u r.heap))
          ];
        },
      )

  -- The transfer of a file key is under way, so that its channel is open.
  pub found-Quiet :
      (key : Bytes) (p : ℕ) (r : Registry)
      → Quiet r
      → load key r.by_file_key ≡ some p
      → (u : Registry) × (attempt f p r ≡ some u) × Quiet u
  found-Quiet key p r q there =
      let entry = q.consistent.files key p there in
      let under_way = q.consistent.tokens entry.tr.token p entry.token in
      attempt-Quiet p under_way.tr r q under_way.at under_way.live

  pub on_download-Quiet :
      (username filename : Bytes) (r : Registry)
      → Quiet r
      → (u : Registry) × (on_download f username filename r ≡ some u) × Quiet u
  unfolding on_download get_by_file
  on_download-Quiet username filename r q =
      let key = file_key transfer_download username filename in
      elim (Option-cases (load key r.by_file_key)) [
        | inl absent ↦ (r, ground (arith, absent), q)
        | inr (p, there) ↦
            let (u, done, w) = found-Quiet key p r q there in (u, ground (arith, there, done), w)
      ]

pub set_queue_position-Behaves : (n : ℕ) → Behaves (set_queue_position n)
unfolding set_queue_position emit_progress try_send file_key_of
set_queue_position-Behaves n = record {
  keeps = record { token = λ t. ground arith; file = λ t. ground arith; live = λ t. ground arith };
  answers = λ t live signalled.
      let (u, r) = emit_progress_open (record t { queue_position = n }) live in
      (u, r.reported, λ ch e. signalled ch (sym r.ready_kept ∙ e));
}

emit_progress-Keeps : Keeps (λ t. or_same (emit_progress t) t)
unfolding emit_progress try_send file_key_of
emit_progress-Keeps = record {
  token = λ t. ground arith;
  file = λ t. ground arith;
  live = λ t. ground arith;
}

-- What a method keeps of `x`, which has it from `t`, is kept of `t`.
through :
    {B : Type 0} (part : Transfer → B) (o : Option Transfer) (x t : Transfer)
    → part (or_same o x) ≡ part x
    → part x ≡ part t
    → part (or_same o t) ≡ part t
through part none x t p q = refl
through part (some u) x t p q = p ∙ q

pub peer_failure-Behaves : (now flag : ℕ) (e : TransferError) → Behaves (peer_failure now flag e)
unfolding peer_failure
peer_failure-Behaves now flag e =
    let state = bit_or completed flag in
    let first = set_error-Keeps now state (some e) in
    let then_told = emit_progress-Keeps in
    let failed = λ (t : Transfer). set_state now state (record t { error = some e }) in
    record {
      keeps = record {
        token = λ t.
            through (λ x. x.token) (emit_progress (failed t)) (failed t) t
              (then_told.token (failed t)) (first.token t);
        file = λ t.
            through file_key_of (emit_progress (failed t)) (failed t) t (then_told.file (failed t))
              (first.file t);
        live = λ t.
            through (λ x. x.progress_ch.closed) (emit_progress (failed t)) (failed t) t
              (then_told.live (failed t)) (first.live t);
      };
      answers = λ t live signalled.
          let same = set_state-SameFile now state (record t { error = some e }) in
          let (u, r) = emit_progress_open (failed t) (ground (arith, same.channel, live)) in
          (u, r.reported, λ ch h. signalled ch (sym (r.ready_kept ∙ same.ready) ∙ h));
    }

pub signal_ready-Behaves : (info : TransferReadyInfo) → Behaves (signal_ready info)
unfolding signal_ready try_send file_key_of
signal_ready-Behaves info = record {
  keeps = record { token = λ t. ground arith; file = λ t. ground arith; live = λ t. ground arith };
  answers = λ t live signalled. elim (Option-cases t.transfer_ready_ch) [
    | inl absent ↦ (t, ground (arith, absent), signalled)
    | inr (ch, there) ↦
        let is_open = signalled ch there in
        elim (Bool-cases (ltb (length ch.buffer) ch.cap)) [
          | inr packed ↦ (t, ground (arith, there, is_open, packed), signalled)
          | inl room ↦
              let longer : Channel TransferReadyInfo = record ch {
                buffer = ch.buffer ++ (info ∷ []);
              } in
              (
                record t { transfer_ready_ch = some longer },
                ground (arith, there, is_open, room),
                λ c h. ground (arith, h, is_open),
              )
        ]
  ];
}
