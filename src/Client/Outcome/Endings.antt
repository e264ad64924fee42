-- ===== src/Client/Outcome/Endings.antt =====
-- The last state of a transfer.
use gosoulseek.Prelude.{ℕ, ◌≡◌, arith, refl, inl, inr, Bool, false}
use gosoulseek.Prelude.{length, some, ltb, if◌then◌else◌, Bool-cases, ◌++◌, [], ◌∷◌}
use gosoulseek.Client.Channel.{try_send}
use gosoulseek.Client.TransferState.{errored, rejected, aborted}
use gosoulseek.Client.Transfer.{Transfer, emit_progress, snapshot}

-- The transfer's channel of progress is open.
abbrev pub IsOpen : Transfer → Type 0
IsOpen t = t.progress_ch.closed ≡ false

-- While its channel is open, a report of progress changes nothing of a transfer but the channel.
pub record Reported (t u : Transfer) : Type 0 where
  pub reported : emit_progress t ≡ some u
  pub still_open : IsOpen u
  pub state_kept : u.state ≡ t.state
  pub error_kept : u.error ≡ t.error
  pub size_kept : u.size ≡ t.size
  pub offset_kept : u.start_offset ≡ t.start_offset
  pub bytes_kept : u.transferred ≡ t.transferred
  pub ready_kept : u.transfer_ready_ch ≡ t.transfer_ready_ch

pub emit_progress_open : (t : Transfer) → IsOpen t → (u : Transfer) × Reported t u
unfolding emit_progress try_send
emit_progress_open t h = elim (Bool-cases (ltb (length t.progress_ch.buffer) t.progress_ch.cap)) [
  | inl room ↦ (
    record t {
      progress_ch = record t.progress_ch { buffer = t.progress_ch.buffer ++ (snapshot t ∷ []) };
    },
    record {
      reported = ground (arith, h, room);
      still_open = h;
      state_kept = refl;
      error_kept = refl;
      size_kept = refl;
      offset_kept = refl;
      bytes_kept = refl;
      ready_kept = refl;
    },
  )
  | inr packed ↦ (
    t,
    record {
      reported = ground (arith, h, packed);
      still_open = h;
      state_kept = refl;
      error_kept = refl;
      size_kept = refl;
      offset_kept = refl;
      bytes_kept = refl;
      ready_kept = refl;
    },
  )
]

-- The three flags that a failure can have beside `completed`, for an error of the transfer itself.
abbrev pub error_flag : Bool → Bool → ℕ
error_flag was_rejected mismatch =
    if was_rejected then rejected else if mismatch then aborted else errored
