-- ===== src/Client/Download/Ends.antt =====
-- Every download of client/download.go is settled.
use gosoulseek.Prelude.{ℕ, ◌+◌, ◌≡◌, ◌∙◌, refl, arith, inl, inr, Bool-cases, true, false}
use gosoulseek.Prelude.{Option, none, some}
use gosoulseek.Prelude.Int.{ℤ, pos, ltbℤ, eqbℤ}
use Prim.Native.Nat.{bit_or}
use gosoulseek.Peer.Transfer.{TransferResponse}
use gosoulseek.Client.Errors.{
  TransferError, size_mismatch, is_canceled, is_deadline_exceeded, is_rejected, is_size_mismatch,
}
use gosoulseek.Client.TransferState.{queued, locally, requested, completed, succeeded, aborted}
use gosoulseek.Client.Transfer.{Transfer, set_state}
use gosoulseek.Client.Transfer.Kept.{set_state-SameFile, set_state_moves}
use gosoulseek.Client.Outcome.{
  classify_transfer_error, failure_flag, fail_transfer, complete_transfer,
}
use gosoulseek.Client.Outcome.Endings.{IsOpen, emit_progress_open}
use gosoulseek.Client.Download.{
  check_size_mismatch, Part, enter, handle_transfer_response, Negotiation, response, settle,
  run_connected, has_address, run,
}

-- A part that ends without a panic, and leaves the progress channel open.
abbrev pub IsSteady : Part → Type 0
IsSteady part =
    (t : Transfer)
    → IsOpen t
    → (e : Option TransferError) × (u : Transfer) × (part t ≡ some (e, u)) × IsOpen u

-- The flag beside `completed` that an ending has.
abbrev pub ending_flag : Option TransferError → ℕ
ending_flag none = succeeded
ending_flag (some e) = failure_flag e

abbrev pub ending_error : Option TransferError → Transfer → Option TransferError
ending_error none t = t.error
ending_error (some e) t = some e

enter-IsOpen :
    (now state : ℕ) (t : Transfer)
    → IsOpen t
    → (u : Transfer) × (enter now state t ≡ some u) × IsOpen u × (u.error ≡ t.error)
unfolding enter
enter-IsOpen now state t h =
    let same = set_state-SameFile now state t in
    let (u, r) = emit_progress_open (set_state now state t) (ground (arith, same.channel, h)) in
    (u, r.reported, r.still_open, r.error_kept ∙ same.error)

settle_open :
    (now : ℕ) (e : Option TransferError) (t : Transfer)
    → IsOpen t
    → (u : Transfer) × (settle now e t ≡ some u)
      × (u.state ≡ bit_or completed (ending_flag e))
      × (u.error ≡ ending_error e t)
unfolding settle fail_transfer complete_transfer
settle_open now none t h =
    let whole : Transfer = record t { transferred = t.size } in
    let state = bit_or completed succeeded in
    let same = set_state-SameFile now state whole in
    let (u, r) = emit_progress_open (set_state now state whole) (ground (arith, same.channel, h)) in
    (u, r.reported, r.state_kept ∙ (set_state_moves now state whole).0, r.error_kept ∙ same.error)
settle_open now (some e) t h =
    let erring : Transfer = record t { error = some e } in
    let state = bit_or completed (failure_flag e) in
    let same = set_state-SameFile now state erring in
    let (u, r) =
      emit_progress_open (set_state now state erring) (ground (arith, same.channel, h)) in
    (u, r.reported, r.state_kept ∙ (set_state_moves now state erring).0, r.error_kept ∙ same.error)

mismatch_flag :
    (here there : ℤ)
    → bit_or completed (ending_flag (some (size_mismatch here there))) ≡ completed + aborted
unfolding failure_flag classify_transfer_error is_canceled is_deadline_exceeded is_rejected
    is_size_mismatch
mismatch_flag here there = refl

module _ (clock : ℕ → ℕ) (expected : ℤ) (immediate wait : Part) where
  -- The two steps before the phases.
  run_starts :
      (n : Negotiation) (t : Transfer)
      → IsOpen t
      → (asked : Transfer) × (run clock expected immediate wait n t
          ≡ run_connected clock expected immediate wait n asked)
        × IsOpen asked
  unfolding run
  run_starts n t h =
      let (begun, first, open1, _) = enter-IsOpen (clock 0) (bit_or queued locally) t h in
      elim (Bool-cases (has_address n)) [
        | inr absent ↦ (begun, ground (arith, first, absent), open1)
        | inl known ↦
            let (asked, second, open2, _) = enter-IsOpen (clock 1) requested begun open1 in
            (asked, ground (arith, first, known, second), open2)
      ]

  -- Where a size is expected and the peer grants the transfer of a file of another one, no data is asked for:
  -- the download is aborted with the two sizes, whatever the transfer of data would have done.
  pub size_mismatch_aborts :
      (resp : TransferResponse) (t : Transfer)
      → IsOpen t
      → resp.allowed ≡ true
      → ltbℤ (pos 0) expected ≡ true
      → eqbℤ resp.file_size expected ≡ false
      → (u : Transfer) × (run clock expected immediate wait (response resp) t ≡ some u)
        × (u.state ≡ completed + aborted)
        × (u.error ≡ some (size_mismatch expected resp.file_size))
  unfolding run_connected handle_transfer_response check_size_mismatch
  size_mismatch_aborts resp t h granted sized other =
      let (asked, starts, open1) = run_starts (response resp) t h in
      let f = size_mismatch expected resp.file_size in
      let (u, done, state, error) = settle_open (clock 5) (some f) asked open1 in
      (
        u,
        starts ∙ ground (arith, granted, sized, other, done),
        state ∙ mismatch_flag expected resp.file_size,
        error,
      )
