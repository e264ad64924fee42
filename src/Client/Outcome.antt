-- ===== src/Client/Outcome.antt =====
-- How a transfer ends: `classifyTransferError`, `fail` and `complete` of client/download.go, which
-- client/upload.go has again.
pub mod Endings
use gosoulseek.Prelude.{ℕ, if◌then◌else◌, Option, none, some}
use Prim.Native.Nat.{bit_or}
use gosoulseek.Client.Errors.{
  TransferError, is_canceled, is_deadline_exceeded, is_rejected, is_size_mismatch,
}
use gosoulseek.Client.TransferState.{
  completed, succeeded, cancelled, timed_out, errored, rejected, aborted,
}
use gosoulseek.Client.Transfer.{Transfer, set_state, emit_progress}

unfoldable pub classify_transfer_error : TransferError → ℕ
classify_transfer_error e =
    if is_rejected e then rejected else if is_size_mismatch e then aborted else errored

-- The flag that the `switch` of `fail` adds.
unfoldable pub failure_flag : TransferError → ℕ
unfolding classify_transfer_error
failure_flag e =
    if is_canceled e
    then cancelled
    else if is_deadline_exceeded e
    then timed_out
    else classify_transfer_error e

-- `fail`; `none` is a panic.
unfoldable pub fail_transfer : ℕ → TransferError → Transfer → Option Transfer
unfolding failure_flag
fail_transfer now e t =
    emit_progress (set_state now (bit_or completed (failure_flag e)) (record t { error = some e }))

-- `complete`; `none` is a panic.
unfoldable pub complete_transfer : ℕ → Transfer → Option Transfer
complete_transfer now t =
    emit_progress (set_state now (bit_or completed succeeded) (record t { transferred = t.size }))
