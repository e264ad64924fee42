-- ===== src/Client/Errors.antt =====
-- client/transfer_errors.go: the errors of transfers, with what `errors.Is` and `errors.As` find in them.
use gosoulseek.Prelude.{ℕ, Bool, true, false, Bytes}
use gosoulseek.Prelude.Int.{ℤ}

-- `wrapped` is `fmt.Errorf` with `%w`, and `other` any error without a type of its own.
pub data TransferError : Type 0 where
  duplicate_transfer : ℕ → Bytes → Bytes → TransferError
  transfer_not_found : ℕ → TransferError
  transfer_rejected : Bytes → TransferError
  size_mismatch : ℤ → ℤ → TransferError
  transfer_failed : Bytes → Bytes → TransferError
  connection_error : Bytes → ℤ → ℤ → TransferError → TransferError
  context_canceled : TransferError
  deadline_exceeded : TransferError
  slot_manager_closed : TransferError
  eof_error : TransferError
  wrapped : Bytes → TransferError → TransferError
  other : Bytes → TransferError

-- `errors.Is(err, context.Canceled)`
unfoldable pub is_canceled : TransferError → Bool
is_canceled context_canceled = true
is_canceled (connection_error op sofar total e) = is_canceled e
is_canceled (wrapped text e) = is_canceled e
is_canceled _ = false

-- `errors.Is(err, context.DeadlineExceeded)`
unfoldable pub is_deadline_exceeded : TransferError → Bool
is_deadline_exceeded deadline_exceeded = true
is_deadline_exceeded (connection_error op sofar total e) = is_deadline_exceeded e
is_deadline_exceeded (wrapped text e) = is_deadline_exceeded e
is_deadline_exceeded _ = false

-- `errors.As(err, &rejected)` for a `*TransferRejectedError`
unfoldable pub is_rejected : TransferError → Bool
is_rejected (transfer_rejected reason) = true
is_rejected (connection_error op sofar total e) = is_rejected e
is_rejected (wrapped text e) = is_rejected e
is_rejected _ = false

-- `errors.As(err, &sizeMismatch)` for a `*TransferSizeMismatchError`
unfoldable pub is_size_mismatch : TransferError → Bool
is_size_mismatch (size_mismatch here there) = true
is_size_mismatch (connection_error op sofar total e) = is_size_mismatch e
is_size_mismatch (wrapped text e) = is_size_mismatch e
is_size_mismatch _ = false

-- `errors.Is(err, io.EOF)`
unfoldable pub is_eof : TransferError → Bool
is_eof eof_error = true
is_eof (connection_error op sofar total e) = is_eof e
is_eof (wrapped text e) = is_eof e
is_eof _ = false
