-- ===== src/Client/PeerMessages/Late.antt =====
-- A peer's message that meets a transfer which is removed in the meantime.
use gosoulseek.Prelude.{ℕ, ◌≡◌, refl, arith, true, none, some}
use gosoulseek.Client.KeyMap.{nat_key}
use gosoulseek.Client.Channel.{try_send}
use gosoulseek.Client.Errors.{TransferError}
use gosoulseek.Client.Transfer.{Transfer, emit_progress}
use gosoulseek.Client.Transfer.Kept.{set_state-SameFile}
use Prim.Native.Nat.{bit_or}
use gosoulseek.Client.TransferState.{completed}
use gosoulseek.Client.Registry.{Registry, get_by_token, remove, deref}
use gosoulseek.Client.Registry.Invariant.{Inv}
use gosoulseek.Client.Registry.Removal.{remove_forgets}
use gosoulseek.Client.PeerMessages.{attempt, peer_failure}

peer_failure_closed :
    (now flag : ℕ) (e : TransferError) (t : Transfer)
    → t.progress_ch.closed ≡ true
    → peer_failure now flag e t ≡ none
unfolding peer_failure emit_progress try_send
peer_failure_closed now flag e t closed =
    let same = set_state-SameFile now (bit_or completed flag) (record t { error = some e }) in
    ground (arith, same.channel, closed)

-- A peer's denial or failure is handled with the transfer that was looked up before. If that transfer ends
-- and is removed in between, its progress channel is closed, and the report of the failure panics: this is
-- so for every transfer that is registered.
pub late_failure_panics :
    (now flag token p : ℕ) (e : TransferError) (r : Registry)
    → Inv r
    → get_by_token token r ≡ some p
    → (l : Registry) × (remove token r ≡ some l) × (attempt (peer_failure now flag e) p l ≡ none)
unfolding attempt deref
late_failure_panics now flag token p e r v h =
    let (l, t, removed, _, at, _, _, _) = remove_forgets token p r v h in
    let gone : Transfer = record t { progress_ch = record t.progress_ch { closed = true } } in
    (l, removed, ground (arith, at, peer_failure_closed now flag e gone refl))
