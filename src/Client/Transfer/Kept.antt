-- ===== src/Client/Transfer/Kept.antt =====
-- What a change of state and a note of progress leave alone in a transfer of client/transfer.go.
use gosoulseek.Prelude.{ℕ, ◌≡◌, arith}
use gosoulseek.Prelude.Int.{ℤ}
use gosoulseek.Client.Transfer.{Transfer, set_state, update_progress}

-- The same transfer, but for its times, its speed, its states and its bytes.
pub record SameFile (t u : Transfer) : Type 0 where
  pub channel : u.progress_ch ≡ t.progress_ch
  pub size : u.size ≡ t.size
  pub offset : u.start_offset ≡ t.start_offset
  pub error : u.error ≡ t.error
  pub ready : u.transfer_ready_ch ≡ t.transfer_ready_ch

pub set_state-SameFile : (now state : ℕ) (t : Transfer) → SameFile t (set_state now state t)
unfolding set_state
set_state-SameFile now state t = record {
  channel = ground arith;
  size = ground arith;
  offset = ground arith;
  error = ground arith;
  ready = ground arith;
}

pub set_state_moves :
    (now state : ℕ) (t : Transfer)
    → ((set_state now state t).state ≡ state)
      × ((set_state now state t).transferred ≡ t.transferred)
unfolding set_state
set_state_moves now state t = (ground arith, ground arith)

pub update_progress-SameFile :
    (now : ℕ) (bytes : ℤ) (t : Transfer) → SameFile t (update_progress now bytes t)
unfolding update_progress
update_progress-SameFile now bytes t = record {
  channel = ground arith;
  size = ground arith;
  offset = ground arith;
  error = ground arith;
  ready = ground arith;
}

pub update_progress_moves :
    (now : ℕ) (bytes : ℤ) (t : Transfer)
    → ((update_progress now bytes t).state ≡ t.state)
      × ((update_progress now bytes t).transferred ≡ bytes)
unfolding update_progress
update_progress_moves now bytes t = (ground arith, ground arith)
