-- ===== src/Tests/Transfers.antt =====
-- The transfers of client/transfer.go and their states, on concrete ones.
use gosoulseek.Prelude.{◌≡◌, refl, arith, [], ◌∷◌, some}
use gosoulseek.Prelude.Int.{pos}
use gosoulseek.Client.Channel.{make_channel, try_send}
use gosoulseek.Client.SharedFile.{SharedFile}
use gosoulseek.Client.TransferState.{has, is_completed}
use gosoulseek.Client.Transfer.{snapshot, emit_progress, set_shared_file}
use gosoulseek.Client.Transfer.{Transfer, new_transfer}
use gosoulseek.Client.Transfer.Timing.{IsTimed}

-- A download in progress since the time 5, with a first sample.
abbrev running : Transfer
running = record (new_transfer 0 (b'a' ∷ []) (b'b' ∷ []) 1) {
  state = 8;
  start_time = some 5;
  transferred = pos 100;
  last_progress_time = some 5;
}

running-IsTimed : IsTimed 6 running
unfolding new_transfer is_completed has
running-IsTimed = record {
  started = λ s h. ground arith;
  ended = λ e h. ground arith;
  stamped = λ h. ground arith;
}

-- Two seconds after the sample.

abbrev song : SharedFile
song = record { local_path = []; soulseek_path = []; size = pos 9; extension = []; attributes = [] }

-- A progress report goes to the channel of the transfer.
abbrev reported : Transfer
reported = record running {
  shared_file = some song;
  progress_ch = record (make_channel 100) { buffer = snapshot running ∷ [] };
}

progress_reported : emit_progress (set_shared_file song running) ≡ some reported
unfolding emit_progress set_shared_file snapshot new_transfer try_send
progress_reported = refl
