-- ===== src/Client/Transfer.antt =====
-- client/transfer.go: one transfer. Each method is one critical section of its lock; `now` is what
-- `time.Now()` answers, in nanoseconds, and the zero time is `none`. A speed is kept as the expression
-- that Go evaluates in floating point.
pub mod Timing
pub mod Kept
use gosoulseek.Prelude.{
  ℕ, ◌-◌, ◌*◌, ◌^◌, ◌==◌, ltb, leb, if◌then◌else◌, Bool, true, false, not, ◌&&◌, is_none, Bytes,
  ◌++◌, [], ◌∷◌, Option, none, some,
}
use gosoulseek.Prelude.Int.{ℤ, pos, ◌-ℤ◌}
use gosoulseek.Client.Channel.{
  Channel, Sent, sent, full, panicked, make_channel, try_send, close_channel,
}
use gosoulseek.Client.TransferState.{has, in_progress, completed, is_completed}
use gosoulseek.Client.Errors.{TransferError}
use gosoulseek.Client.SharedFile.{SharedFile}
use gosoulseek.Client.Decimal.{format_decimal}

-- `rate bytes ns` is a number of bytes over a time, and `average` the moving average of a new speed
-- (weight 0.2) and an old one (weight 0.8).
pub data Speed : Type 0 where
  zero_speed : Speed
  rate : ℤ → ℕ → Speed
  average : Speed → Speed → Speed

pub record TransferProgress : Type 0 where
  pub state : ℕ
  pub bytes_transferred : ℤ
  pub file_size : ℤ
  pub average_speed : Speed
  pub queue_position : ℕ
  pub error : Option TransferError

pub record TransferReadyInfo : Type 0 where
  pub remote_token : ℕ
  pub file_size : ℤ

-- A connection is known by a number. The download's writer stands outside this record.
pub record Transfer : Type 0 where
  pub direction : ℕ
  pub username : Bytes
  pub filename : Bytes
  pub token : ℕ
  pub remote_token : ℕ
  pub size : ℤ
  pub start_offset : ℤ
  pub transferred : ℤ
  pub start_time : Option ℕ
  pub end_time : Option ℕ
  pub error : Option TransferError
  pub queue_position : ℕ
  pub state : ℕ
  pub prev_state : ℕ
  pub avg_speed : Speed
  pub last_progress_time : Option ℕ
  pub last_progress_bytes : ℤ
  pub speed_initialized : Bool
  pub progress_ch : Channel TransferProgress
  pub transfer_ready_ch : Option (Channel TransferReadyInfo)
  pub transfer_conn_ch : Option (Channel ℕ)
  pub shared_file : Option SharedFile

unfoldable pub new_transfer : ℕ → Bytes → Bytes → ℕ → Transfer
new_transfer direction username filename token = record {
  direction = direction;
  username = username;
  filename = filename;
  token = token;
  remote_token = 0;
  size = pos 0;
  start_offset = pos 0;
  transferred = pos 0;
  start_time = none;
  end_time = none;
  error = none;
  queue_position = 0;
  state = 0;
  prev_state = 0;
  avg_speed = zero_speed;
  last_progress_time = none;
  last_progress_bytes = pos 0;
  speed_initialized = false;
  progress_ch = make_channel 100;
  transfer_ready_ch = none;
  transfer_conn_ch = none;
  shared_file = none;
}

-- The speed over the whole transfer, if it was started, ended, and took time.
final_speed : Option ℕ → Option ℕ → Transfer → Transfer
final_speed (some start) (some end) t =
    if ltb start end
    then record t { avg_speed = rate (t.transferred -ℤ t.start_offset) (end - start) }
    else t
final_speed _ _ t = t

calculate_final_speed : Transfer → Transfer
unfolding final_speed
calculate_final_speed t = final_speed t.start_time t.end_time t

enter_in_progress : ℕ → Transfer → Transfer
enter_in_progress now t =
    if has t.state in_progress && is_none t.start_time
    then record t { start_time = some now }
    else t

enter_completed : ℕ → Transfer → Transfer
unfolding calculate_final_speed
enter_completed now t =
    if has t.state completed && is_none t.end_time
    then calculate_final_speed (record t { end_time = some now })
    else t

unfoldable pub set_state : ℕ → ℕ → Transfer → Transfer
unfolding enter_in_progress enter_completed
set_state now state t =
    let moved = record t { prev_state = t.state; state = state } in
    enter_completed now (enter_in_progress now moved)

unfoldable bytes_remaining : Transfer → ℤ
bytes_remaining t = t.size -ℤ t.transferred

-- One second.
abbrev pub progress_update_interval : ℕ
progress_update_interval = 10 ^ 9

-- A new sample: the first speed is taken as it is, the later ones are averaged in.
sample_speed : ℕ → ℤ → ℕ → Transfer → Transfer
sample_speed now bytes last t =
    let current = rate (bytes -ℤ t.last_progress_bytes) (now - last) in
    if ltb last now
    then if t.speed_initialized
      then record t { avg_speed = average current t.avg_speed }
      else record t { avg_speed = current; speed_initialized = true }
    else t

mark_progress : ℕ → ℤ → Transfer → Transfer
mark_progress now bytes t = record t { last_progress_time = some now; last_progress_bytes = bytes }

-- `UpdateProgress` once the bytes are noted and the transfer is not completed.
throttled : Option ℕ → ℕ → ℤ → Transfer → Transfer
unfolding sample_speed mark_progress
throttled none now bytes t = mark_progress now bytes t
throttled (some last) now bytes t =
    if ltb (now - last) progress_update_interval
    then t
    else mark_progress now bytes (sample_speed now bytes last t)

unfoldable pub update_progress : ℕ → ℤ → Transfer → Transfer
unfolding throttled
update_progress now bytes t =
    let noted = record t { transferred = bytes } in
    if is_completed t.state then noted else throttled t.last_progress_time now bytes noted

unfoldable pub snapshot : Transfer → TransferProgress
snapshot t = record {
  state = t.state;
  bytes_transferred = t.transferred;
  file_size = t.size;
  average_speed = t.avg_speed;
  queue_position = t.queue_position;
  error = t.error;
}

-- `emitProgress`; `none` is the panic of a send on the closed channel.
unfoldable pub emit_progress : Transfer → Option Transfer
emit_progress t = elim (try_send t.progress_ch (snapshot t)) [
  | sent ch ↦ some (record t { progress_ch = ch })
  | full ↦ some t
  | panicked ↦ none
]

unfoldable pub set_queue_position : ℕ → Transfer → Option Transfer
set_queue_position position t = emit_progress (record t { queue_position = position })

-- `fmt.Sprintf("%d:%s:%s", …)`
unfoldable pub file_key_of : Transfer → Bytes
file_key_of t = format_decimal t.direction ++ (b':' ∷ (t.username ++ (b':' ∷ t.filename)))

-- `fmt.Sprintf("%s:%d", …)`
unfoldable remote_token_key_of : Transfer → Bytes
remote_token_key_of t = t.username ++ (b':' ∷ format_decimal t.remote_token)

-- `Close`; `none` is the panic of a second close.
unfoldable pub close_transfer : Transfer → Option Transfer
close_transfer t = elim (close_channel t.progress_ch) [
  | none ↦ none
  | some ch ↦ some (record t { progress_ch = ch })
]

unfoldable pub init_download_channels : Transfer → Transfer
init_download_channels t = record t {
  transfer_ready_ch = some (make_channel 1);
  transfer_conn_ch = some (make_channel 1);
}

unfoldable pub set_shared_file : SharedFile → Transfer → Transfer
set_shared_file f t = record t { shared_file = some f }
