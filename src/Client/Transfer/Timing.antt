-- ===== src/Client/Transfer/Timing.antt =====
-- The state machine and the clock of client/transfer.go.
use gosoulseek.Prelude.{
  ℕ, ◌-◌, ◌≤◌, ◌<◌, ◌≡◌, ◌≢◌, arith, ltb, if◌then◌else◌, true, ◌||◌, none, some,
}
use gosoulseek.Prelude.Int.{ℤ, ◌-ℤ◌}
use gosoulseek.Client.TransferState.{has, completed, is_completed}
use gosoulseek.Client.Transfer.{
  Transfer, rate, average, set_state, update_progress, progress_update_interval,
}

-- The start comes no later than the end, both no later than the clock, and a completed transfer has
-- its end.
pub record IsTimed (now : ℕ) (t : Transfer) : Type 0 where
  pub started : (s : ℕ) → t.start_time ≡ some s → s ≤ now
  pub ended : (e : ℕ) → t.end_time ≡ some e → e ≤ now
  pub stamped : is_completed t.state ≡ true → t.end_time ≢ none

-- Once it is set, neither time is changed by another state, whatever the state.
pub set_state_keeps_times :
    (now s state : ℕ) (e : ℕ) (t : Transfer)
    → t.start_time ≡ some s
    → t.end_time ≡ some e
    → let u = set_state now state t in
      (u.start_time ≡ some s)
      × (u.end_time ≡ some e)
      × (u.avg_speed ≡ t.avg_speed)
      × (u.state ≡ state)
      × (u.prev_state ≡ t.state)
unfolding set_state
set_state_keeps_times now s state e t hs he = ground arith

-- A state with the completed flag stamps the end of a transfer that had none, and the final speed is
-- the bytes since the start offset over the time since the start, if that time is positive.
pub set_state_completes :
    (now s state : ℕ) (t : Transfer)
    → has state completed ≡ true
    → t.start_time ≡ some s
    → t.end_time ≡ none
    → s < now
    → let u = set_state now state t in
      (u.end_time ≡ some now)
      × (u.start_time ≡ some s)
      × (u.avg_speed ≡ rate (t.transferred -ℤ t.start_offset) (now - s))
unfolding set_state
set_state_completes now s state t hc hs he later = ground arith

-- A change of state keeps the times in order: with a clock that does not run back, no time lies in
-- the future, and a transfer that is completed has its end.
pub set_state-IsTimed :
    (before now state : ℕ) (t : Transfer)
    → before ≤ now
    → IsTimed before t
    → IsTimed now (set_state now state t)
unfolding set_state is_completed
set_state-IsTimed before now state t later v = record {
  started = λ s. grind (arith, v.started);
  ended = λ e. grind (arith, v.ended);
  stamped = ground arith;
}

-- The bytes are noted on every branch. Nothing else changes once the transfer is completed, or within
-- a second of the last sample; otherwise the sample is taken anew at the time and the bytes given.
pub update_progress_throttles :
    (now last : ℕ) (bytes : ℤ) (t : Transfer)
    → t.last_progress_time ≡ some last
    → let u = update_progress now bytes t in
      (u.transferred ≡ bytes)
      × (if is_completed t.state || ltb (now - last) progress_update_interval
          then ((u.avg_speed ≡ t.avg_speed)
              × (u.last_progress_time ≡ some last)
              × (u.last_progress_bytes ≡ t.last_progress_bytes))
          else ((u.last_progress_time ≡ some now)
              × (u.last_progress_bytes ≡ bytes)
              × (u.avg_speed ≡ (
                  if t.speed_initialized
                  then average (rate (bytes -ℤ t.last_progress_bytes) (now - last)) t.avg_speed
                  else rate (bytes -ℤ t.last_progress_bytes) (now - last)))))
unfolding update_progress
update_progress_throttles now last bytes t h = ground arith
