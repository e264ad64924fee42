-- ===== src/Tests/Sessions.antt =====
-- The session of client/client.go and the phases of a download, at concrete inputs.
use gosoulseek.Prelude.{◌+◌, ◌≡◌, refl, true, false, [], ◌∷◌, none, some}
use gosoulseek.Prelude.Int.{pos}
use gosoulseek.Peer.Transfer.{TransferResponse}
use gosoulseek.Client.Errors.{size_mismatch, other}
use gosoulseek.Client.TransferState.{codes, completed, aborted}
use gosoulseek.Client.Transfer.{Transfer, new_transfer}
use gosoulseek.Client.Download.{Part, run, response}
use gosoulseek.Client.Download.Ends.{size_mismatch_aborts}
use gosoulseek.Client.Session.{
  Session, new_session, connect, begin_session, worker_ends, disconnect, read_loop_error, returns,
  panics, blocks,
}
use gosoulseek.Client.Session.Calls.{Consistent}
use gosoulseek.Client.Session.Flags.{Visited, at_first, after, step_connect, visited_sessions_agree}
use gosoulseek.Client.Session.Ends.{
  InSession, disconnect_before_login_blocks, second_session_panics, lost_session_panics,
}

abbrev fresh : Session
fresh = (connect none new_session).1

fresh-Visited : Visited fresh
fresh-Visited = after new_session fresh at_first (step_connect none new_session)

visited_sessions_agree_example :
    Consistent fresh × (t : Session) × (read_loop_error fresh ≡ some t) × Consistent t
visited_sessions_agree_example = visited_sessions_agree fresh fresh-Visited

disconnect_before_login_blocks_example : disconnect fresh ≡ blocks
unfolding new_session
disconnect_before_login_blocks_example =
    disconnect_before_login_blocks new_session refl refl refl refl

-- A session that has begun.
abbrev on : Session
on = begin_session (record fresh { logged_in = true })

on-InSession : InSession on
unfolding begin_session connect new_session
on-InSession = record {
  connected = refl;
  running = refl;
  looping = refl;
  stop_open = refl;
  done_open = refl;
  disconnected_open = refl;
  processor_started = refl;
  processor_on = refl;
  processor_open = refl;
  one_worker = refl;
}

second_session_panics_example :
    (t : Session) × (disconnect on ≡ returns t)
    × (t.connected ≡ false)
    × (t.processor.workers ≡ 0)
    × (worker_ends (begin_session (connect none t).1).processor ≡ none)
second_session_panics_example = second_session_panics on on-InSession

lost_session_panics_example :
    (t : Session) × (read_loop_error on ≡ some t)
    × (disconnect t ≡ returns t)
    × (t.processor ≡ on.processor)
    × (disconnect (begin_session (connect none t).1) ≡ panics)
lost_session_panics_example = lost_session_panics on on-InSession

abbrev fetched : Transfer
fetched = new_transfer 0 (b'a' ∷ []) (b'b' ∷ []) 5

-- A part that succeeds, and one that is cut off.
abbrev goes_well : Part
goes_well t = some (none, t)

abbrev is_cut : Part
is_cut t = some (some (other (codes "EOF")), t)

-- The answer grants a file of 9 bytes.
abbrev granted : TransferResponse
granted = record { token = 5; allowed = true; file_size = pos 9; reason = [] }

size_mismatch_aborts_example :
    (u : Transfer) × (run (λ n. n) (pos 8) goes_well is_cut (response granted) fetched ≡ some u)
    × (u.state ≡ completed + aborted)
    × (u.error ≡ some (size_mismatch (pos 8) (pos 9)))
unfolding new_transfer
size_mismatch_aborts_example =
    size_mismatch_aborts (λ n. n) (pos 8) goes_well is_cut granted fetched refl refl refl refl
