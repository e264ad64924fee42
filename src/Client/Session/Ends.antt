-- ===== src/Client/Session/Ends.antt =====
-- How `Disconnect` of client/client.go ends, and what a second session finds.
use gosoulseek.Prelude.{ℕ, ◌≡◌, ◌∙◌, ap, refl, arith, Bool, true, false, [], none, some}
use gosoulseek.Client.Session.{
  Processor, Session, connect, start_processor, worker_ends, begin_session, read_loop_error,
  returns, panics, blocks, workers_end, stop_processor, await_loop, disconnect,
}

-- A session that runs, with one goroutine of the processor.
pub record InSession (s : Session) : Type 0 where
  pub connected : s.connected ≡ true
  pub running : s.running ≡ true
  pub looping : s.looping ≡ true
  pub stop_open : s.stop_closed ≡ false
  pub done_open : s.done_closed ≡ false
  pub disconnected_open : s.disconnected_closed ≡ false
  pub processor_started : s.processor.started ≡ true
  pub processor_on : s.processor.stopped ≡ false
  pub processor_open : s.processor.done_closed ≡ false
  pub one_worker : s.processor.workers ≡ 1

-- A processor that was started, with a number of goroutines.
abbrev busy : Bool → ℕ → Processor
busy stop_closed n = record {
  started = true;
  stopped = false;
  stop_closed = stop_closed;
  done_closed = false;
  workers = n;
}

-- The processor after its only goroutine has stopped.
abbrev ended : Processor
ended = record {
  started = true;
  stopped = true;
  stop_closed = true;
  done_closed = true;
  workers = 0;
}

stop_busy :
    (b : Bool) → (stop_processor (busy b 1) ≡ some ended) × (stop_processor (busy b 2) ≡ none)
unfolding stop_processor workers_end worker_ends
stop_busy b = (refl, refl)

is_busy : (s : Session) → InSession s → s.processor ≡ busy s.processor.stop_closed 1
is_busy s i = λ j. record {
  started = i.processor_started j;
  stopped = i.processor_on j;
  stop_closed = s.processor.stop_closed;
  done_closed = i.processor_open j;
  workers = i.one_worker j;
}

-- The session after it was disconnected.
abbrev over : Session → Session
over s = record s {
  connected = false;
  logged_in = false;
  running = false;
  stop_closed = true;
  done_closed = true;
  looping = false;
  username = [];
  ip_address = none;
  is_supporter = false;
  processor = ended;
  slots_closed = true;
}

-- The session after the server is lost.
abbrev cut : Session → Session
cut s = record s {
  connected = false;
  logged_in = false;
  running = false;
  disconnected_closed = true;
  looping = false;
  done_closed = true;
}

-- A client that has connected and has not logged in waits forever when it disconnects: no read loop runs
-- that would close the channel that it waits for. This is so after every new connection while the processor
-- does not run.
pub disconnect_before_login_blocks :
    (s : Session)
    → s.connected ≡ false
    → s.running ≡ false
    → s.looping ≡ false
    → s.processor.started ≡ false
    → disconnect (connect none s).1 ≡ blocks
unfolding disconnect connect stop_processor await_loop
disconnect_before_login_blocks s off stopped still unstarted = ground arith

-- `Disconnect` of a session that runs ends it, with its goroutines. If the client connects anew and the
-- next session begins, the processor's new goroutine ends at once, since it finds the old channel closed,
-- and panics when it closes the other one again.
pub second_session_panics :
    (s : Session)
    → InSession s
    → (t : Session) × (disconnect s ≡ returns t)
      × (t.connected ≡ false)
      × (t.processor.workers ≡ 0)
      × (worker_ends (begin_session (connect none t).1).processor ≡ none)
unfolding disconnect connect await_loop worker_ends begin_session start_processor
second_session_panics s i =
    let stops : stop_processor s.processor ≡ some ended =
      ap stop_processor (is_busy s i) ∙ (stop_busy s.processor.stop_closed).0 in
    (
      over s,
      ground (arith, i.connected, i.running, i.looping, i.stop_open, stops),
      refl,
      refl,
      refl,
    )

-- A session that has lost the server leaves the processor's goroutine running: `Disconnect` does nothing
-- then, the next session starts a second goroutine, and its `Disconnect` panics, as both close the same
-- channel.
pub lost_session_panics :
    (s : Session)
    → InSession s
    → (t : Session) × (read_loop_error s ≡ some t)
      × (disconnect t ≡ returns t)
      × (t.processor ≡ s.processor)
      × (disconnect (begin_session (connect none t).1) ≡ panics)
unfolding disconnect connect await_loop begin_session start_processor read_loop_error
lost_session_panics s i =
    let twice : start_processor s.processor ≡ busy s.processor.stop_closed 2 =
      ap start_processor (is_busy s i) in
    let crash : stop_processor (start_processor s.processor) ≡ none =
      ap stop_processor twice ∙ (stop_busy s.processor.stop_closed).1 in
    (
      cut s,
      ground (arith, i.looping, i.done_open, i.disconnected_open),
      refl,
      refl,
      ground (arith, crash),
    )
