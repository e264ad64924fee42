-- ===== src/Client/Session.antt =====
-- client/client.go: the life of a client's connection to the server, with the goroutine of its read loop
-- and those of the upload processor in client/upload.go. A channel that is only closed is a flag.
pub mod Calls
pub mod Flags
pub mod Ends
use gosoulseek.Prelude.{ℕ, zero, suc, if◌then◌else◌, Bool, true, false, not, ◌&&◌, ◌||◌, ◌++◌}
use gosoulseek.Prelude.{Bytes, List, [], ◌∷◌, Option, none, some}
use gosoulseek.Protocol.Reader.{source}
use gosoulseek.Protocol.Decode.{Result, DecodeError, ok, err}
use gosoulseek.Protocol.Decode.Codec.{encoded}
use gosoulseek.Protocol.Writer.{Sink, Writer, WriteError, clean}
use gosoulseek.Server.Requests.{
  LoginRequest, new_login_request, encode_login, SetListenPort, encode_set_listen_port,
  SetOnlineStatus, encode_set_online_status, status_online, SharedFoldersAndFiles,
  encode_shared_counts,
}
use gosoulseek.Server.Responses.{Ip, LoginResponse, decode_login_response}
use gosoulseek.Connection.{Frame, FrameError, payload, failed, read_message, write_message}

-- The upload processor: `workers` are its goroutines that run.
pub record Processor : Type 0 where
  pub started : Bool
  pub stopped : Bool
  pub stop_closed : Bool
  pub done_closed : Bool
  pub workers : ℕ

-- `stop_closed`, `done_closed` and `disconnected_closed` are the channels of the last `Connect`, and
-- `looping` says whether the read loop runs.
pub record Session : Type 0 where
  pub connected : Bool
  pub logged_in : Bool
  pub running : Bool
  pub stop_closed : Bool
  pub done_closed : Bool
  pub disconnected_closed : Bool
  pub looping : Bool
  pub username : Bytes
  pub ip_address : Option Ip
  pub is_supporter : Bool
  pub processor : Processor
  pub slots_closed : Bool

unfoldable pub new_processor : Processor
new_processor = record {
  started = false;
  stopped = false;
  stop_closed = false;
  done_closed = false;
  workers = 0;
}

-- `New`, as far as it concerns the connection; there are no channels before the first `Connect`.
unfoldable pub new_session : Session
unfolding new_processor
new_session = record {
  connected = false;
  logged_in = false;
  running = false;
  stop_closed = false;
  done_closed = false;
  disconnected_closed = false;
  looping = false;
  username = [];
  ip_address = none;
  is_supporter = false;
  processor = new_processor;
  slots_closed = false;
}

-- What a call answers, unless it succeeds.
pub data SessionError : Type 0 where
  already_connected : SessionError
  dial_failed : Bytes → SessionError
  not_connected : SessionError
  already_logged_in : SessionError
  deadline_failed : Bytes → SessionError
  send_failed : WriteError → SessionError
  response_failed : FrameError → SessionError
  decode_failed : DecodeError → SessionError
  login_rejected : Bytes → SessionError
  config_failed : WriteError → SessionError

-- `Connect`, with the error of the dialling.
unfoldable pub connect : Option Bytes → Session → Option SessionError × Session
connect dial_error s = if s.connected then (some already_connected, s) else elim dial_error [
  | some e ↦ (some (dial_failed e), s)
  | none ↦ (
    none,
    record s {
      connected = true;
      stop_closed = false;
      done_closed = false;
      disconnected_closed = false;
    },
  )
]

-- `Start` of the processor: one more goroutine.
unfoldable pub start_processor : Processor → Processor
start_processor p = record p { started = true; workers = suc p.workers }

-- A goroutine of the processor sees that it is to stop, and closes `doneCh`; `none` is the panic of a
-- second close.
unfoldable pub worker_ends : Processor → Option Processor
worker_ends p = elim p.workers [
  | zero ↦ some p
  | suc n ↦
      if p.stop_closed
      then (if p.done_closed then none else some (record p { done_closed = true; workers = n }))
      else some p
]

-- The read loop and the processor start, once the login is through.
unfoldable pub begin_session : Session → Session
unfolding start_processor
begin_session s = record s {
  running = true;
  looping = true;
  processor = start_processor s.processor;
}

-- What the client knows after an accepted login.
unfoldable pub note_login : Bytes → LoginResponse → Session → Session
note_login username resp s = record s {
  username = username;
  ip_address = resp.ip_address;
  is_supporter = resp.is_supporter;
  logged_in = true;
}

-- `md5` is `md5.Sum`, and `port`, `directories` and `files` come from the options.
module _ (sink : Sink) (md5 : Bytes → Bytes) (port directories files : ℕ) where
  -- Login and SetListenPort, concatenated into one message.
  login_message : Bytes → Bytes → Bytes
  login_message username password =
      encoded (λ k m. encode_login k md5 m) (new_login_request username password)
      ++ encoded encode_set_listen_port (record { port = port })

  -- `sendPostLoginConfig`: the presence, and the shared counts if that was sent.
  send_config : Bytes → Bytes × Option WriteError
  send_config conn =
      let status =
        write_message sink (encoded encode_set_online_status (record { status = status_online }))
          (clean conn) in
      elim status.err [
        | some e ↦ (status.out, some e)
        | none ↦
            let counts =
              write_message sink
                (encoded encode_shared_counts (record { directories = directories; files = files }))
                (clean status.out) in
            (counts.out, counts.err)
      ]

  -- The login was accepted: the configuration is sent, and the session begins.
  finish_login : Bytes → LoginResponse → Bytes → Session → Bytes × (Option SessionError × Session)
  unfolding send_config note_login begin_session
  finish_login username resp conn s =
      let noted = note_login username resp s in
      let (written, e) = send_config conn in
      elim e [
        | some f ↦ (written, (some (config_failed f), noted))
        | none ↦ (written, (none, begin_session noted))
      ]

  -- The server's answer to the login.
  answer_login : Bytes → Frame → Bytes → Session → Bytes × (Option SessionError × Session)
  unfolding finish_login
  answer_login username (failed e) conn s = (conn, (some (response_failed e), s))
  answer_login username (payload bs) conn s = elim (decode_login_response (source bs)) [
    | err e ↦ (conn, (some (decode_failed e), s))
    | ok resp ↦
        if resp.succeeded
        then finish_login username resp conn s
        else (conn, (some (login_rejected resp.message), s))
  ]

  -- `Login`, on what the server sends: what was written, the answer, and the session.
  pub login :
      Option Bytes
      → Bytes
      → Bytes
      → Bytes
      → Bytes
      → Session
      → Bytes × (Option SessionError × Session)
  unfolding login_message answer_login
  login deadline_error username password incoming conn s =
      if not s.connected
      then (conn, (some not_connected, s))
      else if s.logged_in
      then (conn, (some already_logged_in, s))
      else elim deadline_error [
        | some e ↦ (conn, (some (deadline_failed e), s))
        | none ↦
            let w = write_message sink (login_message username password) (clean conn) in
            elim w.err [
              | some e ↦ (w.out, (some (send_failed e), s))
              | none ↦ answer_login username (read_message incoming).0 w.out s
            ]
      ]

-- The read loop meets an error of `ReadMessage`; `none` is the panic of a second close.
unfoldable pub read_loop_error : Session → Option Session
read_loop_error s =
    if s.looping
    then (if s.disconnected_closed || s.done_closed
        then none
        else some (record s {
          connected = false;
          logged_in = false;
          running = false;
          disconnected_closed = true;
          looping = false;
          done_closed = true;
        }))
    else some s

-- How a call ends that may wait for goroutines.
pub data CallEnd : Type 0 where
  returns : Session → CallEnd
  panics : CallEnd
  blocks : CallEnd

-- All the goroutines of the processor end, one after the other.
unfoldable pub workers_end : ℕ → Processor → Option Processor
unfolding worker_ends
workers_end zero p = some p
workers_end (suc n) p = elim (worker_ends p) [ none ↦ none | some q ↦ workers_end n q ]

-- `Stop` of the processor, until its goroutines have ended.
unfoldable pub stop_processor : Processor → Option Processor
unfolding workers_end
stop_processor p =
    if p.stopped || not p.started
    then some p
    else workers_end p.workers (record p { stopped = true; stop_closed = true })

-- `Disconnect` waits for the read loop: it ends if it runs, and nobody else closes its channel.
unfoldable pub await_loop : Session → CallEnd
await_loop s =
    if s.looping
    then returns (record s { looping = false; done_closed = true })
    else if s.done_closed
    then returns s
    else blocks

-- `Disconnect`. The searches and the peers' connections are elsewhere.
unfoldable pub disconnect : Session → CallEnd
unfolding stop_processor await_loop
disconnect s =
    if not s.connected
    then returns s
    else if s.running && s.stop_closed
    then panics
    else elim (stop_processor s.processor) [
      | none ↦ panics
      | some p ↦ await_loop (record s {
        connected = false;
        logged_in = false;
        running = false;
        stop_closed = s.running || s.stop_closed;
        username = [];
        ip_address = none;
        is_supporter = false;
        processor = p;
        slots_closed = true;
      })
    ]
