-- ===== src/Client/Session/Flags.antt =====
-- The flags of a session in client/client.go, over every sequence of calls and of errors of the server.
use gosoulseek.Prelude.{
  ℕ, ◌≡◌, refl, ◌∙◌, ◌⊎◌, subst, arith, true, inl, inr, Bool-cases, Option-cases,
}
use gosoulseek.Prelude.{Bytes, Option, some}
use gosoulseek.Protocol.Reader.{source}
use gosoulseek.Protocol.Writer.{Sink, clean}
use gosoulseek.Server.Responses.{LoginResponse, decode_login_response}
use gosoulseek.Connection.{Frame, payload, failed, read_message, write_message}
use gosoulseek.Protocol.Decode.{Result, DecodeError, ok, err}
use gosoulseek.Client.Session.{
  Session, new_session, connect, login, answer_login, finish_login, send_config, note_login,
  login_message, read_loop_error, disconnect, returns,
}
use gosoulseek.Client.Session.Calls.{
  Consistent, new_session-Consistent, connect-Consistent, read_loop_error-Consistent,
  note_login-Consistent, logged_after, begin_session-Consistent, EndsWell, ends_well,
  disconnect-EndsWell,
}

module _ (sink : Sink) (md5 : Bytes → Bytes) (port directories files : ℕ) where
  finish_login-Consistent :
      (username : Bytes) (resp : LoginResponse) (conn : Bytes) (s : Session)
      → Consistent s
      → s.connected ≡ true
      → Consistent (finish_login sink md5 port directories files username resp conn s).1.1
  unfolding finish_login
  finish_login-Consistent username resp conn s v on =
      let noted = note_login-Consistent username resp s v on in
      let begun =
        begin_session-Consistent (note_login username resp s) noted (logged_after username resp s).0
          ((logged_after username resp s).1 ∙ on) in
      elim (Option-cases (send_config sink md5 port directories files conn).1) [
        | inr (f, unsent) ↦ subst Consistent (ground (arith, unsent)) noted
        | inl sent ↦ subst Consistent (ground (arith, sent)) begun
      ]

  answer_login-Consistent :
      (username : Bytes) (frame : Frame) (conn : Bytes) (s : Session)
      → Consistent s
      → s.connected ≡ true
      → Consistent (answer_login sink md5 port directories files username frame conn s).1.1
  unfolding answer_login
  answer_login-Consistent username (failed e) conn s v on = v
  answer_login-Consistent username (payload bs) conn s v on =
      elim (decoded (decode_login_response (source bs))) [
        | inl (e, bad) ↦ subst Consistent (ground (arith, bad)) v
        | inr (resp, good) ↦ elim (Bool-cases resp.succeeded) [
          | inr no_entry ↦ subst Consistent (ground (arith, good, no_entry)) v
          | inl entry ↦
              subst Consistent (ground (arith, good, entry))
                (finish_login-Consistent username resp conn s v on)
        ]
      ]
    where
      decoded :
          {A : Type 0} (x : Result A) → ((e : DecodeError) × (x ≡ err e)) ⊎ ((a : A) × (x ≡ ok a))
      decoded (err e) = inl (e, refl)
      decoded (ok a) = inr (a, refl)

  login-Consistent :
      (deadline : Option Bytes) (username password incoming conn : Bytes) (s : Session)
      → Consistent s
      → Consistent
          (login sink md5 port directories files deadline username password incoming conn s).1.1
  unfolding login
  login-Consistent deadline username password incoming conn s v = elim (Bool-cases s.connected) [
    | inr off ↦ subst Consistent (ground (arith, off)) v
    | inl on ↦ elim (Bool-cases s.logged_in) [
      | inl again ↦ subst Consistent (ground (arith, on, again)) v
      | inr first ↦ elim (Option-cases deadline) [
        | inr (e, late) ↦ subst Consistent (ground (arith, on, first, late)) v
        | inl timely ↦
            let w =
              write_message sink (login_message sink md5 port directories files username password)
                (clean conn) in
            elim (Option-cases w.err) [
              | inr (e, unsent) ↦ subst Consistent (ground (arith, on, first, timely, unsent)) v
              | inl sent ↦
                  subst Consistent (ground (arith, on, first, timely, sent))
                    (answer_login-Consistent username (read_message incoming).0 w.out s v on)
            ]
      ]
    ]
  ]

-- What happens to a session: the calls of the client's user, and an error of the read loop.
pub data SessionStep : Session → Session → Type 0 where
  step_connect : (e : Option Bytes) (s : Session) → SessionStep s (connect e s).1
  step_login :
      (sink : Sink) (md5 : Bytes → Bytes) (port directories files : ℕ) (deadline : Option Bytes)
      (username password incoming conn : Bytes) (s : Session)
      → SessionStep s
          (login sink md5 port directories files deadline username password incoming conn s).1.1
  step_lost : (s t : Session) → read_loop_error s ≡ some t → SessionStep s t
  step_disconnect : (s t : Session) → disconnect s ≡ returns t → SessionStep s t

pub data Visited : Session → Type 0 where
  at_first : Visited new_session
  after : (s t : Session) → Visited s → SessionStep s t → Visited t

step-Consistent : (s t : Session) → SessionStep s t → Consistent s → Consistent t
step-Consistent s _ (step_connect e _) v = connect-Consistent e s v
step-Consistent s _ (step_login sink md5 port dirs files deadline name word incoming conn _) v =
    login-Consistent sink md5 port dirs files deadline name word incoming conn s v
step-Consistent s t (step_lost _ _ e) v =
    let (u, done, w) = read_loop_error-Consistent s v in
    subst Consistent (ground (arith, done, e)) w
step-Consistent s t (step_disconnect _ _ e) v =
    ends_well t (subst EndsWell e (disconnect-EndsWell s v))

visited-Consistent : (s : Session) → Visited s → Consistent s
visited-Consistent _ at_first = new_session-Consistent
visited-Consistent t (after s _ before step) =
    step-Consistent s t step (visited-Consistent s before)

-- In every session that calls and errors of the server lead to: who is logged in is connected, a session
-- that runs is logged in and has a read loop, the channels of a connection are open while it lasts, and an
-- error of the read loop does not panic.
pub visited_sessions_agree :
    (s : Session)
    → Visited s
    → Consistent s × (t : Session) × (read_loop_error s ≡ some t) × Consistent t
visited_sessions_agree s visited =
    let v = visited-Consistent s visited in
    let (t, done, w) = read_loop_error-Consistent s v in (v, t, done, w)
