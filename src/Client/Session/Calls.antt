-- ===== src/Client/Session/Calls.antt =====
-- What each call of client/client.go does to the flags of a session.
use gosoulseek.Prelude.{
  ◌≡◌, refl, sym, ◌∙◌, subst, arith, true, false, ◌||◌, inl, inr, Bool-cases, Option-cases,
}
use gosoulseek.Prelude.{Bytes, [], Option, none, some}
use gosoulseek.Server.Responses.{LoginResponse}
use gosoulseek.Client.Session.{
  Session, Processor, new_session, connect, begin_session, note_login, read_loop_error, disconnect,
  CallEnd, returns, panics, blocks, await_loop, stop_processor,
}

-- Who is logged in is connected; a session that runs is logged in, and a read loop runs just then; and
-- the channels of a connection are open as long as it is connected.
pub record Consistent (s : Session) : Type 0 where
  pub login_connected : s.logged_in ≡ true → s.connected ≡ true
  pub running_login : s.running ≡ true → s.logged_in ≡ true
  pub running_loop : s.running ≡ s.looping
  pub done_open : s.connected ≡ true → s.done_closed ≡ false
  pub disconnected_open : s.connected ≡ true → s.disconnected_closed ≡ false
  pub stop_open : s.connected ≡ true → s.stop_closed ≡ false

-- A session that is over.
away-Consistent :
    (s : Session)
    → s.connected ≡ false
    → s.logged_in ≡ false
    → s.running ≡ false
    → s.looping ≡ false
    → Consistent s
away-Consistent s off out stopped still = record {
  login_connected = λ h. ground (arith, h, out);
  running_login = λ h. ground (arith, h, stopped);
  running_loop = stopped ∙ sym still;
  done_open = λ h. ground (arith, h, off);
  disconnected_open = λ h. ground (arith, h, off);
  stop_open = λ h. ground (arith, h, off);
}

pub new_session-Consistent : Consistent new_session
unfolding new_session
new_session-Consistent = away-Consistent new_session refl refl refl refl

pub connect-Consistent :
    (e : Option Bytes) (s : Session) → Consistent s → Consistent (connect e s).1
unfolding connect
connect-Consistent e s v = record {
  login_connected = ground (arith, v.login_connected);
  running_login = ground (arith, v.login_connected, v.running_login);
  running_loop = ground (arith, v.running_loop);
  done_open = ground (arith, v.done_open);
  disconnected_open = ground (arith, v.disconnected_open);
  stop_open = ground (arith, v.stop_open);
}

-- The session after an error of the read loop.
abbrev lost : Session → Session
lost s = record s {
  connected = false;
  logged_in = false;
  running = false;
  disconnected_closed = true;
  looping = false;
  done_closed = true;
}

-- An error of the read loop closes its channels for the first time.
pub read_loop_error-Consistent :
    (s : Session) → Consistent s → (t : Session) × (read_loop_error s ≡ some t) × Consistent t
unfolding read_loop_error
read_loop_error-Consistent s v = elim (Bool-cases s.looping) [
  | inr off ↦ (s, ground (arith, off), v)
  | inl on ↦
      let connected = v.login_connected (v.running_login (v.running_loop ∙ on)) in
      (
        lost s,
        ground (arith, on, v.done_open connected, v.disconnected_open connected),
        away-Consistent (lost s) refl refl refl refl,
      )
]

pub note_login-Consistent :
    (username : Bytes) (resp : LoginResponse) (s : Session)
    → Consistent s
    → s.connected ≡ true
    → Consistent (note_login username resp s)
unfolding note_login
note_login-Consistent username resp s v on = record {
  login_connected = λ h. on;
  running_login = λ h. refl;
  running_loop = v.running_loop;
  done_open = v.done_open;
  disconnected_open = v.disconnected_open;
  stop_open = v.stop_open;
}

pub logged_after :
    (username : Bytes) (resp : LoginResponse) (s : Session)
    → ((note_login username resp s).logged_in ≡ true)
      × ((note_login username resp s).connected ≡ s.connected)
unfolding note_login
logged_after username resp s = (refl, refl)

pub begin_session-Consistent :
    (s : Session)
    → Consistent s
    → s.logged_in ≡ true
    → s.connected ≡ true
    → Consistent (begin_session s)
unfolding begin_session
begin_session-Consistent s v logged on = record {
  login_connected = λ h. on;
  running_login = λ h. logged;
  running_loop = refl;
  done_open = v.done_open;
  disconnected_open = v.disconnected_open;
  stop_open = v.stop_open;
}

-- The call has not returned, or has returned a session whose flags agree.
unfoldable pub EndsWell : CallEnd → Type 0
EndsWell (returns t) = Consistent t
EndsWell panics = Unit
EndsWell blocks = Unit

pub ends_well : (t : Session) → EndsWell (returns t) → Consistent t
unfolding EndsWell
ends_well t h = h

returned_well : (t : Session) → Consistent t → EndsWell (returns t)
unfolding EndsWell
returned_well t h = h

not_returned : EndsWell panics × EndsWell blocks
unfolding EndsWell
not_returned = (tt, tt)

await_loop-EndsWell :
    (s : Session)
    → s.connected ≡ false
    → s.logged_in ≡ false
    → s.running ≡ false
    → EndsWell (await_loop s)
unfolding await_loop
await_loop-EndsWell s off out stopped = elim (Bool-cases s.looping) [
  | inl on ↦
      let t : Session = record s { looping = false; done_closed = true } in
      subst EndsWell (ground (arith, on)) (returned_well t (away-Consistent t off out stopped refl))
  | inr still ↦ elim (Bool-cases s.done_closed) [
    | inl ended ↦
        subst EndsWell (ground (arith, still, ended))
          (returned_well s (away-Consistent s off out stopped still))
    | inr waits ↦ subst EndsWell (ground (arith, still, waits)) not_returned.1
  ]
]

-- The session of `Disconnect` before it waits for the read loop.
abbrev after_stop : Processor → Session → Session
after_stop p s = record s {
  connected = false;
  logged_in = false;
  running = false;
  stop_closed = s.running || s.stop_closed;
  username = [];
  ip_address = none;
  is_supporter = false;
  processor = p;
  slots_closed = true;
}

pub disconnect-EndsWell : (s : Session) → Consistent s → EndsWell (disconnect s)
unfolding disconnect
disconnect-EndsWell s v = elim (Bool-cases s.connected) [
  | inr off ↦ subst EndsWell (ground (arith, off)) (returned_well s v)
  | inl on ↦
      let open_stop = v.stop_open on in
      elim (Option-cases (stop_processor s.processor)) [
        | inl crash ↦ subst EndsWell (ground (arith, on, open_stop, crash)) not_returned.0
        | inr (p, stopped) ↦
            subst EndsWell (ground (arith, on, open_stop, stopped))
              (await_loop-EndsWell (after_stop p s) refl refl refl)
      ]
]
