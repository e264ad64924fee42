-- ===== src/Client/Incoming.antt =====
-- client/listener.go: a peer's connection is routed by its handshake, with what client/client.go has pending
-- and the cache of client/connmanager.go. A connection is known by a number.
use gosoulseek.Prelude.{ℕ, ◌==◌, min, if◌then◌else◌, Bool, true, false, take, drop, length}
use gosoulseek.Prelude.{Bytes, bytes_eq, List, [], ◌∷◌, ◌++◌, Option, none, some}
use gosoulseek.Protocol.LittleEndian.{le_value}
use gosoulseek.Protocol.Codes.{init_code, InitCode}
use gosoulseek.Protocol.Decode.{ok, err}
use gosoulseek.Peer.Init.{Init, decode_init, decode_pierce_firewall}
use gosoulseek.Connection.{Frame, payload, failed}
use gosoulseek.Client.KeyMap.{load, store, delete, nat_key, bytes_key}
use gosoulseek.Client.Channel.{Channel, sent, full, panicked, try_send}
use gosoulseek.Client.TransferState.{codes}
use gosoulseek.Client.Registry.{Registry}
use gosoulseek.Client.PeerMessages.{deliver_transfer_connection}

pub record PendingPeerSolicit : Type 0 where
  pub username : Bytes
  pub conn_type : Bytes

-- `conns` is the manager's cache, and `readers` are the connections whose messages are handled, with
-- their users.
pub record Arrivals : Type 0 where
  pub conns : List (Bytes × ℕ)
  pub closed : List ℕ
  pub readers : List (ℕ × Bytes)
  pub solicitations : List (ℕ × Channel ℕ)
  pub peer_solicits : List (ℕ × PendingPeerSolicit)
  pub registry : Registry

unfoldable pub close_conn : ℕ → Arrivals → Arrivals
close_conn conn s = record s { closed = conn ∷ s.closed }

unfoldable pub get_cached : Bytes → Arrivals → Option ℕ
get_cached username s = load username s.conns

-- `Add`: the connection that was there is closed.
unfoldable pub add_conn : Bytes → ℕ → Arrivals → Arrivals
unfolding close_conn
add_conn username conn s =
    let cached = store username conn s.conns in
    elim (load username s.conns) [
      | none ↦ record s { conns = cached }
      | some old ↦ record (close_conn old s) { conns = cached }
    ]

unfoldable invalidate : Bytes → Arrivals → Arrivals
invalidate username s = record s { conns = delete username s.conns }

close_each : List (Bytes × ℕ) → List ℕ
close_each [] = []
close_each ((username, conn) ∷ m) = conn ∷ close_each m

-- `Close` of the manager.
unfoldable close_conns : Arrivals → Arrivals
unfolding close_each
close_conns s = record s { conns = []; closed = close_each s.conns ++ s.closed }

unfoldable pub add_solicit : ℕ → Bytes → Bytes → Arrivals → Arrivals
add_solicit token username conn_type s = record s {
  peer_solicits =
      store token (record { username = username; conn_type = conn_type }) s.peer_solicits;
}

-- `get` takes the pending connection out.
unfoldable pub get_solicit : ℕ → Arrivals → Option PendingPeerSolicit × Arrivals
get_solicit token s = elim (load token s.peer_solicits) [
  | none ↦ (none, s)
  | some p ↦ (some p, record s { peer_solicits = delete token s.peer_solicits })
]

-- `complete`: the pending solicitation is taken out, and is sent the connection; the waiting side never
-- closes its channel.
unfoldable pub complete_solicitation : ℕ → ℕ → Arrivals → Bool × Arrivals
complete_solicitation token conn s = elim (load token s.solicitations) [
  | none ↦ (false, s)
  | some ch ↦
      let left : Arrivals = record s { solicitations = delete token s.solicitations } in
      elim (try_send ch conn) [
        | sent ch' ↦ (true, left)
        | full ↦ (false, left)
        | panicked ↦ (false, left)
      ]
]

-- A connection of type P is cached, and its messages are read.
unfoldable pub accept_peer : ℕ → Bytes → Arrivals → Arrivals
unfolding add_conn
accept_peer conn username s =
    let cached = add_conn username conn s in
    record cached { readers = (conn, username) ∷ cached.readers }

-- What `conn.Read` into four bytes gives: as many of them as are at hand, and what is left.
unfoldable pub read_token : ℕ → Bytes → Option (ℕ × Bytes)
read_token at_hand incoming =
    let n = min at_hand 4 in
    if length incoming == 0 then none else some (le_value (take n incoming), drop n incoming)

-- `handleTransferConnection`; `none` is a panic.
unfoldable pub handle_transfer_connection : ℕ → ℕ → Bytes → Bytes → Arrivals → Option Arrivals
unfolding read_token close_conn
handle_transfer_connection conn at_hand incoming username s = elim (read_token at_hand incoming) [
  | none ↦ some (close_conn conn s)
  | some (token, rest) ↦ elim (deliver_transfer_connection username token conn s.registry) [
    | none ↦ none
    | some r ↦ some (record s { registry = r })
  ]
]

-- `incoming` is what the peer sends after the handshake, of which `at_hand` bytes are there.
module _ (conn at_hand : ℕ) (incoming : Bytes) where
  -- A connection that a peer has announced through the server.
  solicited : PendingPeerSolicit → Arrivals → Option Arrivals
  unfolding accept_peer handle_transfer_connection close_conn
  solicited p s =
      if bytes_eq p.conn_type (codes "P")
      then some (accept_peer conn p.username s)
      else if bytes_eq p.conn_type (codes "F")
      then handle_transfer_connection conn at_hand incoming p.username s
      else if bytes_eq p.conn_type (codes "D")
      then some (close_conn conn s)
      else some s

  unfoldable pub handle_pierce_firewall : ℕ → Arrivals → Option Arrivals
  unfolding solicited get_solicit complete_solicitation close_conn
  handle_pierce_firewall token s =
      let (found, left) = get_solicit token s in
      let (taken, after) = complete_solicitation token conn left in
      elim found [
        | some p ↦ solicited p left
        | none ↦ if taken then some after else some (close_conn conn after)
      ]

  unfoldable pub handle_peer_init : Init → Arrivals → Option Arrivals
  unfolding accept_peer handle_transfer_connection close_conn
  handle_peer_init init s =
      if bytes_eq init.conn_type (codes "P")
      then some (accept_peer conn init.username s)
      else if bytes_eq init.conn_type (codes "F")
      then handle_transfer_connection conn at_hand incoming init.username s
      else some (close_conn conn s)

  -- The handshake, by its code.
  by_handshake : Bytes → Arrivals → Option Arrivals
  unfolding handle_pierce_firewall handle_peer_init close_conn
  by_handshake [] s = some (close_conn conn s)
  by_handshake (code ∷ data_rest) s =
      if code == init_code InitCode.pierce_firewall
      then elim (decode_pierce_firewall (code ∷ data_rest)) [
        | err e ↦ some (close_conn conn s)
        | ok pf ↦ handle_pierce_firewall pf.token s
      ]
      else if code == init_code InitCode.peer_init
      then elim (decode_init (code ∷ data_rest)) [
        | err e ↦ some (close_conn conn s)
        | ok init ↦ handle_peer_init init s
      ]
      else some (close_conn conn s)

  -- `handleConnection`, with the handshake that was read.
  pub handle_connection : Frame → Arrivals → Option Arrivals
  unfolding by_handshake close_conn
  handle_connection (failed e) s = some (close_conn conn s)
  handle_connection (payload bs) s = by_handshake bs s
