-- ===== src/Client/ServerMessages.antt =====
-- client/client.go: the handlers of the server's messages, and what is written to the server.
use gosoulseek.Prelude.{ℕ, ◌==◌, ltb, if◌then◌else◌, Bool, not, ◌&&◌, take, drop, length}
use gosoulseek.Prelude.{Bytes, [], Option, none, some}
use gosoulseek.Protocol.LittleEndian.{le_value}
use gosoulseek.Protocol.Codes.{peer_code, PeerCode}
use gosoulseek.Protocol.Writer.{Sink, WriteError, buffer, clean}
use gosoulseek.Server.Requests.{encode_ping}
use gosoulseek.Connection.{write_message}
use gosoulseek.Client.Search.{SearchRegistry}
use gosoulseek.Client.PeerMessages.{handle_search_response}

-- `WriteMessage` of the client: `none` is the error that there is no connection.
unfoldable pub write_to_server : Sink → Bool → Bytes → Bytes → Option (Bytes × Option WriteError)
write_to_server sink connected message conn =
    if connected
    then (let w = write_message sink message (clean conn) in some (w.out, w.err))
    else none

-- `handlePing`: the ping is sent back, and an error is dropped.
unfoldable pub handle_ping : Sink → Bytes → Bytes
handle_ping sink conn = (write_message sink (encode_ping buffer (clean [])).out (clean conn)).out

-- What an embedded message is: too short, an answer to a search, or a message for the router.
pub data Embedded : Type 0 where
  too_short : Embedded
  search_answer : Bytes → Embedded
  for_router : ℕ → Bytes → Embedded

unfoldable pub embedded : Bytes → Embedded
embedded payload =
    let body = drop 5 payload in
    if ltb (length payload) 5
    then too_short
    else if not (ltb (length body) 4)
        && (le_value (take 4 body) == peer_code PeerCode.search_response)
    then search_answer body
    else for_router (le_value (take 1 (drop 4 payload))) body

-- `handleEmbeddedMessage`: the searches after it, and the message that the router is given; `none` is a
-- panic.
unfoldable pub handle_embedded_message :
    (Bytes → Option Bytes) → Bytes → SearchRegistry → Option (SearchRegistry × Option (ℕ × Bytes))
unfolding embedded
handle_embedded_message inflate payload r = elim (embedded payload) [
  | too_short ↦ some (r, none)
  | search_answer body ↦ elim (handle_search_response inflate body r) [
    | none ↦ none
    | some after ↦ some (after, none)
  ]
  | for_router code body ↦ some (r, some (code, body))
]
