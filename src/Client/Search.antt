-- ===== src/Client/Search.antt =====
-- client/search.go: the searches under way and the channels of their results. A search is an object on
-- a heap. Its goroutine waits in `cleaners` until the context is done.
pub mod Live
pub mod Safety
pub mod Races
use gosoulseek.Prelude.{ℕ, suc, ◌+◌, ◌%◌, ◌^◌, if◌then◌else◌, Bool, true, false, not}
use gosoulseek.Prelude.{Bytes, List, [], ◌∷◌, Option, none, some}
use gosoulseek.Protocol.Decode.Codec.{encoded}
use gosoulseek.Protocol.Writer.{Sink, Writer, WriteError, clean}
use gosoulseek.Server.Requests.{FileSearch, encode_file_search}
use gosoulseek.Peer.SearchResponse.{SearchResponse}
use gosoulseek.Connection.{write_message}
use gosoulseek.Client.KeyMap.{load, store, delete, nat_key}
use gosoulseek.Client.Channel.{
  Channel, Sent, sent, full, panicked, make_channel, try_send, close_channel,
}

-- `cancelled`: the search's context is done.
pub record ActiveSearch : Type 0 where
  pub ch : Channel SearchResponse
  pub cancelled : Bool

-- `cleaners` has, for the address of a search, the token that its goroutine will remove.
pub record SearchRegistry : Type 0 where
  pub heap : List (ℕ × ActiveSearch)
  pub next : ℕ
  pub searches : List (ℕ × ℕ)
  pub cleaners : List (ℕ × ℕ)
  pub search_token : ℕ

unfoldable pub new_search_registry : SearchRegistry
new_search_registry = record { heap = []; next = 0; searches = []; cleaners = []; search_token = 0 }

unfoldable pub add_search : ℕ → ℕ → SearchRegistry → SearchRegistry
add_search token p r = record r { searches = store token p r.searches }

unfoldable pub get_search : ℕ → SearchRegistry → Option ℕ
get_search token r = load token r.searches

unfoldable pub remove_search : ℕ → SearchRegistry → SearchRegistry
remove_search token r = record r { searches = delete token r.searches }

-- `close(search.ch)`; `none` is the panic of a second close.
unfoldable pub close_search : ℕ → SearchRegistry → Option SearchRegistry
close_search p r = elim (load p r.heap) [
  | none ↦ some r
  | some s ↦ elim (close_channel s.ch) [
    | none ↦ none
    | some ch ↦ some (record r { heap = store p (record s { ch = ch }) r.heap })
  ]
]

-- `search.cancel()`, or the end of the caller's context.
unfoldable pub cancel_search : ℕ → SearchRegistry → SearchRegistry
cancel_search p r = elim (load p r.heap) [
  | none ↦ r
  | some s ↦ record r { heap = store p (record s { cancelled = true }) r.heap }
]

-- The `select` of `deliver`, on a search that was found; `none` is the panic of a send on a closed channel.
unfoldable pub deliver_to : ℕ → SearchResponse → SearchRegistry → Option (Bool × SearchRegistry)
deliver_to p resp r = elim (load p r.heap) [
  | none ↦ some (false, r)
  | some s ↦ elim (try_send s.ch resp) [
    | sent ch ↦ some (true, record r { heap = store p (record s { ch = ch }) r.heap })
    | full ↦ some (false, r)
    | panicked ↦ none
  ]
]

-- `deliver`, when nothing happens between its two parts.
unfoldable pub deliver : SearchResponse → SearchRegistry → Option (Bool × SearchRegistry)
unfolding get_search deliver_to
deliver resp r = elim (get_search resp.token r) [
  | none ↦ some (false, r)
  | some p ↦ deliver_to p resp r
]

-- The loop of `closeAll` over the tokens, in some order.
close_each : List (ℕ × ℕ) → SearchRegistry → Option SearchRegistry
unfolding close_search cancel_search remove_search
close_each [] r = some r
close_each ((token, p) ∷ rest) r = elim (close_search p (cancel_search p r)) [
  | none ↦ none
  | some closed ↦ close_each rest (remove_search token closed)
]

pub close_all : SearchRegistry → Option SearchRegistry
unfolding close_each
close_all r = close_each r.searches r

-- The channel holds 1000 results.
abbrev pub result_cap : ℕ
result_cap = 1000

-- `Search` after the message was written: its goroutine starts, or, after an error, the search ends.
unfoldable pub finish_search : ℕ → ℕ → Option WriteError → SearchRegistry → Option SearchRegistry
unfolding remove_search cancel_search close_search
finish_search token p none r = some (record r { cleaners = store p token r.cleaners })
finish_search token p (some e) r = close_search p (cancel_search p (remove_search token r))

-- `Search` of a client that is logged in: what the connection has taken, and the registry; `none` is a
-- panic.
unfoldable pub search : Sink → Bytes → Bytes → SearchRegistry → Bytes × Option SearchRegistry
unfolding add_search finish_search
search sink query conn r =
    let token = (r.search_token + 1) % 2 ^ 32 in
    let p = r.next in
    let fresh : SearchRegistry = record r {
      heap = store p (record { ch = make_channel result_cap; cancelled = false }) r.heap;
      next = suc p;
      search_token = token;
    } in
    let w =
      write_message sink (encoded encode_file_search (record { token = token; query = query }))
        (clean conn) in
    (w.out, finish_search token p w.err (add_search token p fresh))

-- The goroutine of a search, once the context is done: `none` is a panic.
pub clean_up : ℕ → SearchRegistry → Option SearchRegistry
unfolding remove_search close_search
clean_up p r = elim (load p r.cleaners) [
  | none ↦ some r
  | some token ↦ elim (load p r.heap) [
    | none ↦ some r
    | some s ↦
        if s.cancelled
        then close_search p (record (remove_search token r) { cleaners = delete p r.cleaners })
        else some r
  ]
]
