-- ===== src/Client/Search/Races.antt =====
-- Two orders of events in which client/search.go panics.
use gosoulseek.Prelude.{ℕ, ◌≡◌, arith, true}
use gosoulseek.Prelude.{none, some}
use gosoulseek.Peer.SearchResponse.{SearchResponse}
use gosoulseek.Client.KeyMap.{load, store, delete, nat_key, load-store}
use gosoulseek.Client.Channel.{try_send, close_channel}
use gosoulseek.Client.Search.{
  ActiveSearch, SearchRegistry, close_search, remove_search, deliver_to, get_search, clean_up,
}
use gosoulseek.Client.Search.Safety.{Reached, reached-Live}

-- A delivery that has found its search sends on a closed channel, if the search's goroutine ends before
-- it sends: whenever the context of a listed search is done, this order panics.
pub late_delivery_panics :
    (r : SearchRegistry) (resp : SearchResponse) (p : ℕ) (s : ActiveSearch)
    → Reached r
    → get_search resp.token r ≡ some p
    → load p r.heap ≡ some s
    → s.cancelled ≡ true
    → (u : SearchRegistry) × (clean_up p r ≡ some u) × (deliver_to p resp u ≡ none)
unfolding clean_up close_search close_channel deliver_to try_send get_search remove_search
late_delivery_panics r resp p s reached listed there done =
    let v = reached-Live r reached in
    let waits = v.waited resp.token p listed in
    let l = v.listens p resp.token waits in
    let closed : ActiveSearch = record s { ch = record s.ch { closed = true } } in
    (
      record r {
        heap = store p closed r.heap;
        searches = delete resp.token r.searches;
        cleaners = delete p r.cleaners;
      },
      ground (arith, waits, there, done, l.found, l.is_open),
      ground (arith, load-store p p closed r.heap),
    )
