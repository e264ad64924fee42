-- ===== src/Client/Search/Safety.antt =====
-- The searches of client/search.go while the client stays connected, as a state machine.
use gosoulseek.Prelude.{
  ℕ, ◌≡◌, ◌≢◌, ◌∙◌, ap, sym, subst, arith, ltb, if◌then◌else◌, Bool, true, false,
}
use gosoulseek.Prelude.{Bytes, [], ◌∷◌, ◌++◌, length, none, some}
use gosoulseek.Protocol.Writer.{Sink}
use gosoulseek.Peer.SearchResponse.{SearchResponse}
use gosoulseek.Client.KeyMap.{load, store, nat_key}
use gosoulseek.Client.Channel.{try_send}
use gosoulseek.Client.Search.{
  ActiveSearch, SearchRegistry, new_search_registry, cancel_search, deliver_to, deliver, get_search,
  search, clean_up,
}
use gosoulseek.Client.Search.Live.{
  Live, new_search_registry-Live, cancel_search-Live, deliver-Live, clean_up-Live, search-Live,
}

-- What can happen to the searches: the caller searches, a result comes, a context is done, and a
-- goroutine ends.
pub data SearchStep : SearchRegistry → SearchRegistry → Type 0 where
  searched :
      (sink : Sink) (query conn : Bytes) (r u : SearchRegistry)
      → (search sink query conn r).1 ≡ some u
      → SearchStep r u
  delivered :
      (resp : SearchResponse) (taken : Bool) (r u : SearchRegistry)
      → deliver resp r ≡ some (taken, u)
      → SearchStep r u
  context_done : (p : ℕ) (r : SearchRegistry) → SearchStep r (cancel_search p r)
  cleaned : (p : ℕ) (r u : SearchRegistry) → clean_up p r ≡ some u → SearchStep r u

pub data Reached : SearchRegistry → Type 0 where
  at_first : Reached new_search_registry
  after : (r u : SearchRegistry) → Reached r → SearchStep r u → Reached u

some_inj : {A : Type 0} (a b : A) → some a ≡ some b → a ≡ b
some_inj a b e = ground (arith, e)

step-Live : (r u : SearchRegistry) → SearchStep r u → Live r → Live u
step-Live r u (searched sink query conn _ _ e) v =
    let (w, done, live) = search-Live sink query conn r v in
    subst Live (some_inj w u (sym done ∙ e)) live
step-Live r u (delivered resp taken _ _ e) v =
    let (b, w, done, live) = deliver-Live resp r v in
    subst Live (ap (λ x. x.1) (some_inj (b, w) (taken, u) (sym done ∙ e))) live
step-Live r _ (context_done p _) v = cancel_search-Live p r v
step-Live r u (cleaned p _ _ e) v =
    let (w, done, live) = clean_up-Live p r v in subst Live (some_inj w u (sym done ∙ e)) live

pub reached-Live : (r : SearchRegistry) → Reached r → Live r
reached-Live _ at_first = new_search_registry-Live
reached-Live u (after r _ before step) = step-Live r u step (reached-Live r before)

-- While nobody closes all searches, and a delivery looks a search up and sends in one step, nothing
-- panics in any state that searches, results, ends of contexts and of goroutines lead to: no search, no
-- delivery of a result, and no goroutine that ends.
pub searches_never_panic :
    (r : SearchRegistry) (sink : Sink) (query conn : Bytes) (resp : SearchResponse) (p : ℕ)
    → Reached r
    → ((search sink query conn r).1 ≢ none) × (deliver resp r ≢ none) × (clean_up p r ≢ none)
searches_never_panic r sink query conn resp p reached =
    let v = reached-Live r reached in
    let (_, s, _) = search-Live sink query conn r v in
    let (_, _, d, _) = deliver-Live resp r v in
    let (_, c, _) = clean_up-Live p r v in
    (λ e. ground (arith, s, e), λ e. ground (arith, d, e), λ e. ground (arith, c, e))

-- In such a state a result whose token is listed goes to the end of the channel of just that search, which
-- is open; where the channel is full the result is dropped, and nothing changes.
pub deliver_routes :
    (r : SearchRegistry) (resp : SearchResponse) (p : ℕ)
    → Reached r
    → get_search resp.token r ≡ some p
    → (s : ActiveSearch) × (load p r.heap ≡ some s)
      × (s.ch.closed ≡ false)
      × (let taken : ActiveSearch = record s {
        ch = record s.ch { buffer = s.ch.buffer ++ (resp ∷ []) };
      } in
          deliver resp r
          ≡ some (
              if ltb (length s.ch.buffer) s.ch.cap
              then (true, record r { heap = store p taken r.heap })
              else (false, r)))
unfolding deliver deliver_to get_search try_send
deliver_routes r resp p reached listed =
    let v = reached-Live r reached in
    let l = v.listens p resp.token (v.waited resp.token p listed) in
    (l.active, l.found, l.is_open, ground (arith, listed, l.found, l.is_open))
