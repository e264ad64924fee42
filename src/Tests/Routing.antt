-- ===== src/Tests/Routing.antt =====
-- The router and the searches, with handlers that are numbers.
use gosoulseek.Prelude.{
  ℕ, ◌==◌, ◌≡◌, ◌≢◌, refl, arith, if◌then◌else◌, true, false, Bytes, List, [], ◌∷◌, ◌++◌, none,
  some,
}
use gosoulseek.Protocol.Writer.{buffer, write_uint32, write_bytes}
use gosoulseek.Connection.{write_message}
use gosoulseek.Peer.SearchResponse.{SearchResponse}
use gosoulseek.Client.KeyMap.{load, store, nat_key}
use gosoulseek.Client.Channel.{make_channel}
use gosoulseek.Client.Router.{
  HandlerEntry, MessageRouter, new_message_router, entries, register, unregister, dispatch,
  append_entry,
}
use gosoulseek.Client.Router.Refinement.{
  RouterCall, call_register, call_unregister, router_calls, router_call, table_calls, empty_table,
  router_refines_table,
}
use gosoulseek.Client.Router.Dispatching.{dispatch_in_order, dispatch_skips}
use gosoulseek.Client.Search.{
  ActiveSearch, SearchRegistry, new_search_registry, search, deliver, deliver_to, clean_up,
  finish_search, get_search, cancel_search,
}
use gosoulseek.Client.Search.Safety.{
  Reached, at_first, after, searched, context_done, searches_never_panic,
}
use gosoulseek.Client.Search.Races.{late_delivery_panics}

abbrev room_for_four : ℕ → ℕ
room_for_four n = 4

-- Four handlers of code 3, of which the second is unregistered.
abbrev some_calls : List (RouterCall ℕ)
some_calls =
    call_register 3 100
    ∷ (call_register 3 101
        ∷ (call_register 3 102 ∷ (call_register 3 103 ∷ (call_unregister 3 2 ∷ []))))

router_refines_table_example :
    let (answers, r) = router_calls room_for_four some_calls new_message_router in
    let (expected, t) = table_calls some_calls empty_table in
    (answers ≡ expected) × (entries 3 r ≡ t.listed 3)
router_refines_table_example = router_refines_table room_for_four some_calls 3

abbrev some_router : MessageRouter ℕ
some_router = (router_calls room_for_four some_calls new_message_router).1

dispatch_in_order_example :
    dispatch (λ i r. r) 3 some_router
    ≡ ((table_calls some_calls empty_table).1.listed 3, some_router)
dispatch_in_order_example = dispatch_in_order room_for_four some_calls 3 (λ i r. r) (λ j. refl)

abbrev entry : ℕ → HandlerEntry ℕ
entry n = record { id = n; handler = n }

-- After its first call the first handler is gone.
abbrev once : ℕ → MessageRouter ℕ → MessageRouter ℕ
once i r = if i == 0 then (unregister 3 1 r).1 else r

abbrev four_calls : List (RouterCall ℕ)
four_calls =
    call_register 3 1 ∷ (call_register 3 2 ∷ (call_register 3 3 ∷ (call_register 3 4 ∷ [])))

abbrev four_router : MessageRouter ℕ
four_router = (router_calls room_for_four four_calls new_message_router).1

four_entries : entries 3 four_router ≡ entry 1 ∷ (entry 2 ∷ ((entry 3 ∷ []) ++ (entry 4 ∷ [])))
unfolding entries router_calls router_call register append_entry new_message_router load store
four_entries = refl

dispatch_skips_example :
    (dispatch once 3 four_router).0 ≡ entry 1 ∷ ((entry 3 ∷ []) ++ (entry 4 ∷ (entry 4 ∷ [])))
dispatch_skips_example =
    dispatch_skips room_for_four four_calls 3 once (entry 1) (entry 2) (entry 4) (entry 3 ∷ [])
      four_entries refl (λ j h. ground arith)

abbrev query : Bytes
query = b'q' ∷ []

abbrev one_active : ActiveSearch
one_active = record { ch = make_channel 1000; cancelled = false }

-- One search is under way.
abbrev one_search : SearchRegistry
one_search = record {
  heap = (0, one_active) ∷ [];
  next = 1;
  searches = (1, 0) ∷ [];
  cleaners = (0, 1) ∷ [];
  search_token = 1;
}

one_searched : (search buffer query [] new_search_registry).1 ≡ some one_search
unfolding search new_search_registry finish_search write_message write_uint32 write_bytes load store
one_searched = refl

one-Reached : Reached one_search
one-Reached =
    after new_search_registry one_search at_first
      (searched buffer query [] new_search_registry one_search one_searched)

abbrev result : SearchResponse
result = record {
  username = b'u' ∷ [];
  token = 1;
  files = [];
  locked_files = [];
  has_free_slot = true;
  upload_speed = 0;
  queue_length = 0;
}

searches_never_panic_example :
    ((search buffer query [] one_search).1 ≢ none)
    × (deliver result one_search ≢ none)
    × (clean_up 0 one_search ≢ none)
searches_never_panic_example = searches_never_panic one_search buffer query [] result 0 one-Reached

result_listed : get_search result.token one_search ≡ some 0
unfolding get_search load
result_listed = refl

-- Its context is done.
abbrev over : SearchRegistry
over = cancel_search 0 one_search

over-Reached : Reached over
over-Reached = after one_search over one-Reached (context_done 0 one_search)

over_listed : get_search result.token over ≡ some 0
unfolding get_search cancel_search load
over_listed = refl

over_found : load 0 over.heap ≡ some (record one_active { cancelled = true })
unfolding cancel_search load store
over_found = refl

late_delivery_panics_example :
    (u : SearchRegistry) × (clean_up 0 over ≡ some u) × (deliver_to 0 result u ≡ none)
late_delivery_panics_example =
    late_delivery_panics over result 0 (record one_active { cancelled = true }) over-Reached
      over_listed over_found refl
