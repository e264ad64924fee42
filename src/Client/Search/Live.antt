-- ===== src/Client/Search/Live.antt =====
-- While the client stays connected, a search of client/search.go is listed under its token only as long as
-- its goroutine waits, and its channel is open as long.
use gosoulseek.Prelude.{
  ℕ, suc, ◌+◌, ◌%◌, ◌^◌, ◌<◌, ◌≡◌, ◌∙◌, ap, subst, refl, arith, ◌==◌, ltb, inl, inr, Bool-cases,
  Option-cases, Bool, true, false,
}
use gosoulseek.Prelude.{Bytes, [], ◌∷◌, ◌++◌, length, Option, none, some}
use gosoulseek.Protocol.Writer.{Sink, WriteError}
use gosoulseek.Peer.SearchResponse.{SearchResponse}
use gosoulseek.Client.KeyMap.{load, store, delete, nat_key, load-store, load-delete}
use gosoulseek.Client.Channel.{make_channel, try_send, close_channel}
use gosoulseek.Client.Search.{
  ActiveSearch, SearchRegistry, new_search_registry, add_search, remove_search, close_search,
  cancel_search, deliver_to, deliver, get_search, finish_search, search, clean_up, result_cap,
}

-- The search at an address, with an open channel.
pub record Listens (p : ℕ) (r : SearchRegistry) : Type 0 where
  pub active : ActiveSearch
  pub found : load p r.heap ≡ some active
  pub is_open : active.ch.closed ≡ false

pub record Live (r : SearchRegistry) : Type 0 where
  pub waited : (t p : ℕ) → load t r.searches ≡ some p → load p r.cleaners ≡ some t
  pub listens : (p t : ℕ) → load p r.cleaners ≡ some t → Listens p r
  pub known : (p t : ℕ) → load p r.cleaners ≡ some t → p < r.next

pub new_search_registry-Live : Live new_search_registry
unfolding new_search_registry load
new_search_registry-Live = record {
  waited = λ t p h. ground (arith, h);
  listens = λ p t h. absurd (ground (arith, h));
  known = λ p t h. ground (arith, h);
}

-- The search at `p` becomes `s`, which has an open channel if a goroutine waits for it.
equal : (p q : ℕ) → (p == q) ≡ true → p ≡ q
equal p q h = ground (arith, h)

replaced-Live :
    (p : ℕ) (s : ActiveSearch) (r : SearchRegistry)
    → Live r
    → ((t : ℕ) → load p r.cleaners ≡ some t → s.ch.closed ≡ false)
    → Live (record r { heap = store p s r.heap })
replaced-Live p s r v still = record {
  waited = v.waited;
  listens = λ q t h. elim (Bool-cases (p == q)) [
    | inl this ↦ record {
      active = s;
      found = ground (arith, load-store p q s r.heap, this);
      is_open = still t (ap (λ a. load a r.cleaners) (equal p q this) ∙ h);
    }
    | inr other ↦
        let l = v.listens q t h in
        record {
          active = l.active;
          found = ground (arith, load-store p q s r.heap, other, l.found);
          is_open = l.is_open;
        }
  ];
  known = v.known;
}

pub cancel_search-Live : (p : ℕ) (r : SearchRegistry) → Live r → Live (cancel_search p r)
unfolding cancel_search
cancel_search-Live p r v = elim (Option-cases (load p r.heap)) [
  | inl absent ↦ subst Live (ground (arith, absent)) v
  | inr (s, there) ↦
      let after =
        replaced-Live p (record s { cancelled = true }) r v
          (λ t h. let l = v.listens p t h in ground (arith, l.found, l.is_open, there)) in
      subst Live (ground (arith, there)) after
]

-- With the goroutines that wait, no delivery panics.
deliver_to-Live :
    (p t : ℕ) (resp : SearchResponse) (r : SearchRegistry)
    → Live r
    → load p r.cleaners ≡ some t
    → (b : Bool) × (u : SearchRegistry) × (deliver_to p resp r ≡ some (b, u)) × Live u
unfolding deliver_to try_send
deliver_to-Live p t resp r v h =
    let l = v.listens p t h in
    let c = l.active.ch in
    elim (Bool-cases (ltb (length c.buffer) c.cap)) [
      | inl room ↦
          let s : ActiveSearch = record l.active {
            ch = record c { buffer = c.buffer ++ (resp ∷ []) };
          } in
          (
            true,
            record r { heap = store p s r.heap },
            ground (arith, l.found, l.is_open, room),
            replaced-Live p s r v (λ _ _. l.is_open),
          )
      | inr packed ↦ (false, r, ground (arith, l.found, l.is_open, packed), v)
    ]

pub deliver-Live :
    (resp : SearchResponse) (r : SearchRegistry)
    → Live r
    → (b : Bool) × (u : SearchRegistry) × (deliver resp r ≡ some (b, u)) × Live u
unfolding deliver get_search
deliver-Live resp r v = elim (Option-cases (load resp.token r.searches)) [
  | inl absent ↦ (false, r, ground (arith, absent), v)
  | inr (p, there) ↦
      let (b, u, result, w) = deliver_to-Live p resp.token resp r v (v.waited resp.token p there) in
      (b, u, ground (arith, there, result), w)
]

-- A goroutine that ends takes its search out before it closes the channel.
pub clean_up-Live :
    (p : ℕ) (r : SearchRegistry) → Live r → (u : SearchRegistry) × (clean_up p r ≡ some u) × Live u
unfolding clean_up remove_search close_search close_channel
clean_up-Live p r v = elim (Option-cases (load p r.cleaners)) [
  | inl absent ↦ (r, ground (arith, absent), v)
  | inr (t, there) ↦
      let l = v.listens p t there in
      elim (Bool-cases l.active.cancelled) [
        | inr running ↦ (r, ground (arith, there, l.found, running), v)
        | inl done ↦
            let closed : ActiveSearch = record l.active {
              ch = record l.active.ch { closed = true };
            } in
            (
              record r {
                heap = store p closed r.heap;
                searches = delete t r.searches;
                cleaners = delete p r.cleaners;
              },
              ground (arith, there, l.found, done, l.is_open),
              record {
                waited = λ t' q h.
                    let old : load t' r.searches ≡ some q =
                      ground (arith, load-delete t t' r.searches, h) in
                    ground (
                      arith,
                      load-delete t t' r.searches,
                      h,
                      there,
                      v.waited t' q old,
                      load-delete p q r.cleaners,
                    );
                listens = λ q t' h.
                    let old : load q r.cleaners ≡ some t' =
                      ground (arith, load-delete p q r.cleaners, h) in
                    let k = v.listens q t' old in
                    record {
                      active = k.active;
                      found = ground (
                        arith,
                        load-delete p q r.cleaners,
                        h,
                        load-store p q closed r.heap,
                        k.found,
                      );
                      is_open = k.is_open;
                    };
                known = λ q t' h. v.known q t' (ground (arith, load-delete p q r.cleaners, h));
              },
            )
      ]
]

-- A search as `Search` has listed it before it writes the message.
abbrev listed : ℕ → SearchRegistry → SearchRegistry
listed token r = record {
  heap = store r.next (record { ch = make_channel result_cap; cancelled = false }) r.heap;
  next = suc r.next;
  searches = store token r.next r.searches;
  cleaners = r.cleaners;
  search_token = token;
}

-- The goroutine starts.
started-Live :
    (token : ℕ) (r : SearchRegistry)
    → Live r
    → Live (record (listed token r) { cleaners = store r.next token r.cleaners })
started-Live token r v =
    let p = r.next in
    let s : ActiveSearch = record { ch = make_channel result_cap; cancelled = false } in
    record {
      waited = λ t q h. elim (Bool-cases (token == t)) [
        | inl this ↦
            ground
              (arith, this, load-store token t p r.searches, h, load-store p q token r.cleaners)
        | inr other ↦
            let old : load t r.searches ≡ some q =
              ground (arith, other, load-store token t p r.searches, h) in
            let waits = v.waited t q old in
            let below = v.known q t waits in
            ground (arith, waits, below, load-store p q token r.cleaners)
      ];
      listens = λ q t h. elim (Bool-cases (p == q)) [
        | inl this ↦ record {
          active = s;
          found = ground (arith, this, load-store p q s r.heap);
          is_open = refl;
        }
        | inr other ↦
            let old : load q r.cleaners ≡ some t =
              ground (arith, other, load-store p q token r.cleaners, h) in
            let k = v.listens q t old in
            record {
              active = k.active;
              found = ground (arith, other, load-store p q s r.heap, k.found);
              is_open = k.is_open;
            }
      ];
      known = λ q t h. elim (Bool-cases (p == q)) [
        | inl this ↦ ground (arith, this)
        | inr other ↦
            let below = v.known q t (ground (arith, other, load-store p q token r.cleaners, h)) in
            omega (arith, below)
      ];
    }

-- A search whose message could not be written is gone again.
dropped-Live :
    (token : ℕ) (e : WriteError) (r : SearchRegistry)
    → Live r
    → (u : SearchRegistry) × (finish_search token r.next (some e) (listed token r) ≡ some u)
      × Live u
unfolding finish_search remove_search cancel_search close_search close_channel
dropped-Live token e r v =
    let p = r.next in
    let s : ActiveSearch = record { ch = make_channel result_cap; cancelled = false } in
    let over : ActiveSearch = record s { cancelled = true } in
    let closed : ActiveSearch = record over { ch = record s.ch { closed = true } } in
    let h1 = store p s r.heap in
    let h2 = store p over h1 in
    (
      record (listed token r) {
        heap = store p closed h2;
        searches = delete token (store token p r.searches);
      },
      ground (arith, load-store p p s r.heap, load-store p p over h1),
      record {
        waited = λ t q h. v.waited t q (
            ground (
              arith,
              load-delete token t (store token p r.searches),
              load-store token t p r.searches,
              h,
            ));
        listens = λ q t h.
            let k = v.listens q t h in
            let below = v.known q t h in
            record {
              active = k.active;
              found = ground (
                arith,
                below,
                load-store p q closed h2,
                load-store p q over h1,
                load-store p q s r.heap,
                k.found,
              );
              is_open = k.is_open;
            };
        known = λ q t h. let below = v.known q t h in omega (arith, below);
      },
    )

finish-Live :
    (token : ℕ) (e : Option WriteError) (r : SearchRegistry)
    → Live r
    → (u : SearchRegistry) × (finish_search token r.next e (listed token r) ≡ some u) × Live u
unfolding finish_search
finish-Live token none r v = (
  record (listed token r) { cleaners = store r.next token r.cleaners },
  refl,
  started-Live token r v,
)
finish-Live token (some e) r v = dropped-Live token e r v

pub search-Live :
    (sink : Sink) (query conn : Bytes) (r : SearchRegistry)
    → Live r
    → (u : SearchRegistry) × ((search sink query conn r).1 ≡ some u) × Live u
unfolding search add_search
search-Live sink query conn r v = finish-Live ((r.search_token + 1) % 2 ^ 32) _ r v
