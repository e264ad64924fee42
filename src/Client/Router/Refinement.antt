-- ===== src/Client/Router/Refinement.antt =====
-- The router of client/router.go as a table: for every code the list of its handlers.
use gosoulseek.Prelude.{ℕ, ◌+◌, ◌%◌, ◌^◌, ◌≡◌, ◌∙◌, ap, ap₂, refl, arith, ◌==◌, if◌then◌else◌, Bool}
use gosoulseek.Prelude.{List, [], ◌∷◌, ◌++◌, some}
use gosoulseek.Client.KeyMap.{load, delete, nat_key, load-delete}
use gosoulseek.Client.Router.{
  Slice, HandlerEntry, MessageRouter, append_entry, entries, register, unregister, unregister_all,
  new_message_router,
}
use gosoulseek.Client.Router.Entries.{without, has_id}
use gosoulseek.Client.Router.Slices.{
  Sound, Moved-Sound, Moved-entries, new_message_router-Sound, counter-Sound,
}
use gosoulseek.Client.Router.Updates.{append-Moved, append-counter, unregister-Removed}

pub data RouterCall (H : Type 0) : Type 0 where
  call_register : ℕ → H → RouterCall H
  call_unregister : ℕ → ℕ → RouterCall H
  call_unregister_all : ℕ → RouterCall H

-- What a call answers.
pub data RouterAnswer : Type 0 where
  handler_id : ℕ → RouterAnswer
  was_there : Bool → RouterAnswer
  nothing : RouterAnswer

-- The table: `last` is the number that was given out last.
pub record Table (H : Type 0) : Type 0 where
  pub listed : ℕ → List (HandlerEntry H)
  pub last : ℕ

module _ {H : Type 0} where
  -- Change the list of one code.
  abbrev at_code :
      ℕ → List (HandlerEntry H) → (ℕ → List (HandlerEntry H)) → ℕ → List (HandlerEntry H)
  at_code code es listed d = if code == d then es else listed d

  unfoldable pub table_call : RouterCall H → Table H → RouterAnswer × Table H
  table_call (call_register code h) t =
      let id = (t.last + 1) % 2 ^ 64 in
      (
        handler_id id,
        record {
          listed = at_code code (t.listed code ++ (record { id = id; handler = h } ∷ [])) t.listed;
          last = id;
        },
      )
  table_call (call_unregister code id) t = (
    was_there (has_id id (t.listed code)),
    record t { listed = at_code code (without id (t.listed code)) t.listed },
  )
  table_call (call_unregister_all code) t =
      (nothing, record t { listed = at_code code [] t.listed })

  unfoldable pub router_call :
      (ℕ → ℕ) → RouterCall H → MessageRouter H → RouterAnswer × MessageRouter H
  router_call grow (call_register code h) r =
      let (id, after) = register grow code h r in (handler_id id, after)
  router_call grow (call_unregister code id) r =
      let (found, after) = unregister code id r in (was_there found, after)
  router_call grow (call_unregister_all code) r = (nothing, unregister_all code r)

  -- The answers of the calls, and where they lead.
  unfoldable pub table_calls : List (RouterCall H) → Table H → List RouterAnswer × Table H
  unfolding table_call
  table_calls [] t = ([], t)
  table_calls (c ∷ cs) t =
      let (answer, next) = table_call c t in
      let (answers, last) = table_calls cs next in (answer ∷ answers, last)

  unfoldable pub router_calls :
      (ℕ → ℕ) → List (RouterCall H) → MessageRouter H → List RouterAnswer × MessageRouter H
  unfolding router_call
  router_calls grow [] r = ([], r)
  router_calls grow (c ∷ cs) r =
      let (answer, next) = router_call grow c r in
      let (answers, last) = router_calls grow cs next in (answer ∷ answers, last)

  -- The router stands for the table.
  pub record Represents (r : MessageRouter H) (t : Table H) : Type 0 where
    pub sound : Sound r
    pub same_last : r.counter ≡ t.last
    pub same_lists : (d : ℕ) → entries d r ≡ t.listed d

  -- One call on each side.
  pub record Agree (r : RouterAnswer × MessageRouter H) (t : RouterAnswer × Table H) : Type 0 where
    pub same_answer : r.0 ≡ t.0
    pub represents : Represents r.1 t.1

  unregister_all-entries :
      (code d : ℕ) (r : MessageRouter H)
      → entries d (unregister_all code r) ≡ (if code == d then [] else entries d r)
  unfolding entries unregister_all
  unregister_all-entries code d r = ground (arith, load-delete code d r.handlers)

  remaining :
      (code d : ℕ) (s : Slice) (r : MessageRouter H)
      → load d (delete code r.handlers) ≡ some s
      → load d r.handlers ≡ some s
  remaining code d s r h = ground (arith, load-delete code d r.handlers, h)

  unregister_all-Sound : (code : ℕ) (r : MessageRouter H) → Sound r → Sound (unregister_all code r)
  unfolding unregister_all
  unregister_all-Sound code r v = record {
    lies = λ d s h.
        let l = v.lies d s (remaining code d s r h) in
        record { array_of = l.array_of; found = l.found; inside = l.inside; known = l.known };
    apart =
        λ c d s u hs hu e. v.apart c d s u (remaining code c s r hs) (remaining code d u r hu) e;
  }

  numbered_entries :
      (n d : ℕ) (r : MessageRouter H) → entries d (record r { counter = n }) ≡ entries d r
  unfolding entries
  numbered_entries n d r = refl

  -- The entry of a handler that is registered after `last`.
  abbrev next_entry : ℕ → H → HandlerEntry H
  next_entry last h = record { id = (last + 1) % 2 ^ 64; handler = h }

  call_agrees :
      (grow : ℕ → ℕ) (c : RouterCall H) (r : MessageRouter H) (t : Table H)
      → Represents r t
      → Agree (router_call grow c r) (table_call c t)
  unfolding router_call table_call register unregister_all
  call_agrees grow (call_register code h) r t p =
      let id = (r.counter + 1) % 2 ^ 64 in
      let numbered : MessageRouter H = record r { counter = id } in
      let e : HandlerEntry H = record { id = id; handler = h } in
      let v = counter-Sound id r p.sound in
      let m = append-Moved grow code e numbered v in
      record {
        same_answer = ap (λ n. handler_id ((n + 1) % 2 ^ 64)) p.same_last;
        represents = record {
          sound = Moved-Sound code _ numbered (append_entry grow code e numbered) v m;
          same_last = append-counter grow code e numbered ∙ ap (λ n. (n + 1) % 2 ^ 64) p.same_last;
          same_lists = λ d.
              Moved-entries code d _ numbered (append_entry grow code e numbered) m
              ∙ (ap₂ (λ es fs. if code == d then es ++ (e ∷ []) else fs)
                    (numbered_entries id code r ∙ p.same_lists code)
                    (numbered_entries id d r ∙ p.same_lists d)
                  ∙ ap
                      (λ n.
                        if code == d then t.listed code ++ (next_entry n h ∷ []) else t.listed d)
                      p.same_last);
        };
      }
  call_agrees grow (call_unregister code id) r t p =
      let w = unregister-Removed code id r p.sound in
      record {
        same_answer = ap was_there (w.answered ∙ ap (has_id id) (p.same_lists code));
        represents = record {
          sound = w.sound_after;
          same_last = w.counted ∙ p.same_last;
          same_lists = λ d.
              w.left d
              ∙ ap₂ (λ es fs. if code == d then es else fs) (ap (without id) (p.same_lists code))
                  (p.same_lists d);
        };
      }
  call_agrees grow (call_unregister_all code) r t p = record {
    same_answer = refl;
    represents = record {
      sound = unregister_all-Sound code r p.sound;
      same_last = p.same_last;
      same_lists = λ d.
          unregister_all-entries code d r
          ∙ ap (λ fs. if code == d then [] else fs) (p.same_lists d);
    };
  }

  calls_agree :
      (grow : ℕ → ℕ) (cs : List (RouterCall H)) (r : MessageRouter H) (t : Table H)
      → Represents r t
      → ((router_calls grow cs r).0 ≡ (table_calls cs t).0)
        × Represents (router_calls grow cs r).1 (table_calls cs t).1
  unfolding router_calls table_calls
  calls_agree grow [] r t p = (refl, p)
  calls_agree grow (c ∷ cs) r t p =
      let one = call_agrees grow c r t p in
      let (answers, last) = calls_agree grow cs _ _ one.represents in
      (ap₂ (λ a rest. a ∷ rest) one.same_answer answers, last)

  abbrev pub empty_table : Table H
  empty_table = record { listed = λ d. []; last = 0 }

pub reached-Represents :
    {H : Type 0} (grow : ℕ → ℕ) (cs : List (RouterCall H))
    → ((router_calls grow cs new_message_router).0 ≡ (table_calls cs empty_table).0)
      × Represents (router_calls grow cs new_message_router).1 (table_calls cs empty_table).1
unfolding new_message_router entries load
reached-Represents {H} grow cs =
    calls_agree grow cs _ _
      (record { sound = new_message_router-Sound; same_last = refl; same_lists = λ d. refl })

-- Whatever capacities the runtime gives to new arrays, the calls of a router answer what the same calls
-- of the table answer, and then every code has the entries that it has in the table: in the order of
-- registration, without those that were unregistered. What a removal leaves behind in an array never shows.
pub router_refines_table :
    {H : Type 0} (grow : ℕ → ℕ) (cs : List (RouterCall H)) (code : ℕ)
    → let (answers, r) = router_calls grow cs new_message_router in
      let (expected, t) = table_calls cs empty_table in
      (answers ≡ expected) × (entries code r ≡ t.listed code)
router_refines_table grow cs code =
    let (same, p) = reached-Represents grow cs in (same, p.same_lists code)
