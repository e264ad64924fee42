-- ===== src/Client/Router/Dispatching.antt =====
-- Which handlers `Dispatch` of client/router.go calls.
use gosoulseek.Prelude.{
  ℕ, zero, suc, ◌+◌, ◌-◌, ◌≤◌, ◌<◌, ◌≡◌, ◌∙◌, ap, ap₂, subst, sym, refl, arith, inl, inr,
  Option-cases,
}
use gosoulseek.Prelude.{List, [], ◌∷◌, ◌++◌, append_assoc, take, drop, length, some}
use gosoulseek.Prelude.{
  length-append, length-take, take-append-drop, take-length-append, drop-length-append,
}
use gosoulseek.Client.KeyMap.{load, nat_key, load-store}
use gosoulseek.Client.Router.{
  Array, Slice, HandlerEntry, MessageRouter, get_elem?, cells_of, cells_at, entries, index_of,
  close_gap, unregister, new_message_router, call_entries, dispatch,
}
use gosoulseek.Client.Router.Slices.{Sound}
use gosoulseek.Client.Router.Refinement.{
  RouterCall, router_calls, table_calls, empty_table, reached-Represents,
}

module _ {H : Type 0} where
  take_next :
      (i left : ℕ) (xs : List (HandlerEntry H))
      → i < length xs
      → (e : HandlerEntry H) × (get_elem? xs i ≡ some e)
        × (take (suc left) (drop i xs) ≡ e ∷ take left (drop (suc i) xs))
  take_next i left [] h = absurd (omega arith)
  take_next zero left (x ∷ xs) h = (x, refl, refl)
  take_next (suc i) left (x ∷ xs) h = take_next i left xs (omega arith)

  -- While nothing happens in between, the loop calls the cells one after the other.
  quiet_calls :
      (between : ℕ → MessageRouter H → MessageRouter H) (s : Slice) (left i : ℕ)
      (r : MessageRouter H)
      → ((j : ℕ) → i ≤ j → between j r ≡ r)
      → i + left ≤ length (cells_at s r)
      → call_entries between s left i r ≡ (take left (drop i (cells_at s r)), r)
  unfolding call_entries
  quiet_calls between s zero i r quiet fits = refl
  quiet_calls between s (suc left) i r quiet fits =
      let (e, at, here) = take_next i left (cells_at s r) (omega (arith, fits)) in
      let later =
        quiet_calls between s left (suc i) r (λ j h. quiet j (omega (arith, h)))
          (omega (arith, fits)) in
      ground (arith, at, here, later, quiet i (omega arith))

  cells_found :
      (s : Slice) (a : Array (HandlerEntry H)) (r : MessageRouter H)
      → load s.array r.arrays ≡ some a
      → cells_at s r ≡ a.cells
  unfolding cells_at
  cells_found s a r h = ap cells_of h

  dispatch-entries :
      (between : ℕ → MessageRouter H → MessageRouter H) (code : ℕ) (r : MessageRouter H)
      → Sound r
      → ((j : ℕ) → between j r ≡ r)
      → dispatch between code r ≡ (entries code r, r)
  unfolding dispatch entries
  dispatch-entries between code r v quiet = elim (Option-cases (load code r.handlers)) [
    | inl absent ↦ ground (arith, absent)
    | inr (s, there) ↦
        let l = v.lies code s there in
        let cells = cells_found s l.array_of r l.found in
        let calls =
          quiet_calls between s s.len 0 r (λ j h. quiet j)
            (omega (arith, ap length cells, l.inside)) in
        ground (arith, there, calls)
  ]

  -- The cells from the second on, once the gap of the first is closed.
  shifted_cells :
      (a b z : HandlerEntry H) (rest stale : List (HandlerEntry H)) (len : ℕ)
      → length rest + 3 ≡ len
      → let cells = (a ∷ (b ∷ (rest ++ (z ∷ [])))) ++ stale in
        close_gap 0 len cells ≡ b ∷ ((rest ++ (z ∷ (z ∷ []))) ++ stale)
  unfolding close_gap
  shifted_cells a b z rest stale len h =
      let es = a ∷ (b ∷ (rest ++ (z ∷ []))) in
      let size : length es ≡ len = omega (arith, length-append rest (z ∷ []), h) in
      let first : take len (es ++ stale) ≡ es =
        subst (λ k. take k (es ++ stale) ≡ es) size (take-length-append es stale) in
      let index : suc (suc (length rest)) ≡ len - 1 = omega (arith, h) in
      let last : drop (len - 1) (es ++ stale) ≡ z ∷ stale =
        subst (λ k. drop k (es ++ stale) ≡ z ∷ stale) index
          (ap (drop (length rest)) (append_assoc rest (z ∷ []) stale)
            ∙ drop-length-append rest (z ∷ stale)) in
      ap₂ (λ xs ys. drop 1 xs ++ ys) first last
      ∙ ap (◌∷◌ b)
          (append_assoc rest (z ∷ []) (z ∷ stale) ∙ sym (append_assoc rest (z ∷ (z ∷ [])) stale))

  -- The router after the first handler is gone, as the slice of before sees it.
  unregister_first :
      (code : ℕ) (s : Slice) (l : Array (HandlerEntry H)) (r : MessageRouter H) (a : HandlerEntry H)
      (es : List (HandlerEntry H))
      → load code r.handlers ≡ some s
      → load s.array r.arrays ≡ some l
      → take s.len l.cells ≡ a ∷ es
      → cells_at s (unregister code a.id r).1 ≡ close_gap 0 s.len l.cells
  unfolding cells_at unregister index_of
  unregister_first code s l r a es there found now =
      let here : index_of a.id (take s.len l.cells) ≡ some 0 =
        ap (index_of a.id) now ∙ ground arith in
      ground (
        arith,
        there,
        found,
        here,
        load-store s.array s.array (record l { cells = close_gap 0 s.len l.cells }) r.arrays,
      )

  shifted_calls :
      (between : ℕ → MessageRouter H → MessageRouter H) (s : Slice) (r : MessageRouter H)
      (b z : HandlerEntry H) (rest stale : List (HandlerEntry H))
      → cells_at s r ≡ b ∷ ((rest ++ (z ∷ (z ∷ []))) ++ stale)
      → ((j : ℕ) → 1 ≤ j → between j r ≡ r)
      → (call_entries between s (suc (suc (length rest))) 1 r).0 ≡ rest ++ (z ∷ (z ∷ []))
  shifted_calls between s r b z rest stale shifted quiet =
      let k = suc (suc (length rest)) in
      let ends = rest ++ (z ∷ (z ∷ [])) in
      let more = length-append rest (z ∷ (z ∷ [])) in
      let all = length-append ends stale in
      let count : length ends ≡ k = omega (arith, more) in
      let calls = quiet_calls between s k 1 r quiet (omega (arith, ap length shifted, more, all)) in
      ap (λ c. c.0) calls
      ∙ (ap (λ xs. take k (drop 1 xs)) shifted
          ∙ subst (λ n. take n (ends ++ stale) ≡ ends) count (take-length-append ends stale))

  -- The handler of the first entry is unregistered while it is called, by itself or by another goroutine.
  dispatch_shifted :
      (between : ℕ → MessageRouter H → MessageRouter H) (code : ℕ) (r : MessageRouter H)
      (a b z : HandlerEntry H) (rest : List (HandlerEntry H))
      → Sound r
      → entries code r ≡ a ∷ (b ∷ (rest ++ (z ∷ [])))
      → between 0 r ≡ (unregister code a.id r).1
      → ((j : ℕ) → 1 ≤ j → between j (between 0 r) ≡ between 0 r)
      → (dispatch between code r).0 ≡ a ∷ (rest ++ (z ∷ (z ∷ [])))
  unfolding dispatch entries call_entries
  dispatch_shifted between code r a b z rest v now first quiet =
      elim (Option-cases (load code r.handlers)) [
        | inl absent ↦ absurd (ground (arith, now, absent))
        | inr (s, there) ↦
            let l = v.lies code s there in
            let cells = l.array_of.cells in
            let seen = cells_found s l.array_of r l.found in
            let stale = drop s.len cells in
            let es = a ∷ (b ∷ (rest ++ (z ∷ []))) in
            let k = suc (suc (length rest)) in
            let listed : take s.len cells ≡ es =
              ap (take s.len) (sym seen) ∙ (ground (arith, there) ∙ now) in
            let parted : es ++ stale ≡ cells =
              ap (λ xs. xs ++ stale) (sym listed) ∙ take-append-drop s.len cells in
            let size : length rest + 3 ≡ s.len = omega (
              arith,
              length-take s.len cells l.inside,
              ap length listed,
              length-append rest (z ∷ []),
            ) in
            let shifted : cells_at s (between 0 r) ≡ b ∷ ((rest ++ (z ∷ (z ∷ []))) ++ stale) =
              ap (cells_at s) first
              ∙ (unregister_first code s l.array_of r a _ there l.found listed
                  ∙ (ap (close_gap 0 s.len) (sym parted)
                      ∙ shifted_cells a b z rest stale s.len size)) in
            let calls = shifted_calls between s (between 0 r) b z rest stale shifted quiet in
            let at_head : get_elem? (cells_at s r) 0 ≡ some a =
              ap (λ xs. get_elem? xs 0) (seen ∙ sym parted) in
            let whole : (call_entries between s (suc k) 0 r).0 ≡ a ∷ (rest ++ (z ∷ (z ∷ []))) =
              ground (arith, calls, at_head) in
            let count : s.len ≡ suc k = omega (arith, size) in
            let runs : (dispatch between code r).0 ≡ (call_entries between s s.len 0 r).0 =
              ground (arith, there) in
            runs ∙ (ap (λ n. (call_entries between s n 0 r).0) count ∙ whole)
      ]

-- After any calls, `Dispatch` calls the handlers of a code once each, in the order of registration, while
-- nobody registers or unregisters a handler in the meantime, and leaves the router as it was.
pub dispatch_in_order :
    {H : Type 0} (grow : ℕ → ℕ) (cs : List (RouterCall H)) (code : ℕ)
    (between : ℕ → MessageRouter H → MessageRouter H)
    → let r = (router_calls grow cs new_message_router).1 in
      ((j : ℕ) → between j r ≡ r)
      → dispatch between code r ≡ ((table_calls cs empty_table).1.listed code, r)
dispatch_in_order grow cs code between quiet =
    let (_, p) = reached-Represents grow cs in
    let r = (router_calls grow cs new_message_router).1 in
    dispatch-entries between code r p.sound quiet ∙ ap (λ es. (es, r)) (p.same_lists code)

-- If the first handler of three or more is unregistered while it is called, by itself or by another
-- goroutine, the second is not called at all in this dispatch, and the last is called twice.
pub dispatch_skips :
    {H : Type 0} (grow : ℕ → ℕ) (cs : List (RouterCall H)) (code : ℕ)
    (between : ℕ → MessageRouter H → MessageRouter H) (a b z : HandlerEntry H)
    (rest : List (HandlerEntry H))
    → let r = (router_calls grow cs new_message_router).1 in
      entries code r ≡ a ∷ (b ∷ (rest ++ (z ∷ [])))
      → between 0 r ≡ (unregister code a.id r).1
      → ((j : ℕ) → 1 ≤ j → between j (between 0 r) ≡ between 0 r)
      → (dispatch between code r).0 ≡ a ∷ (rest ++ (z ∷ (z ∷ [])))
dispatch_skips grow cs code between a b z rest now first quiet =
    let (_, p) = reached-Represents grow cs in
    dispatch_shifted between code (router_calls grow cs new_message_router).1 a b z rest p.sound now
      first quiet
