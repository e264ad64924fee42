-- ===== src/Client/Router.antt =====
-- client/router.go: the handlers of the server's message codes. The entries of a code lie in a slice of an
-- array; `append` writes in place while the array has room, and `Unregister` moves the entries down in
-- place, which a slice taken before it still sees.
pub mod Entries
pub mod Slices
pub mod Updates
pub mod Refinement
pub mod Dispatching
use gosoulseek.Prelude.{ℕ, zero, suc, ◌+◌, ◌-◌, ◌%◌, ◌^◌, ◌==◌, ltb, if◌then◌else◌}
use gosoulseek.Prelude.{Bool, true, false, not, Bytes, List, [], ◌∷◌, ◌++◌, take, drop, length}
use gosoulseek.Prelude.{Option, none, some}
use gosoulseek.Client.KeyMap.{load, store, delete, nat_key}

-- `cells` are the cells that were written, at most `cap` of them.
pub record Array (A : Type 0) : Type 0 where
  pub cells : List A
  pub cap : ℕ

pub record Slice : Type 0 where
  pub array : ℕ
  pub len : ℕ

pub record HandlerEntry (H : Type 0) : Type 0 where
  pub id : ℕ
  pub handler : H

-- `counter` is the number of the last handler that was registered.
pub record MessageRouter (H : Type 0) : Type 0 where
  pub arrays : List (ℕ × Array (HandlerEntry H))
  pub next : ℕ
  pub handlers : List (ℕ × Slice)
  pub counter : ℕ

-- The cell at an index.
abbrev pub get_elem? {ℓ} : {A : Type ℓ} → List A → ℕ → Option A
get_elem? [] n = none
get_elem? (x ∷ xs) zero = some x
get_elem? (x ∷ xs) (suc n) = get_elem? xs n

module _ {H : Type 0} where
  unfoldable pub new_message_router : MessageRouter H
  new_message_router = record { arrays = []; next = 0; handlers = []; counter = 0 }

  abbrev cells_of : Option (Array (HandlerEntry H)) → List (HandlerEntry H)
  cells_of none = []
  cells_of (some a) = a.cells

  -- The cells behind a slice, those after its end included.
  unfoldable pub cells_at : Slice → MessageRouter H → List (HandlerEntry H)
  cells_at s r = cells_of (load s.array r.arrays)

  -- `r.handlers[code]`, as the entries that it holds.
  unfoldable pub entries : ℕ → MessageRouter H → List (HandlerEntry H)
  unfolding cells_at
  entries code r = elim (load code r.handlers) [ none ↦ [] | some s ↦ take s.len (cells_at s r) ]

  -- A new array for a slice that has outgrown its own.
  allocate : ℕ → ℕ → List (HandlerEntry H) → MessageRouter H → MessageRouter H
  allocate cap code es r = record r {
    arrays = store r.next (record { cells = es; cap = cap }) r.arrays;
    next = suc r.next;
    handlers = store code (record { array = r.next; len = length es }) r.handlers;
  }

  -- `append(s, e)` where the array has room.
  write_behind :
      ℕ → Slice → Array (HandlerEntry H) → HandlerEntry H → MessageRouter H → MessageRouter H
  write_behind code s a e r = record r {
    arrays =
        store s.array (record a { cells = take s.len a.cells ++ (e ∷ drop (suc s.len) a.cells) })
          r.arrays;
    handlers = store code (record s { len = suc s.len }) r.handlers;
  }

  -- `r.handlers[code] = append(r.handlers[code], e)`; `grow` is the runtime's choice of a capacity.
  unfoldable pub append_entry : (ℕ → ℕ) → ℕ → HandlerEntry H → MessageRouter H → MessageRouter H
  unfolding allocate write_behind
  append_entry grow code e r = elim (load code r.handlers) [
    | none ↦ allocate (grow 1) code (e ∷ []) r
    | some s ↦ elim (load s.array r.arrays) [
      | none ↦ allocate (grow 1) code (e ∷ []) r
      | some a ↦
          if ltb s.len a.cap
          then write_behind code s a e r
          else allocate (grow (suc s.len)) code (take s.len a.cells ++ (e ∷ [])) r
    ]
  ]

  -- `Register`: the handler's number, and the router.
  unfoldable pub register : (ℕ → ℕ) → ℕ → H → MessageRouter H → ℕ × MessageRouter H
  unfolding append_entry
  register grow code h r =
      let id = (r.counter + 1) % 2 ^ 64 in
      (id, append_entry grow code (record { id = id; handler = h }) (record r { counter = id }))

  -- The index of the first entry with a number.
  unfoldable pub index_of : ℕ → List (HandlerEntry H) → Option ℕ
  index_of id [] = none
  index_of id (e ∷ es) =
      let rest = index_of id es in
      if e.id == id then some 0 else elim rest [ none ↦ none | some i ↦ some (suc i) ]

  -- `append(entries[:i], entries[i+1:]...)`, in the array of the entries: the last cell keeps its entry.
  unfoldable pub close_gap : ℕ → ℕ → List (HandlerEntry H) → List (HandlerEntry H)
  close_gap i len cells = take i cells ++ (drop (suc i) (take len cells) ++ drop (len - 1) cells)

  -- `Unregister`: whether the handler was found, and the router.
  pub unregister : ℕ → ℕ → MessageRouter H → Bool × MessageRouter H
  unfolding entries cells_at index_of close_gap
  unregister code id r = elim (load code r.handlers) [
    | none ↦ (false, r)
    | some s ↦ elim (load s.array r.arrays) [
      | none ↦ (false, r)
      | some a ↦ elim (index_of id (take s.len a.cells)) [
        | none ↦ (false, r)
        | some i ↦ (
          true,
          record r {
            arrays = store s.array (record a { cells = close_gap i s.len a.cells }) r.arrays;
            handlers = store code (record s { len = s.len - 1 }) r.handlers;
          },
        )
      ]
    ]
  ]

  unfoldable pub unregister_all : ℕ → MessageRouter H → MessageRouter H
  unregister_all code r = record r { handlers = delete code r.handlers }

  unfoldable has_handler : ℕ → MessageRouter H → Bool
  unfolding entries
  has_handler code r = not (length (entries code r) == 0)

  -- The loop of `Dispatch` over a slice that was taken before: the entries that it calls, from index `i` on.
  -- `between` is what others, or the handler that was called, do to the router after a call.
  unfoldable pub call_entries :
      (ℕ → MessageRouter H → MessageRouter H)
      → Slice
      → ℕ
      → ℕ
      → MessageRouter H
      → List (HandlerEntry H) × MessageRouter H
  unfolding cells_at
  call_entries between s zero i r = ([], r)
  call_entries between s (suc left) i r =
      let (called, after) = call_entries between s left (suc i) (between i r) in
      elim (get_elem? (cells_at s r) i) [ none ↦ ([], r) | some e ↦ (e ∷ called, after) ]

  -- `Dispatch`: the entries whose handlers are called, in this order.
  pub dispatch :
      (ℕ → MessageRouter H → MessageRouter H)
      → ℕ
      → MessageRouter H
      → List (HandlerEntry H) × MessageRouter H
  unfolding call_entries
  dispatch between code r = elim (load code r.handlers) [
    | none ↦ ([], r)
    | some s ↦ call_entries between s s.len 0 r
  ]
