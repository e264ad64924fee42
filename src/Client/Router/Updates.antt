-- ===== src/Client/Router/Updates.antt =====
-- What `append` and `Unregister` of client/router.go do to the slices.
use gosoulseek.Prelude.{
  ℕ, suc, ◌-◌, ◌≡◌, ◌∙◌, ap, subst, sym, refl, arith, ◌==◌, if◌then◌else◌, ltb, inl, inr,
  Bool-cases, Option-cases, Bool, true, false,
}
use gosoulseek.Prelude.{List, [], ◌∷◌, ◌++◌, take, drop, length}
use gosoulseek.Prelude.{length-append, length-take, take_all}
use gosoulseek.Client.KeyMap.{load, store, nat_key}
use gosoulseek.Client.Router.{
  HandlerEntry, MessageRouter, cells_at, entries, append_entry, allocate, write_behind, index_of,
  close_gap, unregister,
}
use gosoulseek.Client.Router.Entries.{
  without, has_id, index_of-none, index_of-some, take_snoc, close_gap_lem,
}
use gosoulseek.Client.Router.Slices.{Sound, Moved, Moved-Sound, Moved-entries}

module _ {H : Type 0} where
  allocate-Moved :
      (cap code : ℕ) (es : List (HandlerEntry H)) (r : MessageRouter H)
      → Sound r
      → Moved code es r (allocate cap code es r)
  unfolding allocate
  allocate-Moved cap code es r v = record {
    slice = record { array = r.next; len = length es };
    array = record { cells = es; cap = cap };
    arrays_after = refl;
    handlers_after = refl;
    next_after = omega arith;
    within = omega arith;
    below = omega arith;
    holds = take_all (length es) es (omega arith);
    own = λ d s h e. absurd (omega (arith, (v.lies d s h).known, e));
  }

  pub append-Moved :
      (grow : ℕ → ℕ) (code : ℕ) (e : HandlerEntry H) (r : MessageRouter H)
      → Sound r
      → Moved code (entries code r ++ (e ∷ [])) r (append_entry grow code e r)
  unfolding append_entry write_behind entries cells_at
  append-Moved grow code e r v = elim (Option-cases (load code r.handlers)) [
    | inl absent ↦ subst (Moved code (entries code r ++ (e ∷ [])) r) (ground (arith, absent)) (
        subst (λ es. Moved code es r (allocate (grow 1) code (e ∷ []) r)) (ground (arith, absent))
          (allocate-Moved (grow 1) code (e ∷ []) r v))
    | inr (s, there) ↦
        let l = v.lies code s there in
        let a = l.array_of in
        let es = take s.len a.cells in
        let now : entries code r ≡ es = ground (arith, there, l.found) in
        let size = length-take s.len a.cells l.inside in
        elim (Bool-cases (ltb s.len a.cap)) [
          | inl room ↦
              let cells = es ++ (e ∷ drop (suc s.len) a.cells) in
              let more = length-append es (e ∷ drop (suc s.len) a.cells) in
              let w : Moved code (es ++ (e ∷ [])) r (write_behind code s a e r) = record {
                slice = record s { len = suc s.len };
                array = record a { cells = cells };
                arrays_after = refl;
                handlers_after = refl;
                next_after = omega arith;
                within = omega (arith, more, size);
                below = l.known;
                holds = take_snoc s.len es e (drop (suc s.len) a.cells) size;
                own = λ d u h shared. v.apart code d s u there h (sym shared);
              } in
              subst (Moved code (entries code r ++ (e ∷ [])) r)
                (ground (arith, there, l.found, room))
                (subst (λ xs. Moved code (xs ++ (e ∷ [])) r (write_behind code s a e r)) (sym now)
                  w)
          | inr full ↦
              let cap = grow (suc s.len) in
              subst (Moved code (entries code r ++ (e ∷ [])) r)
                (ground (arith, there, l.found, full))
                (subst (λ xs. Moved code (xs ++ (e ∷ [])) r (allocate cap code (es ++ (e ∷ [])) r))
                  (sym now) (allocate-Moved cap code (es ++ (e ∷ [])) r v))
        ]
  ]

  pub append-counter :
      (grow : ℕ → ℕ) (code : ℕ) (e : HandlerEntry H) (r : MessageRouter H)
      → (append_entry grow code e r).counter ≡ r.counter
  unfolding append_entry
  append-counter grow code e r = ground arith

  -- What `Unregister` answers, and what it leaves of the entries of every code.
  pub record Removed (code id : ℕ) (r : MessageRouter H) (after : Bool × MessageRouter H)
      : Type 0 where
    pub sound_after : Sound after.1
    pub answered : after.0 ≡ has_id id (entries code r)
    pub counted : after.1.counter ≡ r.counter
    pub left :
        (d : ℕ)
        → entries d after.1 ≡ (if code == d then without id (entries code r) else entries d r)

  untouched :
      (code id : ℕ) (r : MessageRouter H)
      → Sound r
      → has_id id (entries code r) ≡ false
      → without id (entries code r) ≡ entries code r
      → Removed code id r (false, r)
  untouched code id r v lacks same = record {
    sound_after = v;
    answered = sym lacks;
    counted = refl;
    left = λ d. elim (Bool-cases (code == d)) [
      | inl this ↦
          let e : code ≡ d = ground (arith, this) in
          ap (λ c. entries c r) (sym e) ∙ (sym same ∙ ground (arith, this))
      | inr other ↦ ground (arith, other)
    ];
  }

  pub unregister-Removed :
      (code id : ℕ) (r : MessageRouter H) → Sound r → Removed code id r (unregister code id r)
  unfolding unregister entries cells_at without has_id
  unregister-Removed code id r v = elim (Option-cases (load code r.handlers)) [
    | inl absent ↦
        subst (Removed code id r) (ground (arith, absent))
          (untouched code id r v (ground (arith, absent)) (ground (arith, absent)))
    | inr (s, there) ↦
        let l = v.lies code s there in
        let a = l.array_of in
        let es = take s.len a.cells in
        let now : entries code r ≡ es = ground (arith, there, l.found) in
        elim (Option-cases (index_of id es)) [
          | inl absent ↦
              let (same, lacks) = index_of-none id es absent in
              subst (Removed code id r) (ground (arith, there, l.found, absent)) (
                untouched code id r v (ap (has_id id) now ∙ lacks)
                  (ap (without id) now ∙ (same ∙ sym now)))
          | inr (i, at) ↦
              let (gone, found, small) = index_of-some id i es at in
              let size = length-take s.len a.cells l.inside in
              let (shorter, kept) =
                close_gap_lem i s.len a.cells (omega (arith, small, size)) l.inside in
              let t : MessageRouter H = record r {
                arrays = store s.array (record a { cells = close_gap i s.len a.cells }) r.arrays;
                handlers = store code (record s { len = s.len - 1 }) r.handlers;
              } in
              let m : Moved code (without id es) r t = record {
                slice = record s { len = s.len - 1 };
                array = record a { cells = close_gap i s.len a.cells };
                arrays_after = refl;
                handlers_after = refl;
                next_after = omega arith;
                within = omega (arith, kept, l.inside);
                below = l.known;
                holds = shorter ∙ sym gone;
                own = λ d u h shared. v.apart code d s u there h (sym shared);
              } in
              let w : Removed code id r (true, t) = record {
                sound_after = Moved-Sound code (without id es) r t v m;
                answered = sym (ap (has_id id) now ∙ found);
                counted = refl;
                left = λ d.
                    Moved-entries code d (without id es) r t m
                    ∙ ap (λ xs. if code == d then xs else entries d r) (ap (without id) (sym now));
              } in
              subst (Removed code id r) (ground (arith, there, l.found, at)) w
        ]
  ]
