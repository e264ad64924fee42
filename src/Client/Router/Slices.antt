-- ===== src/Client/Router/Slices.antt =====
-- The slices of client/router.go lie apart, so that an operation on one code leaves the others alone.
use gosoulseek.Prelude.{
  ℕ, ◌≤◌, ◌<◌, ◌≡◌, ◌∙◌, ap, subst, sym, arith, ◌==◌, if◌then◌else◌, inl, inr, Bool-cases,
  Option-cases, false,
}
use gosoulseek.Prelude.{List, take, length, some}
use gosoulseek.Client.KeyMap.{load, store, nat_key, load-store}
use gosoulseek.Client.Router.{
  Array, Slice, HandlerEntry, MessageRouter, cells_at, entries, new_message_router,
}

-- A slice lies within an array that is there.
pub record Lies {H : Type 0} (r : MessageRouter H) (s : Slice) : Type 0 where
  pub array_of : Array (HandlerEntry H)
  pub found : load s.array r.arrays ≡ some array_of
  pub inside : s.len ≤ length array_of.cells
  pub known : s.array < r.next

-- Every slice lies in an array, and no two codes share one.
pub record Sound {H : Type 0} (r : MessageRouter H) : Type 0 where
  pub lies : (code : ℕ) (s : Slice) → load code r.handlers ≡ some s → Lies r s
  pub apart :
      (c d : ℕ) (s t : Slice)
      → load c r.handlers ≡ some s
      → load d r.handlers ≡ some t
      → s.array ≡ t.array
      → c ≡ d

module _ {H : Type 0} where
  pub new_message_router-Sound : Sound (new_message_router {H = H})
  unfolding new_message_router load
  new_message_router-Sound = record {
    lies = λ c s h. ground (arith, h);
    apart = λ c d s t h. ground (arith, h);
  }

  pub counter-Sound : (n : ℕ) (r : MessageRouter H) → Sound r → Sound (record r { counter = n })
  counter-Sound n r v = record {
    lies = λ code s h.
        let l = v.lies code s h in
        record { array_of = l.array_of; found = l.found; inside = l.inside; known = l.known };
    apart = v.apart;
  }

  -- The code's slice is moved to cells that hold `es`, in an array of its own.
  pub record Moved (code : ℕ) (es : List (HandlerEntry H)) (r t : MessageRouter H) : Type 0 where
    pub slice : Slice
    pub array : Array (HandlerEntry H)
    pub arrays_after : t.arrays ≡ store slice.array array r.arrays
    pub handlers_after : t.handlers ≡ store code slice r.handlers
    pub next_after : r.next ≤ t.next
    pub within : slice.len ≤ length array.cells
    pub below : slice.array < t.next
    pub holds : take slice.len array.cells ≡ es
    pub own : (d : ℕ) (s : Slice) → load d r.handlers ≡ some s → s.array ≡ slice.array → code ≡ d

  -- Which slice a code has then.
  slice_after :
      (code d : ℕ) (es : List (HandlerEntry H)) (r t : MessageRouter H) (m : Moved code es r t)
      → load d t.handlers ≡ (if code == d then some m.slice else load d r.handlers)
  slice_after code d es r t m = ap (load d) m.handlers_after ∙ load-store code d m.slice r.handlers

  -- The arrays of the other codes are as they were.
  others_after :
      (code d : ℕ) (s : Slice) (es : List (HandlerEntry H)) (r t : MessageRouter H)
      → Moved code es r t
      → load d r.handlers ≡ some s
      → (code == d) ≡ false
      → load s.array t.arrays ≡ load s.array r.arrays
  others_after code d s es r t m h other = elim (Bool-cases (m.slice.array == s.array)) [
    | inl shared ↦
        let e : s.array ≡ m.slice.array = ground (arith, shared) in
        absurd (ground (arith, m.own d s h e, other))
    | inr away ↦
        ground (arith, m.arrays_after, load-store m.slice.array s.array m.array r.arrays, away)
  ]

  pub Moved-Sound :
      (code : ℕ) (es : List (HandlerEntry H)) (r t : MessageRouter H)
      → Sound r
      → Moved code es r t
      → Sound t
  Moved-Sound code es r t v m = record {
    lies = λ d s h. elim (Bool-cases (code == d)) [
      | inl this ↦
          let same : m.slice ≡ s = ground (arith, slice_after code d es r t m, h, this) in
          subst (Lies t) same (record {
            array_of = m.array;
            found =
                ap (load m.slice.array) m.arrays_after
                ∙ (load-store m.slice.array m.slice.array m.array r.arrays ∙ ground arith);
            inside = m.within;
            known = m.below;
          })
      | inr other ↦
          let old : load d r.handlers ≡ some s =
            ground (arith, slice_after code d es r t m, h, other) in
          let l = v.lies d s old in
          record {
            array_of = l.array_of;
            found = others_after code d s es r t m old other ∙ l.found;
            inside = l.inside;
            known = omega (arith, l.known, m.next_after);
          }
    ];
    apart = λ c d s u hs hu e. elim (Bool-cases (code == c)) [
      | inl first ↦ elim (Bool-cases (code == d)) [
        | inl second ↦ ground (arith, first, second)
        | inr other ↦
            let same : s ≡ m.slice = ground (arith, slice_after code c es r t m, hs, first) in
            let old : load d r.handlers ≡ some u =
              ground (arith, slice_after code d es r t m, hu, other) in
            absurd (ground (arith, m.own d u old (sym e ∙ ap (λ x. x.array) same), other))
      ]
      | inr before ↦ elim (Bool-cases (code == d)) [
        | inl second ↦
            let same : u ≡ m.slice = ground (arith, slice_after code d es r t m, hu, second) in
            let old : load c r.handlers ≡ some s =
              ground (arith, slice_after code c es r t m, hs, before) in
            absurd (ground (arith, m.own c s old (e ∙ ap (λ x. x.array) same), before))
        | inr other ↦
            v.apart c d s u (ground (arith, slice_after code c es r t m, hs, before))
              (ground (arith, slice_after code d es r t m, hu, other)) e
      ]
    ];
  }

  pub Moved-entries :
      (code d : ℕ) (es : List (HandlerEntry H)) (r t : MessageRouter H)
      → Moved code es r t
      → entries d t ≡ (if code == d then es else entries d r)
  unfolding entries cells_at
  Moved-entries code d es r t m = elim (Bool-cases (code == d)) [
    | inl this ↦
        let here = load-store m.slice.array m.slice.array m.array r.arrays in
        ground (arith, slice_after code d es r t m, this, m.arrays_after, here, m.holds)
    | inr other ↦ elim (Option-cases (load d r.handlers)) [
      | inl absent ↦ ground (arith, slice_after code d es r t m, other, absent)
      | inr (s, there) ↦ ground (
        arith,
        slice_after code d es r t m,
        other,
        there,
        others_after code d s es r t m there other,
      )
    ]
  ]
