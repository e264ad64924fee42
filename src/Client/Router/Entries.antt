-- ===== src/Client/Router/Entries.antt =====
-- What the operations of client/router.go do to the entries of every code.
use gosoulseek.Prelude.{
  ℕ, zero, suc, ◌-◌, ◌≤◌, ◌<◌, ◌≡◌, ◌∙◌, ap, subst, sym, refl, arith, ◌==◌, if◌then◌else◌, inl, inr,
  Bool-cases, Option-cases, Bool, true, false,
}
use gosoulseek.Prelude.{List, [], ◌∷◌, ◌++◌, append_assoc, take, drop, length, none, some}
use gosoulseek.Prelude.{length-append, take-length-append, length-take, length-drop}
use gosoulseek.Client.KeyMap.{nat_key}
use gosoulseek.Client.Router.{HandlerEntry, index_of, close_gap}

module _ {H : Type 0} where
  -- The list without the first entry of a number.
  unfoldable pub without : ℕ → List (HandlerEntry H) → List (HandlerEntry H)
  without id [] = []
  without id (e ∷ es) = let rest = without id es in if e.id == id then es else e ∷ rest

  -- Some entry has the number.
  unfoldable pub has_id : ℕ → List (HandlerEntry H) → Bool
  has_id id [] = false
  has_id id (e ∷ es) = let rest = has_id id es in if e.id == id then true else rest

  pub index_of-none :
      (id : ℕ) (es : List (HandlerEntry H))
      → index_of id es ≡ none
      → (without id es ≡ es) × (has_id id es ≡ false)
  unfolding index_of without has_id
  index_of-none id [] h = (refl, refl)
  index_of-none id (e ∷ es) h = elim (Option-cases (index_of id es)) [
    | inl absent ↦
        let (same, lacks) = index_of-none id es absent in
        (ground (arith, h, absent, same), ground (arith, h, absent, lacks))
    | inr (i, at) ↦ absurd (ground (arith, h, at))
  ]

  pub index_of-some :
      (id i : ℕ) (es : List (HandlerEntry H))
      → index_of id es ≡ some i
      → (without id es ≡ take i es ++ drop (suc i) es) × (has_id id es ≡ true) × (i < length es)
  unfolding index_of without has_id
  index_of-some id i [] h = absurd (ground (arith, h))
  index_of-some id i (e ∷ es) h = elim (Bool-cases (e.id == id)) [
    | inl this ↦
        let first : i ≡ 0 = ground (arith, h, this) in
        (
          subst (λ k. without id (e ∷ es) ≡ take k (e ∷ es) ++ drop (suc k) (e ∷ es)) (sym first)
              (ground (arith, this)),
          ground (arith, this),
          omega (arith, first),
        )
    | inr other ↦ elim (Option-cases (index_of id es)) [
      | inl absent ↦ absurd (ground (arith, h, other, absent))
      | inr (k, at) ↦
          let later : i ≡ suc k = ground (arith, h, other, at) in
          let (same, found, small) = index_of-some id k es at in
          (
            subst (λ k. without id (e ∷ es) ≡ take k (e ∷ es) ++ drop (suc k) (e ∷ es)) (sym later)
                (ground (arith, other, same)),
            ground (arith, other, found),
            omega (arith, later, small),
          )
    ]
  ]

  pub take_snoc :
      (n : ℕ) (xs : List (HandlerEntry H)) (e : HandlerEntry H) (ys : List (HandlerEntry H))
      → length xs ≡ n
      → take (suc n) (xs ++ (e ∷ ys)) ≡ xs ++ (e ∷ [])
  take_snoc n [] e ys h = subst (λ k. take (suc k) (e ∷ ys) ≡ e ∷ []) h refl
  take_snoc zero (x ∷ xs) e ys h = absurd (omega (arith, h))
  take_snoc (suc n) (x ∷ xs) e ys h = ap (◌∷◌ x) (take_snoc n xs e ys (omega (arith, h)))

  take-take : (i n : ℕ) (xs : List (HandlerEntry H)) → i ≤ n → take i (take n xs) ≡ take i xs
  take-take zero n xs h = refl
  take-take (suc i) zero xs h = absurd (omega arith)
  take-take (suc i) (suc n) [] h = refl
  take-take (suc i) (suc n) (x ∷ xs) h = ap (◌∷◌ x) (take-take i n xs (omega arith))

  -- Closing the gap removes the entry from a slice of the first `len` cells, and keeps the number of cells.
  pub close_gap_lem :
      (i len : ℕ) (cells : List (HandlerEntry H))
      → i < len
      → len ≤ length cells
      → (take (len - 1) (close_gap i len cells)
          ≡ take i (take len cells) ++ drop (suc i) (take len cells))
        × (length (close_gap i len cells) ≡ length cells)
  unfolding close_gap
  close_gap_lem i len cells inside there =
      let es = take len cells in
      let tail = drop (len - 1) cells in
      let front = take i cells ++ drop (suc i) es in
      let whole : length es ≡ len = length-take len cells there in
      let l1 = length-take i cells (omega (arith, inside, there)) in
      let l2 = length-drop (suc i) es (omega (arith, inside, whole)) in
      let l3 = length-drop (len - 1) cells (omega (arith, there)) in
      let l4 = length-append (take i cells) (drop (suc i) es) in
      let l5 = length-append front tail in
      let parted : front ++ tail ≡ close_gap i len cells =
        append_assoc (take i cells) (drop (suc i) es) tail in
      let short : length front ≡ len - 1 = omega (arith, l1, l2, l4, whole, inside) in
      (
        subst (λ w. take (len - 1) w ≡ take i es ++ drop (suc i) es) parted
            (subst (λ k. take k (front ++ tail) ≡ take i es ++ drop (suc i) es) short
              (take-length-append front tail
                ∙ ap (λ w. w ++ drop (suc i) es)
                    (sym (take-take i len cells (omega (arith, inside)))))),
        subst (λ w. length w ≡ length cells) parted (omega (arith, l5, l3, short, inside, there)),
      )
