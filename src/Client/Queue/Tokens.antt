-- ===== src/Client/Queue/Tokens.antt =====
-- The tokens in the queue of client/queue.go tell its entries apart.
use gosoulseek.Prelude.{ℕ, ◌≡◌, ◌≢◌, refl, subst, ==_iff, arith, ◌==◌, Bool-cases, inl, inr}
use gosoulseek.Prelude.{Bytes, List, [], ◌∷◌, ◌++◌, none, some}
use gosoulseek.Client.Queue.{
  QueueEntry, QueueManager, enqueue_upload, remove_token, dequeue_upload, find_token, get_entry,
}
use gosoulseek.Client.Queue.Positions.{IsFresh, DistinctTokens}

IsFresh-remove_token :
    (t k : ℕ) (es : List QueueEntry) → IsFresh t es → IsFresh t (remove_token k es)
unfolding remove_token
IsFresh-remove_token t k [] h = tt
IsFresh-remove_token t k (e ∷ es) h = ground (arith, IsFresh-remove_token t k es h.1)

IsFresh-append :
    (t : ℕ) (xs ys : List QueueEntry) → IsFresh t xs → IsFresh t ys → IsFresh t (xs ++ ys)
IsFresh-append t [] ys h k = k
IsFresh-append t (x ∷ xs) ys (hx, h) k = (hx, IsFresh-append t xs ys h k)

remove_token-DistinctTokens :
    (k : ℕ) (es : List QueueEntry) → DistinctTokens es → DistinctTokens (remove_token k es)
unfolding remove_token
remove_token-DistinctTokens k [] h = tt
remove_token-DistinctTokens k (e ∷ es) h =
    ground (arith, remove_token-DistinctTokens k es h.1, IsFresh-remove_token e.token k es h.0)

append-DistinctTokens :
    (es : List QueueEntry) (e : QueueEntry)
    → DistinctTokens es
    → IsFresh e.token es
    → DistinctTokens (es ++ (e ∷ []))
append-DistinctTokens [] e d h = (tt, tt)
append-DistinctTokens (x ∷ xs) e (hx, d) (h, hs) =
    (IsFresh-append x.token xs (e ∷ []) hx (ground arith, tt), append-DistinctTokens xs e d hs)

find_token-fresh : (t : ℕ) (es : List QueueEntry) → IsFresh t es → find_token t es ≡ none
unfolding find_token
find_token-fresh t [] h = refl
find_token-fresh t (e ∷ es) (he, h) = rw (he, find_token-fresh t es h)

find_token-remove :
    (t : ℕ) (es : List QueueEntry) → DistinctTokens es → find_token t (remove_token t es) ≡ none
unfolding find_token remove_token
find_token-remove t [] d = refl
find_token-remove t (e ∷ es) (h, d) = elim (Bool-cases (e.token == t)) [
  | inl hit ↦ rw hit (find_token-fresh t es (subst (λ n. IsFresh n es) ((==_iff _ _).0 hit) h))
  | inr miss ↦ rw (miss, miss, find_token-remove t es d)
]

find_token-other :
    (t k : ℕ) (es : List QueueEntry) → k ≢ t → find_token k (remove_token t es) ≡ find_token k es
unfolding find_token remove_token
find_token-other t k [] h = refl
find_token-other t k (e ∷ es) h = ground (arith, find_token-other t k es h)

find_token-append :
    (t : ℕ) (es : List QueueEntry) (e : QueueEntry)
    → IsFresh t es
    → e.token ≡ t
    → find_token t (es ++ (e ∷ [])) ≡ some e
unfolding find_token
find_token-append t [] e h hit = ground arith
find_token-append t (x ∷ xs) e (hx, h) hit = rw (hx, find_token-append t xs e h hit)

-- While the tokens in the queue differ, an upload under a new token keeps them different and is found
-- by that token, and taking a token out keeps them different, removes just that entry, and leaves
-- every other token's entry as it was.
pub queue_tokens :
    (now t k j : ℕ) (u f : Bytes) (q : QueueManager)
    → DistinctTokens q.queue
    → IsFresh t q.queue
    → j ≢ k
    → let added = (enqueue_upload now u f t q).0 in
      let removed = dequeue_upload k q in
      DistinctTokens added.queue
      × (get_entry t added
          ≡ some (record { username = u; filename = f; token = t; queued_at = now }))
      × DistinctTokens removed.queue
      × (get_entry k removed ≡ none)
      × (get_entry j removed ≡ get_entry j q)
unfolding enqueue_upload dequeue_upload get_entry
queue_tokens now t k j u f q d fresh other =
    let new : QueueEntry = record { username = u; filename = f; token = t; queued_at = now } in
    (
      append-DistinctTokens q.queue new d fresh,
      find_token-append t q.queue new fresh refl,
      remove_token-DistinctTokens k q.queue d,
      find_token-remove k q.queue d,
      find_token-other k j q.queue other,
    )
