-- ===== src/Client/PeerConns/Shared.antt =====
-- In every order of the steps of client/connmanager.go there is one attempt for a peer.
use gosoulseek.Prelude.{
  ℕ, suc, ◌≡◌, ◌≤◌, ◌∙◌, ap, subst, refl, arith, inl, inr, ◌==◌, Bool-cases, Option-cases, true,
  false, bytes_eq, bytes_eq_iff,
}
use gosoulseek.Prelude.{Bytes, List, none, some}
use gosoulseek.Client.KeyMap.{load, store, delete, nat_key, bytes_key, load-store, load-delete}
use gosoulseek.Client.PeerConns.{
  Dialled, PendingConn, ConnPool, new_pool, awaits, get_or_create_slow, store_outcome, close_ready,
  cache_dialled,
}

-- A step of some goroutine: a call, the end of an attempt that was under way, its signal, or a change of
-- the cache by `Add`, `Invalidate` or `Close`.
pub data PoolStep : ConnPool → ConnPool → Type 0 where
  asked : (username : Bytes) (s : ConnPool) → PoolStep s (get_or_create_slow username s).1
  ended :
      (a : ℕ) (p : PendingConn) (d : Dialled) (s : ConnPool)
      → load a s.attempts ≡ some p
      → p.outcome ≡ none
      → PoolStep s (store_outcome a d s)
  signalled :
      (a : ℕ) (p : PendingConn) (d : Dialled) (s t : ConnPool)
      → load a s.attempts ≡ some p
      → p.outcome ≡ some d
      → close_ready a s ≡ some t
      → PoolStep s t
  recached : (conns : List (Bytes × ℕ)) (s : ConnPool) → PoolStep s (record s { conns = conns })

pub data Pooled : ConnPool → Type 0 where
  at_first : Pooled new_pool
  after : (s t : ConnPool) → Pooled s → PoolStep s t → Pooled t

-- An attempt is under way just where the pending entry of its peer leads to it.
pub record Deduped (s : ConnPool) : Type 0 where
  pub running :
      (u : Bytes) (a : ℕ)
      → load u s.pending ≡ some a
      → (p : PendingConn) × (load a s.attempts ≡ some p) × (p.username ≡ u) × (p.outcome ≡ none)
  pub listed :
      (a : ℕ) (p : PendingConn)
      → load a s.attempts ≡ some p
      → p.outcome ≡ none
      → load p.username s.pending ≡ some a
  pub fresh : (a : ℕ) → s.next ≤ a → load a s.attempts ≡ none

-- A new attempt for a peer that has none.
begun-Deduped :
    (u : Bytes) (s : ConnPool)
    → Deduped s
    → load u s.pending ≡ none
    → Deduped (record s {
      pending = store u s.next s.pending;
      attempts = store s.next (record { username = u; outcome = none; ready = false }) s.attempts;
      next = suc s.next;
    })
begun-Deduped u s v free =
    let p : PendingConn = record { username = u; outcome = none; ready = false } in
    let unknown = v.fresh s.next (omega arith) in
    let at = λ (a : ℕ). load-store s.next a p s.attempts in
    let by = λ (w : Bytes). load-store u w s.next s.pending in
    record {
      running = λ w a h. elim (Bool-cases (bytes_eq u w)) [
        | inl this ↦
            let same : s.next ≡ a = ground (arith, by w, this, h) in
            (p, ground (arith, at a, same), (bytes_eq_iff u w).0 this, refl)
        | inr other ↦
            let (q, there, name, open1) = v.running w a (ground (arith, by w, other, h)) in
            (q, ground (arith, at a, there, unknown), name, open1)
      ];
      listed = λ a q h open1. elim (Bool-cases (s.next == a)) [
        | inl this ↦
            let same : p ≡ q = ground (arith, at a, this, h) in
            let name = ap (λ x. x.username) same in
            ground (arith, by q.username, bytes_eq_iff u q.username, name, this)
        | inr other ↦
            let there = v.listed a q (ground (arith, at a, other, h)) open1 in
            ground (arith, by q.username, bytes_eq_iff u q.username, there, free)
      ];
      fresh = λ a h. ground (arith, at a, h, v.fresh a (omega (arith, h)));
    }

asked-Deduped : (u : Bytes) (s : ConnPool) → Deduped s → Deduped (get_or_create_slow u s).1
unfolding get_or_create_slow
asked-Deduped u s v = elim (Option-cases (load u s.conns)) [
  | inr (c, there) ↦ subst Deduped (ground (arith, there)) v
  | inl uncached ↦ elim (Option-cases (load u s.pending)) [
    | inr (a, there) ↦ subst Deduped (ground (arith, uncached, there)) v
    | inl free ↦ subst Deduped (ground (arith, uncached, free)) (begun-Deduped u s v free)
  ]
]

ended-Deduped :
    (a : ℕ) (p : PendingConn) (d : Dialled) (s : ConnPool)
    → load a s.attempts ≡ some p
    → p.outcome ≡ none
    → Deduped s
    → Deduped (store_outcome a d s)
unfolding store_outcome
ended-Deduped a p d s there open1 v =
    let done : PendingConn = record p { outcome = some d } in
    let t : ConnPool = record s {
      conns = cache_dialled p.username d s.conns;
      pending = delete p.username s.pending;
      attempts = store a done s.attempts;
    } in
    let at = λ (b : ℕ). load-store a b done s.attempts in
    let by = λ (w : Bytes). load-delete p.username w s.pending in
    let mine = v.listed a p there open1 in
    let kept : Deduped t = record {
      running = λ w b h.
          let (q, known, name, still) = v.running w b (ground (arith, by w, h)) in
          elim (Bool-cases (a == b)) [
            | inl this ↦
                let same : p ≡ q = ground (arith, there, known, this) in
                let owner = ap (λ x. x.username) same ∙ name in
                absurd (ground (arith, by w, h, bytes_eq_iff p.username w, owner))
            | inr other ↦ (q, ground (arith, at b, other, known), name, still)
          ];
      listed = λ b q h still. elim (Bool-cases (a == b)) [
        | inl this ↦
            let same : done ≡ q = ground (arith, at b, this, h) in
            absurd (ground (arith, ap (λ x. x.outcome) same, still))
        | inr other ↦
            let theirs = v.listed b q (ground (arith, at b, other, h)) still in
            ground (arith, by q.username, bytes_eq_iff p.username q.username, mine, theirs, other)
      ];
      fresh = λ b h. ground (arith, at b, h, v.fresh b h, there);
    } in
    subst Deduped (ground (arith, there)) kept

signalled-Deduped :
    (a : ℕ) (p : PendingConn) (d : Dialled) (s t : ConnPool)
    → load a s.attempts ≡ some p
    → p.outcome ≡ some d
    → close_ready a s ≡ some t
    → Deduped s
    → Deduped t
unfolding close_ready
signalled-Deduped a p d s t there closed signal v =
    let done : PendingConn = record p { ready = true } in
    let u : ConnPool = record s { attempts = store a done s.attempts } in
    let at = λ (b : ℕ). load-store a b done s.attempts in
    let kept : Deduped u = record {
      running = λ w b h.
          let (q, known, name, still) = v.running w b h in
          elim (Bool-cases (a == b)) [
            | inl this ↦
                let same : p ≡ q = ground (arith, there, known, this) in
                absurd (ground (arith, ap (λ x. x.outcome) same, still, closed))
            | inr other ↦ (q, ground (arith, at b, other, known), name, still)
          ];
      listed = λ b q h still. elim (Bool-cases (a == b)) [
        | inl this ↦
            let same : done ≡ q = ground (arith, at b, this, h) in
            absurd (ground (arith, ap (λ x. x.outcome) same, still, closed))
        | inr other ↦ v.listed b q (ground (arith, at b, other, h)) still
      ];
      fresh = λ b h. ground (arith, at b, h, v.fresh b h, there);
    } in
    subst Deduped (ground (arith, there, signal)) kept

step-Deduped : (s t : ConnPool) → PoolStep s t → Deduped s → Deduped t
step-Deduped s _ (asked u _) v = asked-Deduped u s v
step-Deduped s _ (ended a p d _ there open1) v = ended-Deduped a p d s there open1 v
step-Deduped s t (signalled a p d _ _ there closed signal) v =
    signalled-Deduped a p d s t there closed signal v
step-Deduped s _ (recached conns _) v = record {
  running = v.running;
  listed = v.listed;
  fresh = v.fresh;
}

pooled-Deduped : (s : ConnPool) → Pooled s → Deduped s
unfolding new_pool load
pooled-Deduped _ at_first = record {
  running = λ u a h. absurd (ground (arith, h));
  listed = λ a p h open1. absurd (ground (arith, h));
  fresh = λ a h. refl;
}
pooled-Deduped t (after s _ before step) = step-Deduped s t step (pooled-Deduped s before)

-- In every order of calls, of ends of attempts and of changes of the cache: while an attempt for a peer is
-- under way, a call for that peer which finds nothing cached waits for it and begins no other, and there is no
-- other attempt for this peer.
pub attempts_shared :
    (s : ConnPool) (a : ℕ) (p : PendingConn)
    → Pooled s
    → load a s.attempts ≡ some p
    → p.outcome ≡ none
    → (load p.username s.conns ≡ none → get_or_create_slow p.username s ≡ (awaits a, s))
      × ((b : ℕ) (q : PendingConn)
          → load b s.attempts ≡ some q
          → q.outcome ≡ none
          → q.username ≡ p.username
          → b ≡ a)
unfolding get_or_create_slow
attempts_shared s a p pooled there open1 =
    let v = pooled-Deduped s pooled in
    let mine = v.listed a p there open1 in
    (
      λ uncached. ground (arith, uncached, mine),
      λ b q known still name. ground (arith, mine, v.listed b q known still, name),
    )

pub data PoolSteps : ConnPool → ConnPool → Type 0 where
  rest : (s : ConnPool) → PoolSteps s s
  further : (s t u : ConnPool) → PoolStep s t → PoolSteps t u → PoolSteps s u
