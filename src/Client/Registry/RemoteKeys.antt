-- ===== src/Client/Registry/RemoteKeys.antt =====
-- The remote keys of client/transfer_registry.go, and what `Remove` leaves of them.
use gosoulseek.Prelude.{
  ℕ, ◌^◌, ◌<◌, ◌≡◌, ap, sym, ◌∙◌, arith, ◌==◌, ==_iff, ==_refl, if◌then◌else◌, true, ◌&&◌, ap₂,
  Bool-cases, inl, inr,
}
use gosoulseek.Prelude.{Bytes, bytes_eq, bytes_eq_iff, some}
use gosoulseek.Client.KeyMap.{load, store, nat_key, bytes_key, load-store}
use gosoulseek.Client.Transfer.{Transfer}
use gosoulseek.Client.Registry.{
  Registry, index_remote, set_remote_token, unindex, remote_key, get_by_token, get_by_remote_token,
  deref,
}
use gosoulseek.Client.Registry.Keys.{remote_key-injective}

module _ (token p : ℕ) (t : Transfer) where
  indexed : ℕ → Registry → Registry
  indexed remote_token r = record r {
    heap = store p (record t { remote_token = remote_token }) r.heap;
    by_remote_token = store (remote_key t.username remote_token) p r.by_remote_token;
  }

  indexes :
      (remote_token : ℕ) (r : Registry)
      → load token r.by_token ≡ some p
      → load p r.heap ≡ some t
      → (set_remote_token token remote_token r).0 ≡ indexed remote_token r
  unfolding set_remote_token index_remote indexed
  indexes remote_token r ht hp = ground (arith, ht, hp)

  indexed_at :
      (remote_token : ℕ) (r : Registry)
      → load p (indexed remote_token r).heap ≡ some (record t { remote_token = remote_token })
  unfolding indexed
  indexed_at remote_token r =
      ground (arith, load-store p p (record t { remote_token = remote_token }) r.heap, ==_refl p)

same_remote_key :
    (u v : Bytes) (a b : ℕ)
    → a < 2 ^ 32
    → b < 2 ^ 32
    → bytes_eq (remote_key u a) (remote_key v b) ≡ (bytes_eq u v && (a == b))
same_remote_key u v a b ha hb = elim (Bool-cases (bytes_eq (remote_key u a) (remote_key v b))) [
  | inl e ↦
      let (users, tokens) = remote_key-injective u v a b ha hb ((bytes_eq_iff _ _).0 e) in
      ground (arith, e, (bytes_eq_iff u v).1 users, (==_iff a b).1 tokens)
  | inr e ↦ elim (Bool-cases (bytes_eq u v && (a == b))) [
    | inl same ↦
        let users : u ≡ v = (bytes_eq_iff u v).0 (ground (arith, same)) in
        let tokens : a ≡ b = (==_iff a b).0 (ground (arith, same)) in
        let keys : remote_key u a ≡ remote_key v b = ap₂ remote_key users tokens in
        ground (arith, e, (bytes_eq_iff (remote_key u a) (remote_key v b)).1 keys)
    | inr other ↦ e ∙ sym other
  ]
]

-- A remote token below 2^32 that is set on a registered transfer leads to it from then on, for the
-- user of the transfer; every other user or remote token below 2^32 leads where it did, and the
-- object has the remote token.
pub remote_token_found :
    (token p remote_token k : ℕ) (u : Bytes) (t : Transfer) (r : Registry)
    → remote_token < 2 ^ 32
    → k < 2 ^ 32
    → get_by_token token r ≡ some p
    → deref p r ≡ some t
    → let s = (set_remote_token token remote_token r).0 in
      (get_by_remote_token u k s ≡ (
        if bytes_eq t.username u && (remote_token == k) then some p else get_by_remote_token u k r))
      × (deref p s ≡ some (record t { remote_token = remote_token }))
unfolding get_by_token deref get_by_remote_token indexed
remote_token_found token p remote_token k u t r hm hk ht hp =
    let step = indexes token p t remote_token r ht hp in
    let at = load-store (remote_key t.username remote_token) (remote_key u k) p r.by_remote_token in
    let keys = same_remote_key t.username u remote_token k hm hk in
    (
      ap (λ s. load (remote_key u k) s.by_remote_token) step
          ∙ at
          ∙ ap (λ b. if b then some p else load (remote_key u k) r.by_remote_token) keys,
      ap (λ s. load p s.heap) step ∙ indexed_at token p t remote_token r,
    )

-- `Remove` of a transfer with an open channel.
module _ (token p : ℕ) (t : Transfer) (r : Registry) where
  closing : Registry
  closing = record (unindex token t r) {
    heap = store p (record t { progress_ch = record t.progress_ch { closed = true } }) r.heap;
  }
