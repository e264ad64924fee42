-- ===== src/Client/Registry/Removal.antt =====
-- `Remove` of client/transfer_registry.go keeps the registry in order.
use gosoulseek.Prelude.{
  ℕ, ◌<◌, ◌≡◌, ◌≢◌, subst, ap, sym, ◌∙◌, arith, ◌==◌, ==_iff, ==_refl, if◌then◌else◌, true,
  Bool-cases, inl, inr, Option-cases,
}
use gosoulseek.Prelude.{Bytes, bytes_eq_iff, bytes_eq_refl, none, some}
use gosoulseek.Client.KeyMap.{load, store, nat_key, bytes_key, load-store, load-delete}
use gosoulseek.Client.Channel.{close_channel}
use gosoulseek.Client.Transfer.{Transfer, file_key_of, close_transfer}
use gosoulseek.Client.Registry.{Registry, unindex, remove_at, remove, get_by_token, deref}
use gosoulseek.Client.Registry.Invariant.{TokenEntry, FileEntry, Inv}

-- The transfer at `p` leaves the indexes, and its channel is closed.
module _ (token p : ℕ) (r : Registry) (v : Inv r) (h : load token r.by_token ≡ some p) where
  entry : TokenEntry r token p
  entry = v.tokens token p h

  closed : Transfer
  closed = record entry.tr { progress_ch = record entry.tr.progress_ch { closed = true } }

  left : Registry
  left = record (unindex token entry.tr r) { heap = store p closed r.heap }

  removed : remove token r ≡ some left
  unfolding remove remove_at close_transfer close_channel left closed
  removed = ground (arith, h, entry.at, entry.live)

  -- Another token has another address and another file.
  other_address : (k q : ℕ) → TokenEntry r k q → token ≢ k → p ≢ q
  other_address k q e differ same =
      let trs : entry.tr ≡ e.tr = ground (arith, entry.at, e.at, same) in
      differ (sym entry.token ∙ ap (λ t. t.token) trs ∙ e.token)

  other_file :
      (k q : ℕ) (e : TokenEntry r k q) → token ≢ k → file_key_of entry.tr ≢ file_key_of e.tr
  other_file k q e differ same =
      other_address k q e differ (ground (arith, entry.file, e.file, same))

  -- Another file has another address and another token.
  other_token :
      (key : Bytes) (q : ℕ) (e : FileEntry r key q)
      → file_key_of entry.tr ≢ key
      → token ≢ e.tr.token
  other_token key q e differ same =
      let trs : entry.tr ≡ e.tr = ground (arith, entry.at, e.at, h, e.token, same) in
      differ (ap file_key_of trs ∙ e.key_of)

  still_at : (q : ℕ) (s : Transfer) → load q r.heap ≡ some s → p ≢ q → load q left.heap ≡ some s
  unfolding left
  still_at q s at differ = ground (arith, load-store p q closed r.heap, ==_iff p q, at)

  still_token :
      (k q : ℕ) → load k left.by_token ≡ some q → (token ≢ k) × (load k r.by_token ≡ some q)
  unfolding left unindex
  still_token k q hk = ground (arith, load-delete token k r.by_token, ==_iff token k, hk)

  still_file :
      (key : Bytes) (q : ℕ)
      → load key left.by_file_key ≡ some q
      → (file_key_of entry.tr ≢ key) × (load key r.by_file_key ≡ some q)
  unfolding left unindex
  still_file key q hk =
      let own = file_key_of entry.tr in
      ground (arith, load-delete own key r.by_file_key, bytes_eq_iff own key, hk)

  left_token : (k q : ℕ) → load k left.by_token ≡ some q → TokenEntry left k q
  unfolding left unindex
  left_token k q hk =
      let (differ, old) = still_token k q hk in
      let e = v.tokens k q old in
      let own = file_key_of entry.tr in
      let file = load-delete own (file_key_of e.tr) r.by_file_key in
      let files = other_file k q e differ in
      record {
        tr = e.tr;
        at = still_at q e.tr e.at (other_address k q e differ);
        token = e.token;
        file = ground (arith, file, files, bytes_eq_iff own (file_key_of e.tr), e.file);
        live = e.live;
      }

  left_file : (key : Bytes) (q : ℕ) → load key left.by_file_key ≡ some q → FileEntry left key q
  unfolding left unindex
  left_file key q hk =
      let (differ, old) = still_file key q hk in
      let e = v.files key q old in
      let tokens = other_token key q e differ in
      let address = other_address e.tr.token q (v.tokens e.tr.token q e.token) tokens in
      let found = load-delete token e.tr.token r.by_token in
      record {
        tr = e.tr;
        at = still_at q e.tr e.at address;
        key_of = e.key_of;
        token = ground (arith, found, tokens, ==_iff token e.tr.token, e.token);
      }

  left-Inv : Inv left
  unfolding left unindex
  left-Inv = record {
    tokens = left_token;
    files = left_file;
    bounded = λ q s at. elim (Bool-cases (p == q)) [
      | inl e ↦ subst (λ n. n < r.next) ((==_iff p q).0 e) (v.bounded p entry.tr entry.at)
      | inr e ↦ v.bounded q s (ground (arith, load-store p q closed r.heap, at, e))
    ];
  }

  closed_at : load p left.heap ≡ some closed
  unfolding left
  closed_at = ground (arith, load-store p p closed r.heap, ==_refl p)

  file_gone : load (file_key_of entry.tr) left.by_file_key ≡ none
  unfolding left unindex
  file_gone =
      let own = file_key_of entry.tr in
      ground (arith, load-delete own own r.by_file_key, bytes_eq_refl own)

pub remove-Inv :
    (token : ℕ) (r : Registry) → Inv r → (l : Registry) × (remove token r ≡ some l) × Inv l
unfolding remove
remove-Inv token r v = elim (Option-cases (load token r.by_token)) [
  | inl e ↦ (r, ground (arith, e), v)
  | inr (p, e) ↦ (left token p r v e, removed token p r v e, left-Inv token p r v e)
]

-- In a registry whose indexes agree, removing a transfer that is registered does not panic: its token
-- and its file are found no more, every other token is found as before, its object has its progress
-- channel closed and is else as it was, and the indexes agree again.
pub remove_forgets :
    (token p : ℕ) (r : Registry)
    → Inv r
    → get_by_token token r ≡ some p
    → (l : Registry) × (t : Transfer) × (remove token r ≡ some l)
      × (deref p r ≡ some t)
      × (deref p l ≡ some (record t { progress_ch = record t.progress_ch { closed = true } }))
      × (load (file_key_of t) l.by_file_key ≡ none)
      × ((k : ℕ) → get_by_token k l ≡ (if token == k then none else get_by_token k r))
      × Inv l
unfolding get_by_token deref closed left unindex
remove_forgets token p r v h = (
  left token p r v h,
  (entry token p r v h).tr,
  removed token p r v h,
  (entry token p r v h).at,
  closed_at token p r v h,
  file_gone token p r v h,
  (λ k. load-delete token k r.by_token),
  left-Inv token p r v h,
)
