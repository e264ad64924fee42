-- ===== src/Client/Registry/Invariant.antt =====
-- The indexes of client/transfer_registry.go agree, and every operation keeps them so.
use gosoulseek.Prelude.{
  ℕ, ◌<◌, ◌≡◌, subst, ap, ◌∙◌, arith, ◌==◌, ==_iff, if◌then◌else◌, false, Bool-cases, inl, inr,
  Option-cases,
}
use gosoulseek.Prelude.{Bytes, List, some}
use gosoulseek.Client.KeyMap.{load, store, nat_key, bytes_key, load-store}
use gosoulseek.Client.Transfer.{Transfer, file_key_of}
use gosoulseek.Client.Registry.{Registry, new_registry, modify}

-- The transfer at `p`, found under the token `k`.
pub record TokenEntry (r : Registry) (k p : ℕ) : Type 0 where
  pub tr : Transfer
  pub at : load p r.heap ≡ some tr
  pub token : tr.token ≡ k
  pub file : load (file_key_of tr) r.by_file_key ≡ some p
  pub live : tr.progress_ch.closed ≡ false

-- The transfer at `p`, found under the file key `key`.
pub record FileEntry (r : Registry) (key : Bytes) (p : ℕ) : Type 0 where
  pub tr : Transfer
  pub at : load p r.heap ≡ some tr
  pub key_of : file_key_of tr ≡ key
  pub token : load tr.token r.by_token ≡ some p

-- The token index and the file index hold the same transfers, each under its own token and its own
-- file key, with an open progress channel, and no address on the heap is beyond the next one.
pub record Inv (r : Registry) : Type 0 where
  pub tokens : (k p : ℕ) → load k r.by_token ≡ some p → TokenEntry r k p
  pub files : (key : Bytes) (p : ℕ) → load key r.by_file_key ≡ some p → FileEntry r key p
  pub bounded : (p : ℕ) (t : Transfer) → load p r.heap ≡ some t → p < r.next

pub new_registry-Inv : Inv new_registry
unfolding new_registry load
new_registry-Inv = record { tokens = λ k p h. cc; files = λ key p h. cc; bounded = λ p t h. cc }

-- A write that keeps what the indexes rest on.
pub record Keeps (f : Transfer → Transfer) : Type 0 where
  pub token : (t : Transfer) → (f t).token ≡ t.token
  pub file : (t : Transfer) → file_key_of (f t) ≡ file_key_of t
  pub live : (t : Transfer) → (f t).progress_ch.closed ≡ t.progress_ch.closed

module _ (f : Transfer → Transfer) (keeps : Keeps f) (r : Registry) (v : Inv r) (p : ℕ)
    (t : Transfer) (here : load p r.heap ≡ some t) where
  written : Registry
  written = record r { heap = store p (f t) r.heap }

  written_at :
      (q : ℕ) (s : Transfer)
      → load q r.heap ≡ some s
      → load q written.heap ≡ some (if p == q then f s else s)
  unfolding written
  written_at q s h = elim (Bool-cases (p == q)) [
    | inl e ↦
        let same : p ≡ q = (==_iff p q).0 e in
        let values : t ≡ s = ground (arith, here, h, same) in
        ground (arith, load-store p q (f t) r.heap, values, e)
    | inr e ↦ ground (arith, load-store p q (f t) r.heap, h, e)
  ]

  kept : ℕ → Transfer → Transfer
  kept q s = if p == q then f s else s

  kept-token : (q : ℕ) (s : Transfer) → (kept q s).token ≡ s.token
  unfolding kept
  kept-token q s = ground (arith, keeps.token s)

  kept-file : (q : ℕ) (s : Transfer) → file_key_of (kept q s) ≡ file_key_of s
  unfolding kept
  kept-file q s = ground (arith, keeps.file s)

  kept-live : (q : ℕ) (s : Transfer) → (kept q s).progress_ch.closed ≡ s.progress_ch.closed
  unfolding kept
  kept-live q s = ground (arith, keeps.live s)

  written-Inv : Inv written
  unfolding written kept
  written-Inv = record {
    tokens = λ k q h.
        let entry = v.tokens k q h in
        record {
          tr = kept q entry.tr;
          at = written_at q entry.tr entry.at;
          token = kept-token q entry.tr ∙ entry.token;
          file = ap (λ key. load key r.by_file_key) (kept-file q entry.tr) ∙ entry.file;
          live = kept-live q entry.tr ∙ entry.live;
        };
    files = λ key q h.
        let entry = v.files key q h in
        record {
          tr = kept q entry.tr;
          at = written_at q entry.tr entry.at;
          key_of = kept-file q entry.tr ∙ entry.key_of;
          token = ap (λ k. load k r.by_token) (kept-token q entry.tr) ∙ entry.token;
        };
    bounded = λ q s h.
        let old = load-store p q (f t) r.heap in
        elim (Bool-cases (p == q)) [
          | inl e ↦ subst (λ n. n < r.next) ((==_iff p q).0 e) (v.bounded p t here)
          | inr e ↦ v.bounded q s (ground (arith, old, h, e))
        ];
  }

pub modify-Inv :
    (f : Transfer → Transfer) (p : ℕ) (r : Registry) → Keeps f → Inv r → Inv (modify f p r)
unfolding modify written
modify-Inv f p r keeps v = elim (Option-cases (load p r.heap)) [
  | inl e ↦ subst Inv (ground (arith, e)) v
  | inr (t, e) ↦ subst Inv (ground (arith, e)) (written-Inv f keeps r v p t e)
]

-- A registry with the token index, the file index and the heap of another is in order where that one is.
pub remote-Inv :
    (r : Registry) (m : List (Bytes × ℕ)) → Inv r → Inv (record r { by_remote_token = m })
remote-Inv r m v = record {
  tokens = λ k q h.
      let e = v.tokens k q h in
      record { tr = e.tr; at = e.at; token = e.token; file = e.file; live = e.live };
  files = λ key q h.
      let e = v.files key q h in
      record { tr = e.tr; at = e.at; key_of = e.key_of; token = e.token };
  bounded = v.bounded;
}
