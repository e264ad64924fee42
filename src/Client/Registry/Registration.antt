-- ===== src/Client/Registry/Registration.antt =====
-- `register` of client/transfer_registry.go keeps the registry in order.
use gosoulseek.Prelude.{
  ℕ, suc, ◌<◌, ◌≡◌, refl, subst, ap, sym, ◌∙◌, arith, ◌==◌, ==_iff, ==_refl, false, Bool-cases, inl,
  inr, Option-cases,
}
use gosoulseek.Prelude.{Bytes, bytes_eq, bytes_eq_iff, bytes_eq_refl, List, none, some}
use gosoulseek.Prelude.Int.{ℤ}
use gosoulseek.Client.KeyMap.{load, store, delete, nat_key, bytes_key, load-store, load-delete}
use gosoulseek.Client.Transfer.{Transfer, new_transfer, file_key_of}
use gosoulseek.Client.Errors.{TransferError, duplicate_transfer}
use gosoulseek.Client.Registry.{Registry, register, register_token}
use gosoulseek.Client.Registry.Invariant.{TokenEntry, FileEntry, Inv}

-- A transfer that is put in under a token and a file key that are free.
module _ (token : ℕ) (key : Bytes) (tr : Transfer) (r : Registry) (v : Inv r)
    (named : tr.token ≡ token) (keyed : file_key_of tr ≡ key)
    (open_ch : tr.progress_ch.closed ≡ false) (free_token : load token r.by_token ≡ none)
    (free_key : load key r.by_file_key ≡ none) where
  added : Registry
  added = record r {
    heap = store r.next tr r.heap;
    next = suc r.next;
    by_token = store token r.next r.by_token;
    by_file_key = store key r.next r.by_file_key;
  }

  old_at : (q : ℕ) (s : Transfer) → load q r.heap ≡ some s → load q added.heap ≡ some s
  unfolding added
  old_at q s h = ground (arith, load-store r.next q tr r.heap, v.bounded q s h, ==_iff r.next q)

  new_at : load r.next added.heap ≡ some tr
  unfolding added
  new_at = ground (arith, load-store r.next r.next tr r.heap, ==_refl r.next)

  new_token : load token added.by_token ≡ some r.next
  unfolding added
  new_token = ground (arith, load-store token token r.next r.by_token, ==_refl token)

  new_file : load key added.by_file_key ≡ some r.next
  unfolding added
  new_file = ground (arith, load-store key key r.next r.by_file_key, bytes_eq_refl key)

  found_by_token : TokenEntry added token r.next
  found_by_token = record {
    tr = tr;
    at = new_at;
    token = named;
    file = ap (λ k. load k added.by_file_key) keyed ∙ new_file;
    live = open_ch;
  }

  found_by_file : FileEntry added key r.next
  found_by_file = record {
    tr = tr;
    at = new_at;
    key_of = keyed;
    token = ap (λ k. load k added.by_token) named ∙ new_token;
  }

  old_token : (k q : ℕ) → load k r.by_token ≡ some q → load k added.by_token ≡ some q
  unfolding added
  old_token k q h =
      ground (arith, load-store token k r.next r.by_token, h, free_token, ==_iff token k)

  old_file : (k : Bytes) (q : ℕ) → load k r.by_file_key ≡ some q → load k added.by_file_key ≡ some q
  unfolding added
  old_file k q h =
      ground (arith, load-store key k r.next r.by_file_key, h, free_key, bytes_eq_iff key k)

  added_token : (k q : ℕ) → load k added.by_token ≡ some q → TokenEntry added k q
  unfolding added
  added_token k q h = elim (Bool-cases (token == k)) [
    | inl e ↦
        let same : token ≡ k = (==_iff token k).0 e in
        let here : r.next ≡ q = ground (arith, load-store token k r.next r.by_token, h, e) in
        subst (λ j. TokenEntry added j q) same (subst (TokenEntry added token) here found_by_token)
    | inr e ↦
        let old = v.tokens k q (ground (arith, load-store token k r.next r.by_token, h, e)) in
        record {
          tr = old.tr;
          at = old_at q old.tr old.at;
          token = old.token;
          file = old_file (file_key_of old.tr) q old.file;
          live = old.live;
        }
  ]

  added_file : (k : Bytes) (q : ℕ) → load k added.by_file_key ≡ some q → FileEntry added k q
  unfolding added
  added_file k q h = elim (Bool-cases (bytes_eq key k)) [
    | inl e ↦
        let same : key ≡ k = (bytes_eq_iff key k).0 e in
        let here : r.next ≡ q = ground (arith, load-store key k r.next r.by_file_key, h, e) in
        subst (λ j. FileEntry added j q) same (subst (FileEntry added key) here found_by_file)
    | inr e ↦
        let old = v.files k q (ground (arith, load-store key k r.next r.by_file_key, h, e)) in
        record {
          tr = old.tr;
          at = old_at q old.tr old.at;
          key_of = old.key_of;
          token = old_token old.tr.token q old.token;
        }
  ]

  added-Inv : Inv added
  unfolding added
  added-Inv = record {
    tokens = added_token;
    files = added_file;
    bounded = λ q s h. elim (Bool-cases (r.next == q)) [
      | inl e ↦ subst (λ n. n < suc r.next) ((==_iff r.next q).0 e) (omega arith)
      | inr e ↦
          let old = v.bounded q s (ground (arith, load-store r.next q tr r.heap, h, e)) in
          omega arith
    ];
  }

-- A file index with the same entries in another order serves as well.
same_files-Inv :
    (r : Registry) (m : List (Bytes × ℕ))
    → ((j : Bytes) → load j m ≡ load j r.by_file_key)
    → Inv r
    → Inv (record r { by_file_key = m })
same_files-Inv r m same v = record {
  tokens = λ k q h.
      let e = v.tokens k q h in
      record {
        tr = e.tr;
        at = e.at;
        token = e.token;
        file = same (file_key_of e.tr) ∙ e.file;
        live = e.live;
      };
  files = λ key q h.
      let e = v.files key q (sym (same key) ∙ h) in
      record { tr = e.tr; at = e.at; key_of = e.key_of; token = e.token };
  bounded = v.bounded;
}

pub rolled_back :
    (key j : Bytes) (p : ℕ) (m : List (Bytes × ℕ))
    → load key m ≡ none
    → load j (delete key (store key p m)) ≡ load j m
rolled_back key j p m free =
    ground (arith, load-delete key j (store key p m), load-store key j p m, bytes_eq_iff key j)

register_token-Inv :
    (token : ℕ) (key : Bytes) (tr : Transfer) (duplicate : TransferError) (r : Registry)
    → tr.token ≡ token
    → file_key_of tr ≡ key
    → tr.progress_ch.closed ≡ false
    → load key r.by_file_key ≡ none
    → Inv r
    → Inv (register_token token key tr duplicate r).0
unfolding register_token added
register_token-Inv token key tr duplicate r named keyed live free v =
    elim (Option-cases (load token r.by_token)) [
      | inl e ↦ subst Inv (ground (arith, e)) (added-Inv token key tr r v named keyed live e free)
      | inr (p, e) ↦
          subst Inv (ground (arith, e))
            (same_files-Inv r _ (λ j. rolled_back key j r.next r.by_file_key free) v)
    ]

pub register-Inv :
    (direction token : ℕ) (username filename : Bytes) (size : ℤ) (r : Registry)
    → Inv r
    → Inv (register direction username filename token size r).0
unfolding register new_transfer
register-Inv direction token username filename size r v =
    let tr : Transfer = record (new_transfer direction username filename token) { size = size } in
    elim (Option-cases (load (file_key_of tr) r.by_file_key)) [
      | inl e ↦
          let next =
            register_token-Inv token (file_key_of tr) tr
              (duplicate_transfer direction username filename) r refl refl refl e v in
          subst Inv (ground (arith, e)) next
      | inr (p, e) ↦ subst Inv (ground (arith, e)) v
    ]
