-- ===== src/Client/Registry/Lookup.antt =====
-- What client/transfer_registry.go finds after a registration, and after a removal.
use gosoulseek.Prelude.{
  ℕ, suc, ◌^◌, ◌<◌, ◌≡◌, ◌≢◌, ◌⊎◌, refl, subst, sym, arith, ◌==◌, if◌then◌else◌, inl, inr,
  Option-cases,
}
use gosoulseek.Prelude.{Bytes, bytes_eq, none, some}
use gosoulseek.Prelude.Int.{ℤ}
use gosoulseek.Client.KeyMap.{load, store, delete, nat_key, bytes_key, load-store}
use gosoulseek.Client.Transfer.{Transfer, new_transfer, file_key_of}
use gosoulseek.Client.Errors.{TransferError}
use gosoulseek.Client.Registry.{
  Registry, Answer, registered, refused, register, register_token, file_key, get_by_token,
  get_by_file, get_by_remote_token, deref,
}
use gosoulseek.Client.Errors.{duplicate_transfer}
use gosoulseek.Client.Registry.Keys.{file_key_of-file_key}
use gosoulseek.Client.Registry.Registration.{rolled_back}

-- The registered transfer is found under both of its keys, and every other lookup is as before.
pub record Registers (direction : ℕ) (username filename : Bytes) (token : ℕ) (size : ℤ)
    (r s : Registry) : Type 0 where
  pub token_was_free : get_by_token token r ≡ none
  pub file_was_free : get_by_file username filename direction r ≡ none
  pub objects :
      (q : ℕ)
      → deref q s ≡ (
          if r.next == q
          then some (record (new_transfer direction username filename token) { size = size })
          else deref q r)
  pub by_tokens :
      (k : ℕ) → get_by_token k s ≡ (if token == k then some r.next else get_by_token k r)
  pub by_files :
      (u f : Bytes) (d : ℕ)
      → get_by_file u f d s ≡ (
          if bytes_eq (file_key direction username filename) (file_key d u f)
          then some r.next
          else get_by_file u f d r)

-- Every lookup is as before.
pub record Unchanged (r s : Registry) : Type 0 where
  pub same_heap : (p : ℕ) → deref p s ≡ deref p r
  pub same_tokens : (k : ℕ) → get_by_token k s ≡ get_by_token k r
  pub same_files : (u f : Bytes) (d : ℕ) → get_by_file u f d s ≡ get_by_file u f d r
  pub same_remotes : (u : Bytes) (k : ℕ) → get_by_remote_token u k s ≡ get_by_remote_token u k r

module _ (direction token : ℕ) (username filename : Bytes) (size : ℤ) (r : Registry) where
  fresh : Transfer
  fresh = record (new_transfer direction username filename token) { size = size }

  key : Bytes
  key = file_key direction username filename

  outcome : Registry × Answer
  outcome = register direction username filename token size r

  duplicate : TransferError
  duplicate = duplicate_transfer direction username filename

  -- The registry with the transfer in it.
  with_fresh : Registry
  with_fresh = record r {
    heap = store r.next fresh r.heap;
    next = suc r.next;
    by_token = store token r.next r.by_token;
    by_file_key = store key r.next r.by_file_key;
  }

  fresh-key : direction < 2 ^ 32 → file_key_of fresh ≡ key
  unfolding fresh key new_transfer
  fresh-key h = file_key_of-file_key fresh h

  accepted :
      direction < 2 ^ 32
      → load token r.by_token ≡ none
      → load key r.by_file_key ≡ none
      → outcome ≡ (with_fresh, registered r.next)
  unfolding outcome fresh with_fresh register register_token
  accepted h ht hf = ground (arith, ht, hf, fresh-key h)

  file_taken :
      (p : ℕ)
      → direction < 2 ^ 32
      → load key r.by_file_key ≡ some p
      → outcome ≡ (r, refused duplicate)
  unfolding outcome fresh register duplicate
  file_taken p h hf = ground (arith, hf, fresh-key h)

  rolled : Registry
  rolled = record r { by_file_key = delete key (store key r.next r.by_file_key) }

  token_taken :
      (p : ℕ)
      → direction < 2 ^ 32
      → load token r.by_token ≡ some p
      → load key r.by_file_key ≡ none
      → outcome ≡ (rolled, refused duplicate)
  unfolding outcome fresh register register_token rolled duplicate
  token_taken p h ht hf = ground (arith, ht, hf, fresh-key h)

  with_fresh-Registers :
      load token r.by_token ≡ none
      → load key r.by_file_key ≡ none
      → Registers direction username filename token size r with_fresh
  unfolding with_fresh key get_by_token get_by_file deref fresh
  with_fresh-Registers ht hf = record {
    token_was_free = ht;
    file_was_free = hf;
    objects = λ q. load-store r.next q fresh r.heap;
    by_tokens = λ k. load-store token k r.next r.by_token;
    by_files = λ u f d. load-store key (file_key d u f) r.next r.by_file_key;
  }

  rolled-Unchanged : load key r.by_file_key ≡ none → Unchanged r rolled
  unfolding rolled get_by_token get_by_file get_by_remote_token deref
  rolled-Unchanged free = record {
    same_heap = λ p. refl;
    same_tokens = λ k. refl;
    same_files = λ u f d. rolled_back key (file_key d u f) r.next r.by_file_key free;
    same_remotes = λ u k. refl;
  }

  Decision : Registry × Answer → Type 0
  Decision (s, answer) =
      ((answer ≡ registered r.next) × Registers direction username filename token size r s)
      ⊎ ((answer ≡ refused duplicate)
          × ((get_by_token token r ≢ none) ⊎ (get_by_file username filename direction r ≢ none))
          × Unchanged r s)

  decided : direction < 2 ^ 32 → Decision outcome
  unfolding Decision get_by_token get_by_file key
  decided h = elim (Option-cases (load key r.by_file_key)) [
    | inl hf ↦ elim (Option-cases (load token r.by_token)) [
      | inl ht ↦ subst Decision (sym (accepted h ht hf)) (inl (refl, with_fresh-Registers ht hf))
      | inr (p, ht) ↦
          subst Decision (sym (token_taken p h ht hf))
            (inr (refl, inl (λ e. cc), rolled-Unchanged hf))
    ]
    | inr (p, hf) ↦ subst Decision (sym (file_taken p h hf)) (inr (refl, inr (λ e. cc), same))
  ]
    where
      same : Unchanged r r
      same = record {
        same_heap = λ p. refl;
        same_tokens = λ k. refl;
        same_files = λ u f d. refl;
        same_remotes = λ u k. refl;
      }

-- Registering a transfer, with a direction below 2^32, either puts it at a new address, where its
-- token and its file lead from then on and no other lookup changes, both having been free before;
-- or it is refused as a duplicate, its token or its file having been taken, and then no lookup
-- changes, also where the file key had been stored before the token was seen to be taken.
pub register_decides :
    (direction token : ℕ) (username filename : Bytes) (size : ℤ) (r : Registry)
    → direction < 2 ^ 32
    → let (s, answer) = register direction username filename token size r in
      ((answer ≡ registered r.next) × Registers direction username filename token size r s)
      ⊎ ((answer ≡ refused (duplicate_transfer direction username filename))
          × ((get_by_token token r ≢ none) ⊎ (get_by_file username filename direction r ≢ none))
          × Unchanged r s)
unfolding Decision outcome duplicate
register_decides direction token username filename size r h =
    decided direction token username filename size r h
