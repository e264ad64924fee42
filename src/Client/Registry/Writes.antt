-- ===== src/Client/Registry/Writes.antt =====
-- The methods of client/transfer_registry.go that write to one transfer keep the registry in order.
use gosoulseek.Prelude.{ℕ, refl, subst, arith, inl, inr, Option-cases}
use gosoulseek.Prelude.{Option}
use gosoulseek.Prelude.Int.{ℤ}
use gosoulseek.Client.KeyMap.{load, store, nat_key, bytes_key}
use gosoulseek.Client.Transfer.{Transfer, file_key_of, set_state, update_progress}
use gosoulseek.Client.Errors.{TransferError}
use gosoulseek.Client.Registry.{
  Registry, modify, on_token, index_remote, set_remote_token, set_state_of, update_progress_of,
  set_size_of, complete_of, remote_key,
}
use gosoulseek.Client.Registry.Invariant.{Inv, Keeps, modify-Inv, remote-Inv}

set_state-Keeps : (now state : ℕ) → Keeps (set_state now state)
unfolding set_state file_key_of
set_state-Keeps now state = record {
  token = λ t. ground arith;
  file = λ t. ground arith;
  live = λ t. ground arith;
}

update_progress-Keeps : (now : ℕ) (bytes : ℤ) → Keeps (update_progress now bytes)
unfolding update_progress file_key_of
update_progress-Keeps now bytes = record {
  token = λ t. ground arith;
  file = λ t. ground arith;
  live = λ t. ground arith;
}

pub set_error-Keeps :
    (now state : ℕ) (error : Option TransferError)
    → Keeps (λ t. set_state now state (record t { error = error }))
unfolding file_key_of
set_error-Keeps now state error =
    let later = set_state-Keeps now state in
    record {
      token = λ t. later.token (record t { error = error });
      file = λ t. later.file (record t { error = error });
      live = λ t. later.live (record t { error = error });
    }

-- A method on a token keeps what its write keeps.
on_token-Inv :
    (token : ℕ) (f : ℕ → Registry → Registry) (r : Registry)
    → ((p : ℕ) → Inv r → Inv (f p r))
    → Inv r
    → Inv (on_token token f r).0
on_token-Inv token f r h v = elim (Option-cases (load token r.by_token)) [
  | inl e ↦ subst Inv (ground (arith, e)) v
  | inr (p, e) ↦ subst Inv (ground (arith, e)) (h p v)
]

index_remote-Inv : (remote_token p : ℕ) (r : Registry) → Inv r → Inv (index_remote remote_token p r)
unfolding index_remote modify file_key_of
index_remote-Inv remote_token p r v = elim (Option-cases (load p r.heap)) [
  | inl e ↦ subst Inv (ground (arith, e)) v
  | inr (t, e) ↦
      let m = store (remote_key t.username remote_token) p r.by_remote_token in
      let w : Transfer → Transfer = λ s. record s { remote_token = remote_token } in
      subst Inv (ground (arith, e)) (
        remote-Inv (modify w p r) m
          (modify-Inv w p r (record { token = λ s. refl; file = λ s. refl; live = λ s. refl }) v))
]

pub set_remote_token-Inv :
    (token remote_token : ℕ) (r : Registry) → Inv r → Inv (set_remote_token token remote_token r).0
unfolding set_remote_token
set_remote_token-Inv token remote_token r v =
    on_token-Inv token (index_remote remote_token) r (λ p. index_remote-Inv remote_token p r) v

module _ (token : ℕ) (f : Transfer → Transfer) (keeps : Keeps f) (r : Registry) (v : Inv r) where
  write-Inv : Inv (on_token token (modify f) r).0
  write-Inv = on_token-Inv token (modify f) r (λ p. modify-Inv f p r keeps) v

pub set_state_of-Inv :
    (now token state : ℕ) (r : Registry) → Inv r → Inv (set_state_of now token state r).0
unfolding set_state_of
set_state_of-Inv now token state r v =
    write-Inv token (set_state now state) (set_state-Keeps now state) r v

pub update_progress_of-Inv :
    (now token : ℕ) (bytes : ℤ) (r : Registry)
    → Inv r
    → Inv (update_progress_of now token bytes r).0
unfolding update_progress_of
update_progress_of-Inv now token bytes r v =
    write-Inv token (update_progress now bytes) (update_progress-Keeps now bytes) r v

pub set_size_of-Inv :
    (token : ℕ) (size : ℤ) (r : Registry) → Inv r → Inv (set_size_of token size r).0
unfolding set_size_of file_key_of
set_size_of-Inv token size r v =
    write-Inv token _ (record { token = λ t. refl; file = λ t. refl; live = λ t. refl }) r v

pub complete_of-Inv :
    (now token state : ℕ) (error : Option TransferError) (r : Registry)
    → Inv r
    → Inv (complete_of now token state error r).0
unfolding complete_of
complete_of-Inv now token state error r v = write-Inv token _ (set_error-Keeps now state error) r v
