-- ===== src/Client/Registry/Runs.antt =====
-- Any sequence of calls of client/transfer_registry.go.
use gosoulseek.Prelude.{ℕ, ◌≡◌, refl, arith}
use gosoulseek.Prelude.{Bytes, List, [], ◌∷◌, Option, none, some}
use gosoulseek.Prelude.Int.{ℤ}
use gosoulseek.Client.KeyMap.{nat_key, bytes_key}
use gosoulseek.Client.Errors.{TransferError}
use gosoulseek.Client.Registry.{
  Registry, new_registry, register, set_remote_token, set_state_of, update_progress_of, set_size_of,
  complete_of, remove,
}
use gosoulseek.Client.Registry.Invariant.{Inv, new_registry-Inv}
use gosoulseek.Client.Registry.Writes.{
  set_remote_token-Inv, set_state_of-Inv, update_progress_of-Inv, set_size_of-Inv, complete_of-Inv,
}
use gosoulseek.Client.Registry.Registration.{register-Inv}
use gosoulseek.Client.Registry.Removal.{remove-Inv}

-- A call of a method that changes the registry, with what the clock answers where it is read.
pub data Call : Type 0 where
  call_register : ℕ → ℕ → Bytes → Bytes → ℤ → Call
  call_set_remote_token : ℕ → ℕ → Call
  call_set_state : ℕ → ℕ → ℕ → Call
  call_update_progress : ℕ → ℕ → ℤ → Call
  call_set_size : ℕ → ℤ → Call
  call_complete : ℕ → ℕ → ℕ → Option TransferError → Call
  call_remove : ℕ → Call

-- The registry after a call; `none` is a panic.
pub run_call : Call → Registry → Option Registry
run_call (call_register direction token username filename size) r =
    some (register direction username filename token size r).0
run_call (call_set_remote_token token remote_token) r =
    some (set_remote_token token remote_token r).0
run_call (call_set_state now token state) r = some (set_state_of now token state r).0
run_call (call_update_progress now token bytes) r = some (update_progress_of now token bytes r).0
run_call (call_set_size token size) r = some (set_size_of token size r).0
run_call (call_complete now token state error) r = some (complete_of now token state error r).0
run_call (call_remove token) r = remove token r

pub run_calls : List Call → Registry → Option Registry
run_calls [] r = some r
run_calls (c ∷ cs) r = elim (run_call c r) [ none ↦ none | some s ↦ run_calls cs s ]

run_call-Inv : (c : Call) (r : Registry) → Inv r → (s : Registry) × (run_call c r ≡ some s) × Inv s
unfolding run_call
run_call-Inv (call_register direction token username filename size) r v =
    (_, refl, register-Inv direction token username filename size r v)
run_call-Inv (call_set_remote_token token remote_token) r v =
    (_, refl, set_remote_token-Inv token remote_token r v)
run_call-Inv (call_set_state now token state) r v = (_, refl, set_state_of-Inv now token state r v)
run_call-Inv (call_update_progress now token bytes) r v =
    (_, refl, update_progress_of-Inv now token bytes r v)
run_call-Inv (call_set_size token size) r v = (_, refl, set_size_of-Inv token size r v)
run_call-Inv (call_complete now token state error) r v =
    (_, refl, complete_of-Inv now token state error r v)
run_call-Inv (call_remove token) r v = remove-Inv token r v

run_calls-Inv :
    (cs : List Call) (r : Registry) → Inv r → (s : Registry) × (run_calls cs r ≡ some s) × Inv s
unfolding run_calls
run_calls-Inv [] r v = (r, refl, v)
run_calls-Inv (c ∷ cs) r v =
    let (s, here, w) = run_call-Inv c r v in
    let (last, later, u) = run_calls-Inv cs s w in (last, ground (arith, here, later), u)

-- No sequence of calls on a new registry panics, and after it the indexes agree: each registered
-- token leads to a transfer with that token and an open progress channel, which its own file key
-- leads to as well, and the other way round.
pub registry_consistent :
    (cs : List Call) → (r : Registry) × (run_calls cs new_registry ≡ some r) × Inv r
registry_consistent cs = run_calls-Inv cs new_registry new_registry-Inv
