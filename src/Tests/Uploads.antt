-- ===== src/Tests/Uploads.antt =====
-- The queue of client/queue.go and the registry of client/transfer_registry.go, on concrete uploads.
use gosoulseek.Prelude.{
  ℕ, ◌≡◌, ◌≢◌, ◌==◌, if◌then◌else◌, refl, arith, true, Bytes, bytes_eq, [], ◌∷◌, ◌++◌, none, some,
}
use gosoulseek.Prelude.Int.{pos}
use gosoulseek.Client.KeyMap.{load, store, nat_key, bytes_key}
use gosoulseek.Client.Queue.{QueueEntry, QueueManager, get_position, find_position}
use gosoulseek.Client.Transfer.{Transfer, new_transfer, file_key_of}
use gosoulseek.Client.Decimal.{itoa, format_decimal, decimal_digits}
use gosoulseek.Client.Registry.{
  Registry, new_registry, register, remove, get_by_token, deref, file_key,
}
use gosoulseek.Client.Registry.Invariant.{Inv, new_registry-Inv}
use gosoulseek.Client.Registry.Registration.{register-Inv}
use gosoulseek.Client.Registry.Removal.{remove_forgets}
use gosoulseek.Client.Registry.Runs.{
  call_register, call_set_remote_token, call_remove, run_calls, registry_consistent,
}

abbrev ann : Bytes
ann = b'a' ∷ []

abbrev bob : Bytes
bob = b'b' ∷ []

abbrev first : QueueEntry
first = record { username = ann; filename = ann; token = 1; queued_at = 10 }

abbrev second : QueueEntry
second = record { username = bob; filename = ann; token = 2; queued_at = 20 }

abbrev two_uploads : QueueManager
two_uploads = record { resolver = none; queue = first ∷ (second ∷ []) }

is_second : get_position bob ann two_uploads ≢ 0
unfolding get_position find_position bytes_eq
is_second h = omega arith

-- The registry after one upload of a file to `ann`, under the token 5.
abbrev one_upload : Registry
one_upload = (register 1 ann bob 5 (pos 9) new_registry).0

one_upload-Inv : Inv one_upload
one_upload-Inv = register-Inv 1 5 ann bob (pos 9) new_registry new_registry-Inv

registry_consistent_example :
    (r : Registry) × (run_calls
        (call_register 1 5 ann bob (pos 9) ∷ (call_set_remote_token 5 70 ∷ (call_remove 5 ∷ [])))
        new_registry
      ≡ some r)
    × Inv r
registry_consistent_example =
    registry_consistent
      (call_register 1 5 ann bob (pos 9) ∷ (call_set_remote_token 5 70 ∷ (call_remove 5 ∷ [])))

held : get_by_token 5 one_upload ≡ some 0
unfolding register get_by_token load new_registry store
held = refl

abbrev upload : Transfer
upload = record (new_transfer 1 ann bob 5) { size = pos 9 }

remove_forgets_example :
    (l : Registry) × (t : Transfer) × (remove 5 one_upload ≡ some l)
    × (deref 0 one_upload ≡ some t)
    × (deref 0 l ≡ some (record t { progress_ch = record t.progress_ch { closed = true } }))
    × (load (file_key_of t) l.by_file_key ≡ none)
    × ((k : ℕ) → get_by_token k l ≡ (if 5 == k then none else get_by_token k one_upload))
    × Inv l
remove_forgets_example = remove_forgets 5 0 one_upload one_upload-Inv held

-- While the file `b` of the user `a:a` is registered, the file `a:b` of the user `a` is refused.
abbrev with_colon : Registry
with_colon = (register 0 (ann ++ (b':' ∷ ann)) bob 8 (pos 0) new_registry).0

taken : load (file_key 0 (ann ++ (b':' ∷ ann)) bob) with_colon.by_file_key ≡ some 0
unfolding register load file_key new_registry store bytes_eq file_key_of format_decimal
    decimal_digits new_transfer itoa
taken = refl
