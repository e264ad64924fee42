-- ===== src/Tests/Slots.antt =====
-- The slots of client/slots.go, for two limits and one user.
use gosoulseek.Prelude.{◌≡◌, refl, true, false, Bytes, bytes_eq, [], ◌∷◌, List, none, some}
use gosoulseek.Prelude.Int.{pos}
use gosoulseek.Client.KeyMap.{load, store, nat_key, bytes_key}
use gosoulseek.Client.Errors.{context_canceled}
use gosoulseek.Client.Slots.{
  limited, SlotManager, UserSlot, by_slot, by_context, new_slot_manager, acquire_upload_slot,
  release_upload_slot,
}
use gosoulseek.Client.Slots.Limits.{SlotStep, step_acquire_global, step_release_global}
use gosoulseek.Client.Slots.Cycle.{upload_slot_cycle}

abbrev ann : Bytes
ann = b'a' ∷ []

abbrev busy_steps : List SlotStep
busy_steps =
    step_acquire_global by_slot none
    ∷ (step_acquire_global by_slot none ∷ (step_release_global ∷ (step_release_global ∷ [])))

-- A manager with one free slot for a user.
abbrev free_slot : UserSlot
free_slot = record { held = false; last_used = 1 }

abbrev one_user : SlotManager
one_user = record (new_slot_manager (pos 3) (pos 1)) {
  slots = (0, free_slot) ∷ [];
  next = 1;
  user_slots = (ann, 0) ∷ [];
}

user_mapped : load ann one_user.user_slots ≡ some 0
unfolding load bytes_eq
user_mapped = refl

slot_at : load 0 one_user.slots ≡ some free_slot
unfolding load
slot_at = refl

abbrev taken : SlotManager
taken = record one_user {
  slots = (0, record { held = true; last_used = 7 }) ∷ [];
  upload_slots = limited 1 1;
}

upload_slot_cycle_example :
    let r = release_upload_slot 9 ann taken in
    (acquire_upload_slot 9 by_slot by_context (some context_canceled) ann taken ≡ none)
    × (r.upload_slots ≡ one_user.upload_slots)
    × (load 0 r.slots ≡ some (record { held = false; last_used = 9 }))
unfolding acquire_upload_slot new_slot_manager load store bytes_eq
upload_slot_cycle_example =
    upload_slot_cycle 7 9 0 ann free_slot one_user taken by_context none (some context_canceled)
      user_mapped slot_at refl refl refl
