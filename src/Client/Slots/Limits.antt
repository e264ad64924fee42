-- ===== src/Client/Slots/Limits.antt =====
-- The limits that client/slots.go keeps.
use gosoulseek.Prelude.{ℕ, ◌≤◌, ◌≡◌, ◌⊎◌}
use gosoulseek.Prelude.{Bytes, List, [], ◌∷◌, Option, none, some}
use gosoulseek.Prelude.Int.{ℤ, pos, negsuc}
use gosoulseek.Client.KeyMap.{nat_key, bytes_key}
use gosoulseek.Client.Errors.{TransferError}
use gosoulseek.Client.Slots.{
  Semaphore, limited, unlimited, SlotManager, Branch, acquire_download_slot, release_download_slot,
  acquire_global_upload, release_global_upload, get_or_create_user_slot, acquire_user_slot,
  release_user_slot, close_slots, cleanup_idle_user_slots,
}

-- One step of a goroutine: the parts of `AcquireUploadSlot` and `ReleaseUploadSlot` are steps of
-- their own, so any other step may stand between them.
pub data SlotStep : Type 0 where
  step_acquire_download : Branch → Option TransferError → SlotStep
  step_release_download : SlotStep
  step_user_slot : ℕ → Bytes → SlotStep
  step_acquire_user : ℕ → Branch → Option TransferError → ℕ → SlotStep
  step_release_user : ℕ → ℕ → SlotStep
  step_acquire_global : Branch → Option TransferError → SlotStep
  step_release_global : SlotStep
  step_cleanup : ℕ → ℕ → SlotStep
  step_close : SlotStep

-- The manager after an acquisition; where it blocks, nothing has happened yet.
settled : SlotManager → Option (Option TransferError × SlotManager) → SlotManager
settled s none = s
settled s (some (e, t)) = t

pub run_step : SlotStep → SlotManager → SlotManager
run_step (step_acquire_download b ctx) s = settled s (acquire_download_slot b ctx s)
run_step step_release_download s = release_download_slot s
run_step (step_user_slot now u) s = (get_or_create_user_slot now u s).1
run_step (step_acquire_user now b ctx p) s = settled s (acquire_user_slot now b ctx p s)
run_step (step_release_user now p) s = release_user_slot now p s
run_step (step_acquire_global b ctx) s = settled s (acquire_global_upload b ctx s)
run_step step_release_global s = release_global_upload s
run_step (step_cleanup now threshold) s = cleanup_idle_user_slots now threshold s
run_step step_close s = close_slots s

pub run_steps : List SlotStep → SlotManager → SlotManager
run_steps [] s = s
run_steps (e ∷ es) s = run_steps es (run_step e s)

-- A semaphore for the limit `max`: a limit above 0 is its capacity, which its length never exceeds.
abbrev pub Obeys : ℤ → Semaphore → Type 0
Obeys max (limited cap len) = (max ≡ pos cap) × (len ≤ cap)
Obeys max (unlimited n) = (max ≡ pos 0) ⊎ ((m : ℕ) × (max ≡ negsuc m))

pub record Within (s : SlotManager) (max_downloads max_uploads : ℤ) : Type 0 where
  pub downloads : Obeys max_downloads s.download_slots
  pub uploads : Obeys max_uploads s.upload_slots
