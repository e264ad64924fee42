-- ===== src/Client/Slots.antt =====
-- client/slots.go: the limits on transfers that run at once. A blocking `select` is cut into its
-- branches: a call is given the branch that is taken, and is `none` where that branch is not ready.
pub mod Limits
pub mod Cleanup
pub mod Cycle
use gosoulseek.Prelude.{
  ℕ, zero, suc, ◌+◌, ltb, if◌then◌else◌, Bool, true, false, not, ◌&&◌, Bytes, List, [], ◌∷◌, length,
  Option, none, some,
}
use gosoulseek.Prelude.Int.{ℤ, pos, negsuc, ◌+ℤ◌, ◌-ℤ◌, ltbℤ}
use gosoulseek.Client.KeyMap.{load, store, delete, nat_key, bytes_key}
use gosoulseek.Client.Errors.{TransferError, slot_manager_closed}

-- A channel that is used as a semaphore, by its capacity and its length, or the counter that stands
-- in for a nil channel.
pub data Semaphore : Type 0 where
  limited : ℕ → ℕ → Semaphore
  unlimited : ℤ → Semaphore

-- `sem` is a channel of capacity 1: whether it is full.
pub record UserSlot : Type 0 where
  pub held : Bool
  pub last_used : ℕ

pub record SlotManager : Type 0 where
  pub download_slots : Semaphore
  pub upload_slots : Semaphore
  pub slots : List (ℕ × UserSlot)
  pub next : ℕ
  pub user_slots : List (Bytes × ℕ)
  pub max_downloads : ℤ
  pub max_uploads : ℤ
  pub closed : Bool

pub record SlotStats : Type 0 where
  pub downloads_active : ℤ
  pub downloads_max : ℤ
  pub uploads_active : ℤ
  pub uploads_max : ℤ
  pub user_slots_count : ℕ

pub semaphore : ℤ → Semaphore
semaphore (pos zero) = unlimited (pos 0)
semaphore (pos (suc n)) = limited (suc n) 0
semaphore (negsuc n) = unlimited (pos 0)

unfoldable pub new_slot_manager : ℤ → ℤ → SlotManager
unfolding semaphore
new_slot_manager max_downloads max_uploads = record {
  download_slots = semaphore max_downloads;
  upload_slots = semaphore max_uploads;
  slots = [];
  next = 0;
  user_slots = [];
  max_downloads = max_downloads;
  max_uploads = max_uploads;
  closed = false;
}

-- The branches of a `select` that acquires: a slot, the end of the context, the end of the manager.
pub data Branch : Type 0 where
  by_slot : Branch
  by_context : Branch
  by_close : Branch

-- What `select` answers on the branches that do not take a slot; a context that is done has an error.
unavailable : Branch → Option TransferError → Bool → Option TransferError
unavailable by_slot ctx closed = none
unavailable by_context ctx closed = ctx
unavailable by_close ctx closed = if closed then some slot_manager_closed else none

-- `select` on a semaphore. The first part of an answer is the error that is returned.
pub acquire :
    Branch → Option TransferError → Bool → Semaphore → Option (Option TransferError × Semaphore)
unfolding unavailable
acquire b ctx closed (unlimited n) = some (none, unlimited (n +ℤ pos 1))
acquire by_slot ctx closed (limited cap len) =
    if ltb len cap then some (none, limited cap (suc len)) else none
acquire by_context ctx closed (limited cap len) = elim (unavailable by_context ctx closed) [
  | none ↦ none
  | some e ↦ some (some e, limited cap len)
]
acquire by_close ctx closed (limited cap len) = elim (unavailable by_close ctx closed) [
  | none ↦ none
  | some e ↦ some (some e, limited cap len)
]

pub release : Semaphore → Semaphore
release (unlimited n) = unlimited (n -ℤ pos 1)
release (limited cap zero) = limited cap zero
release (limited cap (suc len)) = limited cap len

pub acquire_download_slot :
    Branch → Option TransferError → SlotManager → Option (Option TransferError × SlotManager)
unfolding acquire
acquire_download_slot b ctx s =
    if s.closed
    then some (some slot_manager_closed, s)
    else elim (acquire b ctx s.closed s.download_slots) [
      | none ↦ none
      | some (e, sem) ↦ some (e, record s { download_slots = sem })
    ]

pub release_download_slot : SlotManager → SlotManager
unfolding release
release_download_slot s = record s { download_slots = release s.download_slots }

pub acquire_global_upload :
    Branch → Option TransferError → SlotManager → Option (Option TransferError × SlotManager)
unfolding acquire
acquire_global_upload b ctx s = elim (acquire b ctx s.closed s.upload_slots) [
  | none ↦ none
  | some (e, sem) ↦ some (e, record s { upload_slots = sem })
]

pub release_global_upload : SlotManager → SlotManager
unfolding release
release_global_upload s = record s { upload_slots = release s.upload_slots }

-- A write to the slot of a user at an address.
write_slot : ℕ → UserSlot → SlotManager → SlotManager
write_slot p slot s = record s { slots = store p slot s.slots }

-- `getOrCreateUserSlot`: the address of the slot.
pub get_or_create_user_slot : ℕ → Bytes → SlotManager → ℕ × SlotManager
unfolding write_slot
get_or_create_user_slot now username s = elim (load username s.user_slots) [
  | some p ↦ elim (load p s.slots) [
    | none ↦ (p, s)
    | some slot ↦ (p, write_slot p (record slot { last_used = now }) s)
  ]
  | none ↦ (
    s.next,
    record (write_slot s.next (record { held = false; last_used = now }) s) {
      next = suc s.next;
      user_slots = store username s.next s.user_slots;
    },
  )
]

-- `userSlot.acquire`, once its branch is ready.
acquire_slot :
    ℕ
    → Branch
    → Option TransferError
    → ℕ
    → UserSlot
    → SlotManager
    → Option (Option TransferError × SlotManager)
unfolding unavailable write_slot
acquire_slot now by_slot ctx p slot s =
    if slot.held
    then none
    else some (none, write_slot p (record { held = true; last_used = now }) s)
acquire_slot now b ctx p slot s = elim (unavailable b ctx s.closed) [
  | none ↦ none
  | some e ↦ some (some e, write_slot p (record slot { last_used = now }) s)
]

pub acquire_user_slot :
    ℕ
    → Branch
    → Option TransferError
    → ℕ
    → SlotManager
    → Option (Option TransferError × SlotManager)
unfolding acquire_slot
acquire_user_slot now b ctx p s = elim (load p s.slots) [
  | none ↦ none
  | some slot ↦ acquire_slot now b ctx p slot s
]

-- `userSlot.release`: an empty slot stays empty.
pub release_user_slot : ℕ → ℕ → SlotManager → SlotManager
unfolding write_slot
release_user_slot now p s = elim (load p s.slots) [
  | none ↦ s
  | some slot ↦ write_slot p (record { held = false; last_used = now }) s
]

-- The second stage of `AcquireUploadSlot`: where it fails, the slot of the user is released.
global_stage :
    ℕ
    → ℕ
    → Branch
    → Option TransferError
    → SlotManager
    → Option (Option TransferError × SlotManager)
unfolding acquire_global_upload release_user_slot
global_stage now p b ctx s = elim (acquire_global_upload b ctx s) [
  | none ↦ none
  | some (e, t) ↦ elim e [
    | none ↦ some (none, t)
    | some error ↦ some (some error, release_user_slot now p t)
  ]
]

user_stage :
    ℕ
    → ℕ
    → Branch
    → Branch
    → Option TransferError
    → SlotManager
    → Option (Option TransferError × SlotManager)
unfolding acquire_user_slot global_stage
user_stage now p b1 b2 ctx s = elim (acquire_user_slot now b1 ctx p s) [
  | none ↦ none
  | some (e, t) ↦ elim e [ none ↦ global_stage now p b2 ctx t | some error ↦ some (some error, t) ]
]

-- `AcquireUploadSlot` without a step of another goroutine between its own.
unfoldable pub acquire_upload_slot :
    ℕ
    → Branch
    → Branch
    → Option TransferError
    → Bytes
    → SlotManager
    → Option (Option TransferError × SlotManager)
unfolding get_or_create_user_slot user_stage
acquire_upload_slot now b1 b2 ctx username s =
    if s.closed
    then some (some slot_manager_closed, s)
    else let (p, t) = get_or_create_user_slot now username s in user_stage now p b1 b2 ctx t

pub release_upload_slot : ℕ → Bytes → SlotManager → SlotManager
unfolding release_user_slot release_global_upload
release_upload_slot now username s = elim (load username s.user_slots) [
  | none ↦ release_global_upload s
  | some p ↦ release_global_upload (release_user_slot now p s)
]

active : Semaphore → ℤ
active (limited cap len) = pos len
active (unlimited n) = n

unfoldable stats : SlotManager → SlotStats
unfolding active
stats s = record {
  downloads_active = active s.download_slots;
  downloads_max = s.max_downloads;
  uploads_active = active s.upload_slots;
  uploads_max = s.max_uploads;
  user_slots_count = length s.user_slots;
}

-- `Close`; a second one changes nothing.
pub close_slots : SlotManager → SlotManager
close_slots s = record s { closed = true }

-- Whether the cleanup at the time `now` cuts a slot: it is old enough, and not held.
pub is_removable : ℕ → ℕ → UserSlot → Bool
is_removable now threshold slot =
    not (ltb 0 threshold && ltb now (slot.last_used + threshold)) && not slot.held

pub is_expired : ℕ → ℕ → SlotManager → Bytes → Bool
unfolding is_removable
is_expired now threshold s username = elim (load username s.user_slots) [
  | none ↦ false
  | some p ↦ elim (load p s.slots) [ none ↦ false | some slot ↦ is_removable now threshold slot ]
]

-- `Range` over the users, with `Delete` inside.
clean_users : (Bytes → Bool) → List (Bytes × ℕ) → List (Bytes × ℕ) → List (Bytes × ℕ)
clean_users expired [] m = m
clean_users expired ((username, p) ∷ rest) m =
    let cleaned = clean_users expired rest m in
    if expired username then delete username cleaned else cleaned

pub cleanup_idle_user_slots : ℕ → ℕ → SlotManager → SlotManager
unfolding clean_users is_expired
cleanup_idle_user_slots now threshold s = record s {
  user_slots = clean_users (is_expired now threshold s) s.user_slots s.user_slots;
}
