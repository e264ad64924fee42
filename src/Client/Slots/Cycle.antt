-- ===== src/Client/Slots/Cycle.antt =====
-- An upload slot of client/slots.go from its acquisition to its release.
use gosoulseek.Prelude.{
  ℕ, zero, suc, ◌≡◌, refl, arith, Bool, true, false, inl, inr, Option-cases, subst, sym, ap, ◌∙◌,
  ==_refl,
}
use gosoulseek.Prelude.{Bytes, Option, none, some}
use gosoulseek.Prelude.Int.{ℤ, pos, negsuc, ◌+ℤ◌, ◌-ℤ◌}
use gosoulseek.Client.KeyMap.{load, store, nat_key, bytes_key, load-store}
use gosoulseek.Client.Errors.{TransferError}
use gosoulseek.Client.Slots.{
  Semaphore, limited, unlimited, UserSlot, SlotManager, Branch, by_slot, acquire, release,
  acquire_global_upload, release_global_upload, get_or_create_user_slot, write_slot, acquire_slot,
  acquire_user_slot, release_user_slot, global_stage, user_stage, acquire_upload_slot,
  release_upload_slot,
}

one_back : (n : ℤ) → (n +ℤ pos 1) -ℤ pos 1 ≡ n
one_back (pos n) = ground arith
one_back (negsuc zero) = ground arith
one_back (negsuc (suc n)) = ground arith

release-acquire :
    (ctx : Option TransferError) (closed : Bool) (sem after : Semaphore)
    → acquire by_slot ctx closed sem ≡ some (none, after)
    → release after ≡ sem
unfolding acquire release
release-acquire ctx closed (unlimited n) after eq =
    let same : unlimited (n +ℤ pos 1) ≡ after = ground (arith, eq) in
    ap release (sym same) ∙ ap unlimited (one_back n)
release-acquire ctx closed (limited cap len) after eq = ground (arith, eq)

-- The slot of a user at an address, and the manager with another slot there.
module _ (now p : ℕ) (u : Bytes) (slot : UserSlot) (s : SlotManager)
    (mapped : load u s.user_slots ≡ some p) (at : load p s.slots ≡ some slot)
    (running : s.closed ≡ false) where
  with_slot : UserSlot → SlotManager
  with_slot x = record s { slots = store p x (store p (record slot { last_used = now }) s.slots) }

  with_slot-at : (x : UserSlot) → load p (with_slot x).slots ≡ some x
  unfolding with_slot
  with_slot-at x =
      ground
        (arith, load-store p p x (store p (record slot { last_used = now }) s.slots), ==_refl p)

  blocked :
      (b : Branch) (ctx : Option TransferError)
      → slot.held ≡ true
      → acquire_upload_slot now by_slot b ctx u s ≡ none
  unfolding acquire_upload_slot get_or_create_user_slot user_stage acquire_user_slot acquire_slot
      write_slot
  blocked b ctx held = ground (
    arith,
    mapped,
    at,
    running,
    held,
    load-store p p (record slot { last_used = now }) s.slots,
    ==_refl p,
  )

  reaches_global :
      (b : Branch) (ctx : Option TransferError)
      → slot.held ≡ false
      → acquire_upload_slot now by_slot b ctx u s
        ≡ global_stage now p b ctx (with_slot (record { held = true; last_used = now }))
  unfolding acquire_upload_slot get_or_create_user_slot user_stage acquire_user_slot acquire_slot
      write_slot with_slot
  reaches_global b ctx free = ground (
    arith,
    mapped,
    at,
    running,
    free,
    load-store p p (record slot { last_used = now }) s.slots,
    ==_refl p,
  )

  global-cases :
      (b : Branch) (ctx : Option TransferError) (t : SlotManager)
      → slot.held ≡ false
      → acquire_upload_slot now by_slot b ctx u s ≡ some (none, t)
      → acquire_global_upload b ctx (with_slot (record { held = true; last_used = now }))
        ≡ some (none, t)
  unfolding global_stage
  global-cases b ctx t free done =
      let mid = with_slot (record { held = true; last_used = now }) in
      let eq : global_stage now p b ctx mid ≡ some (none, t) =
        sym (reaches_global b ctx free) ∙ done in
      elim (Option-cases (acquire_global_upload b ctx mid)) [
        | inl e ↦ absurd (ground (arith, e, eq))
        | inr ((none, x), e) ↦ ground (arith, e, eq)
        | inr ((some y, x), e) ↦ absurd (ground (arith, e, eq))
      ]

  -- The manager once the global slot is taken as well.
  holding : Semaphore → SlotManager
  holding sem = record (with_slot (record { held = true; last_used = now })) { upload_slots = sem }

  acquired :
      (b : Branch) (ctx : Option TransferError) (t : SlotManager)
      → slot.held ≡ false
      → acquire_upload_slot now by_slot b ctx u s ≡ some (none, t)
      → (sem : Semaphore) × (acquire b ctx s.closed s.upload_slots ≡ some (none, sem))
        × (holding sem ≡ t)
  unfolding acquire_global_upload with_slot holding
  acquired b ctx t free done =
      let eq = global-cases b ctx t free done in
      elim (Option-cases (acquire b ctx s.closed s.upload_slots)) [
        | inl e ↦ absurd (ground (arith, e, eq))
        | inr ((none, sem), e) ↦ (sem, e, ground (arith, e, eq))
        | inr ((some y, sem), e) ↦ absurd (ground (arith, e, eq))
      ]

  holding-at :
      (sem : Semaphore)
      → load p (holding sem).slots ≡ some (record { held = true; last_used = now })
  unfolding holding
  holding-at sem = with_slot-at (record { held = true; last_used = now })

  released :
      (later : ℕ) (sem : Semaphore)
      → load p (release_upload_slot later u (holding sem)).slots
        ≡ some (record { held = false; last_used = later })
  unfolding release_upload_slot release_user_slot release_global_upload write_slot holding with_slot
  released later sem =
      let after =
        store p (record { held = true; last_used = now })
          (store p (record slot { last_used = now }) s.slots) in
      ground (
        arith,
        mapped,
        holding-at sem,
        load-store p p (record { held = false; last_used = later }) after,
        ==_refl p,
      )

  released_global :
      (later : ℕ) (sem : Semaphore)
      → (release_upload_slot later u (holding sem)).upload_slots ≡ release sem
  unfolding release_upload_slot release_user_slot release_global_upload write_slot holding with_slot
  released_global later sem = ground (arith, mapped, holding-at sem)

-- Where the manager is open, the user has a free slot, and an upload slot is acquired for the user:
-- a further acquisition for the user blocks on that slot, and the release gives the global slot
-- back and leaves the slot of the user free.
pub upload_slot_cycle :
    (now later p : ℕ) (u : Bytes) (slot : UserSlot) (s t : SlotManager) (b : Branch)
    (ctx ctx' : Option TransferError)
    → load u s.user_slots ≡ some p
    → load p s.slots ≡ some slot
    → s.closed ≡ false
    → slot.held ≡ false
    → acquire_upload_slot now by_slot by_slot ctx u s ≡ some (none, t)
    → let r = release_upload_slot later u t in
      (acquire_upload_slot later by_slot b ctx' u t ≡ none)
      × (r.upload_slots ≡ s.upload_slots)
      × (load p r.slots ≡ some (record { held = false; last_used = later }))
unfolding holding with_slot
upload_slot_cycle now later p u slot s t b ctx ctx' mapped at running free done =
    let (sem, taken, same) = acquired now p u slot s mapped at running by_slot ctx t free done in
    let h = holding now p u slot s mapped at running sem in
    let again : acquire_upload_slot later by_slot b ctx' u h ≡ none =
      blocked later p u (record { held = true; last_used = now }) h mapped
        (holding-at now p u slot s mapped at running sem) running b ctx' refl in
    (
      subst (λ t. acquire_upload_slot later by_slot b ctx' u t ≡ none) same again,
      subst (λ t. (release_upload_slot later u t).upload_slots ≡ s.upload_slots) same
          (released_global now p u slot s mapped at running later sem
            ∙ release-acquire ctx s.closed s.upload_slots sem taken),
      subst
          (λ t.
            load p (release_upload_slot later u t).slots
            ≡ some (record { held = false; last_used = later }))
          same (released now p u slot s mapped at running later sem),
    )
