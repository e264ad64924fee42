-- ===== src/Client/Slots/Cleanup.antt =====
-- The cleanup of client/slots.go, and what may happen beside it.
use gosoulseek.Prelude.{
  ltb, ℕ, ◌+◌, ◌≡◌, refl, arith, if◌then◌else◌, Bool, false, ◌&&◌, ◌||◌, Bool-cases, inl, inr, ap,
}
use gosoulseek.Prelude.{Bytes, bytes_eq, bytes_eq_iff, List, [], ◌∷◌, none, some}
use gosoulseek.Client.KeyMap.{load, nat_key, bytes_key, load-delete}
use gosoulseek.Client.Slots.{
  UserSlot, SlotManager, is_removable, is_expired, clean_users, cleanup_idle_user_slots,
}

is_key : Bytes → List (Bytes × ℕ) → Bool
is_key u [] = false
is_key u ((v, p) ∷ m) = bytes_eq v u || is_key u m

no_key : (u : Bytes) (m : List (Bytes × ℕ)) → is_key u m ≡ false → load u m ≡ none
unfolding is_key load
no_key u [] h = refl
no_key u ((v, p) ∷ m) h = ground (arith, no_key u m)

load-clean_users :
    (expired : Bytes → Bool) (u : Bytes) (es m : List (Bytes × ℕ))
    → load u (clean_users expired es m) ≡ (if is_key u es && expired u then none else load u m)
unfolding is_key clean_users
load-clean_users expired u [] m = refl
load-clean_users expired u ((v, p) ∷ es) m = elim (Bool-cases (bytes_eq v u)) [
  | inl e ↦
      let same : expired v ≡ expired u = ap expired ((bytes_eq_iff v u).0 e) in
      ground (
        arith,
        load-clean_users expired u es m,
        load-delete v u (clean_users expired es m),
        same,
        e,
      )
  | inr e ↦
      ground (arith, load-clean_users expired u es m, load-delete v u (clean_users expired es m), e)
]

-- The cleanup keeps the slot of a user that is held, or that was last used less than a threshold above
-- 0 ago, and cuts every other; no slot itself is changed.
pub cleanup_keeps_held :
    (now threshold p : ℕ) (s : SlotManager) (u : Bytes) (slot : UserSlot)
    → load u s.user_slots ≡ some p
    → load p s.slots ≡ some slot
    → let t = cleanup_idle_user_slots now threshold s in
      (load u t.user_slots ≡ (
        if slot.held || (ltb 0 threshold && ltb now (slot.last_used + threshold))
        then some p
        else none))
      × (t.slots ≡ s.slots)
unfolding cleanup_idle_user_slots is_expired is_removable
cleanup_keeps_held now threshold p s u slot hu hp =
    let cleaned = load-clean_users (is_expired now threshold s) u s.user_slots s.user_slots in
    let expired : is_expired now threshold s u ≡ is_removable now threshold slot =
      ground (arith, hu, hp) in
    (ground (arith, cleaned, no_key u s.user_slots, expired, hu), refl)
