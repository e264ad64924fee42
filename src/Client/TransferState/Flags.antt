-- ===== src/Client/TransferState/Flags.antt =====
-- The flags of client/transfer_state.go, checked at every one of the 2^13 combinations.
use gosoulseek.Prelude.{
  ==_iff, Bool-cases, sym, inl, inr, subst, ℕ, zero, suc, ◌/◌, ◌%◌, ◌^◌, ◌<◌, ◌≡◌, refl, arith,
  ◌==◌,
}
use gosoulseek.Prelude.{Bool, true, false, not, ◌&&◌}
use gosoulseek.Client.TransferState.{is_completed, is_queued, is_active, is_local, is_remote}

-- A test holds at each number from 0 up to, but not including, the bound.
every_state : (ℕ → Bool) → ℕ → Bool
every_state test zero = true
every_state test (suc bound) = every_state test bound && test bound

every_state_at :
    (test : ℕ → Bool) (bound s : ℕ) → s < bound → every_state test bound ≡ true → test s ≡ true
unfolding every_state
every_state_at test zero s small all = absurd (omega arith)
every_state_at test (suc bound) s small all = elim (Bool-cases (s == bound)) [
  | inl last ↦ subst (λ n. test n ≡ true) (sym ((==_iff s bound).0 last)) (ground (arith, all))
  | inr before ↦
      every_state_at test bound s (ground (arith, small, before, ==_iff s bound))
        (ground (arith, all))
]

-- The states: thirteen flags.
abbrev pub state_bound : ℕ
state_bound = 2 ^ 13

abbrev same : Bool → Bool → Bool
same true b = b
same false b = not b

same→eq : (a b : Bool) → same a b ≡ true → a ≡ b
same→eq a b h = ground arith

-- Bit `k` of a state, by arithmetic.
abbrev pub bit : ℕ → ℕ → Bool
bit k s = s / 2 ^ k % 2 == 1

predicates_agree : ℕ → Bool
predicates_agree s =
    same (is_completed s) (bit 4 s)
    && (same (is_queued s) (bit 1 s)
        && (same (is_local s) (bit 11 s)
            && (same (is_remote s) (bit 12 s)
                && same (is_active s) (not (bit 4 s) && not (s % 16 == 0)))))

predicates_table : every_state predicates_agree state_bound ≡ true
unfolding every_state predicates_agree is_completed is_queued is_active is_local is_remote
predicates_table = refl

-- Of every combination of the thirteen flags the predicates say what its bits say: completed is bit 4,
-- queued bit 1, local bit 11, remote bit 12, and a state is active if it is not completed and one of
-- its four lowest bits is set.
pub predicates_lem :
    (s : ℕ)
    → s < state_bound
    → (is_completed s ≡ bit 4 s)
      × (is_queued s ≡ bit 1 s)
      × (is_local s ≡ bit 11 s)
      × (is_remote s ≡ bit 12 s)
      × (is_active s ≡ (not (bit 4 s) && not (s % 16 == 0)))
unfolding predicates_agree
predicates_lem s h =
    ground (arith, every_state_at predicates_agree state_bound s h predicates_table)
