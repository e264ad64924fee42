-- ===== src/Client/Channel.antt =====
-- Go's buffered channels, as the client uses them: `select` with a `default`, receiving, and `close`.
use gosoulseek.Prelude.{
  ℕ, ◌≤◌, ◌≡◌, arith, ltb, if◌then◌else◌, Bool, true, false, List, [], ◌∷◌, ◌++◌, length,
  length-append, Option, none, some,
}

pub record Channel {ℓ} (A : Type ℓ) : Type ℓ where
  pub cap : ℕ
  pub buffer : List A
  pub closed : Bool

-- A panic of the runtime ends the program; it is no Go value.
pub data Sent {ℓ} (A : Type ℓ) : Type ℓ where
  sent : Channel A → Sent A
  full : Sent A
  panicked : Sent A

module _ {ℓ} {A : Type ℓ} where
  -- `make(chan A, n)`
  abbrev pub make_channel : ℕ → Channel A
  make_channel n = record { cap = n; buffer = []; closed = false }

  -- `select { case c <- a: … default: … }`: a send on a closed channel panics.
  unfoldable pub try_send : Channel A → A → Sent A
  try_send c a =
      if c.closed
      then panicked
      else if ltb (length c.buffer) c.cap
      then sent (record c { buffer = c.buffer ++ (a ∷ []) })
      else full

  -- `select { case a := <-c: … default: … }` while `c` is open.
  unfoldable try_receive : Channel A → Option (A × Channel A)
  try_receive c = elim c.buffer [ [] ↦ none | a ∷ rest ↦ some (a, record c { buffer = rest }) ]

  -- `close(c)`: closing twice panics, which is `none`.
  unfoldable pub close_channel : Channel A → Option (Channel A)
  close_channel c = if c.closed then none else some (record c { closed = true })

  abbrev pub WithinCap : Channel A → Type 0
  WithinCap c = length c.buffer ≤ c.cap

  pub try_send-WithinCap :
      (c d : Channel A) (a : A) → WithinCap c → try_send c a ≡ sent d → WithinCap d
  unfolding try_send
  try_send-WithinCap c d a h e = ground (arith, length-append c.buffer (a ∷ []))
