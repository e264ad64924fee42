-- ===== src/Protocol/Writer.antt =====
-- protocol/writer.go: the encoder with a sticky error, over an `io.Writer`.
pub mod Buffer
use gosoulseek.Prelude.{ℕ, ◌%◌, ◌^◌, Option, none, some, ◌++◌, Bytes, length}
use gosoulseek.Protocol.LittleEndian.{le_bytes}

-- The error that the underlying writer answers with.
pub data WriteError : Type 0 where
  write_error : ℕ → WriteError

-- An `io.Writer`: from what it has taken so far and a slice, what it has taken then, and an error.
abbrev pub Sink : Type 0
Sink = Bytes → Bytes → Bytes × Option WriteError

pub record Writer : Type 0 where
  pub out : Bytes
  pub err : Option WriteError

-- The writes of one message, one after the other.
infixl 3 ◌▸◌
abbrev pub ◌▸◌ : Writer → (Writer → Writer) → Writer
w ▸ f = f w

-- `if w.err != nil { return }`
abbrev unless_failed : (Writer → Writer) → Writer → Writer
unless_failed f w = elim w.err [ none ↦ f w | some e ↦ w ]

module _ (sink : Sink) where
  -- `_, w.err = w.w.Write(b)`
  write_through : Bytes → Writer → Writer
  write_through b w = let (taken, e) = sink w.out b in record { out = taken; err = e }

  unfoldable pub write_bytes : Bytes → Writer → Writer
  unfolding write_through
  write_bytes b = unless_failed (write_through b)

  -- `binary.Write` of an unsigned integer of `k` bytes, behind the guard.
  write_uint : ℕ → ℕ → Writer → Writer
  unfolding write_bytes
  write_uint k v = write_bytes (le_bytes k v)

  unfoldable pub write_uint8 : ℕ → Writer → Writer
  unfolding write_uint
  write_uint8 = write_uint 1

  unfoldable pub write_uint32 : ℕ → Writer → Writer
  unfolding write_uint
  write_uint32 = write_uint 4

  unfoldable pub write_uint64 : ℕ → Writer → Writer
  unfolding write_uint
  write_uint64 = write_uint 8

  -- The length is cut to 32 bits by `uint32(len(b))`.
  unfoldable pub write_string : Bytes → Writer → Writer
  unfolding write_uint32 write_bytes
  write_string s = unless_failed λ w. w ▸ write_uint32 (length s % 2 ^ 32) ▸ write_bytes s

-- `bytes.Buffer`, which takes all it is given and never fails.
abbrev pub buffer : Sink
buffer out b = (out ++ b, none)

abbrev pub clean : Bytes → Writer
clean out = record { out = out; err = none }
