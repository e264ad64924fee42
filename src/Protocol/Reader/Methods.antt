-- ===== src/Protocol/Reader/Methods.antt =====
-- The methods of protocol/reader.go on what protocol/writer.go writes.
use gosoulseek.Prelude.{ℕ, ◌%◌, ◌^◌, ◌≤◌, ◌<◌, ◌≡◌, ap, arith, ltb, le→ltb}
use gosoulseek.Prelude.{if◌then◌else◌, Bool-cases, inl, inr, some}
use gosoulseek.Prelude.{
  ◌++◌, Bytes, length, take, take-append-drop, length-take, length-append, append_assoc,
}
use gosoulseek.Prelude.{take-length-append, drop-length-append}
use gosoulseek.Prelude.{[]}
use gosoulseek.Prelude.Int.{ℤ, pos, to_int64, to_uint64, to_int64-to_uint64, to_uint64_lt, IsInt64}
use gosoulseek.Prelude.{Bool, true, false}
use gosoulseek.Protocol.Reader.{read_int64}
use gosoulseek.Protocol.LittleEndian.{le_bytes, length-le_bytes, le_value-le_bytes}
use gosoulseek.Protocol.Writer.Buffer.{string_bytes}
use gosoulseek.Protocol.Reader.{Reader, Read, source, ReadError, read_full, fail}
use gosoulseek.Protocol.Reader.{
  read_uint, read_uint8, read_uint32, read_uint64, read_string, read_bytes,
}
use gosoulseek.Protocol.Reader.{value_or_zero, or_empty, max_string_length, read_string_body}
use gosoulseek.Protocol.Reader.Locality.{
  Reads, Parses, IsLocal, unless_failed-Reads, bind-IsLocal, read_full-IsLocal, bind-Reads,
  return-Reads,
}

pub read_full-append :
    (s rest : Bytes) → read_full (length s) (source (s ++ rest)) ≡ (some s, source rest)
unfolding read_full
read_full-append s rest = rw (
  le→ltb (length (s ++ rest)) (length s) (omega (arith, length-append s rest)),
  take-length-append s rest,
  drop-length-append s rest,
)

-- What a full read hands out and what it leaves make up the source.
pub read_full_inv :
    (n : ℕ) (bs s : Bytes)
    → (read_full n (source bs)).0 ≡ some s
    → (s ≡ take n bs) × (length s ≡ n) × (s ++ (read_full n (source bs)).1.rest ≡ bs)
unfolding read_full
read_full_inv n bs s h = ground (arith, take-append-drop n bs, length-take n bs)

read_uint-Reads : (k : ℕ) → Reads (read_uint k)
unfolding read_uint
read_uint-Reads k = unless_failed-Reads 0 _ (read_full-IsLocal k value_or_zero)

read_uint-Parses : (k v : ℕ) → v < 256 ^ k → Parses (read_uint k) (le_bytes k v) v
unfolding read_uint
read_uint-Parses k v h rest =
    let full = read_full-append (le_bytes k v) rest in
    rw (rw length-le_bytes at full, le_value-le_bytes k v h)

pub read_uint8-Reads : Reads read_uint8
unfolding read_uint8
read_uint8-Reads = read_uint-Reads 1

pub read_uint32-Reads : Reads read_uint32
unfolding read_uint32
read_uint32-Reads = read_uint-Reads 4

pub read_uint64-Reads : Reads read_uint64
unfolding read_uint64
read_uint64-Reads = read_uint-Reads 8

pub read_uint8-Parses : (v : ℕ) → v < 2 ^ 8 → Parses read_uint8 (le_bytes 1 v) v
unfolding read_uint8
read_uint8-Parses v h = read_uint-Parses 1 v (omega arith)

pub read_uint32-Parses : (v : ℕ) → v < 2 ^ 32 → Parses read_uint32 (le_bytes 4 v) v
unfolding read_uint32
read_uint32-Parses v h = read_uint-Parses 4 v (omega arith)

pub read_uint64-Parses : (v : ℕ) → v < 2 ^ 64 → Parses read_uint64 (le_bytes 8 v) v
unfolding read_uint64
read_uint64-Parses v h = read_uint-Parses 8 v (omega arith)

fail-IsLocal : {A : Type 0} (a : A) (e : ReadError) → IsLocal (fail a e)
fail-IsLocal a e bs more left h = cc (ap (λ (r : Reader). r.err) h)

read_string_body-Reads : (n : ℕ) → Reads (read_string_body n)
unfolding read_string_body
read_string_body-Reads n = unless_failed-Reads _ _ (elim (Bool-cases (ltb max_string_length n)) [
  | inl long ↦ rw long (fail-IsLocal _ _)
  | inr fits ↦ rw fits (read_full-IsLocal n or_empty)
])

pub read_string-Reads : Reads read_string
unfolding read_string
read_string-Reads =
    unless_failed-Reads _ _
      (bind-IsLocal read_uint32 read_string_body read_uint32-Reads.local read_string_body-Reads)

-- A string of at most 10 MB is read back, with what follows left in place.
pub read_string-Parses :
    (s : Bytes) → length s ≤ max_string_length → Parses read_string (string_bytes s) s
unfolding read_string read_string_body string_bytes
read_string-Parses s h rest =
    let small : length s % 2 ^ 32 ≡ length s = omega arith in
    rw (
      append_assoc,
      small,
      read_uint32-Parses (length s) (omega arith) (s ++ rest),
      le→ltb max_string_length (length s) h,
      read_full-append s rest,
    )

pub if-Reads :
    {A : Type 0} (b : Bool) {m n : Read A} → Reads m → Reads n → Reads (if b then m else n)
if-Reads true p q = p
if-Reads false p q = q

pub read_int64-Reads : Reads read_int64
unfolding read_int64
read_int64-Reads = bind-Reads _ _ read_uint64-Reads λ u. return-Reads (to_int64 u)

pub read_int64-Parses : (z : ℤ) → IsInt64 z → Parses read_int64 (le_bytes 8 (to_uint64 z)) z
unfolding read_int64
read_int64-Parses z h rest =
    rw (read_uint64-Parses (to_uint64 z) (to_uint64_lt z h) rest, to_int64-to_uint64 z h)

pub ruleset reads = (
  bind-Reads, return-Reads, read_uint8-Reads, read_uint32-Reads, read_uint64-Reads,
  read_string-Reads, read_int64-Reads,
)

pub read_bytes-Reads : (n : ℕ) → Reads (read_bytes (pos n))
unfolding read_bytes
read_bytes-Reads n = unless_failed-Reads [] _ (read_full-IsLocal n or_empty)

pub read_bytes-Parses : (s : Bytes) → Parses (read_bytes (pos (length s))) s s
unfolding read_bytes
read_bytes-Parses s rest = rw (read_full-append s rest)
