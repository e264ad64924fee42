-- ===== src/Protocol/Reader.antt =====
-- protocol/reader.go: the decoder with a sticky error, over `bytes.NewReader(data)`.
pub mod Locality
pub mod Methods
use gosoulseek.Prelude.{ℕ, ◌*◌, ◌^◌, ◌≤◌, ◌<◌, ltb, if◌then◌else◌, ◌==◌}
use gosoulseek.Prelude.{Option, none, some, [], ◌++◌, Bytes, length, take, drop}
use gosoulseek.Protocol.LittleEndian.{le_value}
use gosoulseek.Prelude.Int.{ℤ, pos, negsuc, to_int64}

pub data ReadError : Type 0 where
  eof : ReadError
  unexpected_eof : ReadError
  string_too_long : ℕ → ReadError
  invalid_byte_count : ReadError

-- `rest` is what the underlying `bytes.Reader` has not handed out.
pub record Reader : Type 0 where
  pub rest : Bytes
  pub err : Option ReadError

-- A method of the reader returns its value and the new state.
abbrev pub Read : Type 0 → Type 0
Read A = Reader → A × Reader

infixl 5 ◌>>=◌
abbrev pub ◌>>=◌ : {A B : Type 0} → Read A → (A → Read B) → Read B
◌>>=◌ m f r = let (a, r') = m r in f a r'

abbrev pub return : {A : Type 0} → A → Read A
return a r = (a, r)

-- `NewReader(bytes.NewReader(data))`
abbrev pub source : Bytes → Reader
source bs = record { rest = bs; err = none }

-- `io.ReadFull` into `n` bytes: a short source is used up, and the result is `none`.
unfoldable pub read_full : ℕ → Read (Option Bytes)
read_full n r =
    if ltb (length r.rest) n
    then (
      none,
      record { rest = []; err = some (if length r.rest == 0 then eof else unexpected_eof) },
    )
    else (some (take n r.rest), source (drop n r.rest))

abbrev value_or_zero : Option Bytes → ℕ
value_or_zero none = 0
value_or_zero (some bs) = le_value bs

-- `if r.err != nil { return zero }`
abbrev pub unless_failed : {A : Type 0} → A → Read A → Read A
unless_failed zero_value m r = elim r.err [ none ↦ m r | some e ↦ (zero_value, r) ]

-- `binary.Read` of an unsigned integer of `k` bytes, behind the guard.
read_uint : ℕ → Read ℕ
read_uint k = unless_failed 0 (do bs ← read_full k; return (value_or_zero bs))

pub read_uint8 : Read ℕ
unfolding read_uint
read_uint8 = read_uint 1

unfoldable pub read_uint32 : Read ℕ
unfolding read_uint
read_uint32 = read_uint 4

pub read_uint64 : Read ℕ
unfolding read_uint
read_uint64 = read_uint 8

-- 10 MB
abbrev pub max_string_length : ℕ
max_string_length = 10 * 1024 * 1024

abbrev or_empty : Option Bytes → Bytes
or_empty none = []
or_empty (some bs) = bs

abbrev fail : {A : Type 0} → A → ReadError → Read A
fail a e r = (a, record r { err = some e })

-- `ReadString` after its length was read.
read_string_body : ℕ → Read Bytes
read_string_body n = unless_failed [] (
    if ltb max_string_length n
    then fail [] (string_too_long n)
    else (do bs ← read_full n; return (or_empty bs)))

pub read_string : Read Bytes
unfolding read_string_body
read_string = unless_failed [] (do n ← read_uint32; read_string_body n)

-- `ReadBytes(n)`; `nil` and the empty slice are both `[]`.
read_bytes_count : ℤ → Read Bytes
read_bytes_count (negsuc n) = fail [] invalid_byte_count
read_bytes_count (pos n) = do bs ← read_full n; return (or_empty bs)

pub read_bytes : ℤ → Read Bytes
unfolding read_bytes_count
read_bytes n = unless_failed [] (read_bytes_count n)

-- `int64(r.ReadUint64())`
pub read_int64 : Read ℤ
read_int64 = do u ← read_uint64; return (to_int64 u)

abbrev pub IsUint32 : ℕ → Type 0
IsUint32 n = n < 2 ^ 32

-- A string that `ReadString` accepts.
abbrev pub IsShort : Bytes → Type 0
IsShort s = length s ≤ max_string_length
