-- ===== src/Protocol/Decode.antt =====
-- What the decoders of messages/peer and messages/server have in common: the check of the message
-- code, the fields, and the check of the reader's error at the end.
pub mod Codec
use gosoulseek.Prelude.{ℕ, ◌==◌, if◌then◌else◌, Option, none, some, Bytes}
use gosoulseek.Protocol.Reader.{Reader, ReadError, Read, source, read_uint32}

pub data DecodeError : Type 0 where
  empty_message : DecodeError
  too_short : ℕ → DecodeError
  unexpected_code : ℕ → DecodeError
  decode : ReadError → DecodeError
  decompress : DecodeError

pub data Result {ℓ} (A : Type ℓ) : Type ℓ where
  ok : A → Result A
  err : DecodeError → Result A

-- `if err := r.Error(); err != nil { return nil, … }`
abbrev pub finish : {A : Type 0} → A × Reader → Result A
finish (a, r) = elim r.err [ none ↦ ok a | some e ↦ err (decode e) ]

-- The decoder of a message with the four-byte code `code` and the fields `fields`, from a reader.
unfoldable pub decode_coded : {A : Type 0} → ℕ → Read A → Reader → Result A
decode_coded code fields start =
    let (n, r) = read_uint32 start in
    if n == code then finish (fields r) else err (unexpected_code n)
