-- ===== src/Protocol/Decode/Codec.antt =====
-- What makes an encoder and a decoder of one message fit, and what follows for every message.
use gosoulseek.Prelude.{ℕ, ◌^◌, ◌<◌, ◌≡◌, ◌≢◌, ap, sym, ◌∙◌, arith, ==_refl}
use gosoulseek.Prelude.{none, [], ◌∷◌, ◌++◌, append_assoc, Bytes}
use gosoulseek.Protocol.LittleEndian.{le_bytes}
use gosoulseek.Protocol.Reader.{Reader, Read, ◌>>=◌, return, source, read_uint32}
use gosoulseek.Protocol.Reader.Locality.{Reads, Parses, bind-Reads, return-Reads, Parses-truncated}
use gosoulseek.Protocol.Reader.Methods.{read_uint32-Reads, read_uint32-Parses}
use gosoulseek.Protocol.Writer.{Writer, Sink, buffer, clean}
use gosoulseek.Protocol.Decode.{ok, decode_coded}

-- The bytes that an encoder writes into an empty buffer.
abbrev pub encoded : {A : Type 0} → (Sink → A → Writer → Writer) → A → Bytes
encoded encode a = (encode buffer a (clean [])).out

-- A decoder on a message of which its fields are the bytes `s`.
module _ {A : Type 0} (code : ℕ) (fields : Read A) (s : Bytes) (a : A) (small : code < 2 ^ 32)
    (parses : Parses fields s a) where
  -- It accepts the message, whatever follows.
  pub accepts :
      (rest : Bytes) → decode_coded code fields (source ((le_bytes 4 code ++ s) ++ rest)) ≡ ok a
  unfolding decode_coded
  accepts rest = rw (
    append_assoc (le_bytes 4 code) s rest,
    read_uint32-Parses code small (s ++ rest),
    ==_refl code,
    parses rest,
  )

  both : Read (ℕ × A)
  both = do n ← read_uint32; a ← fields; return (n, a)

  both-Reads : Reads fields → Reads both
  unfolding both
  both-Reads r =
      bind-Reads read_uint32 _ read_uint32-Reads λ n. bind-Reads fields _ r λ a. return-Reads (n, a)

  both-Parses : Parses both (le_bytes 4 code ++ s) (code, a)
  unfolding both
  both-Parses rest = rw (
    append_assoc (le_bytes 4 code) s rest,
    read_uint32-Parses code small (s ++ rest),
    parses rest,
  )

  ok-none : (r : Reader) (b : A) → decode_coded code fields r ≡ ok b → (both r).1.err ≡ none
  unfolding both decode_coded
  ok-none r b h = ground arith

  -- It refuses every proper prefix of the message.
  pub refuses_prefix :
      (b : A) (front : Bytes) (x : ℕ) (back : Bytes)
      → Reads fields
      → le_bytes 4 code ++ s ≡ front ++ (x ∷ back)
      → decode_coded code fields (source front) ≢ ok b
  refuses_prefix b front x back r e h =
      Parses-truncated both (le_bytes 4 code ++ s) (code, a) front x back (both-Reads r) both-Parses
        e (ok-none (source front) b h)

module _ {A : Type 0} (code : ℕ) (fields : Read A) (encode : Sink → A → Writer → Writer) where
  pub record Codec (IsWire : A → Type 0) : Type 0 where
    pub body : A → Bytes
    pub small : code < 2 ^ 32
    pub reads : Reads fields
    pub parses : (a : A) → IsWire a → Parses fields (body a) a
    pub writes : (a : A) → encode buffer a (clean []) ≡ clean (le_bytes 4 code ++ body a)

  module _ {IsWire : A → Type 0} (c : Codec IsWire) where
    out_lem : (a : A) → encoded encode a ≡ le_bytes 4 code ++ c.body a
    out_lem a = ap (λ (w : Writer). w.out) (c.writes a)

    -- The decoder returns the message that was encoded, whatever follows it.
    pub decode-encode :
        (a : A) (rest : Bytes)
        → IsWire a
        → decode_coded code fields (source (encoded encode a ++ rest)) ≡ ok a
    decode-encode a rest v =
        rw (out_lem a) (accepts code fields (c.body a) a c.small (c.parses a v) rest)

    -- No proper prefix of an encoded message is accepted.
    pub decode_truncated :
        (a b : A) (front : Bytes) (x : ℕ) (back : Bytes)
        → IsWire a
        → encoded encode a ≡ front ++ (x ∷ back)
        → decode_coded code fields (source front) ≢ ok b
    decode_truncated a b front x back v e =
        refuses_prefix code fields (c.body a) a c.small (c.parses a v) b front x back c.reads
          (sym (out_lem a) ∙ e)
