-- ===== src/Peer/Init/RoundTrip.antt =====
-- The handshakes are decoded as they were encoded, and never taken for each other.
use gosoulseek.Prelude.{false, suc}
use gosoulseek.Prelude.{ℕ, ◌≤◌, ◌<◌, ◌≡◌, ap, arith, ltb, le→ltb}
use gosoulseek.Prelude.{[], ◌∷◌, ◌++◌, append_assoc, Bytes, length, length-append}
use gosoulseek.Protocol.Codes.{init_code}
use gosoulseek.Protocol.LittleEndian.{le_bytes, length-le_bytes}
use gosoulseek.Protocol.Reader.{IsUint32, IsShort}
use gosoulseek.Protocol.Reader.Locality.{Parses, Reads}
use gosoulseek.Protocol.Reader.Methods.{reads, read_uint32-Parses, read_string-Parses}
use gosoulseek.Protocol.Writer.{Writer, buffer, clean}
use gosoulseek.Protocol.Writer.Buffer.{string_bytes, writes}
use gosoulseek.Protocol.Decode.{ok, err, unexpected_code}
use gosoulseek.Protocol.Decode.Codec.{encoded}
use gosoulseek.Peer.Init.{
  Init, PierceFirewall, encode_init, encode_pierce_firewall, init_fields, pierce_fields,
  decode_init, decode_pierce_firewall,
}

pub record IsWireInit (m : Init) : Type 0 where
  pub username : IsShort m.username
  pub conn_type : IsShort m.conn_type
  pub token : IsUint32 m.token

init_body : Init → Bytes
init_body m = string_bytes m.username ++ (string_bytes m.conn_type ++ le_bytes 4 m.token)

init_fields-Reads : Reads init_fields
unfolding init_fields
init_fields-Reads = search reads depth 12

init_fields-Parses : (m : Init) → IsWireInit m → Parses init_fields (init_body m) m
unfolding init_fields init_body
init_fields-Parses m v rest = simp (
  append_assoc,
  read_string-Parses m.username v.username,
  read_string-Parses m.conn_type v.conn_type,
  read_uint32-Parses m.token v.token,
)

one_byte : (b : ℕ) → b < 256 → le_bytes 1 b ≡ b ∷ []
unfolding le_bytes
one_byte b h = ap (λ c. c ∷ []) (omega arith)

pierce_fields-Parses :
    (p : PierceFirewall) → IsUint32 p.token → Parses pierce_fields (le_bytes 4 p.token) p
unfolding pierce_fields
pierce_fields-Parses p h rest = rw (read_uint32-Parses p.token h rest)

init_writes : (m : Init) → encode_init buffer m (clean []) ≡ clean (1 ∷ init_body m)
unfolding encode_init init_body init_code
init_writes m = simp (writes, append_assoc, one_byte 1 (omega arith))

pierce_writes :
    (m : PierceFirewall)
    → encode_pierce_firewall buffer m (clean []) ≡ clean (0 ∷ le_bytes 4 m.token)
unfolding encode_pierce_firewall init_code
pierce_writes m = simp (writes, one_byte 0 (omega arith))

init_encoded : (m : Init) → encoded encode_init m ≡ 1 ∷ init_body m
init_encoded m = ap (λ (w : Writer). w.out) (init_writes m)

pierce_encoded : (m : PierceFirewall) → encoded encode_pierce_firewall m ≡ 0 ∷ le_bytes 4 m.token
pierce_encoded m = ap (λ (w : Writer). w.out) (pierce_writes m)

long_enough : (bs rest : Bytes) → 4 ≤ length bs → ltb (suc (length (bs ++ rest))) 5 ≡ false
long_enough bs rest h = le→ltb _ _ (omega (arith, length-append bs rest))

length-init_body : (m : Init) → 4 ≤ length (init_body m)
unfolding init_body
length-init_body m = omega (
  arith,
  length-append (string_bytes m.username) (string_bytes m.conn_type ++ le_bytes 4 m.token),
  length-append (string_bytes m.conn_type) (le_bytes 4 m.token),
  length-le_bytes 4 m.token,
)

-- A peer handshake whose fields fit the wire, and a firewall handshake with a token below 2^32, are
-- decoded as they were encoded, whatever bytes follow them, and each decoder refuses the other one.
pub handshake_roundtrip :
    (m : Init) (p : PierceFirewall) (rest : Bytes)
    → IsWireInit m
    → IsUint32 p.token
    → (decode_init (encoded encode_init m ++ rest) ≡ ok m)
      × (decode_pierce_firewall (encoded encode_pierce_firewall p ++ rest) ≡ ok p)
      × (decode_init (encoded encode_pierce_firewall p ++ rest) ≡ err (unexpected_code 0))
      × (decode_pierce_firewall (encoded encode_init m ++ rest) ≡ err (unexpected_code 1))
unfolding decode_init decode_pierce_firewall init_code
handshake_roundtrip m p rest v h = (
  rw (init_encoded m, init_fields-Parses m v rest),
  rw (
    pierce_encoded p,
    long_enough (le_bytes 4 p.token) rest (omega (arith, length-le_bytes 4 p.token)),
    pierce_fields-Parses p h rest,
  ),
  rw pierce_encoded,
  rw (init_encoded m, long_enough (init_body m) rest (length-init_body m)),
)
