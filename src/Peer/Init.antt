-- ===== src/Peer/Init.antt =====
-- messages/peer/init.go: the two handshakes, which start with a one-byte code.
pub mod RoundTrip
use gosoulseek.Prelude.{ℕ, ◌==◌, if◌then◌else◌, ltb, Bytes, [], ◌∷◌, length}
use gosoulseek.Protocol.Codes.{init_code, InitCode}
use gosoulseek.Protocol.Reader.{Read, ◌>>=◌, return, source, read_uint32, read_string}
use gosoulseek.Protocol.Writer.{Writer, Sink, ◌▸◌, write_uint8, write_uint32, write_string}
use gosoulseek.Protocol.Decode.{Result, ok, err, empty_message, too_short, unexpected_code, finish}

pub record Init : Type 0 where
  pub username : Bytes
  pub conn_type : Bytes
  pub token : ℕ

pub record PierceFirewall : Type 0 where
  pub token : ℕ

module _ (sink : Sink) where
  pub encode_init : Init → Writer → Writer
  encode_init m w =
      w
      ▸ write_uint8 sink (init_code InitCode.peer_init)
      ▸ write_string sink m.username
      ▸ write_string sink m.conn_type
      ▸ write_uint32 sink m.token

  pub encode_pierce_firewall : PierceFirewall → Writer → Writer
  encode_pierce_firewall m w =
      w ▸ write_uint8 sink (init_code InitCode.pierce_firewall) ▸ write_uint32 sink m.token

init_fields : Read Init
init_fields = do
  username ← read_string
  conn_type ← read_string
  token ← read_uint32
  return (record { username = username; conn_type = conn_type; token = token })

pierce_fields : Read PierceFirewall
pierce_fields = do token ← read_uint32; return (record { token = token })

-- `data[0]` and `data[1:]`
decode_byte_coded : {A : Type 0} → ℕ → Read A → Bytes → Result A
decode_byte_coded code fields [] = err empty_message
decode_byte_coded code fields (b ∷ rest) =
    if b == code then finish (fields (source rest)) else err (unexpected_code b)

pub decode_init : Bytes → Result Init
unfolding decode_byte_coded init_fields
decode_init = decode_byte_coded (init_code InitCode.peer_init) init_fields

pub decode_pierce_firewall : Bytes → Result PierceFirewall
unfolding decode_byte_coded pierce_fields
decode_pierce_firewall bs =
    if ltb (length bs) 5
    then err (too_short (length bs))
    else decode_byte_coded (init_code InitCode.pierce_firewall) pierce_fields bs
