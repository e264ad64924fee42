-- ===== src/Server/Responses.antt =====
-- What the server answers: the decoders of messages/server.
pub mod Layouts
use gosoulseek.Prelude.{
  ℕ, ◌<◌, ◌==◌, ltb, if◌then◌else◌, Bool, true, false, Bytes, [], ◌∷◌, Option, none, some,
}
use gosoulseek.Prelude.Int.{pos}
use gosoulseek.Protocol.Codes.{server_code, ServerCode}
use gosoulseek.Protocol.Reader.{
  Reader, Read, ◌>>=◌, return, read_uint8, read_uint32, read_string, read_bytes,
}
use gosoulseek.Protocol.Decode.{Result, decode_coded}

-- An IPv4 address `a.b.c.d`.
pub record Ip : Type 0 where
  pub a : ℕ
  pub b : ℕ
  pub c : ℕ
  pub d : ℕ

pub record LoginResponse : Type 0 where
  pub succeeded : Bool
  pub message : Bytes
  pub ip_address : Option Ip
  pub hash : Bytes
  pub is_supporter : Bool

pub record GetPeerAddressResponse : Type 0 where
  pub username : Bytes
  pub ip_address : Ip
  pub port : ℕ

pub record ConnectToPeer : Type 0 where
  pub username : Bytes
  pub conn_type : Bytes
  pub ip_address : Ip
  pub port : ℕ
  pub token : ℕ
  pub is_privileged : Bool

-- `net.IPv4(b[3], b[2], b[1], b[0])` where four bytes were read; `IPAddress` stays nil otherwise.
reversed_ip : Bytes → Option Ip
reversed_ip (d ∷ c ∷ b ∷ a ∷ []) = some (record { a = a; b = b; c = c; d = d })
reversed_ip _ = none

-- Four single bytes, the last part of the address first.
read_ip : Read Ip
read_ip = do
  d ← read_uint8
  c ← read_uint8
  b ← read_uint8
  a ← read_uint8
  return (record { a = a; b = b; c = c; d = d })

-- The fields behind the verdict and the message.
login_outcome : Bool → Bytes → Read LoginResponse
unfolding reversed_ip
login_outcome true message = do
  ip ← read_bytes (pos 4)
  hash ← read_string
  supporter ← read_uint8
  return (record {
    succeeded = true;
    message = message;
    ip_address = reversed_ip ip;
    hash = hash;
    is_supporter = supporter == 1;
  })
login_outcome false message = return (record {
  succeeded = false;
  message = message;
  ip_address = none;
  hash = [];
  is_supporter = false;
})

login_fields : Read LoginResponse
login_fields = do flag ← read_uint8; message ← read_string; login_outcome (flag == 1) message

address_fields : Read GetPeerAddressResponse
address_fields = do
  username ← read_string
  ip ← read_ip
  port ← read_uint32
  return (record { username = username; ip_address = ip; port = port })

connect_fields : Read ConnectToPeer
connect_fields = do
  username ← read_string
  conn_type ← read_string
  ip ← read_ip
  port ← read_uint32
  token ← read_uint32
  privileged ← read_uint8
  return (record {
    username = username;
    conn_type = conn_type;
    ip_address = ip;
    port = port;
    token = token;
    is_privileged = ltb 0 privileged;
  })

pub decode_login_response : Reader → Result LoginResponse
unfolding login_fields login_outcome
decode_login_response = decode_coded (server_code ServerCode.login) login_fields

pub decode_get_peer_address : Reader → Result GetPeerAddressResponse
unfolding address_fields read_ip
decode_get_peer_address = decode_coded (server_code ServerCode.get_peer_address) address_fields

pub decode_connect_to_peer : Reader → Result ConnectToPeer
unfolding connect_fields read_ip
decode_connect_to_peer = decode_coded (server_code ServerCode.connect_to_peer) connect_fields

unfoldable decode_ping : Reader → Result (Unit {0})
decode_ping = decode_coded (server_code ServerCode.ping) (return tt)
