-- ===== src/Server/Responses/Layouts.antt =====
-- The layouts that the decoders of the server's answers accept, and the cut ones that they refuse.
use gosoulseek.Prelude.{ℕ, ◌^◌, ◌<◌, ◌≡◌, ◌≢◌, refl, ap, arith, ◌==◌, ltb, if◌then◌else◌}
use gosoulseek.Prelude.{Bool, true, false, [], ◌∷◌, ◌++◌, append_assoc, Bytes, Option, none, some}
use mathlib.Core.Path.{subst}
use gosoulseek.Protocol.Codes.{server_code, ServerCode}
use gosoulseek.Protocol.Codes.Bounds.{server_code_small}
use gosoulseek.Protocol.LittleEndian.{le_bytes}
use gosoulseek.Protocol.Reader.{IsUint32, IsShort, source}
use gosoulseek.Protocol.Reader.Locality.{Parses, Reads, bind-Reads, return-Reads}
use gosoulseek.Protocol.Reader.Methods.{
  reads, read_string-Reads, read_uint8-Reads, read_uint8-Parses, read_uint32-Parses,
  read_string-Parses, read_bytes-Parses, read_bytes-Reads,
}
use gosoulseek.Protocol.Writer.Buffer.{string_bytes}
use gosoulseek.Protocol.Decode.{ok}
use gosoulseek.Protocol.Decode.Codec.{accepts, refuses_prefix}
use gosoulseek.Server.Responses.{
  Ip, LoginResponse, GetPeerAddressResponse, ConnectToPeer, reversed_ip, read_ip, login_outcome,
  login_fields, address_fields, connect_fields, decode_login_response, decode_get_peer_address,
  decode_connect_to_peer,
}

abbrev pub IsByte : ℕ → Type 0
IsByte n = n < 2 ^ 8

pub record IsIp (i : Ip) : Type 0 where
  pub a : IsByte i.a
  pub b : IsByte i.b
  pub c : IsByte i.c
  pub d : IsByte i.d

-- An address on the wire: its last part comes first.
abbrev pub ip_bytes : Ip → Bytes
ip_bytes i = i.d ∷ (i.c ∷ (i.b ∷ (i.a ∷ [])))

single_bytes : Ip → Bytes
single_bytes i = le_bytes 1 i.d ++ (le_bytes 1 i.c ++ (le_bytes 1 i.b ++ le_bytes 1 i.a))

one_byte : (n : ℕ) → IsByte n → le_bytes 1 n ≡ n ∷ []
unfolding le_bytes
one_byte n h = ap (λ m. m ∷ []) (omega arith)

single_bytes_lem : (i : Ip) → IsIp i → single_bytes i ≡ ip_bytes i
unfolding single_bytes
single_bytes_lem i v = rw (one_byte i.d v.d, one_byte i.c v.c, one_byte i.b v.b, one_byte i.a v.a)

read_ip-Reads : Reads read_ip
unfolding read_ip
read_ip-Reads = search reads depth 12

read_ip-single_bytes : (i : Ip) → IsIp i → Parses read_ip (single_bytes i) i
unfolding read_ip single_bytes
read_ip-single_bytes i v rest = simp (
  append_assoc,
  read_uint8-Parses i.d v.d,
  read_uint8-Parses i.c v.c,
  read_uint8-Parses i.b v.b,
  read_uint8-Parses i.a v.a,
)

read_ip-Parses : (i : Ip) → IsIp i → Parses read_ip (ip_bytes i) i
read_ip-Parses i v =
    subst (λ s. Parses read_ip s i) (single_bytes_lem i v) (read_ip-single_bytes i v)

-- A login answer: the address, the hash and the supporter flag follow only where it succeeded.
pub record IsWireLogin (m : LoginResponse) (i : Ip) : Type 0 where
  pub message : IsShort m.message
  pub hash : IsShort m.hash
  pub outcome :
      if m.succeeded
      then (m.ip_address ≡ some i)
      else ((m.ip_address ≡ none) × (m.hash ≡ []) × (m.is_supporter ≡ false))

abbrev pub flag_byte : Bool → ℕ
flag_byte true = 1
flag_byte false = 0

flag_small : (b : Bool) → flag_byte b < 2 ^ 8
flag_small true = omega arith
flag_small false = omega arith

flag_back : (b : Bool) → (flag_byte b == 1) ≡ b
flag_back true = refl
flag_back false = refl

flag_positive : (b : Bool) → ltb 0 (flag_byte b) ≡ b
flag_positive true = refl
flag_positive false = refl

unfoldable pub outcome_body : Bool → LoginResponse → Ip → Bytes
outcome_body true m i = ip_bytes i ++ (string_bytes m.hash ++ le_bytes 1 (flag_byte m.is_supporter))
outcome_body false m i = []

unfoldable pub login_body : LoginResponse → Ip → Bytes
login_body m i =
    le_bytes 1 (flag_byte m.succeeded) ++ (string_bytes m.message ++ outcome_body m.succeeded m i)

login_outcome-Reads : (b : Bool) (message : Bytes) → Reads (login_outcome b message)
unfolding login_outcome
login_outcome-Reads true message = bind-Reads _ _ (read_bytes-Reads 4) λ ip.
    bind-Reads _ _ read_string-Reads λ hash. bind-Reads _ _ read_uint8-Reads λ supporter.
      return-Reads (record {
        succeeded = true;
        message = message;
        ip_address = reversed_ip ip;
        hash = hash;
        is_supporter = supporter == 1;
      })
login_outcome-Reads false message = return-Reads _

login_fields-Reads : Reads login_fields
unfolding login_fields
login_fields-Reads = search (reads, login_outcome-Reads) depth 12

login_outcome-Parses :
    (b : Bool) (message hash : Bytes) (ip : Option Ip) (supporter : Bool) (i : Ip) (rest : Bytes)
    → let m : LoginResponse = record {
      succeeded = b;
      message = message;
      ip_address = ip;
      hash = hash;
      is_supporter = supporter;
    } in
      IsWireLogin m i
      → login_outcome b message (source (outcome_body b m i ++ rest)) ≡ (m, source rest)
unfolding login_outcome outcome_body reversed_ip
login_outcome-Parses true message hash ip supporter i rest v = rw (
  append_assoc (ip_bytes i) (string_bytes hash ++ le_bytes 1 (flag_byte supporter)) rest,
  append_assoc (string_bytes hash) (le_bytes 1 (flag_byte supporter)) rest,
  read_bytes-Parses (ip_bytes i),
  read_string-Parses hash v.hash,
  read_uint8-Parses (flag_byte supporter) (flag_small supporter),
  flag_back,
  v.outcome,
)
login_outcome-Parses false message hash ip supporter i rest v =
    rw (v.outcome.0, v.outcome.1, v.outcome.2)

login_fields-Parses :
    (m : LoginResponse) (i : Ip) → IsWireLogin m i → Parses login_fields (login_body m i) m
unfolding login_fields login_body
login_fields-Parses m i v rest =
    simp
      (
        append_assoc,
        read_uint8-Parses (flag_byte m.succeeded) (flag_small m.succeeded),
        read_string-Parses m.message v.message,
        flag_back,
      )
      (login_outcome-Parses m.succeeded m.message m.hash m.ip_address m.is_supporter i rest v)

abbrev pub IsWireAddress : GetPeerAddressResponse → Type 0
IsWireAddress m = IsShort m.username × IsIp m.ip_address × IsUint32 m.port

unfoldable pub address_body : GetPeerAddressResponse → Bytes
address_body m = string_bytes m.username ++ (ip_bytes m.ip_address ++ le_bytes 4 m.port)

address_fields-Reads : Reads address_fields
unfolding address_fields
address_fields-Reads = search (reads, read_ip-Reads) depth 12

address_fields-Parses :
    (m : GetPeerAddressResponse) → IsWireAddress m → Parses address_fields (address_body m) m
unfolding address_fields address_body
address_fields-Parses m (u, i, p) rest =
    simp (append_assoc, read_string-Parses m.username u)
      (rw (
        read_ip-Parses m.ip_address i (le_bytes 4 m.port ++ rest),
        read_uint32-Parses m.port p rest,
      ))

pub record IsWireConnect (m : ConnectToPeer) : Type 0 where
  pub username : IsShort m.username
  pub conn_type : IsShort m.conn_type
  pub ip_address : IsIp m.ip_address
  pub port : IsUint32 m.port
  pub token : IsUint32 m.token

unfoldable pub connect_body : ConnectToPeer → Bytes
connect_body m =
    string_bytes m.username
    ++ (string_bytes m.conn_type
        ++ (ip_bytes m.ip_address
            ++ (le_bytes 4 m.port
                ++ (le_bytes 4 m.token ++ le_bytes 1 (flag_byte m.is_privileged)))))

connect_fields-Reads : Reads connect_fields
unfolding connect_fields
connect_fields-Reads = search (reads, read_ip-Reads) depth 16

connect_fields-Parses :
    (m : ConnectToPeer) → IsWireConnect m → Parses connect_fields (connect_body m) m
unfolding connect_fields connect_body
connect_fields-Parses m v rest = simp (
  append_assoc,
  read_string-Parses m.username v.username,
  read_string-Parses m.conn_type v.conn_type,
  read_ip-Parses m.ip_address v.ip_address,
  read_uint32-Parses m.port v.port,
  read_uint32-Parses m.token v.token,
  read_uint8-Parses (flag_byte m.is_privileged) (flag_small m.is_privileged),
  flag_positive,
)

-- The bytes of each answer: its code and its fields.
abbrev pub login_bytes : LoginResponse → Ip → Bytes
login_bytes m i = le_bytes 4 (server_code ServerCode.login) ++ login_body m i

abbrev pub address_bytes : GetPeerAddressResponse → Bytes
address_bytes m = le_bytes 4 (server_code ServerCode.get_peer_address) ++ address_body m

abbrev pub connect_bytes : ConnectToPeer → Bytes
connect_bytes m = le_bytes 4 (server_code ServerCode.connect_to_peer) ++ connect_body m

-- A login answer is decoded from its layout, whatever follows it: a success with its address, which
-- stands on the wire with the last part first, its hash and its flag, and a failure with its reason.
pub login_response_layout :
    (m : LoginResponse) (i : Ip) (rest : Bytes)
    → IsWireLogin m i
    → decode_login_response (source (login_bytes m i ++ rest)) ≡ ok m
unfolding decode_login_response
login_response_layout m i rest v =
    accepts _ login_fields (login_body m i) m (server_code_small ServerCode.login)
      (login_fields-Parses m i v) rest

-- The address of a peer and the instruction to connect to a peer are decoded from their layouts, with
-- the address on the wire the last part first, whatever follows them.
pub peer_address_layouts :
    (m : GetPeerAddressResponse) (c : ConnectToPeer) (rest : Bytes)
    → IsWireAddress m
    → IsWireConnect c
    → (decode_get_peer_address (source (address_bytes m ++ rest)) ≡ ok m)
      × (decode_connect_to_peer (source (connect_bytes c ++ rest)) ≡ ok c)
unfolding decode_get_peer_address decode_connect_to_peer
peer_address_layouts m c rest v w = (
  accepts _ address_fields (address_body m) m (server_code_small ServerCode.get_peer_address)
      (address_fields-Parses m v) rest,
  accepts _ connect_fields (connect_body c) c (server_code_small ServerCode.connect_to_peer)
      (connect_fields-Parses c w) rest,
)

-- No proper prefix of a login answer, of a peer's address or of an instruction to connect is accepted
-- as whatever answer.
pub answers_truncated :
    (m m' : LoginResponse) (i : Ip) (a a' : GetPeerAddressResponse) (c c' : ConnectToPeer)
    (front1 front2 front3 : Bytes) (x1 x2 x3 : ℕ) (back1 back2 back3 : Bytes)
    → IsWireLogin m i
    → IsWireAddress a
    → IsWireConnect c
    → login_bytes m i ≡ front1 ++ (x1 ∷ back1)
    → address_bytes a ≡ front2 ++ (x2 ∷ back2)
    → connect_bytes c ≡ front3 ++ (x3 ∷ back3)
    → (decode_login_response (source front1) ≢ ok m')
      × (decode_get_peer_address (source front2) ≢ ok a')
      × (decode_connect_to_peer (source front3) ≢ ok c')
unfolding decode_login_response decode_get_peer_address decode_connect_to_peer
answers_truncated m m' i a a' c c' f1 f2 f3 x1 x2 x3 b1 b2 b3 vm va vc e1 e2 e3 = (
  refuses_prefix _ login_fields (login_body m i) m (server_code_small ServerCode.login)
      (login_fields-Parses m i vm) m' f1 x1 b1 login_fields-Reads e1,
  refuses_prefix _ address_fields (address_body a) a (server_code_small ServerCode.get_peer_address)
      (address_fields-Parses a va) a' f2 x2 b2 address_fields-Reads e2,
  refuses_prefix _ connect_fields (connect_body c) c (server_code_small ServerCode.connect_to_peer)
      (connect_fields-Parses c vc) c' f3 x3 b3 connect_fields-Reads e3,
)
