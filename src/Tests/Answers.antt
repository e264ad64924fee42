-- ===== src/Tests/Answers.antt =====
-- The shared files of messages/peer and the answers of messages/server, on concrete bytes.
use gosoulseek.Prelude.{◌≡◌, refl, arith, true, false, Bytes, [], ◌∷◌, ◌++◌, some}
use gosoulseek.Prelude.Int.{pos, to_uint64}
use gosoulseek.Protocol.LittleEndian.{le_bytes}
use gosoulseek.Protocol.Writer.Buffer.{string_bytes}
use gosoulseek.Protocol.Decode.{ok}
use gosoulseek.Protocol.Codes.{server_code}
use gosoulseek.Peer.File.{File, add_attribute, attribute_vbr}
use gosoulseek.Peer.File.RoundTrip.{IsWirePlain, IsParsed, file_body, attributes_body}
use gosoulseek.Peer.SearchResponse.{SearchResponse, decode_search_response}
use gosoulseek.Peer.SearchResponse.Layout.{
  IsWireSearch, public_part, locked_part, files_body, search_response_roundtrip,
}
use gosoulseek.Server.Responses.{Ip, LoginResponse, GetPeerAddressResponse, ConnectToPeer}
use gosoulseek.Server.Responses.Layouts.{
  IsIp, IsWireLogin, IsWireConnect, login_bytes, login_body, outcome_body, address_body,
  connect_body, address_bytes, connect_bytes,
}

abbrev song : File
song = record {
  code = 1;
  filename = b'm' ∷ (b'p' ∷ []);
  size = pos 5000;
  extension = b'o' ∷ [];
  attributes =
      (record { type = 0; value = 320 }) ∷ ((record { type = attribute_vbr; value = 1 }) ∷ []);
  bit_rate = 320;
  duration = 0;
  bit_depth = 0;
  sample_rate = 0;
  is_vbr = true;
}

song-IsWirePlain : IsWirePlain song
song-IsWirePlain = record {
  code = omega arith;
  filename = omega arith;
  size = omega arith;
  extension = omega arith;
  count = omega arith;
  attributes = ground arith;
}

song-IsParsed : IsParsed song
unfolding add_attribute
song-IsParsed = refl

-- One file for all, and none that is locked.
abbrev found : SearchResponse
found = record {
  username = b'u' ∷ [];
  token = 77;
  files = song ∷ [];
  has_free_slot = true;
  upload_speed = 1000;
  queue_length = 0;
  locked_files = [];
}

found-IsWireSearch : IsWireSearch found
found-IsWireSearch = record {
  username = omega arith;
  token = omega arith;
  file_count = omega arith;
  files = ((song-IsWirePlain, song-IsParsed), tt);
  locked_count = omega arith;
  locked_files = tt;
  upload_speed = omega arith;
  queue_length = omega arith;
}

search_response_roundtrip_example :
    decode_search_response some (le_bytes 4 9 ++ (public_part found ++ locked_part found 0))
    ≡ ok found
search_response_roundtrip_example =
    search_response_roundtrip some (λ bs. bs) (λ bs. refl) found 9 0 found-IsWireSearch
      (omega arith)

-- The payload without its last six bytes.
abbrev cut_front : Bytes
cut_front = public_part found ++ (0 ∷ (0 ∷ []))

cut_found :
    public_part found ++ locked_part found 0 ≡ cut_front ++ (0 ∷ (0 ∷ (0 ∷ (0 ∷ (0 ∷ (0 ∷ []))))))
unfolding public_part locked_part files_body file_body attributes_body to_uint64 string_bytes
    le_bytes
cut_found = refl

abbrev local : Ip
local = record { a = 127; b = 0; c = 0; d = 1 }

local-IsIp : IsIp local
local-IsIp = record { a = omega arith; b = omega arith; c = omega arith; d = omega arith }

abbrev logged_in : LoginResponse
logged_in = record {
  succeeded = true;
  message = b'h' ∷ [];
  ip_address = some local;
  hash = [];
  is_supporter = true;
}

logged_in-IsWireLogin : IsWireLogin logged_in local
logged_in-IsWireLogin = record { message = omega arith; hash = omega arith; outcome = refl }

abbrev peer_address : GetPeerAddressResponse
peer_address = record { username = b'u' ∷ []; ip_address = local; port = 2234 }

abbrev instruction : ConnectToPeer
instruction = record {
  username = b'u' ∷ [];
  conn_type = b'F' ∷ [];
  ip_address = local;
  port = 2234;
  token = 900;
  is_privileged = false;
}

instruction-IsWireConnect : IsWireConnect instruction
instruction-IsWireConnect = record {
  username = omega arith;
  conn_type = omega arith;
  ip_address = local-IsIp;
  port = omega arith;
  token = omega arith;
}

-- What stands behind the code and the first byte of each answer.
abbrev login_rest : Bytes
login_rest =
    1 ∷ (0 ∷ (0 ∷ (0 ∷ (b'h' ∷ (1 ∷ (0 ∷ (0 ∷ (127 ∷ (0 ∷ (0 ∷ (0 ∷ (0 ∷ (1 ∷ [])))))))))))))

login_cut : login_bytes logged_in local ≡ le_bytes 4 1 ++ (1 ∷ login_rest)
unfolding login_body outcome_body string_bytes le_bytes server_code
login_cut = refl

abbrev address_rest : Bytes
address_rest = 0 ∷ (0 ∷ (0 ∷ (b'u' ∷ (1 ∷ (0 ∷ (0 ∷ (127 ∷ le_bytes 4 2234)))))))

address_cut : address_bytes peer_address ≡ le_bytes 4 3 ++ (1 ∷ address_rest)
unfolding address_body string_bytes le_bytes server_code
address_cut = refl

abbrev connect_rest : Bytes
connect_rest =
    0
    ∷ (0
        ∷ (0
            ∷ (b'u'
                ∷ (1
                    ∷ (0
                        ∷ (0
                            ∷ (0
                                ∷ (b'F'
                                    ∷ (1
                                        ∷ (0
                                            ∷ (0
                                                ∷ (127
                                                    ∷ (le_bytes 4 2234
                                                        ++ (le_bytes 4 900 ++ (0 ∷ [])))))))))))))))

connect_cut : connect_bytes instruction ≡ le_bytes 4 18 ++ (1 ∷ connect_rest)
unfolding connect_body string_bytes le_bytes server_code
connect_cut = refl
