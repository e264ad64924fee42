-- ===== src/Server/Requests.antt =====
-- What the client sends to the server: the encoders of messages/server.
use gosoulseek.Prelude.{ℕ, ◌/◌, ◌%◌, ◌+◌, ◌-◌, ltb, if◌then◌else◌, Bytes, [], ◌∷◌, ◌++◌}
use gosoulseek.Protocol.Codes.{server_code, ServerCode}
use gosoulseek.Protocol.Writer.{Writer, Sink, ◌▸◌, write_uint32, write_string}

pub record LoginRequest : Type 0 where
  pub username : Bytes
  pub password : Bytes
  pub version : ℕ
  pub minor_version : ℕ

pub new_login_request : Bytes → Bytes → LoginRequest
new_login_request username password = record {
  username = username;
  password = password;
  version = 170;
  minor_version = 100;
}

pub record ConnectToPeerRequest : Type 0 where
  pub token : ℕ
  pub username : Bytes
  pub conn_type : Bytes

pub record FileSearch : Type 0 where
  pub token : ℕ
  pub query : Bytes

pub record GetPeerAddress : Type 0 where
  pub username : Bytes

pub record SetListenPort : Type 0 where
  pub port : ℕ

pub record SharedFoldersAndFiles : Type 0 where
  pub directories : ℕ
  pub files : ℕ

-- `UserPresence` is a `uint32`; these are its constants.
abbrev pub status_offline : ℕ
status_offline = 0

abbrev pub status_away : ℕ
status_away = 1

abbrev pub status_online : ℕ
status_online = 2

pub record SetOnlineStatus : Type 0 where
  pub status : ℕ

-- encoding/hex: two lower-case digits for each byte.
hex_digit : ℕ → ℕ
hex_digit n = if ltb n 10 then b'0' + n else b'a' + (n - 10)

unfoldable hex_encode : Bytes → Bytes
unfolding hex_digit
hex_encode [] = []
hex_encode (b ∷ bs) = hex_digit (b / 16) ∷ (hex_digit (b % 16) ∷ hex_encode bs)

module _ (sink : Sink) where
  -- `md5` is `md5.Sum` of Go's crypto/md5.
  pub encode_login : (Bytes → Bytes) → LoginRequest → Writer → Writer
  encode_login md5 m w =
      w
      ▸ write_uint32 sink (server_code ServerCode.login)
      ▸ write_string sink m.username
      ▸ write_string sink m.password
      ▸ write_uint32 sink m.version
      ▸ write_string sink (hex_encode (md5 (m.username ++ m.password)))
      ▸ write_uint32 sink m.minor_version

  unfoldable encode_connect_to_peer_request : ConnectToPeerRequest → Writer → Writer
  encode_connect_to_peer_request m w =
      w
      ▸ write_uint32 sink (server_code ServerCode.connect_to_peer)
      ▸ write_uint32 sink m.token
      ▸ write_string sink m.username
      ▸ write_string sink m.conn_type

  unfoldable pub encode_file_search : FileSearch → Writer → Writer
  encode_file_search m w =
      w
      ▸ write_uint32 sink (server_code ServerCode.file_search)
      ▸ write_uint32 sink m.token
      ▸ write_string sink m.query

  unfoldable encode_get_peer_address : GetPeerAddress → Writer → Writer
  encode_get_peer_address m w =
      w ▸ write_uint32 sink (server_code ServerCode.get_peer_address) ▸ write_string sink m.username

  pub encode_set_listen_port : SetListenPort → Writer → Writer
  encode_set_listen_port m w =
      w ▸ write_uint32 sink (server_code ServerCode.set_listen_port) ▸ write_uint32 sink m.port

  pub encode_set_online_status : SetOnlineStatus → Writer → Writer
  encode_set_online_status m w =
      w ▸ write_uint32 sink (server_code ServerCode.set_online_status) ▸ write_uint32 sink m.status

  pub encode_shared_counts : SharedFoldersAndFiles → Writer → Writer
  encode_shared_counts m w =
      w
      ▸ write_uint32 sink (server_code ServerCode.shared_folders_and_files)
      ▸ write_uint32 sink m.directories
      ▸ write_uint32 sink m.files

  unfoldable pub encode_ping : Writer → Writer
  encode_ping w = w ▸ write_uint32 sink (server_code ServerCode.ping)
