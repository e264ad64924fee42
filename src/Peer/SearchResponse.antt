-- ===== src/Peer/SearchResponse.antt =====
-- messages/peer/searchresponse.go: the files that a peer offers for a search, compressed on the wire.
pub mod Layout
use gosoulseek.Prelude.{
  ℕ, zero, suc, ◌==◌, if◌then◌else◌, ltb, Bool, Bytes, List, [], ◌∷◌, length, drop, Option, none,
  some,
}
use gosoulseek.Protocol.Reader.{
  Reader, Read, ◌>>=◌, return, source, read_uint8, read_uint32, read_string, unless_failed,
}
use gosoulseek.Protocol.Decode.{Result, ok, err, too_short, decompress, finish}
use gosoulseek.Peer.File.{File, decode_file}

pub record SearchResponse : Type 0 where
  pub username : Bytes
  pub token : ℕ
  pub files : List File
  pub locked_files : List File
  pub has_free_slot : Bool
  pub upload_speed : ℕ
  pub queue_length : ℕ

-- `for range count { files = append(files, DecodeFile(r)) }`
read_files : ℕ → Read (List File)
read_files zero = return []
read_files (suc n) = do f ← decode_file; fs ← read_files n; return (f ∷ fs)

-- The lock list, read only where no error has come up; `LockedFiles` is nil otherwise.
read_locked : Read (List File)
read_locked = unless_failed [] (do count ← read_uint32; read_files count)

response_fields : Read SearchResponse
response_fields = do
  username ← read_string
  token ← read_uint32
  count ← read_uint32
  files ← read_files count
  slot ← read_uint8
  speed ← read_uint32
  queue ← read_uint32
  reserved ← unless_failed 0 read_uint32
  locked ← read_locked
  return (record {
    username = username;
    token = token;
    files = files;
    locked_files = locked;
    has_free_slot = slot == 1;
    upload_speed = speed;
    queue_length = queue;
  })

pub decode_search_response_payload : Bytes → Result SearchResponse
unfolding response_fields read_files read_locked
decode_search_response_payload bs = finish (response_fields (source bs))

-- `protocol.Decompress` reads zlib data by Go's compress/zlib; `none` is its error.
module _ (inflate : Bytes → Option Bytes) where
  pub decode_search_response : Bytes → Result SearchResponse
  unfolding decode_search_response_payload
  decode_search_response bs =
      if ltb (length bs) 4 then err (too_short (length bs)) else elim (inflate (drop 4 bs)) [
        | none ↦ err decompress
        | some payload ↦ decode_search_response_payload payload
      ]
