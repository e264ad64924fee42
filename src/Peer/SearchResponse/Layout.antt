-- ===== src/Peer/SearchResponse/Layout.antt =====
-- The layout that the search response decoder accepts, and what it makes of cut payloads.
use gosoulseek.Prelude.{ℕ, zero, suc, ◌^◌, ◌<◌, ◌≡◌, ◌≢◌, refl, arith, ◌==◌}
use gosoulseek.Prelude.{
  [], ◌∷◌, ◌++◌, append_assoc, append-nil, Bytes, List, length, length-append, All, Bool, true,
  false, Option, some, le→ltb, drop,
}
use gosoulseek.Protocol.LittleEndian.{le_bytes, length-le_bytes}
use gosoulseek.Protocol.Reader.{IsUint32, IsShort, source, read_uint32}
use gosoulseek.Protocol.Reader.Locality.{
  Parses, Reads, Parses-truncated, unless_failed-Reads, bind-IsLocal, bind-Reads, return-Reads,
}
use gosoulseek.Protocol.Reader.Methods.{
  read_string-Reads, read_uint8-Reads, read_uint8-Parses, read_uint32-Parses, read_string-Parses,
  read_uint32-Reads,
}
use gosoulseek.Protocol.Writer.Buffer.{string_bytes}
use gosoulseek.Protocol.Decode.{ok}
use gosoulseek.Peer.File.{File, decode_file}
use gosoulseek.Peer.File.RoundTrip.{
  IsWirePlain, IsParsed, file_body, decode_file-Parses, decode_file-Reads,
}
use gosoulseek.Peer.SearchResponse.{
  SearchResponse, read_files, read_locked, response_fields, decode_search_response_payload,
  decode_search_response,
}

abbrev pub IsWireFile : File → Type 0
IsWireFile f = IsWirePlain f × IsParsed f

pub record IsWireSearch (m : SearchResponse) : Type 0 where
  pub username : IsShort m.username
  pub token : IsUint32 m.token
  pub file_count : IsUint32 (length m.files)
  pub files : All IsWireFile m.files
  pub locked_count : IsUint32 (length m.locked_files)
  pub locked_files : All IsWireFile m.locked_files
  pub upload_speed : IsUint32 m.upload_speed
  pub queue_length : IsUint32 m.queue_length

unfoldable pub files_body : List File → Bytes
files_body [] = []
files_body (f ∷ fs) = file_body f ++ files_body fs

abbrev pub flag_byte : Bool → ℕ
flag_byte true = 1
flag_byte false = 0

-- The payload up to the length of the queue, and the rest of it: a reserved word and the locked files.
unfoldable pub public_part : SearchResponse → Bytes
public_part m =
    string_bytes m.username
    ++ (le_bytes 4 m.token
        ++ (le_bytes 4 (length m.files)
            ++ (files_body m.files
                ++ (le_bytes 1 (flag_byte m.has_free_slot)
                    ++ (le_bytes 4 m.upload_speed ++ le_bytes 4 m.queue_length)))))

unfoldable pub locked_part : SearchResponse → ℕ → Bytes
locked_part m reserved =
    le_bytes 4 reserved ++ (le_bytes 4 (length m.locked_files) ++ files_body m.locked_files)

read_files-Reads : (n : ℕ) → Reads (read_files n)
unfolding read_files
read_files-Reads zero = return-Reads []
read_files-Reads (suc n) =
    bind-Reads decode_file _ decode_file-Reads
      λ f. bind-Reads (read_files n) _ (read_files-Reads n) λ fs. return-Reads (f ∷ fs)

read_locked-Reads : Reads read_locked
unfolding read_locked
read_locked-Reads =
    unless_failed-Reads [] _
      (bind-IsLocal read_uint32 read_files read_uint32-Reads.local read_files-Reads)

response_fields-Reads : Reads response_fields
unfolding response_fields
response_fields-Reads = bind-Reads _ _ read_string-Reads λ username.
    bind-Reads _ _ read_uint32-Reads λ token. bind-Reads _ _ read_uint32-Reads λ count.
      bind-Reads _ _ (read_files-Reads count) λ files. bind-Reads _ _ read_uint8-Reads λ slot.
        bind-Reads _ _ read_uint32-Reads λ speed. bind-Reads _ _ read_uint32-Reads λ queue.
          bind-Reads _ _ (unless_failed-Reads 0 read_uint32 read_uint32-Reads.local) λ reserved.
            bind-Reads _ _ read_locked-Reads λ locked. return-Reads (record {
              username = username;
              token = token;
              files = files;
              locked_files = locked;
              has_free_slot = slot == 1;
              upload_speed = speed;
              queue_length = queue;
            })

read_files-Parses :
    (fs : List File) → All IsWireFile fs → Parses (read_files (length fs)) (files_body fs) fs
unfolding read_files files_body
read_files-Parses [] h rest = refl
read_files-Parses (f ∷ fs) ((plain, parsed), h) rest = rw (
  append_assoc (file_body f) (files_body fs) rest,
  decode_file-Parses f plain parsed (files_body fs ++ rest),
  read_files-Parses fs h rest,
)

read_locked-Parses :
    (fs : List File) (rest : Bytes)
    → IsUint32 (length fs)
    → All IsWireFile fs
    → read_locked (source (le_bytes 4 (length fs) ++ (files_body fs ++ rest))) ≡ (fs, source rest)
unfolding read_locked
read_locked-Parses fs rest c h =
    rw (read_uint32-Parses (length fs) c (files_body fs ++ rest), read_files-Parses fs h rest)

flag_back : (b : Bool) → (flag_byte b == 1) ≡ b
flag_back true = refl
flag_back false = refl

flag_small : (b : Bool) → flag_byte b < 2 ^ 8
flag_small true = omega arith
flag_small false = omega arith

response_fields-Parses :
    (m : SearchResponse) (reserved : ℕ)
    → IsWireSearch m
    → IsUint32 reserved
    → Parses response_fields (public_part m ++ locked_part m reserved) m
unfolding response_fields public_part locked_part
response_fields-Parses m reserved v hr rest = simp (
  append_assoc,
  read_string-Parses m.username v.username,
  read_uint32-Parses m.token v.token,
  read_uint32-Parses (length m.files) v.file_count,
  read_files-Parses m.files v.files,
  read_uint8-Parses (flag_byte m.has_free_slot) (flag_small m.has_free_slot),
  read_uint32-Parses m.upload_speed v.upload_speed,
  read_uint32-Parses m.queue_length v.queue_length,
  read_uint32-Parses reserved hr,
  read_locked-Parses m.locked_files rest v.locked_count v.locked_files,
  flag_back,
)

-- A search response whose fields fit the wire, with any reserved word, is decoded from its layout,
-- whatever bytes follow it.
pub search_response_layout :
    (m : SearchResponse) (reserved : ℕ) (rest : Bytes)
    → IsWireSearch m
    → IsUint32 reserved
    → decode_search_response_payload (public_part m ++ locked_part m reserved ++ rest) ≡ ok m
unfolding decode_search_response_payload
search_response_layout m reserved rest v hr = rw (response_fields-Parses m reserved v hr rest)

-- A payload that ends anywhere before its last byte is refused, also one that ends before the locked
-- files or before the reserved word.
pub search_response_truncated :
    (m other : SearchResponse) (reserved : ℕ) (front : Bytes) (x : ℕ) (back : Bytes)
    → IsWireSearch m
    → IsUint32 reserved
    → public_part m ++ locked_part m reserved ≡ front ++ (x ∷ back)
    → decode_search_response_payload front ≢ ok other
unfolding decode_search_response_payload
search_response_truncated m other reserved front x back v hr e h =
    Parses-truncated response_fields _ m front x back response_fields-Reads
      (response_fields-Parses m reserved v hr) e (ground arith)

-- So a response without the optional part at its end is refused, whatever it offers.
pub public_part_refused :
    (m other : SearchResponse)
    → IsWireSearch m
    → decode_search_response_payload (public_part m) ≢ ok other
unfolding locked_part le_bytes
public_part_refused m other v =
    search_response_truncated m other 0 (public_part m) 0 _ v (omega arith) refl

skip_code : (code : ℕ) (bs : Bytes) → drop 4 (le_bytes 4 code ++ bs) ≡ bs
unfolding le_bytes
skip_code code bs = refl

-- If `inflate` undoes `deflate`, as zlib's two directions do, a response that a peer compresses behind
-- its four-byte code is decoded as it was laid out.
pub search_response_roundtrip :
    (inflate : Bytes → Option Bytes) (deflate : Bytes → Bytes)
    → ((bs : Bytes) → inflate (deflate bs) ≡ some bs)
    → (m : SearchResponse) (code reserved : ℕ) → IsWireSearch m
    → IsUint32 reserved
    → decode_search_response inflate
        (le_bytes 4 code ++ deflate (public_part m ++ locked_part m reserved))
      ≡ ok m
unfolding decode_search_response
search_response_roundtrip inflate deflate undoes m code reserved v hr =
    let body = public_part m ++ locked_part m reserved in
    let whole = rw append-nil at (search_response_layout m reserved [] v hr) in
    rw (
      le→ltb (length (le_bytes 4 code ++ deflate body)) 4
          (omega (arith, length-append (le_bytes 4 code) (deflate body), length-le_bytes 4 code)),
      skip_code code (deflate body),
      undoes body,
      whole,
    )
