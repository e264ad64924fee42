-- ===== src/Peer/File.antt =====
-- messages/peer/file.go: a file of a search result, with its attributes.
pub mod RoundTrip
use gosoulseek.Prelude.{
  ℕ, zero, suc, ◌%◌, ◌^◌, ◌==◌, if◌then◌else◌, Bool, false, Bytes, List, [], ◌∷◌, ◌++◌, length,
}
use gosoulseek.Prelude.Int.{ℤ, to_uint64}
use gosoulseek.Protocol.Reader.{
  Read, ◌>>=◌, return, read_uint8, read_uint32, read_int64, read_string,
}
use gosoulseek.Protocol.Writer.{
  Writer, Sink, ◌▸◌, write_uint8, write_uint32, write_uint64, write_string,
}

-- The constants of `AttributeType`.
abbrev pub attribute_bit_rate : ℕ
attribute_bit_rate = 0

abbrev pub attribute_length : ℕ
attribute_length = 1

abbrev pub attribute_bit_depth : ℕ
attribute_bit_depth = 2

abbrev pub attribute_sample_rate : ℕ
attribute_sample_rate = 4

abbrev pub attribute_vbr : ℕ
attribute_vbr = 5

pub record FileAttribute : Type 0 where
  pub type : ℕ
  pub value : ℕ

pub record File : Type 0 where
  pub code : ℕ
  pub filename : Bytes
  pub size : ℤ
  pub extension : Bytes
  pub attributes : List FileAttribute
  pub bit_rate : ℕ
  pub duration : ℕ
  pub bit_depth : ℕ
  pub sample_rate : ℕ
  pub is_vbr : Bool

-- The switch that fills the convenience fields.
populate : FileAttribute → File → File
populate a f =
    if a.type == attribute_bit_rate
    then record f { bit_rate = a.value }
    else if a.type == attribute_length
    then record f { duration = a.value }
    else if a.type == attribute_bit_depth
    then record f { bit_depth = a.value }
    else if a.type == attribute_sample_rate
    then record f { sample_rate = a.value }
    else if a.type == attribute_vbr
    then record f { is_vbr = a.value == 1 }
    else f

-- One round of the loop: the attribute is appended, then its field is set.
unfoldable pub add_attribute : File → FileAttribute → File
unfolding populate
add_attribute f a = populate a (record f { attributes = f.attributes ++ (a ∷ []) })

-- `for range attrCount`: the loop makes its rounds also after an error, on zero values.
read_attributes : ℕ → File → Read File
read_attributes zero f = return f
read_attributes (suc n) f = do
  type ← read_uint32
  value ← read_uint32
  read_attributes n (add_attribute f (record { type = type; value = value }))

-- A file with no attribute read yet.
abbrev pub bare_file : ℕ → Bytes → ℤ → Bytes → File
bare_file code filename size extension = record {
  code = code;
  filename = filename;
  size = size;
  extension = extension;
  attributes = [];
  bit_rate = 0;
  duration = 0;
  bit_depth = 0;
  sample_rate = 0;
  is_vbr = false;
}

pub decode_file : Read File
unfolding read_attributes
decode_file = do
  code ← read_uint8
  filename ← read_string
  size ← read_int64
  extension ← read_string
  count ← read_uint32
  read_attributes count (bare_file code filename size extension)

module _ (sink : Sink) where
  write_attributes : List FileAttribute → Writer → Writer
  write_attributes [] w = w
  write_attributes (a ∷ attrs) w =
      write_attributes attrs (w ▸ write_uint32 sink a.type ▸ write_uint32 sink a.value)

  pub encode_file : File → Writer → Writer
  unfolding write_attributes
  encode_file f w =
      w
      ▸ write_uint8 sink f.code
      ▸ write_string sink f.filename
      ▸ write_uint64 sink (to_uint64 f.size)
      ▸ write_string sink f.extension
      ▸ write_uint32 sink (length f.attributes % 2 ^ 32)
      ▸ write_attributes f.attributes
