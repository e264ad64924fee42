-- ===== src/Peer/File/RoundTrip.antt =====
-- A file is decoded as it was encoded, with its convenience fields taken from its attributes.
use gosoulseek.Prelude.{
  ℕ, zero, suc, ◌%◌, ◌^◌, ◌<◌, ◌≡◌, refl, ap, ◌∙◌, sym, arith, ◌==◌, if◌then◌else◌,
}
use gosoulseek.Prelude.{
  [], ◌∷◌, ◌++◌, append_assoc, append-nil, Bytes, List, length, All, Bool, false,
}
use gosoulseek.Prelude.Int.{to_uint64, IsInt64}
use gosoulseek.Protocol.LittleEndian.{le_bytes}
use gosoulseek.Protocol.Reader.{IsUint32, IsShort, source}
use gosoulseek.Protocol.Reader.Locality.{Parses, Reads}
use gosoulseek.Protocol.Reader.Methods.{
  reads, read_uint8-Parses, read_uint32-Parses, read_string-Parses, read_int64-Parses,
}
use gosoulseek.Protocol.Writer.{Writer, buffer, clean}
use gosoulseek.Protocol.Writer.Buffer.{string_bytes, writes}
use gosoulseek.Peer.File.{
  File, FileAttribute, add_attribute, read_attributes, bare_file, decode_file, write_attributes,
  encode_file, attribute_bit_rate, attribute_length, attribute_bit_depth, attribute_sample_rate,
  attribute_vbr,
}
use mathlib.Core.List.{foldl}

abbrev pub IsWireAttribute : FileAttribute → Type 0
IsWireAttribute a = IsUint32 a.type × IsUint32 a.value

-- The file that the loop of the decoder builds from the plain fields and the attributes of `f`.
abbrev pub reparsed : File → File
reparsed f = foldl add_attribute (bare_file f.code f.filename f.size f.extension) f.attributes

-- The fields that stand on the wire fit it.
pub record IsWirePlain (f : File) : Type 0 where
  pub code : f.code < 2 ^ 8
  pub filename : IsShort f.filename
  pub size : IsInt64 f.size
  pub extension : IsShort f.extension
  pub count : IsUint32 (length f.attributes)
  pub attributes : All IsWireAttribute f.attributes

-- The convenience fields are those of the attributes.
abbrev pub IsParsed : File → Type 0
IsParsed f = reparsed f ≡ f

-- The value of the last attribute of a type, or else a default.
abbrev pub last_value : ℕ → List FileAttribute → ℕ → ℕ
last_value t [] default = default
last_value t (a ∷ attrs) default = last_value t attrs (if a.type == t then a.value else default)

-- Whether the last attribute of a type has the value 1, or else a default.
abbrev pub last_is_one : ℕ → List FileAttribute → Bool → Bool
last_is_one t [] default = default
last_is_one t (a ∷ attrs) default =
    last_is_one t attrs (if a.type == t then a.value == 1 else default)

unfoldable pub attributes_body : List FileAttribute → Bytes
attributes_body [] = []
attributes_body (a ∷ attrs) = le_bytes 4 a.type ++ (le_bytes 4 a.value ++ attributes_body attrs)

unfoldable pub file_body : File → Bytes
file_body f =
    le_bytes 1 f.code
    ++ (string_bytes f.filename
        ++ (le_bytes 8 (to_uint64 f.size)
            ++ (string_bytes f.extension
                ++ (le_bytes 4 (length f.attributes % 2 ^ 32) ++ attributes_body f.attributes))))

read_attributes-Reads : (n : ℕ) (f : File) → Reads (read_attributes n f)
unfolding read_attributes
read_attributes-Reads zero f = search reads
read_attributes-Reads (suc n) f =
    let ih =
      λ (t v : ℕ). read_attributes-Reads n (add_attribute f (record { type = t; value = v })) in
    search (reads, ih) depth 12

pub decode_file-Reads : Reads decode_file
unfolding decode_file
decode_file-Reads = search (reads, read_attributes-Reads) depth 14

read_attributes-Parses :
    (attrs : List FileAttribute) (f : File)
    → All IsWireAttribute attrs
    → Parses
        (read_attributes (length attrs) f)
        (attributes_body attrs)
        (foldl add_attribute f attrs)
unfolding read_attributes attributes_body
read_attributes-Parses [] f h rest = refl
read_attributes-Parses (a ∷ attrs) f ((ht, hv), h) rest =
    simp (append_assoc, read_uint32-Parses a.type ht, read_uint32-Parses a.value hv)
      (read_attributes-Parses attrs (add_attribute f a) h rest)

pub decode_file-reparsed :
    (f : File) → IsWirePlain f → Parses decode_file (file_body f) (reparsed f)
unfolding decode_file file_body
decode_file-reparsed f v rest =
    let small : length f.attributes % 2 ^ 32 ≡ length f.attributes = omega (arith, v.count) in
    simp
      (
        append_assoc,
        small,
        read_uint8-Parses f.code v.code,
        read_string-Parses f.filename v.filename,
        read_int64-Parses f.size v.size,
        read_string-Parses f.extension v.extension,
        read_uint32-Parses (length f.attributes) v.count,
      )
      (read_attributes-Parses f.attributes (bare_file f.code f.filename f.size f.extension)
        v.attributes rest)

pub decode_file-Parses :
    (f : File) → IsWirePlain f → IsParsed f → Parses decode_file (file_body f) f
decode_file-Parses f v parsed rest =
    decode_file-reparsed f v rest ∙ ap (λ g. (g, source rest)) parsed

write_attributes-buffer :
    (attrs : List FileAttribute) (o : Bytes)
    → write_attributes buffer attrs (clean o) ≡ clean (o ++ attributes_body attrs)
unfolding write_attributes attributes_body
write_attributes-buffer [] o = ap clean (sym (append-nil o))
write_attributes-buffer (a ∷ attrs) o = simp (writes, write_attributes-buffer attrs, append_assoc)

pub encode_file-buffer :
    (f : File) (o : Bytes) → encode_file buffer f (clean o) ≡ clean (o ++ file_body f)
unfolding encode_file file_body
encode_file-buffer f o = simp (writes, write_attributes-buffer f.attributes, append_assoc)

encoded_file : (f : File) → (encode_file buffer f (clean [])).out ≡ file_body f
encoded_file f = ap (λ (w : Writer). w.out) (encode_file-buffer f [])

-- A file whose fields fit the wire, and whose convenience fields are those of its attributes, is
-- decoded as it was encoded, and the reader stands behind it.
pub file_roundtrip :
    (f : File) (rest : Bytes)
    → IsWirePlain f
    → IsParsed f
    → decode_file (source ((encode_file buffer f (clean [])).out ++ rest)) ≡ (f, source rest)
file_roundtrip f rest v parsed = rw (encoded_file f) (decode_file-Parses f v parsed rest)

-- What the loop leaves in each field, from any file that it starts at.
record Populated (f g : File) (attrs : List FileAttribute) : Type 0 where
  plain :
      (g.code ≡ f.code)
      × (g.filename ≡ f.filename)
      × (g.size ≡ f.size)
      × (g.extension ≡ f.extension)
  attributes : g.attributes ≡ f.attributes ++ attrs
  bit_rate : g.bit_rate ≡ last_value attribute_bit_rate attrs f.bit_rate
  duration : g.duration ≡ last_value attribute_length attrs f.duration
  bit_depth : g.bit_depth ≡ last_value attribute_bit_depth attrs f.bit_depth
  sample_rate : g.sample_rate ≡ last_value attribute_sample_rate attrs f.sample_rate
  is_vbr : g.is_vbr ≡ last_is_one attribute_vbr attrs f.is_vbr

foldl-Populated :
    (attrs : List FileAttribute) (f : File) → Populated f (foldl add_attribute f attrs) attrs
unfolding add_attribute
foldl-Populated [] f = record {
  plain = (refl, refl, refl, refl);
  attributes = sym (append-nil f.attributes);
  bit_rate = refl;
  duration = refl;
  bit_depth = refl;
  sample_rate = refl;
  is_vbr = refl;
}
foldl-Populated (a ∷ attrs) f =
    ground
      (arith, foldl-Populated attrs (add_attribute f a), append_assoc f.attributes (a ∷ []) attrs)

-- Of a file whose fields fit the wire, the decoder returns the plain fields and the attributes, and
-- sets each convenience field to the value of the last attribute of its type: 0 where there is none,
-- and for the variable bit rate whether that value is 1.
pub decode_file_convenience :
    (f : File) (rest : Bytes)
    → IsWirePlain f
    → let g = (decode_file (source ((encode_file buffer f (clean [])).out ++ rest))).0 in
      (g.code ≡ f.code)
      × (g.filename ≡ f.filename)
      × (g.size ≡ f.size)
      × (g.extension ≡ f.extension)
      × (g.attributes ≡ f.attributes)
      × (g.bit_rate ≡ last_value attribute_bit_rate f.attributes 0)
      × (g.duration ≡ last_value attribute_length f.attributes 0)
      × (g.bit_depth ≡ last_value attribute_bit_depth f.attributes 0)
      × (g.sample_rate ≡ last_value attribute_sample_rate f.attributes 0)
      × (g.is_vbr ≡ last_is_one attribute_vbr f.attributes false)
decode_file_convenience f rest v =
    let p = foldl-Populated f.attributes (bare_file f.code f.filename f.size f.extension) in
    rw (encoded_file f, decode_file-reparsed f v rest)
      (
        p.plain.0, p.plain.1, p.plain.2, p.plain.3, p.attributes, p.bit_rate, p.duration,
        p.bit_depth, p.sample_rate, p.is_vbr,
      )
