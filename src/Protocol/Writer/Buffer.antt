-- ===== src/Protocol/Writer/Buffer.antt =====
-- What the methods of protocol/writer.go write into a buffer.
use gosoulseek.Prelude.{ℕ, ◌%◌, ◌^◌, ◌≡◌, refl, ap, ◌++◌, append_assoc, Bytes, length, arith}
use gosoulseek.Prelude.{some}
use gosoulseek.Protocol.LittleEndian.{le_bytes}
use gosoulseek.Protocol.Writer.{
  Writer, WriteError, Sink, buffer, clean, write_bytes, write_uint8, write_uint32, write_uint64,
  write_string,
}

-- The bytes of a string on the wire.
unfoldable pub string_bytes : Bytes → Bytes
string_bytes s = le_bytes 4 (length s % 2 ^ 32) ++ s

pub write_bytes-buffer : (b o : Bytes) → write_bytes buffer b (clean o) ≡ clean (o ++ b)
unfolding write_bytes
write_bytes-buffer b o = refl

pub write_uint8-buffer :
    (v : ℕ) (o : Bytes) → write_uint8 buffer v (clean o) ≡ clean (o ++ le_bytes 1 v)
unfolding write_uint8
write_uint8-buffer v o = refl

pub write_uint32-buffer :
    (v : ℕ) (o : Bytes) → write_uint32 buffer v (clean o) ≡ clean (o ++ le_bytes 4 v)
unfolding write_uint32
write_uint32-buffer v o = refl

pub write_uint64-buffer :
    (v : ℕ) (o : Bytes) → write_uint64 buffer v (clean o) ≡ clean (o ++ le_bytes 8 v)
unfolding write_uint64
write_uint64-buffer v o = refl

pub write_string-buffer :
    (s o : Bytes) → write_string buffer s (clean o) ≡ clean (o ++ string_bytes s)
unfolding write_string string_bytes
write_string-buffer s o = ap clean (append_assoc o (le_bytes 4 (length s % 2 ^ 32)) s)

pub ruleset writes = (
  write_bytes-buffer, write_uint8-buffer, write_uint32-buffer, write_uint64-buffer,
  write_string-buffer,
)

-- After an error every method is a no-op, whatever the underlying writer does.
pub write_after_error :
    (sink : Sink) (w : Writer) (e : WriteError) (v : ℕ) (s : Bytes)
    → w.err ≡ some e
    → (write_uint8 sink v w ≡ w)
      × (write_uint32 sink v w ≡ w)
      × (write_uint64 sink v w ≡ w)
      × (write_string sink s w ≡ w)
      × (write_bytes sink s w ≡ w)
unfolding write_uint8 write_uint32 write_uint64 write_string write_bytes
write_after_error sink w e v s h = ground arith
