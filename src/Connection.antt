-- ===== src/Connection.antt =====
-- connection/connection.go: messages framed as a four-byte length and a payload.
pub mod Frames
use gosoulseek.Prelude.{ℕ, ◌*◌, ◌%◌, ◌^◌, ltb, if◌then◌else◌, Bytes, length, Option, none, some}
use gosoulseek.Protocol.Reader.{Reader, ReadError, source, read_full, eof}
use gosoulseek.Protocol.LittleEndian.{le_value}
use gosoulseek.Protocol.Writer.{Writer, Sink, ◌▸◌, write_uint32, write_bytes}

-- 100 MB
abbrev pub max_message_size : ℕ
max_message_size = 100 * 1024 * 1024

pub data FrameError : Type 0 where
  read_length : Option ReadError → FrameError
  too_large : ℕ → FrameError
  read_payload : Option ReadError → FrameError

pub data Frame : Type 0 where
  payload : Bytes → Frame
  failed : FrameError → Frame

-- `io.ReadFull(c.r, payload)`, once the length is known.
read_body : ℕ → Bytes → Frame × Bytes
read_body n stream =
    let (body, r) = read_full n (source stream) in
    elim body [ none ↦ (failed (read_payload r.err), r.rest) | some bs ↦ (payload bs, r.rest) ]

-- `ReadMessage` on what the peer still sends before it closes: the frame, and what is left.
unfoldable pub read_message : Bytes → Frame × Bytes
unfolding read_body
read_message stream =
    let (head, r) = read_full 4 (source stream) in
    elim head [
      | none ↦ (failed (read_length r.err), r.rest)
      | some bs ↦
          if ltb max_message_size (le_value bs)
          then (failed (too_large (le_value bs)), r.rest)
          else read_body (le_value bs) r.rest
    ]

-- `WriteMessage`: the length is cut to 32 bits. The sink is the buffered connection with its flush.
unfoldable pub write_message : Sink → Bytes → Writer → Writer
write_message sink bs w = w ▸ write_uint32 sink (length bs % 2 ^ 32) ▸ write_bytes sink bs
