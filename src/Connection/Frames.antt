-- ===== src/Connection/Frames.antt =====
-- The framing of connection/connection.go: what is written is read, and what is read was written.
use gosoulseek.Prelude.{ℕ, zero, suc, ◌%◌, ◌^◌, ◌≤◌, ◌<◌, ◌≡◌, refl, arith, inl, inr}
use gosoulseek.Prelude.{
  List, [], ◌∷◌, ◌++◌, append_assoc, Bytes, length, take, All, All-take, map, Option-cases,
}
use gosoulseek.Protocol.LittleEndian.{
  le_bytes, le_value, length-le_bytes, le_value-le_bytes, le_bytes-le_value,
}
use gosoulseek.Protocol.Reader.{source, read_full}
use gosoulseek.Protocol.Reader.Methods.{read_full-append, read_full_inv}
use gosoulseek.Protocol.Writer.{buffer, clean}
use gosoulseek.Protocol.Writer.Buffer.{writes}
use gosoulseek.Connection.{Frame, payload, read_body, read_message, write_message, max_message_size}

-- What `write_message` puts on the connection.
unfoldable pub frame : Bytes → Bytes
frame bs = le_bytes 4 (length bs % 2 ^ 32) ++ bs

pub write_message-buffer :
    (bs o : Bytes) → write_message buffer bs (clean o) ≡ clean (o ++ frame bs)
unfolding write_message frame
write_message-buffer bs o = simp (writes, append_assoc)

read_message-head :
    (n : ℕ) (rest : Bytes)
    → n ≤ max_message_size
    → read_message (le_bytes 4 n ++ rest) ≡ read_body n rest
unfolding read_message
read_message-head n rest h =
    let full = rw length-le_bytes at (read_full-append (le_bytes 4 n) rest) in
    ground (arith, full, le_value-le_bytes 4 n)

read_body-append : (bs rest : Bytes) → read_body (length bs) (bs ++ rest) ≡ (payload bs, rest)
unfolding read_body
read_body-append bs rest = ground (arith, read_full-append bs rest)

pub read_message-frame :
    (bs rest : Bytes)
    → length bs ≤ max_message_size
    → read_message (frame bs ++ rest) ≡ (payload bs, rest)
unfolding frame
read_message-frame bs rest h =
    let small : length bs % 2 ^ 32 ≡ length bs = omega arith in
    rw (append_assoc, small, read_message-head (length bs) (bs ++ rest) h)
      (read_body-append bs rest)

-- The frames of several messages, one after the other.
unfoldable pub frames : List Bytes → Bytes
frames [] = []
frames (m ∷ ms) = frame m ++ frames ms

-- As many calls of `ReadMessage` as there are messages.
pub read_messages : ℕ → Bytes → List Frame × Bytes
read_messages zero stream = ([], stream)
read_messages (suc n) stream =
    let (f, rest) = read_message stream in let (fs, left) = read_messages n rest in (f ∷ fs, left)

-- Messages of at most 100 MB each, written one after the other, are read back one by one, and what
-- follows them stays on the connection.
pub read_messages-frames :
    (ms : List Bytes) (rest : Bytes)
    → All (λ m. length m ≤ max_message_size) ms
    → read_messages (length ms) (frames ms ++ rest) ≡ (map payload ms, rest)
unfolding read_messages frames
read_messages-frames [] rest h = refl
read_messages-frames (m ∷ ms) rest (hm, h) = rw (
  append_assoc (frame m) (frames ms) rest,
  read_message-frame m (frames ms ++ rest) hm,
  read_messages-frames ms rest h,
)

read_body_inv :
    (n : ℕ) (stream p rest : Bytes)
    → read_body n stream ≡ (payload p, rest)
    → (length p ≡ n) × (p ++ rest ≡ stream)
unfolding read_body
read_body_inv n stream p rest h = ground (arith, read_full_inv n stream p)

-- A message that is read from a stream of bytes is at most 100 MB long, and its frame and what is
-- left make up the stream.
pub read_message_sound :
    (stream p rest : Bytes)
    → All (λ b. b < 256) stream
    → read_message stream ≡ (payload p, rest)
    → (length p ≤ max_message_size) × (frame p ++ rest ≡ stream)
unfolding read_message frame
read_message_sound stream p rest bytes h = elim (Option-cases (read_full 4 (source stream)).0) [
  | inl short ↦ absurd (ground arith)
  | inr (head, e) ↦
      let (cut, four, split) = read_full_inv 4 stream head e in
      let back = le_bytes-le_value (take 4 stream) (All-take _ 4 stream bytes) in
      let body = read_body_inv (le_value head) (read_full 4 (source stream)).1.rest p rest in
      ground (arith, back, body, append_assoc (le_bytes 4 (length p % 2 ^ 32)) p rest)
]
