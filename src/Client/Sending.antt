-- ===== src/Client/Sending.antt =====
-- `streamFile` of client/upload.go: the peer's offset is read, and the shared file's bytes go from there
-- to the connection. What the outside does is given: the file's content when it is opened, the errors of
-- the calls, and for each pass of the loop how many bytes a read of the file gives.
pub mod Account
pub mod Results
use gosoulseek.Prelude.{ℕ, ◌+◌, ◌*◌, ◌==◌, min, if◌then◌else◌, Bool, true, false, ltb}
use gosoulseek.Prelude.{Bytes, List, [], ◌∷◌, ◌++◌, length, take, drop, Option, none, some}
use gosoulseek.Prelude.Int.{ℤ, pos, pos_part, ◌+ℤ◌, ◌-ℤ◌, ltbℤ, wrap_int64, to_int64}
use gosoulseek.Protocol.LittleEndian.{le_value}
use gosoulseek.Protocol.Reader.{ReadError, Reader, source, read_full, eof}
use gosoulseek.Client.Errors.{TransferError, connection_error, eof_error, wrapped, other}
use gosoulseek.Client.TransferState.{codes}
use gosoulseek.Client.SharedFile.{SharedFile}
use gosoulseek.Client.Transfer.{Transfer, update_progress, emit_progress}
use gosoulseek.Client.Receiving.{Run, waiting, crashed, returned, buffer_size, position}

pub record SendPass : Type 0 where
  pub now : ℕ
  pub context_error : Option TransferError
  pub read_error : Option TransferError
  pub at_hand : ℕ
  pub write_error : Option TransferError

-- `file` is what is left to read, `outgoing` what the connection has taken.
pub record Sending : Type 0 where
  pub file : Bytes
  pub outgoing : Bytes
  pub sent : ℕ
  pub transfer : Transfer

-- `os.Open`
pub data Opened : Type 0 where
  opened : Bytes → Opened
  unopened : TransferError → Opened

-- What the calls before the loop answer.
pub record Outside : Type 0 where
  pub read_deadline : Option TransferError
  pub offset_error : Option TransferError
  pub disk : Bytes → Opened
  pub seek_error : Option TransferError
  pub clear_deadline : Option TransferError

module _ (size offset to_send : ℤ) where
  unfoldable pub to_read : Sending → ℕ
  to_read s = min buffer_size (pos_part (to_send -ℤ pos s.sent))

  -- The chunk has gone out: it is counted and reported; `none` is a panic.
  count_chunk : ℕ → Bytes → Sending → Option Sending
  count_chunk now chunk s =
      let sent = s.sent + length chunk in
      elim (emit_progress (update_progress now (position offset sent) s.transfer)) [
        | none ↦ none
        | some told ↦ some (record {
          file = drop (length chunk) s.file;
          outgoing = s.outgoing ++ chunk;
          sent = sent;
          transfer = told;
        })
      ]

  -- The loop: a read that gives nothing ends it without an error.
  unfoldable pub send_file : List SendPass → Sending → Run Sending
  unfolding to_read count_chunk
  send_file [] s = if ltbℤ (pos s.sent) to_send then waiting s else returned none s
  send_file (pass ∷ passes) s = elim (ltbℤ (pos s.sent) to_send) [
    | false ↦ returned none s
    | true ↦ elim pass.context_error [
      | some e ↦ returned (some e) s
      | none ↦ elim pass.read_error [
        | some e ↦ returned (some (wrapped (codes "read file") e)) s
        | none ↦
            let chunk = take (min pass.at_hand (to_read s)) s.file in
            elim (length chunk == 0) [
              | true ↦ returned none s
              | false ↦ elim pass.write_error [
                | some e ↦
                    returned
                      (some (connection_error (codes "write") (position offset s.sent) size e)) s
                | none ↦ elim (count_chunk pass.now chunk s) [
                  | none ↦ crashed
                  | some t ↦ send_file passes t
                ]
              ]
            ]
      ]
    ]
  ]

-- The file from the offset on: `Seek` is called for a positive one only.
unfoldable pub from_offset : ℤ → Bytes → Bytes
from_offset offset content = drop (pos_part offset) content

-- The file is opened, and its bytes are sent.
send_content : Outside → List SendPass → ℤ → Opened → Transfer → Run Sending
unfolding send_file from_offset
send_content w passes offset (unopened e) tr =
    returned (some (wrapped (codes "open file") e))
      (record { file = []; outgoing = []; sent = 0; transfer = tr })
send_content w passes offset (opened content) tr =
    let at_start : Sending = record { file = content; outgoing = []; sent = 0; transfer = tr } in
    let placed : Sending = record at_start { file = from_offset offset content } in
    elim (if ltbℤ (pos 0) offset then w.seek_error else none) [
      | some e ↦ returned (some (wrapped (codes "seek") e)) at_start
      | none ↦ elim w.clear_deadline [
        | some e ↦ returned (some e) placed
        | none ↦ send_file tr.size offset (wrap_int64 (tr.size -ℤ offset)) passes placed
      ]
    ]

-- The offset is in: it is refused beyond the size, and is noted otherwise.
send_from : Outside → List SendPass → ℤ → Transfer → Run Sending
unfolding send_content
send_from w passes offset tr =
    let idle : Sending = record { file = []; outgoing = []; sent = 0; transfer = tr } in
    let noted = record tr { start_offset = offset; transferred = offset } in
    if ltbℤ tr.size offset
    then returned (some (other (codes "invalid offset"))) idle
    else elim tr.shared_file [
      | none ↦
          returned (some (other (codes "no shared file set"))) (record idle { transfer = noted })
      | some sf ↦ send_content w passes offset (w.disk sf.local_path) noted
    ]

-- The error of `io.ReadFull` on a connection that was closed too early.
unfoldable pub short_read : Option ReadError → TransferError
short_read (some eof) = eof_error
short_read _ = other (codes "unexpected EOF")

-- `streamFile`, on what the peer sends before it closes.
unfoldable pub stream_file : Outside → List SendPass → Bytes → Transfer → Run Sending
unfolding send_from short_read
stream_file w passes incoming tr =
    let idle : Sending = record { file = []; outgoing = []; sent = 0; transfer = tr } in
    elim w.read_deadline [
      | some e ↦ returned (some e) idle
      | none ↦ elim w.offset_error [
        | some e ↦ returned (some (wrapped (codes "read offset") e)) idle
        | none ↦
            let (head, r) = read_full 8 (source incoming) in
            elim head [
              | none ↦ returned (some (wrapped (codes "read offset") (short_read r.err))) idle
              | some bs ↦ send_from w passes (to_int64 (le_value bs)) tr
            ]
      ]
    ]
