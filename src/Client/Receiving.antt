-- ===== src/Client/Receiving.antt =====
-- `transferData` of client/download.go: the offset is asked for, then the file's bytes are handed from
-- the connection to the writer. The writer is the caller's. A pass of the loop meets what the outside
-- does in it: the clock, the context, the deadline call, and how many bytes are at hand.
pub mod Amount
pub mod Finishing
pub mod Results
use gosoulseek.Prelude.{ℕ, ◌+◌, ◌*◌, ◌==◌, min, if◌then◌else◌, Bool, true, false, ◌&&◌}
use gosoulseek.Prelude.{Bytes, List, [], ◌∷◌, ◌++◌, length, take, drop, Option, none, some}
use gosoulseek.Prelude.Int.{ℤ, pos, pos_part, ◌+ℤ◌, ◌-ℤ◌, ltbℤ, eqbℤ, wrap_int64, to_uint64}
use gosoulseek.Protocol.LittleEndian.{le_bytes}
use gosoulseek.Client.Errors.{TransferError, connection_error, eof_error, wrapped, is_eof}
use gosoulseek.Client.TransferState.{codes, in_progress}
use gosoulseek.Client.Transfer.{Transfer, set_state, update_progress, emit_progress}

-- How far a loop has come: it still waits, the program has panicked, or it has returned.
pub data Run (A : Type 0) : Type 0 where
  waiting : A → Run A
  crashed : Run A
  returned : Option TransferError → A → Run A

pub record Pass : Type 0 where
  pub now : ℕ
  pub context_error : Option TransferError
  pub deadline_error : Option TransferError
  pub read_error : Option TransferError
  pub at_hand : ℕ

-- An `io.Writer`: from what it has taken so far and a slice, what it has taken then, and an error.
abbrev pub FileWriter : Type 0
FileWriter = Bytes → Bytes → Bytes × Option TransferError

-- `incoming` is what the peer sends before it closes, `written` what the writer has taken.
pub record Received : Type 0 where
  pub incoming : Bytes
  pub written : Bytes
  pub received : ℕ
  pub transfer : Transfer

-- What `conn.Read` into `limit` bytes hands out: some of what is at hand, or an error.
pub read_chunk : ℕ → Pass → Bytes → Option TransferError × Bytes
read_chunk limit pass incoming = elim pass.read_error [
  | some e ↦ (some e, [])
  | none ↦
      if length incoming == 0
      then (some eof_error, [])
      else (none, take (min pass.at_hand limit) incoming)
]

-- 64 KB
abbrev pub buffer_size : ℕ
buffer_size = 64 * 1024

-- `startOffset + received`
abbrev pub position : ℤ → ℕ → ℤ
position start received = wrap_int64 (start +ℤ pos received)

module _ (writer : FileWriter) (size start to_receive : ℤ) where
  -- An error of `Read`: the end of the file after the last byte is none.
  read_failed : TransferError → Received → Run Received
  read_failed e s =
      if is_eof e && eqbℤ (pos s.received) to_receive
      then returned none s
      else returned (some (connection_error (codes "read") (position start s.received) size e)) s

  -- The chunk is written, counted, and reported; `none` is a panic.
  take_chunk : ℕ → Bytes → Received → (Option TransferError × Option Received)
  take_chunk now chunk s =
      let (written, e) = writer s.written chunk in
      let rest = drop (length chunk) s.incoming in
      let received = s.received + length chunk in
      elim e [
        | some failure ↦ (
          some (wrapped (codes "write") failure),
          some (record s { incoming = rest; written = written }),
        )
        | none ↦ elim (emit_progress (update_progress now (position start received) s.transfer)) [
          | none ↦ (none, none)
          | some told ↦ (
            none,
            some (record {
              incoming = rest;
              written = written;
              received = received;
              transfer = told;
            }),
          )
        ]
      ]

  -- `remaining`, cut to the buffer.
  unfoldable pub to_read : Received → ℕ
  to_read s = min buffer_size (pos_part (to_receive -ℤ pos s.received))

  -- The loop.
  unfoldable pub receive : List Pass → Received → Run Received
  unfolding read_failed take_chunk to_read read_chunk
  receive [] s = if ltbℤ (pos s.received) to_receive then waiting s else returned none s
  receive (pass ∷ passes) s = elim (ltbℤ (pos s.received) to_receive) [
    | false ↦ returned none s
    | true ↦ elim pass.context_error [
      | some e ↦ returned (some e) s
      | none ↦ elim pass.deadline_error [
        | some e ↦ returned (some e) s
        | none ↦
            let (failure, chunk) = read_chunk (to_read s) pass s.incoming in
            elim failure [
              | some e ↦ read_failed e s
              | none ↦
                  let (write_failure, after) = take_chunk pass.now chunk s in
                  elim after [
                    | none ↦ crashed
                    | some t ↦ elim write_failure [
                      | some e ↦ returned (some e) t
                      | none ↦ receive passes t
                    ]
                  ]
            ]
      ]
    ]
  ]

-- What `transferData` writes to the connection before the data comes.
unfoldable pub offset_bytes : Transfer → Bytes
offset_bytes tr = le_bytes 8 (to_uint64 tr.start_offset)

-- `transferData`: what was sent, and how it ended. `send_error` is the answer of the first `Write`.
unfoldable pub transfer_data :
    FileWriter → ℕ → Option TransferError → List Pass → Bytes → Transfer → Bytes × Run Received
unfolding receive offset_bytes
transfer_data writer now send_error passes incoming tr =
    let begun : Received = record {
      incoming = incoming;
      written = [];
      received = 0;
      transfer = tr;
    } in
    elim send_error [
      | some e ↦ ([], returned (some (wrapped (codes "send offset") e)) begun)
      | none ↦ elim (emit_progress (set_state now in_progress tr)) [
        | none ↦ (offset_bytes tr, crashed)
        | some told ↦
            let to_receive = wrap_int64 (told.size -ℤ told.start_offset) in
            (
              offset_bytes tr,
              receive writer told.size told.start_offset to_receive passes
                  (record begun { transfer = told }),
            )
      ]
    ]
