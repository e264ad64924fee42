-- ===== src/Client/Sending/Results.antt =====
-- What `streamFile` of client/upload.go sends for an offset.
use gosoulseek.Prelude.{
  ℕ, suc, ◌+◌, ◌-◌, ◌^◌, ◌≤◌, ◌<◌, ◌≡◌, ◌∙◌, ap, ap₂, subst, sym, refl, arith, false,
}
use gosoulseek.Prelude.{Bytes, List, [], ◌++◌, All, length, take, drop, none, some}
use gosoulseek.Prelude.{take-min}
use gosoulseek.Prelude.Int.{
  ℤ, pos, negsuc, IsInt64, ◌-ℤ◌, ltbℤ, wrap_int64, wrap_int64_pos, wrap_int64_difference, to_int64,
  to_uint64, to_uint64_lt, to_int64-to_uint64,
}
use gosoulseek.Protocol.LittleEndian.{le_bytes, le_value, length-le_bytes, le_value-le_bytes}
use gosoulseek.Protocol.Reader.{source, read_full}
use gosoulseek.Protocol.Reader.Methods.{read_full-append}
use gosoulseek.Client.SharedFile.{SharedFile}
use gosoulseek.Client.Transfer.{Transfer}
use gosoulseek.Client.Outcome.Endings.{IsOpen}
use gosoulseek.Client.Receiving.{Run, waiting, crashed, returned}
use gosoulseek.Client.Sending.{
  SendPass, Sending, Outside, opened, send_file, send_content, send_from, from_offset, stream_file,
}
use gosoulseek.Client.Sending.Account.{Out, Sends, send_file_finishes}

-- The calls before the loop succeed, and the shared file has this content.
pub record Calm (w : Outside) (tr : Transfer) (content : Bytes) : Type 0 where
  pub deadline_set : w.read_deadline ≡ none
  pub offset_read : w.offset_error ≡ none
  pub seekable : w.seek_error ≡ none
  pub deadline_cleared : w.clear_deadline ≡ none
  pub shared : SharedFile
  pub is_shared : tr.shared_file ≡ some shared
  pub readable : w.disk shared.local_path ≡ opened content

-- Where an upload of at most `n` bytes from an offset stands.
abbrev pub FromOffset : ℕ → ℕ → Bytes → Run Sending → Type 0
FromOffset start n content (waiting s) =
    (s.sent ≤ n) × (s.outgoing ≡ take s.sent (drop start content))
FromOffset start n content crashed = ⊥
FromOffset start n content (returned e s) =
    (s.sent ≤ n) × (s.outgoing ≡ take s.sent (drop start content))

-- The eight bytes that a peer sends for an offset.
abbrev pub asked : ℤ → Bytes
asked offset = le_bytes 8 (to_uint64 offset)

-- The offset is read as it was written.
offset_arrives :
    (offset : ℤ) (more : Bytes)
    → IsInt64 offset
    → read_full 8 (source (asked offset ++ more)) ≡ (some (asked offset), source more)
offset_arrives offset more h =
    subst (λ k. read_full k (source (asked offset ++ more)) ≡ (some (asked offset), source more))
      (length-le_bytes 8 (to_uint64 offset)) (read_full-append (asked offset) more)

module _ (w : Outside) (passes : List SendPass) (offset : ℤ) (more content : Bytes) (tr : Transfer)
    (calm : Calm w tr content) where
  -- An offset that is not refused leads into the loop, at that place of the file.
  enters :
      IsInt64 offset
      → ltbℤ tr.size offset ≡ false
      → stream_file w passes (asked offset ++ more) tr
        ≡ send_file tr.size offset (wrap_int64 (tr.size -ℤ offset)) passes (record {
          file = from_offset offset content;
          outgoing = [];
          sent = 0;
          transfer = record tr { start_offset = offset; transferred = offset };
        })
  unfolding stream_file send_from send_content
  enters h allowed =
      let read = offset_arrives offset more h in
      let value : to_int64 (le_value (asked offset)) ≡ offset =
        ap to_int64 (le_value-le_bytes 8 (to_uint64 offset) (to_uint64_lt offset h))
        ∙ to_int64-to_uint64 offset h in
      ground (
        arith, calm.deadline_set, calm.offset_read, read, value, allowed, calm.is_shared,
        calm.readable, calm.seekable, calm.deadline_cleared,
      )

-- The upload when its loop begins.
abbrev begun : ℤ → Bytes → Transfer → Sending
begun offset left tr = record {
  file = left;
  outgoing = [];
  sent = 0;
  transfer = record tr { start_offset = offset; transferred = offset };
}

begun-Out :
    (n : ℕ) (offset : ℤ) (left : Bytes) (tr : Transfer)
    → IsOpen tr
    → Out n left (begun offset left tr)
begun-Out n offset left tr reporting = record {
  within = omega arith;
  there = omega arith;
  gone = refl;
  left = refl;
  reporting = reporting;
}

module _ (w : Outside) (passes : List SendPass) (size start : ℕ) (more content : Bytes)
    (tr : Transfer) (calm : Calm w tr content) (sized : tr.size ≡ pos size) (small : size < 2 ^ 63)
    (below : start ≤ size) (reporting : IsOpen tr) where
  enters_at :
      stream_file w passes (asked (pos start) ++ more) tr
      ≡ send_file
          (pos size)
          (pos start)
          (pos (size - start))
          passes
          (begun (pos start) (drop start content) tr)
  unfolding from_offset
  enters_at =
      let allowed : ltbℤ tr.size (pos start) ≡ false =
        subst (λ z. ltbℤ z (pos start) ≡ false) (sym sized) (ground (arith, below)) in
      let enter =
        enters w passes (pos start) more content tr calm (omega (arith, below, small)) allowed in
      let amount : wrap_int64 (tr.size -ℤ pos start) ≡ pos (size - start) =
        ap (λ z. wrap_int64 (z -ℤ pos start)) sized
        ∙ wrap_int64_difference size start below small in
      enter
      ∙ ap₂ (λ z k. send_file z (pos start) k passes (begun (pos start) (drop start content) tr))
          sized amount

  -- With a pass for each byte the upload returns without an error, and what it has sent is the file from
  -- the offset on, cut at the announced size. A file that has become shorter is no error: then it sends what
  -- there is.
  pub stream_file_completes :
      All Sends passes
      → size - start < length passes
      → (t : Sending) × (stream_file w passes (asked (pos start) ++ more) tr ≡ returned none t)
        × (t.outgoing ≡ take (size - start) (drop start content))
  stream_file_completes good enough =
      let n = size - start in
      let left = drop start content in
      let (t, done, out, count) =
        send_file_finishes (pos size) (pos start) n left passes (begun (pos start) left tr) good
          (begun-Out n (pos start) left tr reporting) (omega (arith, enough)) in
      (t, enters_at ∙ done, out.gone ∙ (ap (λ k. take k left) count ∙ take-min n left))

-- A peer's offset that is negative as an `int64` is not refused: the upload starts at the file's first byte,
-- and sends more than the announced size, if the file has more.
pub negative_offset_accepted :
    (w : Outside) (passes : List SendPass) (size j : ℕ) (more content : Bytes) (tr : Transfer)
    → Calm w tr content
    → tr.size ≡ pos size
    → size + suc j < 2 ^ 63
    → IsOpen tr
    → All Sends passes
    → size + suc j < length passes
    → (t : Sending) × (stream_file w passes (asked (negsuc j) ++ more) tr ≡ returned none t)
      × (t.outgoing ≡ take (size + suc j) content)
unfolding from_offset
negative_offset_accepted w passes size j more content tr calm sized small reporting good enough =
    let n = size + suc j in
    let allowed : ltbℤ tr.size (negsuc j) ≡ false =
      subst (λ z. ltbℤ z (negsuc j) ≡ false) (sym sized) (ground arith) in
    let enter = enters w passes (negsuc j) more content tr calm (omega (arith, small)) allowed in
    let exact : pos size -ℤ negsuc j ≡ pos n = ground arith in
    let amount : wrap_int64 (tr.size -ℤ negsuc j) ≡ pos n =
      ap (λ z. wrap_int64 (z -ℤ negsuc j)) sized ∙ (ap wrap_int64 exact ∙ wrap_int64_pos n small) in
    let (t, done, out, count) =
      send_file_finishes (pos size) (negsuc j) n content passes (begun (negsuc j) content tr) good
        (begun-Out n (negsuc j) content tr reporting) (omega (arith, enough)) in
    (
      t,
      enter
          ∙ (ap₂ (λ z k. send_file z (negsuc j) k passes (begun (negsuc j) content tr)) sized amount
              ∙ done),
      out.gone ∙ (ap (λ k. take k content) count ∙ take-min n content),
    )
