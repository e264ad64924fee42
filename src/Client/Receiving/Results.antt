-- ===== src/Client/Receiving/Results.antt =====
-- What `transferData` of client/download.go hands to its writer.
use gosoulseek.Prelude.{ℕ, ◌+◌, ◌-◌, ◌^◌, ◌≤◌, ◌<◌, ◌≡◌, ◌∙◌, ap, subst, sym, refl, arith}
use gosoulseek.Prelude.{Bytes, List, [], All, take_all, length, take, drop, none, some}
use gosoulseek.Prelude.Int.{ℤ, pos, ◌-ℤ◌, wrap_int64, wrap_int64_difference, wrap_int64_sum}
use gosoulseek.Client.Errors.{connection_error, eof_error}
use gosoulseek.Client.TransferState.{codes, in_progress}
use gosoulseek.Client.Transfer.{Transfer, set_state}
use gosoulseek.Client.Transfer.Kept.{set_state-SameFile}
use gosoulseek.Client.Outcome.Endings.{IsOpen, emit_progress_open}
use gosoulseek.Client.Receiving.{
  Run, waiting, crashed, returned, Pass, FileWriter, Received, position, receive, offset_bytes,
  transfer_data,
}
use gosoulseek.Client.Receiving.Amount.{IsWriter, At, Accounted, receive-Accounted}
use gosoulseek.Client.Receiving.Finishing.{TakesAll, Good, receive_finishes, receive_runs_out}

-- A download of `size` bytes from the offset `start`, whose progress is followed.
pub record Ready (size start : ℕ) (tr : Transfer) : Type 0 where
  pub sized : tr.size ≡ pos size
  pub from : tr.start_offset ≡ pos start
  pub ordered : start ≤ size
  pub small : size < 2 ^ 63
  pub reporting : IsOpen tr

-- Where a download of `n` bytes stands: it waits with the beginning of what came, and not yet all of it,
-- or has returned, and without an error only with `n` bytes written and none more read.
abbrev pub Faithful : ℕ → Bytes → Run Received → Type 0
Faithful n incoming (waiting s) =
    (s.received < n)
    × (s.written ≡ take s.received incoming)
    × (s.incoming ≡ drop s.received incoming)
Faithful n incoming crashed = ⊥
Faithful n incoming (returned none s) =
    (n ≤ length incoming) × (s.written ≡ take n incoming) × (s.incoming ≡ drop n incoming)
Faithful n incoming (returned (some e) s) = Unit

Accounted-Faithful :
    (writer : FileWriter) (size start : ℤ) (n : ℕ) (incoming : Bytes) (run : Run Received)
    → Accounted writer size start n incoming run
    → Faithful n incoming run
unfolding Accounted
Accounted-Faithful writer size start n incoming (waiting s) (a, more) = (more, a.taken, a.left)
Accounted-Faithful writer size start n incoming crashed h = h
Accounted-Faithful writer size start n incoming (returned none s) (a, all) = (
  subst (λ k. k ≤ length incoming) all a.there,
  a.taken ∙ ap (λ k. take k incoming) all,
  a.left ∙ ap (λ k. drop k incoming) all,
)
Accounted-Faithful writer size start n incoming (returned (some e) s) h = tt

module _ (writer : FileWriter) (now size start : ℕ) (passes : List Pass) (incoming : Bytes)
    (tr : Transfer) (ready : Ready size start tr) where
  -- The transfer goes into the loop with nothing received.
  enters :
      (s : Received) × (transfer_data writer now none passes incoming tr
        ≡ (offset_bytes tr, receive writer (pos size) (pos start) (pos (size - start)) passes s))
      × At (size - start) incoming s
      × (s.received ≡ 0)
  unfolding transfer_data
  enters =
      let kept = set_state-SameFile now in_progress tr in
      let (told, r) =
        emit_progress_open (set_state now in_progress tr)
          (ground (arith, kept.channel, ready.reporting)) in
      let sized : told.size ≡ pos size = r.size_kept ∙ (kept.size ∙ ready.sized) in
      let from : told.start_offset ≡ pos start = r.offset_kept ∙ (kept.offset ∙ ready.from) in
      let amount : wrap_int64 (pos size -ℤ pos start) ≡ pos (size - start) =
        wrap_int64_difference size start ready.ordered ready.small in
      (
        record { incoming = incoming; written = []; received = 0; transfer = told },
        ground (arith, r.reported, sized, from, amount),
        record {
          within = omega arith;
          there = omega arith;
          taken = refl;
          left = refl;
          reporting = r.still_open;
        },
        refl,
      )

  -- Whatever comes and at whatever pace, a download with an `io.Writer` that keeps its contract never
  -- panics. While it waits, the writer has the first bytes that came, fewer than there are from the offset
  -- to the size. If it returns without an error, the writer has exactly those bytes, and what comes after
  -- them is not read.
  pub transfer_data-Faithful :
      (sent : Bytes) (run : Run Received)
      → IsWriter writer
      → transfer_data writer now none passes incoming tr ≡ (sent, run)
      → Faithful (size - start) incoming run
  transfer_data-Faithful sent run contract e =
      let (s, enter, a, _) = enters in
      let account =
        receive-Accounted writer (pos size) (pos start) (size - start) incoming passes s contract
          a in
      subst (Faithful (size - start) incoming) (ap (λ r. r.1) (sym enter ∙ e))
        (Accounted-Faithful writer (pos size) (pos start) (size - start) incoming _ account)

  -- With a writer that takes everything and a pass without an error for each byte, a download whose bytes
  -- come returns without an error, and the writer has the bytes from the offset to the size.
  pub transfer_data_finishes :
      TakesAll writer
      → All Good passes
      → size - start ≤ length incoming
      → size - start ≤ length passes
      → (t : Received) × (transfer_data writer now none passes incoming tr
          ≡ (offset_bytes tr, returned none t))
        × (t.written ≡ take (size - start) incoming)
        × (t.incoming ≡ drop (size - start) incoming)
  transfer_data_finishes takes good long enough =
      let (s, enter, a, none_yet) = enters in
      let (t, done, b, all) =
        receive_finishes writer (pos size) (pos start) (size - start) incoming takes passes s good a
          long (omega (arith, enough, none_yet)) in
      (
        t,
        enter ∙ ap (λ r. (offset_bytes tr, r)) done,
        b.taken ∙ ap (λ k. take k incoming) all,
        b.left ∙ ap (λ k. drop k incoming) all,
      )

  -- Where the peer closes the connection too early, the download does not succeed: it returns the error of
  -- the connection with the position it had reached and the size, and the writer has all that came.
  pub transfer_data_cut_off :
      TakesAll writer
      → All Good passes
      → length incoming < size - start
      → length incoming < length passes
      → (t : Received) × (transfer_data writer now none passes incoming tr ≡ (
        offset_bytes tr,
        returned
            (some (
              connection_error (codes "read") (pos (start + length incoming)) (pos size) eof_error))
            t,
      ))
        × (t.written ≡ incoming)
  transfer_data_cut_off takes good short enough =
      let (s, enter, a, none_yet) = enters in
      let (t, done, b, all) =
        receive_runs_out writer (pos size) (pos start) (size - start) incoming takes passes s good a
          short (omega (arith, enough, none_yet)) in
      let exact : position (pos start) (length incoming) ≡ pos (start + length incoming) =
        wrap_int64_sum start (length incoming) (omega (arith, short, ready.small)) in
      (
        t,
        enter
            ∙ (ap (λ r. (offset_bytes tr, r)) done
                ∙ ap
                    (λ k. (
                      offset_bytes tr,
                      returned (some (connection_error (codes "read") k (pos size) eof_error)) t,
                    ))
                    exact),
        b.taken ∙ (ap (λ k. take k incoming) all ∙ take_all _ incoming (omega arith)),
      )
