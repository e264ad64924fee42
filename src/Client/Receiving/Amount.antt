-- ===== src/Client/Receiving/Amount.antt =====
-- How much of the connection the loop of `transferData` consumes.
use gosoulseek.Prelude.{
  ℕ, ◌+◌, ◌≤◌, ◌<◌, ◌≡◌, ◌∙◌, ap, ap₂, subst, sym, refl, arith, min, ◌==◌, inl, inr, Bool-cases,
  Option-cases,
}
use gosoulseek.Prelude.{Bytes, List, [], ◌∷◌, ◌++◌, length, take, drop, none, some}
use gosoulseek.Prelude.{true, false, take_add, drop_add, length-drop, take-length-take}
use gosoulseek.Prelude.Int.{ℤ, pos, ltbℤ}
use gosoulseek.Client.Errors.{TransferError, connection_error, eof_error, wrapped}
use gosoulseek.Client.TransferState.{codes}
use gosoulseek.Client.Transfer.{update_progress}
use gosoulseek.Client.Transfer.Kept.{update_progress-SameFile}
use gosoulseek.Client.Outcome.Endings.{IsOpen, emit_progress_open}
use gosoulseek.Client.Receiving.{
  Run, waiting, crashed, returned, Pass, FileWriter, Received, read_chunk, position, read_failed,
  take_chunk, to_read, receive,
}

-- A writer that answers no error has taken the whole slice: the contract of `io.Writer`.
abbrev pub IsWriter : FileWriter → Type 0
IsWriter w = (out bs : Bytes) → (w out bs).1 ≡ none → (w out bs).0 ≡ out ++ bs

-- Of the bytes that came, the first are written, as many as are counted and at most `n`, and the
-- others are still to be read.
pub record At (n : ℕ) (whole : Bytes) (s : Received) : Type 0 where
  pub within : s.received ≤ n
  pub there : s.received ≤ length whole
  pub taken : s.written ≡ take s.received whole
  pub left : s.incoming ≡ drop s.received whole
  pub reporting : IsOpen s.transfer

module _ (writer : FileWriter) (size start : ℤ) (n : ℕ) (whole : Bytes) where
  -- A chunk that is taken keeps the account; a chunk that the writer refuses ends the loop.
  take_chunk-At :
      (now m : ℕ) (s : Received)
      → IsWriter writer
      → At n whole s
      → s.received + length (take m s.incoming) ≤ n
      → (writer s.written (take m s.incoming)).1 ≡ none
      → (t : Received) × (take_chunk writer size start (pos n) now (take m s.incoming) s
          ≡ (none, some t))
        × At n whole t
        × (t.received ≡ s.received + length (take m s.incoming))
  unfolding take_chunk
  take_chunk-At now m s ok a fits accepted =
      let chunk = take m s.incoming in
      let c = length chunk in
      let (same, _, short) = take-length-take m s.incoming in
      let noted = update_progress now (position start (s.received + c)) s.transfer in
      let kept = update_progress-SameFile now (position start (s.received + c)) s.transfer in
      let (told, reported) = emit_progress_open noted (ground (arith, kept.channel, a.reporting)) in
      let k = s.received + c in
      (
        record {
          incoming = drop c s.incoming;
          written = (writer s.written chunk).0;
          received = k;
          transfer = told;
        },
        ground (arith, accepted, reported.reported),
        record {
          within = fits;
          there =
              omega (arith, ap length a.left, length-drop s.received whole a.there, short, a.there);
          taken =
              ok s.written chunk accepted
              ∙ (ap (◌++◌ s.written) (sym same)
                  ∙ (ap₂ (λ w r. w ++ take c r) a.taken a.left
                      ∙ take_add s.received c k whole refl));
          left = ap (drop c) a.left ∙ drop_add s.received c k whole refl;
          reporting = reported.still_open;
        },
        refl,
      )

  -- Where the loop stands is accounted for, and it does not panic. It returns without an error only
  -- with all `n` bytes.
  unfoldable pub Accounted : Run Received → Type 0
  Accounted (waiting s) = At n whole s × (s.received < n)
  Accounted crashed = ⊥
  Accounted (returned none s) = At n whole s × (s.received ≡ n)
  Accounted (returned (some e) s) = Unit

  waiting-Accounted :
      (s : Received) → At n whole s → ltbℤ (pos s.received) (pos n) ≡ true → Accounted (waiting s)
  unfolding Accounted
  waiting-Accounted s a more = (a, ground (arith, more))

  failed-Accounted : (e : TransferError) (s : Received) → Accounted (returned (some e) s)
  unfolding Accounted
  failed-Accounted e s = tt

  done-Accounted :
      (s : Received)
      → At n whole s
      → ltbℤ (pos s.received) (pos n) ≡ false
      → Accounted (returned none s)
  unfolding Accounted
  done-Accounted s a all = (a, ground (arith, all, a.within))

  -- An error of a read is an error of the loop, since there is more to come.
  read_failed-Accounted :
      (e : TransferError) (s : Received)
      → ltbℤ (pos s.received) (pos n) ≡ true
      → Accounted (read_failed writer size start (pos n) e s)
  unfolding read_failed
  read_failed-Accounted e s more =
      subst Accounted (ground (arith, more))
        (failed-Accounted (connection_error (codes "read") (position start s.received) size e) s)

  -- What a pass reads when it meets no error.
  abbrev pub chunk_of : Pass → Received → Bytes
  chunk_of pass s = take (min pass.at_hand (to_read writer size start (pos n) s)) s.incoming

  -- A pass that meets no error goes on with what it read.
  pub one_pass :
      (pass : Pass) (passes : List Pass) (s : Received)
      → IsWriter writer
      → At n whole s
      → ltbℤ (pos s.received) (pos n) ≡ true
      → pass.context_error ≡ none
      → pass.deadline_error ≡ none
      → pass.read_error ≡ none
      → (length s.incoming == 0) ≡ false
      → (writer s.written (chunk_of pass s)).1 ≡ none
      → (t : Received) × (receive writer size start (pos n) (pass ∷ passes) s
          ≡ receive writer size start (pos n) passes t)
        × At n whole t
        × (t.received ≡ s.received + length (chunk_of pass s))
  unfolding receive to_read read_chunk
  one_pass pass passes s ok a more on timely read some_left accepted =
      let m = min pass.at_hand (to_read writer size start (pos n) s) in
      let (same, asked, short) = take-length-take m s.incoming in
      let fits : s.received + length (chunk_of pass s) ≤ n = ground (arith, asked, more) in
      let (t, step, b, counted) = take_chunk-At pass.now m s ok a fits accepted in
      (t, ground (arith, more, on, timely, read, some_left, accepted, step), b, counted)

  pub receive-Accounted :
      (passes : List Pass) (s : Received)
      → IsWriter writer
      → At n whole s
      → Accounted (receive writer size start (pos n) passes s)
  unfolding receive to_read read_chunk take_chunk
  receive-Accounted [] s ok a = elim (Bool-cases (ltbℤ (pos s.received) (pos n))) [
    | inl more ↦ subst Accounted (ground (arith, more)) (waiting-Accounted s a more)
    | inr all ↦ subst Accounted (ground (arith, all)) (done-Accounted s a all)
  ]
  receive-Accounted (pass ∷ passes) s ok a = elim (Bool-cases (ltbℤ (pos s.received) (pos n))) [
    | inr all ↦ subst Accounted (ground (arith, all)) (done-Accounted s a all)
    | inl more ↦ elim (Option-cases pass.context_error) [
      | inr (e, gone) ↦ subst Accounted (ground (arith, more, gone)) (failed-Accounted e s)
      | inl on ↦ elim (Option-cases pass.deadline_error) [
        | inr (e, late) ↦ subst Accounted (ground (arith, more, on, late)) (failed-Accounted e s)
        | inl timely ↦ elim (Option-cases pass.read_error) [
          | inr (e, unread) ↦
              subst Accounted (ground (arith, more, on, timely, unread))
                (read_failed-Accounted e s more)
          | inl read ↦ elim (Bool-cases (length s.incoming == 0)) [
            | inl ended ↦
                subst Accounted (ground (arith, more, on, timely, read, ended))
                  (read_failed-Accounted eof_error s more)
            | inr some_left ↦ elim (Option-cases (writer s.written (chunk_of pass s)).1) [
              | inr (e, unwritten) ↦
                  let t : Received = record s {
                    incoming = drop (length (chunk_of pass s)) s.incoming;
                    written = (writer s.written (chunk_of pass s)).0;
                  } in
                  subst Accounted (ground (arith, more, on, timely, read, some_left, unwritten))
                    (failed-Accounted (wrapped (codes "write") e) t)
              | inl accepted ↦
                  let (t, step, b, _) =
                    one_pass pass passes s ok a more on timely read some_left accepted in
                  subst Accounted (sym step) (receive-Accounted passes t ok b)
            ]
          ]
        ]
      ]
    ]
  ]
