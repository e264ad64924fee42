-- ===== src/Client/Sending/Account.antt =====
-- How much of the file the loop of `streamFile` sends.
use gosoulseek.Prelude.{
  ℕ, ◌+◌, ◌≤◌, ◌<◌, ◌≡◌, ◌∙◌, ap, ap₂, subst, sym, refl, arith, min, ◌==◌, inl, inr, Bool-cases,
  Option-cases,
}
use gosoulseek.Prelude.{Bytes, List, [], ◌∷◌, ◌++◌, All, length, take, drop, Option, none, some}
use gosoulseek.Prelude.{true, false, take_add, drop_add, length-drop, take-length-take, take_some}
use gosoulseek.Prelude.Int.{ℤ, pos, ltbℤ}
use gosoulseek.Client.Errors.{TransferError, connection_error, wrapped}
use gosoulseek.Client.TransferState.{codes}
use gosoulseek.Client.Transfer.{update_progress}
use gosoulseek.Client.Transfer.Kept.{update_progress-SameFile}
use gosoulseek.Client.Outcome.Endings.{IsOpen, emit_progress_open}
use gosoulseek.Client.Receiving.{Run, waiting, crashed, returned, position}
use gosoulseek.Client.Sending.{SendPass, Sending, to_read, count_chunk, send_file}

-- The first bytes of the file are out, as many as are counted and at most `n`, and the others are still
-- to be read.
pub record Out (n : ℕ) (whole : Bytes) (s : Sending) : Type 0 where
  pub within : s.sent ≤ n
  pub there : s.sent ≤ length whole
  pub gone : s.outgoing ≡ take s.sent whole
  pub left : s.file ≡ drop s.sent whole
  pub reporting : IsOpen s.transfer

-- A pass without an error, in which the file gives a byte if it has one.
pub record Sends (pass : SendPass) : Type 0 where
  pub on : pass.context_error ≡ none
  pub readable : pass.read_error ≡ none
  pub some_at_hand : 1 ≤ pass.at_hand
  pub writable : pass.write_error ≡ none

module _ (size offset : ℤ) (n : ℕ) (whole : Bytes) where
  file_left : (s : Sending) → Out n whole s → length s.file + s.sent ≡ length whole
  file_left s a = omega (arith, ap length a.left, length-drop s.sent whole a.there)

  -- A chunk that has gone out keeps the account.
  count_chunk-Out :
      (now m : ℕ) (s : Sending)
      → Out n whole s
      → s.sent + length (take m s.file) ≤ n
      → (t : Sending) × (count_chunk size offset (pos n) now (take m s.file) s ≡ some t)
        × Out n whole t
        × (t.sent ≡ s.sent + length (take m s.file))
  unfolding count_chunk
  count_chunk-Out now m s a fits =
      let chunk = take m s.file in
      let c = length chunk in
      let (same, _, short) = take-length-take m s.file in
      let noted = update_progress now (position offset (s.sent + c)) s.transfer in
      let kept = update_progress-SameFile now (position offset (s.sent + c)) s.transfer in
      let (told, r) = emit_progress_open noted (ground (arith, kept.channel, a.reporting)) in
      let k = s.sent + c in
      (
        record { file = drop c s.file; outgoing = s.outgoing ++ chunk; sent = k; transfer = told },
        ground (arith, r.reported),
        record {
          within = fits;
          there = omega (arith, file_left s a, short);
          gone =
              ap (◌++◌ s.outgoing) (sym same)
              ∙ (ap₂ (λ w r. w ++ take c r) a.gone a.left ∙ take_add s.sent c k whole refl);
          left = ap (drop c) a.left ∙ drop_add s.sent c k whole refl;
          reporting = r.still_open;
        },
        refl,
      )

  abbrev pub piece_of : SendPass → Sending → Bytes
  piece_of pass s = take (min pass.at_hand (to_read size offset (pos n) s)) s.file

  -- A pass that meets no error goes on with what it sent, if that is something.
  pub one_pass :
      (pass : SendPass) (passes : List SendPass) (s : Sending)
      → Out n whole s
      → ltbℤ (pos s.sent) (pos n) ≡ true
      → pass.context_error ≡ none
      → pass.read_error ≡ none
      → pass.write_error ≡ none
      → (length (piece_of pass s) == 0) ≡ false
      → (t : Sending) × (send_file size offset (pos n) (pass ∷ passes) s
          ≡ send_file size offset (pos n) passes t)
        × Out n whole t
        × (t.sent ≡ s.sent + length (piece_of pass s))
  unfolding send_file to_read
  one_pass pass passes s a more on readable writable some_read =
      let m = min pass.at_hand (to_read size offset (pos n) s) in
      let (same, asked, short) = take-length-take m s.file in
      let fits : s.sent + length (piece_of pass s) ≤ n = ground (arith, asked, more) in
      let (t, step, b, counted) = count_chunk-Out pass.now m s a fits in
      (t, ground (arith, more, on, readable, writable, some_read, step), b, counted)

  -- With a good pass for each byte and one for the end of the file, the loop returns without an error,
  -- when it has sent `n` bytes or all that the file has.
  pub send_file_finishes :
      (passes : List SendPass) (s : Sending)
      → All Sends passes
      → Out n whole s
      → min n (length whole) < s.sent + length passes
      → (t : Sending) × (send_file size offset (pos n) passes s ≡ returned none t)
        × Out n whole t
        × (t.sent ≡ min n (length whole))
  unfolding send_file to_read
  send_file_finishes [] s g a enough = absurd (omega (arith, enough, a.within, a.there))
  send_file_finishes (pass ∷ passes) s (good, g) a enough =
      elim (Bool-cases (ltbℤ (pos s.sent) (pos n))) [
        | inr all ↦ (s, ground (arith, all), a, ground (arith, all, a.within, a.there))
        | inl more ↦ elim (Bool-cases (length (piece_of pass s) == 0)) [
          | inl nothing ↦
              let some_piece =
                take_some (min pass.at_hand (to_read size offset (pos n) s)) s.file in
              let wanted : 1 ≤ min pass.at_hand (to_read size offset (pos n) s) =
                ground (arith, good.some_at_hand, more) in
              let empty : (length s.file == 0) ≡ true = elim (Bool-cases (length s.file == 0)) [
                | inl e ↦ e
                | inr e ↦ absurd (ground (arith, nothing, some_piece wanted (ground (arith, e))))
              ] in
              (
                s,
                ground (arith, more, good.on, good.readable, nothing),
                a,
                ground (arith, empty, file_left s a, a.within),
              )
          | inr some_read ↦
              let (t, step, b, on) =
                one_pass pass passes s a more good.on good.readable good.writable some_read in
              let (u, later, c, done) =
                send_file_finishes passes t g b (ground (arith, on, some_read, enough)) in
              (u, step ∙ later, c, done)
        ]
      ]

  -- Where the loop stands, also after an error: it never panics, and never sends more than `n` bytes.
  unfoldable pub Placed : Run Sending → Type 0
  Placed (waiting s) = Out n whole s
  Placed crashed = ⊥
  Placed (returned e s) = Out n whole s

  returned-Placed : (e : Option TransferError) (s : Sending) → Out n whole s → Placed (returned e s)
  unfolding Placed
  returned-Placed e s a = a

  waiting-Placed : (s : Sending) → Out n whole s → Placed (waiting s)
  unfolding Placed
  waiting-Placed s a = a

  pub send_file-Placed :
      (passes : List SendPass) (s : Sending)
      → Out n whole s
      → Placed (send_file size offset (pos n) passes s)
  unfolding send_file
  send_file-Placed [] s a = elim (Bool-cases (ltbℤ (pos s.sent) (pos n))) [
    | inl more ↦ subst Placed (ground (arith, more)) (waiting-Placed s a)
    | inr all ↦ subst Placed (ground (arith, all)) (returned-Placed none s a)
  ]
  send_file-Placed (pass ∷ passes) s a = elim (Bool-cases (ltbℤ (pos s.sent) (pos n))) [
    | inr all ↦ subst Placed (ground (arith, all)) (returned-Placed none s a)
    | inl more ↦ elim (Option-cases pass.context_error) [
      | inr (e, gone) ↦ subst Placed (ground (arith, more, gone)) (returned-Placed (some e) s a)
      | inl on ↦ elim (Option-cases pass.read_error) [
        | inr (e, unread) ↦
            subst Placed (ground (arith, more, on, unread))
              (returned-Placed (some (wrapped (codes "read file") e)) s a)
        | inl read ↦ elim (Bool-cases (length (piece_of pass s) == 0)) [
          | inl nothing ↦
              subst Placed (ground (arith, more, on, read, nothing)) (returned-Placed none s a)
          | inr some_read ↦ elim (Option-cases pass.write_error) [
            | inr (e, unsent) ↦
                let failure = connection_error (codes "write") (position offset s.sent) size e in
                subst Placed (ground (arith, more, on, read, some_read, unsent))
                  (returned-Placed (some failure) s a)
            | inl writable ↦
                let (t, step, b, _) = one_pass pass passes s a more on read writable some_read in
                subst Placed (sym step) (send_file-Placed passes t b)
          ]
        ]
      ]
    ]
  ]
