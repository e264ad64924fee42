-- ===== src/Client/Receiving/Finishing.antt =====
-- The loop of `transferData` ends when the outside does its part.
use gosoulseek.Prelude.{ℕ, ◌+◌, ◌≤◌, ◌<◌, ◌≡◌, ◌∙◌, ap, arith, min, ◌==◌, inl, inr, Bool-cases}
use gosoulseek.Prelude.{Bytes, List, [], ◌∷◌, ◌++◌, All, length, none, some}
use gosoulseek.Prelude.{length-drop, take_some}
use gosoulseek.Prelude.Int.{ℤ, pos, ltbℤ}
use gosoulseek.Client.Errors.{connection_error, eof_error}
use gosoulseek.Client.TransferState.{codes}
use gosoulseek.Client.Receiving.{
  returned, Pass, FileWriter, Received, read_chunk, read_failed, position, to_read, receive,
}
use gosoulseek.Client.Receiving.Amount.{IsWriter, At, chunk_of, one_pass}

-- A writer that takes everything.
abbrev pub TakesAll : FileWriter → Type 0
TakesAll w = (out bs : Bytes) → w out bs ≡ (out ++ bs, none)

-- A pass without an error, with a byte at hand.
pub record Good (pass : Pass) : Type 0 where
  pub on : pass.context_error ≡ none
  pub timely : pass.deadline_error ≡ none
  pub readable : pass.read_error ≡ none
  pub some_at_hand : 1 ≤ pass.at_hand

module _ (writer : FileWriter) (size start : ℤ) (n : ℕ) (whole : Bytes)
    (takes : TakesAll writer) where
  TakesAll-IsWriter : IsWriter writer
  TakesAll-IsWriter out bs e = ap (λ r. r.0) (takes out bs)

  -- A good pass reads at least one byte while there is one to read.
  byte_read :
      (pass : Pass) (passes : List Pass) (s : Received)
      → Good pass
      → At n whole s
      → s.received < n
      → s.received < length whole
      → (t : Received) × (receive writer size start (pos n) (pass ∷ passes) s
          ≡ receive writer size start (pos n) passes t)
        × At n whole t
        × (s.received < t.received)
  unfolding to_read
  byte_read pass passes s g a more left =
      let here : length s.incoming + s.received ≡ length whole =
        omega (arith, ap length a.left, length-drop s.received whole a.there) in
      let wanted : 1 ≤ min pass.at_hand (to_read writer size start (pos n) s) =
        ground (arith, g.some_at_hand, more) in
      let read = take_some _ s.incoming wanted (omega (arith, here, left)) in
      let (t, step, b, counted) =
        one_pass writer size start n whole pass passes s TakesAll-IsWriter a (ground arith) g.on
          g.timely g.readable (ground (arith, here, left))
          (ap (λ r. r.1) (takes s.written (chunk_of writer size start n whole pass s))) in
      (t, step, b, omega (arith, counted, read))

  -- With a good pass for each byte the loop returns without an error.
  pub receive_finishes :
      (passes : List Pass) (s : Received)
      → All Good passes
      → At n whole s
      → n ≤ length whole
      → n ≤ s.received + length passes
      → (t : Received) × (receive writer size start (pos n) passes s ≡ returned none t)
        × At n whole t
        × (t.received ≡ n)
  unfolding receive
  receive_finishes [] s g a long enough =
      (s, ground (arith, enough, a.within), a, omega (arith, enough, a.within))
  receive_finishes (pass ∷ passes) s (good, g) a long enough =
      elim (Bool-cases (ltbℤ (pos s.received) (pos n))) [
        | inr all ↦ (s, ground (arith, all), a, ground (arith, all, a.within))
        | inl more ↦
            let short : s.received < n = ground (arith, more) in
            let (t, step, b, on) =
              byte_read pass passes s good a short (omega (arith, short, long)) in
            let (u, later, c, done) =
              receive_finishes passes t g b long (omega (arith, on, enough)) in
            (u, step ∙ later, c, done)
      ]

  -- Where too little comes, the loop answers with the error of the connection, after it has taken all of it.
  pub receive_runs_out :
      (passes : List Pass) (s : Received)
      → All Good passes
      → At n whole s
      → length whole < n
      → length whole < s.received + length passes
      → (t : Received) × (receive writer size start (pos n) passes s
          ≡ returned
              (some
                (connection_error (codes "read") (position start (length whole)) size eof_error))
              t)
        × At n whole t
        × (t.received ≡ length whole)
  unfolding receive read_chunk read_failed
  receive_runs_out [] s g a short enough = absurd (omega (arith, enough, a.there))
  receive_runs_out (pass ∷ passes) s (good, g) a short enough =
      elim (Bool-cases (s.received == length whole)) [
        | inl all ↦
            let here : length s.incoming + s.received ≡ length whole =
              omega (arith, ap length a.left, length-drop s.received whole a.there) in
            let same : s.received ≡ length whole = ground (arith, all) in
            let stops : receive writer size start (pos n) (pass ∷ passes) s
                ≡ returned
                    (some
                      (connection_error (codes "read") (position start s.received) size eof_error))
                    s =
              ground (arith, good.on, good.timely, good.readable, here, same, short) in
            (
              s,
              stops
                  ∙ ap
                      (λ k.
                        returned
                          (some (connection_error (codes "read") (position start k) size eof_error))
                          s)
                      same,
              a,
              same,
            )
        | inr more ↦
            let left : s.received < length whole = ground (arith, more, a.there) in
            let (t, step, b, on) =
              byte_read pass passes s good a (omega (arith, left, short)) left in
            let (u, later, c, done) =
              receive_runs_out passes t g b short (omega (arith, on, enough)) in
            (u, step ∙ later, c, done)
      ]
