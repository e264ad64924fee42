-- ===== src/Client/UploadRun/Waiting.antt =====
-- The wait for a peer's answer in client/upload.go ends, with the first answer that is meant.
use gosoulseek.Prelude.{
  ℕ, zero, suc, ◌+◌, ◌<◌, ◌≡◌, ◌≢◌, ◌∙◌, ap, sym, arith, inl, inr, Option-cases,
}
use gosoulseek.Prelude.{Bytes, length, length-append, some}
use gosoulseek.Protocol.LittleEndian.{le_value}
use gosoulseek.Protocol.Reader.{source, read_full}
use gosoulseek.Protocol.Reader.Methods.{read_full_inv}
use gosoulseek.Client.UploadRun.{Waited, undecided, answer_of, wait_loop, wait_for_response}

-- An answer is never undecided.
answer_of-decides :
    (token : ℕ) (msg : Bytes) (w : Waited) → answer_of token msg ≡ some w → w ≢ undecided
unfolding answer_of
answer_of-decides token msg w e u = ground (arith, e, u)

loop_decides :
    (token fuel : ℕ) (stream : Bytes)
    → length stream < fuel
    → wait_loop token fuel stream ≢ undecided
unfolding wait_loop
loop_decides token zero stream h = absurd (omega (arith, h))
loop_decides token (suc fuel) stream h = elim (Option-cases (read_full 4 (source stream)).0) [
  | inl short ↦ λ u. ground (arith, short, u)
  | inr (bs, head) ↦
      let r = (read_full 4 (source stream)).1 in
      let (_, four, split) = read_full_inv 4 stream bs head in
      let less : length stream ≡ 4 + length r.rest =
        sym (ap length split) ∙ omega (arith, length-append bs r.rest, four) in
      elim (Option-cases (read_full (le_value bs) (source r.rest)).0) [
        | inl cut ↦ λ u. ground (arith, head, cut, u)
        | inr (msg, body) ↦
            let q = (read_full (le_value bs) (source r.rest)).1 in
            let (_, _, rest) = read_full_inv (le_value bs) r.rest msg body in
            let left = sym (ap length rest) ∙ length-append msg q.rest in
            let later = loop_decides token fuel q.rest (omega (arith, h, less, left)) in
            elim (Option-cases (answer_of token msg)) [
              | inl other ↦ λ u. later (ground (arith, head, body, other, u))
              | inr (w, meant) ↦
                  λ u. answer_of-decides token msg w meant (ground (arith, head, body, meant, u))
            ]
      ]
]

-- Whatever the peer sends, the wait for its answer ends, with an answer or an error: the fuel is enough.
pub wait_for_response_ends :
    (token : ℕ) (stream : Bytes) → wait_for_response token stream ≢ undecided
unfolding wait_for_response
wait_for_response_ends token stream = loop_decides token (suc (length stream)) stream (omega arith)
