-- ===== src/Ublox/Overflow.antt =====
-- Packets that are longer than the buffer of `payLoad_`.
use docker_applications.Common.{
  ℕ, suc, ◌+◌, ◌*◌, ◌/◌, ◌%◌, ◌≤◌, ◌<◌, ◌≡◌, subst, ◌∙◌, false, none, List, [], ◌∷◌, ◌++◌, length,
  set, arith, length-set,
}
use native.Mathlib.Decide.{dec_lt}
use docker_applications.Tracker.Hex.Convert.{store_beyond}
use docker_applications.Ublox.{
  UBlox, Answer, negated, next_a, next_b, is_ack, process, write_through, receive_all, checksum,
  send,
}
use docker_applications.Ublox.Packet.{payload_at, payload_more, receive_step, start_of_packet}

module _ (id : ℕ) (acked : List ℕ) (total : ℕ) where
  payload_fault :
      (a b left k c : ℕ) (cs : List ℕ) (ans : Answer) (buf : List ℕ)
      → length buf ≤ k
      → receive_all (c ∷ cs) ans (payload_at id acked total a b left k buf) ≡ none
  unfolding receive_all process write_through
  payload_fault a b left k c cs ans buf h = rw (store_beyond buf k c h)

  payload_runs_over :
      (bs rest : List ℕ) (ans : Answer) (a b extra k : ℕ) (buf : List ℕ)
      → k ≤ length buf
      → length buf < k + length bs
      → length bs + extra < 65536
      → receive_all (bs ++ rest) ans (payload_at id acked total a b (length bs + extra) k buf)
        ≡ none
  payload_runs_over [] rest ans a b extra k buf hk hl hn = absurd (omega arith)
  payload_runs_over (c ∷ []) rest ans a b extra k buf hk hl hn =
      payload_fault a b (1 + extra) k c rest ans buf (omega arith)
  payload_runs_over (c ∷ d ∷ ds) rest ans a b extra k buf hk hl hn =
      let m : ℕ = length ds + extra in
      let left : length (c ∷ d ∷ ds) + extra ≡ suc (suc m) = omega arith in
      let left' : suc m ≡ length (d ∷ ds) + extra = omega arith in
      rw left (elim (dec_lt k (length buf)) [
        | no end ↦ payload_fault a b (suc (suc m)) k c ((d ∷ ds) ++ rest) ans buf (omega arith)
        | yes inside ↦
            receive_step c ((d ∷ ds) ++ rest) ans _ _ _
              (payload_more id acked total a b m k c buf inside (omega arith))
            ∙ rw left' (
                payload_runs_over (d ∷ ds) rest (negated 6) (next_a a c) (next_b a b c) extra
                  (k + 1) (set buf k c) (omega (arith, length-set buf k c))
                  (omega (arith, length-set buf k c)) (omega arith))
      ])

-- A packet for a parser in state 0, not an acknowledgment, whose payload is longer than the buffer
-- (and shorter than 65536 bytes) is written past the end of `payLoad_.buffer`: the parser does not
-- compare the length that it receives with the size of the buffer.
pub receive_all_too_long :
    (u : UBlox) (class id : ℕ) (bs : List ℕ) (ans : Answer)
    → u.state_ ≡ 0
    → class < 256
    → is_ack (class * 256 + id) ≡ false
    → length u.payload_buffer < length bs
    → length bs < 65536
    → receive_all (send (class ∷ id ∷ length bs % 256 ∷ length bs / 256 ∷ bs)) ans u ≡ none
unfolding send
receive_all_too_long u class id bs ans idle hc not_ack long small =
    let n : ℕ = length bs in
    let sums = checksum 0 0 (class ∷ id ∷ n % 256 ∷ n / 256 ∷ bs) in
    let front = checksum 0 0 (class ∷ id ∷ n % 256 ∷ n / 256 ∷ []) in
    let exact : n + 0 ≡ n = omega arith in
    start_of_packet u class id n (bs ++ (sums.0 ∷ sums.1 ∷ [])) ans idle hc not_ack
    ∙ subst
        (λ left.
          receive_all (bs ++ (sums.0 ∷ sums.1 ∷ [])) (negated 6)
            (payload_at (class * 256 + id) u.acked_id n front.0 front.1 left 0 u.payload_buffer)
          ≡ none)
        exact
        (payload_runs_over (class * 256 + id) u.acked_id n bs (sums.0 ∷ sums.1 ∷ []) (negated 6)
          front.0 front.1 0 0 u.payload_buffer (omega arith) (omega arith) (omega arith))
