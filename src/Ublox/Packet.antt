-- ===== src/Ublox/Packet.antt =====
-- A packet framed as `send` does, through the state machine of `process`.
use native.Mathlib.Numerals.{add-one}
use docker_applications.Common.{
  ℕ, suc, ◌+◌, ◌*◌, ◌/◌, ◌%◌, ◌^◌, ◌≤◌, ◌<◌, ◌≡◌, refl, sym, ap, ap₂, ◌∙◌, false, some, List, [],
  ◌∷◌, ◌++◌, length, set, arith, length-set, eq→==, ne→==,
}
use docker_applications.Common.Memory.{splice, splice-nil}
use docker_applications.Tracker.Hex.Convert.{store_within, splice-set}
use docker_applications.Ublox.{
  UBlox, in_payload, packet, negated, Answer, next_a, next_b, is_ack, process, write_through,
  receive_all, checksum, send,
}

-- A receiver in the payload of a packet.
abbrev pub payload_at : (id : ℕ) (acked : List ℕ) (total a b left k : ℕ) (buf : List ℕ) → UBlox
payload_at id acked total a b left k buf = record {
  state_ = 6;
  ck_a = a;
  ck_b = b;
  id_ = id;
  acked_id = acked;
  pl_length = left;
  p = in_payload k;
  payload_length = total;
  payload_buffer = buf;
}

pub receive_step :
    (c : ℕ) (cs : List ℕ) (ans : Answer) (u v : UBlox) (ans' : Answer)
    → process c u ≡ some (v, ans')
    → receive_all (c ∷ cs) ans u ≡ receive_all cs ans' v
unfolding receive_all
receive_step c cs ans u v ans' h = rw h

module _ (id : ℕ) (acked : List ℕ) (total : ℕ) where
  pub payload_last :
      (a b k c : ℕ) (buf : List ℕ)
      → k < length buf
      → process c (payload_at id acked total a b 1 k buf)
        ≡ some (
          record (payload_at id acked total (next_a a c) (next_b a b c) 0 (k + 1) (set buf k c)) {
            state_ = 7;
          },
          negated 7,
        )
  unfolding process write_through
  payload_last a b k c buf hk = rw (store_within buf k c hk)

  pub payload_more :
      (a b m k c : ℕ) (buf : List ℕ)
      → k < length buf
      → m < 65534
      → process c (payload_at id acked total a b (suc (suc m)) k buf)
        ≡ some (
          payload_at id acked total (next_a a c) (next_b a b c) (suc m) (k + 1) (set buf k c),
          negated 6,
        )
  unfolding process write_through
  payload_more a b m k c buf hk hm =
      let left : (suc (suc m) + 65535) % 2 ^ 16 ≡ suc m = omega arith in
      rw (store_within buf k c hk, left, ne→== (suc m) 0 (omega arith))

  payload_bytes :
      (c : ℕ) (cs rest : List ℕ) (ans : Answer) (a b k : ℕ) (buf : List ℕ)
      → k + length (c ∷ cs) ≤ length buf
      → length (c ∷ cs) < 65536
      → receive_all ((c ∷ cs) ++ rest) ans (payload_at id acked total a b (length (c ∷ cs)) k buf)
        ≡ receive_all rest
            (negated 7)
            (record (payload_at id acked total
              (checksum a b (c ∷ cs)).0
              (checksum a b (c ∷ cs)).1
              0
              (k + length (c ∷ cs))
              (splice k (c ∷ cs) buf)) { state_ = 7 })
  payload_bytes c [] rest ans a b k buf hk hn =
      let one : set buf k c ≡ splice k (c ∷ []) buf =
        sym (splice-nil (suc k) (set buf k c)) ∙ splice-set k c [] buf (omega arith) in
      receive_step c rest ans _ _ _ (payload_last a b k c buf (omega arith))
      ∙ ap
          (λ buf'.
            receive_all rest (negated 7)
              (record (payload_at id acked total (next_a a c) (next_b a b c) 0 (k + 1) buf') {
                state_ = 7;
              }))
          one
  payload_bytes c (d ∷ ds) rest ans a b k buf hk hn =
      let n : ℕ = length ds in
      let more : splice (k + 1) (d ∷ ds) (set buf k c) ≡ splice k (c ∷ d ∷ ds) buf =
        rw add-one (splice-set k c (d ∷ ds) buf (omega arith)) in
      let end : (k + 1) + suc n ≡ k + suc (suc n) = omega arith in
      let sums = checksum a b (c ∷ d ∷ ds) in
      receive_step c ((d ∷ ds) ++ rest) ans _ _ _
        (payload_more a b n k c buf (omega arith) (omega arith))
      ∙ payload_bytes d ds rest (negated 6) (next_a a c) (next_b a b c) (k + 1) (set buf k c)
          (omega (arith, length-set buf k c)) (omega arith)
      ∙ ap₂
          (λ at buf'.
            receive_all rest (negated 7)
              (record (payload_at id acked total sums.0 sums.1 0 at buf') { state_ = 7 }))
          end more

  -- The two bytes of the checksum end a packet that is not an acknowledgment.
  end_of_packet :
      (a b k : ℕ) (buf : List ℕ) (ans : Answer)
      → is_ack id ≡ false
      → receive_all (a ∷ b ∷ []) ans (record (payload_at id acked total a b 0 k buf) { state_ = 7 })
        ≡ some (record (payload_at id acked total a b 0 k buf) { state_ = 0 }, packet id)
  unfolding receive_all process
  end_of_packet a b k buf ans not_ack = rw (eq→== a a refl, eq→== b b refl, not_ack)

-- The six bytes in front of the payload.
pub start_of_packet :
    (u : UBlox) (class id n : ℕ) (rest : List ℕ) (ans : Answer)
    → u.state_ ≡ 0
    → class < 256
    → is_ack (class * 256 + id) ≡ false
    → receive_all (0xB5 ∷ 0x62 ∷ class ∷ id ∷ n % 256 ∷ n / 256 ∷ rest) ans u
      ≡ receive_all rest (negated 6) (
          payload_at
            (class * 256 + id)
            u.acked_id
            n
            (checksum 0 0 (class ∷ id ∷ n % 256 ∷ n / 256 ∷ [])).0
            (checksum 0 0 (class ∷ id ∷ n % 256 ∷ n / 256 ∷ [])).1
            n
            0
            u.payload_buffer)
unfolding receive_all process
start_of_packet u class id n rest ans idle hc not_ack =
    let first : next_a 0 class ≡ class = omega arith in
    let total : n % 256 + n / 256 * 256 ≡ n = omega arith in
    let first_b : next_b 0 0 class ≡ class = omega arith in
    rw (idle, not_ack, total, first_b, first)

-- A parser in state 0 accepts, whatever else it holds, a packet framed as `send` does whose class is
-- a byte, whose identifier is not that of an acknowledgment, and whose payload is not empty, is
-- shorter than 65536 bytes and fits the buffer: its last byte returns the identifier, the payload
-- and its length are in `payLoad_`, and the parser is in state 0 again.
pub receive_all-send :
    (u : UBlox) (class id c : ℕ) (cs : List ℕ) (ans : Answer)
    → u.state_ ≡ 0
    → class < 256
    → is_ack (class * 256 + id) ≡ false
    → length (c ∷ cs) ≤ length u.payload_buffer
    → length (c ∷ cs) < 65536
    → (v : UBlox) × (receive_all
          (send (class ∷ id ∷ length (c ∷ cs) % 256 ∷ length (c ∷ cs) / 256 ∷ c ∷ cs))
          ans
          u
        ≡ some (v, packet (class * 256 + id)))
      × (v.state_ ≡ 0)
      × (v.payload_length ≡ length (c ∷ cs))
      × (v.payload_buffer ≡ splice 0 (c ∷ cs) u.payload_buffer)
      × (v.acked_id ≡ u.acked_id)
unfolding send
receive_all-send u class id c cs ans idle hc not_ack fits small =
    let n : ℕ = length (c ∷ cs) in
    let body : List ℕ = class ∷ id ∷ n % 256 ∷ n / 256 ∷ c ∷ cs in
    let sums = checksum 0 0 body in
    let front = checksum 0 0 (class ∷ id ∷ n % 256 ∷ n / 256 ∷ []) in
    (
      record {
        state_ = 0;
        ck_a = (checksum 0 0 body).0;
        ck_b = (checksum 0 0 body).1;
        id_ = class * 256 + id;
        acked_id = u.acked_id;
        pl_length = 0;
        p = in_payload (0 + n);
        payload_length = n;
        payload_buffer = splice 0 (c ∷ cs) u.payload_buffer;
      },
      start_of_packet u class id n ((c ∷ cs) ++ (sums.0 ∷ sums.1 ∷ [])) ans idle hc not_ack
          ∙ payload_bytes (class * 256 + id) u.acked_id n c cs (sums.0 ∷ sums.1 ∷ []) (negated 6)
              front.0 front.1 0 u.payload_buffer (omega arith) small
          ∙ end_of_packet (class * 256 + id) u.acked_id n sums.0 sums.1 (0 + n)
              (splice 0 (c ∷ cs) u.payload_buffer) (negated 7) not_ack,
      refl,
      refl,
      refl,
      refl,
    )
