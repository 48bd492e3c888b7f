-- ===== src/Ublox/Commands/Replies.antt =====
-- The reply to a question of the configuration.
use docker_applications.Common.{
  ℕ, ◌+◌, ◌*◌, ◌/◌, ◌%◌, ◌≤◌, ◌<◌, ◌≡◌, refl, sym, ap, ◌∙◌, true, false, Option, some, ◌>>=◌, List,
  [], ◌∷◌, ◌++◌, length, drop, arith, eq→==,
}
use docker_applications.Common.Memory.{
  splice, length-splice, splice-prefix, read_at, read_at_prefix, write_at_all,
}
use docker_applications.Tracker.NavPvt.{NavPvt}
use docker_applications.Ublox.{UBlox, is_ack, process, checksum, send}
use docker_applications.Ublox.Packet.{payload_at}
use docker_applications.Ublox.Receiver.Quiet.{
  Quiet, next, stop, front_of, front-Quiet, sum-Quiet, payload-Quiet,
}
use docker_applications.Ublox.Commands.{Waiting, copied, on_answer, wait_for}

module _ {S : Type 0} (f : Option (NavPvt → S → Option S)) (rid req_length : ℕ) where
  wait_for-Quiet :
      {cs : List ℕ} {u v : UBlox} (rest : List ℕ) (w : Waiting S)
      → Quiet cs u v
      → wait_for f rid req_length (cs ++ rest) u w ≡ wait_for f rid req_length rest v w
  unfolding wait_for on_answer
  wait_for-Quiet rest w stop = refl
  wait_for-Quiet rest w (next step p) = rw step (wait_for-Quiet rest w p)

  last_byte :
      (u : UBlox) (w : Waiting S)
      → u.state_ ≡ 8
      → u.id_ ≡ rid
      → is_ack rid ≡ false
      → u.payload_length ≡ req_length
      → wait_for f rid req_length (u.ck_b ∷ []) u w
        ≡ (copied req_length (record u { state_ = 0 }) w >>= λ t. some (record u { state_ = 0 }, t))
  unfolding wait_for on_answer process
  last_byte u w at id not_ack size =
      rw
        (
          at,
          eq→== u.ck_b u.ck_b refl,
          id,
          not_ack,
          eq→== rid rid refl,
          size,
          eq→== req_length req_length refl,
        )
        refl

copied-splice :
    {S : Type 0} (bs : List ℕ) (u : UBlox) (buf : List ℕ) (w : Waiting S)
    → u.payload_buffer ≡ splice 0 bs buf
    → length bs ≤ length buf
    → length w.structure ≡ length bs
    → copied (length bs) u w ≡ some (record w { found = true; structure = bs })
unfolding copied
copied-splice bs u buf w held fits size =
    let read : read_at u.payload_buffer 0 (length bs) ≡ some bs =
      ap (λ b. read_at b 0 (length bs)) (held ∙ splice-prefix bs buf fits)
      ∙ read_at_prefix bs (drop (length bs) buf) in
    rw (read, write_at_all bs w.structure (sym size)) refl

-- A reply of class 6 that is framed as `send` does, is not an acknowledgment, whose payload is shorter
-- than 65536 bytes, has the length of the structure and fits the buffer, and which a parser in state 0
-- reads, whatever else the parser holds: `wait` finds it, copies its payload to the structure, and
-- calls no delegate; the parser is in state 0 again, and its arrays keep their size.
pub wait_for-send :
    {S : Type 0} (f : Option (NavPvt → S → Option S)) (u : UBlox) (id c : ℕ) (cs : List ℕ)
    (w : Waiting S)
    → u.state_ ≡ 0
    → is_ack (6 * 256 + id) ≡ false
    → length (c ∷ cs) ≤ length u.payload_buffer
    → length (c ∷ cs) < 65536
    → length w.structure ≡ length (c ∷ cs)
    → (v : UBlox) × (wait_for f
          (6 * 256 + id)
          (length (c ∷ cs))
          (send (6 ∷ id ∷ length (c ∷ cs) % 256 ∷ length (c ∷ cs) / 256 ∷ c ∷ cs))
          u
          w
        ≡ some (v, record w { found = true; structure = c ∷ cs }))
      × (v.state_ ≡ 0)
      × (length v.payload_buffer ≡ length u.payload_buffer)
      × (v.acked_id ≡ u.acked_id)
unfolding send front_of
wait_for-send {S} f u id c cs w idle not_ack fits small size =
    let rid = 6 * 256 + id in
    let n = length (c ∷ cs) in
    let sums = checksum 0 0 (6 ∷ id ∷ n % 256 ∷ n / 256 ∷ c ∷ cs) in
    let front = checksum 6 6 (id ∷ n % 256 ∷ n / 256 ∷ []) in
    let u7 : UBlox =
      record (payload_at rid u.acked_id n sums.0 sums.1 0 (0 + n)
        (splice 0 (c ∷ cs) u.payload_buffer)) { state_ = 7 } in
    let u8 : UBlox = record u7 { state_ = 8 } in
    let u0 : UBlox = record u7 { state_ = 0 } in
    (
      u0,
      wait_for-Quiet f rid n ((c ∷ cs) ++ (sums.0 ∷ sums.1 ∷ [])) w
            (front-Quiet u 6 id n idle not_ack)
          ∙ wait_for-Quiet f rid n (sums.0 ∷ sums.1 ∷ []) w (
              payload-Quiet rid u.acked_id n c cs front.0 front.1 0 u.payload_buffer (omega arith)
                small)
          ∙ wait_for-Quiet f rid n (sums.1 ∷ []) w (sum-Quiet u7 refl)
          ∙ last_byte f rid n u8 w refl refl not_ack refl
          ∙ ap (λ o. o >>= λ t. some (u0, t))
              (copied-splice (c ∷ cs) u0 u.payload_buffer w refl fits size),
      refl,
      length-splice 0 (c ∷ cs) u.payload_buffer,
      refl,
    )
