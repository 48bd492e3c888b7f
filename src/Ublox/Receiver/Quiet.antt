-- ===== src/Ublox/Receiver/Quiet.antt =====
-- The parser while it has not yet found a packet.
use docker_applications.Common.{
  ℕ, suc, ◌+◌, ◌*◌, ◌/◌, ◌%◌, ◌≤◌, ◌<◌, ◌≡◌, refl, sym, ap, ap₂, subst, ◌∙◌, false, Option, some,
  List, [], ◌∷◌, ◌++◌, length, set, arith, length-set, eq→==,
}
use native.Mathlib.Numerals.{add-one}
use docker_applications.Common.Memory.{splice, splice-nil}
use docker_applications.Tracker.Hex.Convert.{splice-set}
use docker_applications.Tracker.NavPvt.{NavPvt}
use docker_applications.Ublox.{UBlox, negated, next_a, next_b, is_ack, process, summed, checksum}
use docker_applications.Ublox.Packet.{payload_at, payload_last, payload_more}
use docker_applications.Ublox.Receiver.{dispatch_message, get_periodic}

-- From the first parser the bytes lead to the second, and none of them ends a packet.
pub data Quiet : List ℕ → UBlox → UBlox → Type 0 where
  stop : {u : UBlox} → Quiet [] u u
  next :
      {c n : ℕ} {cs : List ℕ} {u v w : UBlox}
      → process c u ≡ some (v, negated n)
      → Quiet cs v w
      → Quiet (c ∷ cs) u w

-- One byte, with the parser that it leads to.
pub read_one :
    (c n : ℕ) (cs : List ℕ) (u v w : UBlox)
    → process c u ≡ some (v, negated n)
    → Quiet cs v w
    → Quiet (c ∷ cs) u w
read_one c n cs u v w step p = next step p

pub Quiet-append :
    {cs : List ℕ} {u v w : UBlox} (ds : List ℕ) → Quiet cs u v → Quiet ds v w → Quiet (cs ++ ds) u w
Quiet-append ds stop q = q
Quiet-append ds (next step p) q = next step (Quiet-append ds p q)

-- Nothing is dispatched on the way.
pub get_periodic-Quiet :
    {S : Type 0} {cs : List ℕ} {u v : UBlox} (f : Option (NavPvt → S → Option S)) (rest : List ℕ)
    (s : S)
    → Quiet cs u v
    → get_periodic f (cs ++ rest) u s ≡ get_periodic f rest v s
unfolding get_periodic dispatch_message
get_periodic-Quiet f rest s stop = refl
get_periodic-Quiet f rest s (next step p) = rw step (get_periodic-Quiet f rest s p)

-- The payload of a packet that fits the buffer.
pub payload-Quiet :
    (id : ℕ) (acked : List ℕ) (total c : ℕ) (cs : List ℕ) (a b k : ℕ) (buf : List ℕ)
    → k + length (c ∷ cs) ≤ length buf
    → length (c ∷ cs) < 65536
    → Quiet
        (c ∷ cs)
        (payload_at id acked total a b (length (c ∷ cs)) k buf)
        (record (payload_at id acked total
          (checksum a b (c ∷ cs)).0
          (checksum a b (c ∷ cs)).1
          0
          (k + length (c ∷ cs))
          (splice k (c ∷ cs) buf)) { state_ = 7 })
payload-Quiet id acked total c [] a b k buf hk hn =
    let one : set buf k c ≡ splice k (c ∷ []) buf =
      sym (splice-nil (suc k) (set buf k c)) ∙ splice-set k c [] buf (omega arith) in
    next
      (payload_last id acked total a b k c buf (omega arith)
        ∙ ap
            (λ buf'. some (
              record (payload_at id acked total (next_a a c) (next_b a b c) 0 (k + 1) buf') {
                state_ = 7;
              },
              negated 7,
            ))
            one)
      stop
payload-Quiet id acked total c (d ∷ ds) a b k buf hk hn =
    let n : ℕ = length ds in
    let more : splice (k + 1) (d ∷ ds) (set buf k c) ≡ splice k (c ∷ d ∷ ds) buf =
      rw add-one (splice-set k c (d ∷ ds) buf (omega arith)) in
    let end : (k + 1) + suc n ≡ k + suc (suc n) = omega arith in
    let sums = checksum a b (c ∷ d ∷ ds) in
    next (payload_more id acked total a b n k c buf (omega arith) (omega arith)) (
      subst
        (λ t.
          Quiet (d ∷ ds)
            (payload_at id acked total (next_a a c) (next_b a b c) (suc n) (k + 1) (set buf k c)) t)
        (ap₂ (λ at buf'. record (payload_at id acked total sums.0 sums.1 0 at buf') { state_ = 7 })
          end more)
        (payload-Quiet id acked total d ds (next_a a c) (next_b a b c) (k + 1) (set buf k c)
          (omega (arith, length-set buf k c)) (omega arith)))

-- The six bytes in front of a payload.
unfoldable pub front_of : ℕ → ℕ → ℕ → List ℕ
front_of class id n = 0xB5 ∷ 0x62 ∷ class ∷ id ∷ n % 256 ∷ n / 256 ∷ []

pub front-Quiet :
    (u : UBlox) (class id n : ℕ)
    → u.state_ ≡ 0
    → is_ack (class * 256 + id) ≡ false
    → Quiet (front_of class id n) u (
        payload_at
          (class * 256 + id)
          u.acked_id
          n
          (checksum class class (id ∷ n % 256 ∷ n / 256 ∷ [])).0
          (checksum class class (id ∷ n % 256 ∷ n / 256 ∷ [])).1
          n
          0
          u.payload_buffer)
unfolding front_of process
front-Quiet u class id n idle not_ack =
    let total : n % 256 + n / 256 * 256 ≡ n = omega arith in
    let v1 : UBlox = record u { state_ = 1 } in
    let v2 : UBlox = record u { state_ = 2 } in
    let v3 : UBlox = record u { state_ = 3; ck_a = class; ck_b = class; id_ = class * 256 } in
    let v4 : UBlox = record (summed id v3) { state_ = 4; id_ = class * 256 + id } in
    let v5 : UBlox = record (summed (n % 256) v4) { state_ = 5; pl_length = n % 256 } in
    let sums = checksum class class (id ∷ n % 256 ∷ n / 256 ∷ []) in
    let v6 = payload_at (class * 256 + id) u.acked_id n sums.0 sums.1 n 0 u.payload_buffer in
    read_one 0xB5 1 _ u v1 v6 (rw idle refl) (
      read_one 0x62 2 _ v1 v2 v6 refl (
        read_one class 3 _ v2 v3 v6 refl (
          read_one id 4 _ v3 v4 v6 refl (
            read_one (n % 256) 5 _ v4 v5 v6 refl
              (read_one (n / 256) 6 [] v5 v6 v6 (rw (not_ack, total) refl) stop)))))

-- The first byte of the checksum, and the second, which ends the packet.
pub sum-Quiet : (u : UBlox) → u.state_ ≡ 7 → Quiet (u.ck_a ∷ []) u (record u { state_ = 8 })
unfolding process
sum-Quiet u at =
    read_one u.ck_a 8 [] u (record u { state_ = 8 }) _ (rw (at, eq→== u.ck_a u.ck_a refl) refl) stop
