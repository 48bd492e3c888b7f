-- ===== src/Ublox.antt =====
-- nodes/SodaqOneDevice/ublox.cpp: the parser of the UBX packets that the GPS receiver sends, and
-- the framing of those sent to it. The I2C bus is a library: what it delivers is a list of bytes.
-- `none` is an access out of the bounds of an array.
pub mod Packet
pub mod Overflow
pub mod Receiver
pub mod Commands
use docker_applications.Common.{
  ℕ, zero, suc, ◌+◌, ◌-◌, ◌*◌, ◌/◌, ◌%◌, ◌^◌, Bool, ◌&&◌, ◌||◌, not, Option, none, some, ◌>>=◌,
  List, [], ◌∷◌, ◌++◌, ◌==◌, if◌then◌else◌,
}
use docker_applications.Tracker.Hex.{store}

-- Where `p_` points: nowhere, into `AckedId_`, or into `payLoad_.buffer`.
pub data Pointer : Type 0 where
  null : Pointer
  in_acked_id in_payload : ℕ → Pointer

-- `AckedId_` is the list of its two bytes, the low one first; `ck_a` and `ck_b` are the static
-- variables of `process`.
pub record UBlox : Type 0 where
  pub state_ : ℕ
  pub ck_a : ℕ
  pub ck_b : ℕ
  pub id_ : ℕ
  pub acked_id : List ℕ
  pub pl_length : ℕ
  pub p : Pointer
  pub payload_length : ℕ
  pub payload_buffer : List ℕ

-- `enable`, `disable` and `flush` call it too, and change nothing else of the parser.
abbrev pub reset : UBlox → UBlox
reset u = record u { state_ = 0 }

-- What `process` returns: the identifier of a packet, or the negated state.
pub data Answer : Type 0 where
  packet negated : ℕ → Answer

-- `ck_a += c; ck_b += ck_a;` on `uint8_t`
abbrev pub next_a : ℕ → ℕ → ℕ
next_a a c = (a + c) % 256

abbrev pub next_b : ℕ → ℕ → ℕ → ℕ
next_b a b c = (b + next_a a c) % 256

abbrev pub is_ack : ℕ → Bool
is_ack id = id == 0x500 || id == 0x501

-- `AckedId_ = (AckedId_ >> 8) | (AckedId_ << 8)`
abbrev pub change_endianness : List ℕ → List ℕ
change_endianness (low ∷ high ∷ []) = high ∷ low ∷ []
change_endianness bytes = bytes

-- `*p_++ = c`
unfoldable pub write_through : Pointer → ℕ → UBlox → Option UBlox
unfolding store
write_through null c u = none
write_through (in_acked_id k) c u =
    store u.acked_id k c >>= λ bytes. some (record u { acked_id = bytes; p = in_acked_id (k + 1) })
write_through (in_payload k) c u = store u.payload_buffer k c >>= λ bytes.
    some (record u { payload_buffer = bytes; p = in_payload (k + 1) })

abbrev pub to_state : ℕ → UBlox → Option (UBlox × Answer)
to_state n u = some (record u { state_ = n }, negated n)

-- `ck_a += c; ck_b += ck_a;`
abbrev pub summed : ℕ → UBlox → UBlox
summed c u = record u { ck_a = next_a u.ck_a c; ck_b = next_b u.ck_a u.ck_b c }

unfoldable pub process : ℕ → UBlox → Option (UBlox × Answer)
unfolding write_through
process c u =
    if u.state_ == 0 && c == 0xB5
    then to_state 1 u
    else if u.state_ == 1
    then (if c == 0x62 then to_state 2 u else to_state 0 u)
    else if u.state_ == 2
    then to_state 3 (record u { ck_a = c; ck_b = c; id_ = c * 256 })
    else if u.state_ == 3
    then to_state 4 (record (summed c u) { id_ = u.id_ + c })
    else if u.state_ == 4
    then to_state 5 (record (summed c u) { pl_length = c })
    else if u.state_ == 5
    then (let v : UBlox = record (summed c u) { pl_length = u.pl_length + c * 256 } in
        if is_ack u.id_
        then to_state 6 (record v { p = in_acked_id 0 })
        else to_state 6 (record v { payload_length = v.pl_length; p = in_payload 0 }))
    else if u.state_ == 6
    then (write_through u.p c (summed c u) >>= λ w.
        let left = (u.pl_length + 65535) % 2 ^ 16 in
        to_state (if left == 0 then 7 else 6) (record w { pl_length = left }))
    else if u.state_ == 7
    then (if c == u.ck_a then to_state 8 u else to_state 0 u)
    else if u.state_ == 8
    then (if u.ck_b == c
        then some (
          record u {
            state_ = 0;
            acked_id = if is_ack u.id_ then change_endianness u.acked_id else u.acked_id;
          },
          packet u.id_,
        )
        else to_state 0 u)
    else to_state u.state_ u

-- The bytes that `wait` reads, one after the other; `id` is what the last one returned.
unfoldable pub receive_all : List ℕ → Answer → UBlox → Option (UBlox × Answer)
receive_all [] id u = some (u, id)
receive_all (c ∷ cs) id u = process c u >>= λ r. receive_all cs r.1 r.0

-- The checksum loop of `send`.
abbrev pub checksum : ℕ → ℕ → List ℕ → ℕ × ℕ
checksum a b [] = (a, b)
checksum a b (c ∷ cs) = checksum (next_a a c) (next_b a b c) cs

-- What `send` writes to the bus.
unfoldable pub send : List ℕ → List ℕ
send buffer = 0xB5 ∷ 0x62 ∷ (buffer ++ ((checksum 0 0 buffer).0 ∷ (checksum 0 0 buffer).1 ∷ []))
