-- ===== src/Ublox/Commands/Acknowledged.antt =====
-- The acknowledgment of a configuration message, in `wait` of nodes/SodaqOneDevice/ublox.cpp.
use docker_applications.Common.{
  ℕ, ◌+◌, ◌*◌, ◌≡◌, refl, ◌∙◌, true, some, List, [], ◌∷◌, length, set, arith, eq→==, length-set,
}
use docker_applications.Tracker.Hex.Convert.{store_within}
use docker_applications.Ublox.{
  UBlox, Answer, packet, negated, in_acked_id, is_ack, process, write_through, change_endianness,
  receive_all, checksum, send,
}
use docker_applications.Ublox.Commands.{wait}

-- Both bytes of `AckedId_` are replaced.
set_two : (xs : List ℕ) (a b : ℕ) → length xs ≡ 2 → set (set xs 0 a) 1 b ≡ a ∷ b ∷ []
set_two [] a b h = absurd (omega arith)
set_two (x ∷ []) a b h = absurd (omega arith)
set_two (x ∷ y ∷ []) a b h = refl
set_two (x ∷ y ∷ z ∷ xs) a b h = absurd (omega arith)

-- A parser before the two bytes of an acknowledgment.
abbrev acked_at : UBlox → ℕ → UBlox
acked_at u id = record u {
  state_ = 6;
  ck_a = (checksum 5 5 (id ∷ 2 ∷ 0 ∷ [])).0;
  ck_b = (checksum 5 5 (id ∷ 2 ∷ 0 ∷ [])).1;
  id_ = 5 * 256 + id;
  pl_length = 2;
  p = in_acked_id 0;
}

front :
    (u : UBlox) (id : ℕ) (rest : List ℕ) (ans : Answer)
    → u.state_ ≡ 0
    → is_ack (5 * 256 + id) ≡ true
    → receive_all (0xB5 ∷ 0x62 ∷ 5 ∷ id ∷ 2 ∷ 0 ∷ rest) ans u
      ≡ receive_all rest (negated 6) (acked_at u id)
unfolding receive_all process
front u id rest ans idle ack = rw (idle, ack)

-- The two bytes.
acked_bytes :
    (u : UBlox) (id a b : ℕ) (rest : List ℕ) (ans : Answer)
    → length u.acked_id ≡ 2
    → receive_all (a ∷ b ∷ rest) ans (acked_at u id)
      ≡ receive_all rest (negated 7) (record (acked_at u id) {
        state_ = 7;
        ck_a = (checksum 5 5 (id ∷ 2 ∷ 0 ∷ a ∷ b ∷ [])).0;
        ck_b = (checksum 5 5 (id ∷ 2 ∷ 0 ∷ a ∷ b ∷ [])).1;
        pl_length = 0;
        p = in_acked_id 2;
        acked_id = a ∷ b ∷ [];
      })
unfolding receive_all process write_through
acked_bytes u id a b rest ans two =
    rw
      (
        store_within u.acked_id 0 a (omega arith),
        store_within (set u.acked_id 0 a) 1 b (omega (arith, length-set u.acked_id 0 a)),
        set_two u.acked_id a b two,
      )
      refl

-- The two bytes of the checksum.
acked_end :
    (u : UBlox) (ans : Answer)
    → u.state_ ≡ 7
    → is_ack u.id_ ≡ true
    → receive_all (u.ck_a ∷ u.ck_b ∷ []) ans u
      ≡ some (record u { state_ = 0; acked_id = change_endianness u.acked_id }, packet u.id_)
unfolding receive_all process
acked_end u ans at ack = rw (at, eq→== u.ck_a u.ck_a refl, eq→== u.ck_b u.ck_b refl, ack) refl

-- The parser after an acknowledgment.
abbrev pub after_ack : UBlox → ℕ → ℕ → ℕ → UBlox
after_ack u id class msg = record (acked_at u id) {
  state_ = 0;
  ck_a = (checksum 5 5 (id ∷ 2 ∷ 0 ∷ class ∷ msg ∷ [])).0;
  ck_b = (checksum 5 5 (id ∷ 2 ∷ 0 ∷ class ∷ msg ∷ [])).1;
  pl_length = 0;
  p = in_acked_id 2;
  acked_id = msg ∷ class ∷ [];
}

-- An acknowledgment, or a refusal, that is framed as `send` does and which a parser in state 0 reads,
-- whatever else it holds: `wait` returns its identifier, the identifier of the message that is
-- acknowledged is in `AckedId_`, the low byte first, and the received payload is not touched.
pub wait-send :
    (u : UBlox) (id class msg : ℕ)
    → u.state_ ≡ 0
    → length u.acked_id ≡ 2
    → is_ack (5 * 256 + id) ≡ true
    → wait (send (5 ∷ id ∷ 2 ∷ 0 ∷ class ∷ msg ∷ [])) u
      ≡ some (after_ack u id class msg, packet (5 * 256 + id))
unfolding wait send
wait-send u id class msg idle two ack =
    let u7 : UBlox = record (after_ack u id class msg) {
      state_ = 7;
      acked_id = class ∷ msg ∷ [];
    } in
    front u id (class ∷ msg ∷ u7.ck_a ∷ u7.ck_b ∷ []) (negated 0) idle ack
    ∙ acked_bytes u id class msg (u7.ck_a ∷ u7.ck_b ∷ []) (negated 6) two
    ∙ acked_end u7 (negated 7) refl ack
