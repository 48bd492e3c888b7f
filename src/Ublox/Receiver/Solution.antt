-- ===== src/Ublox/Receiver/Solution.antt =====
-- A solution that the receiver sends, on its way to the sketch.
use docker_applications.Common.{
  ℕ, ◌+◌, ◌/◌, ◌%◌, ◌≤◌, ◌<◌, ◌≡◌, refl, ap, ◌∙◌, true, ◌||◌, Option, some, ◌>>=◌, List, [], ◌∷◌,
  ◌++◌, length, ◌==◌, if◌then◌else◌, arith, eq→==,
}
use docker_applications.Common.Memory.{splice}
use docker_applications.Tracker.NavPvt.{NavPvt}
use docker_applications.Ublox.{UBlox, process, checksum, send}
use docker_applications.Ublox.Packet.{payload_at}
use docker_applications.Ublox.Receiver.{nav_pvt, call, dispatch_message, get_periodic}
use docker_applications.Ublox.Receiver.Quiet.{
  front_of, front-Quiet, sum-Quiet, get_periodic-Quiet, payload-Quiet,
}

module _ {S : Type 0} (f : Option (NavPvt → S → Option S)) where
  last_byte :
      (u : UBlox) (s : S)
      → u.state_ ≡ 8
      → u.id_ ≡ 0x0107
      → get_periodic f (u.ck_b ∷ []) u s
        ≡ (call f (record u { state_ = 0 }) s >>= λ t. some (record u { state_ = 0 }, t))
  unfolding get_periodic dispatch_message process
  last_byte u s at id = rw (at, eq→== u.ck_b u.ck_b refl, id) refl

-- The parser after a solution.
abbrev pub after_solution : ℕ → List ℕ → UBlox → UBlox
after_solution c cs u =
    let n = length (c ∷ cs) in
    let sums = checksum 0 0 (1 ∷ 7 ∷ n % 256 ∷ n / 256 ∷ c ∷ cs) in
    record (payload_at 0x0107 u.acked_id n sums.0 sums.1 0 (0 + n)
      (splice 0 (c ∷ cs) u.payload_buffer)) { state_ = 0 }

-- A solution framed as `send` does, whose payload has the length that one of the two receivers sends
-- and fits the buffer, and which a parser in state 0 reads, whatever else the parser holds, is given
-- to the delegate exactly once, decoded from its payload, and nothing else is; the parser is in state
-- 0 again.
pub get_periodic-send :
    {S : Type 0} (delegate : NavPvt → S → Option S) (u : UBlox) (c : ℕ) (cs : List ℕ) (s : S)
    → u.state_ ≡ 0
    → (length (c ∷ cs) == 84 || length (c ∷ cs) == 92) ≡ true
    → length (c ∷ cs) ≤ length u.payload_buffer
    → length (c ∷ cs) < 65536
    → get_periodic
        (some delegate)
        (send (1 ∷ 7 ∷ length (c ∷ cs) % 256 ∷ length (c ∷ cs) / 256 ∷ c ∷ cs))
        u
        s
      ≡ (delegate (nav_pvt (splice 0 (c ∷ cs) u.payload_buffer)) s >>= λ t.
          some (after_solution c cs u, t))
unfolding send front_of
get_periodic-send {S} delegate u c cs s idle known fits small =
    let f = some delegate in
    let n = length (c ∷ cs) in
    let sums = checksum 0 0 (1 ∷ 7 ∷ n % 256 ∷ n / 256 ∷ c ∷ cs) in
    let front = checksum 0 0 (1 ∷ 7 ∷ n % 256 ∷ n / 256 ∷ []) in
    let u7 : UBlox =
      record (payload_at 0x0107 u.acked_id n sums.0 sums.1 0 (0 + n)
        (splice 0 (c ∷ cs) u.payload_buffer)) { state_ = 7 } in
    let u8 : UBlox = record u7 { state_ = 8 } in
    get_periodic-Quiet f ((c ∷ cs) ++ (sums.0 ∷ sums.1 ∷ [])) s (front-Quiet u 1 7 n idle refl)
    ∙ get_periodic-Quiet f (sums.0 ∷ sums.1 ∷ []) s (
        payload-Quiet 0x0107 u.acked_id n c cs front.0 front.1 0 u.payload_buffer (omega arith)
          small)
    ∙ get_periodic-Quiet f (sums.1 ∷ []) s (sum-Quiet u7 refl)
    ∙ last_byte f u8 s refl refl
    ∙ ap
        (λ b.
          (if b then delegate (nav_pvt (splice 0 (c ∷ cs) u.payload_buffer)) s else some s) >>= λ t.
          some (after_solution c cs u, t))
        known
