-- ===== src/Ublox/Commands.antt =====
-- The configuration messages of nodes/SodaqOneDevice/ublox.cpp, and the two functions `wait`. The
-- bytes that come back are an argument, and so is the delegate for the solutions among them; the
-- waiting time of 50 ms is left out. `none` is an access out of bounds.
pub mod Replies
pub mod Acknowledged
use docker_applications.Common.{
  ℕ, ◌+◌, ◌*◌, ◌/◌, ◌%◌, Bool, true, false, Option, none, some, ◌>>=◌, List, [], ◌∷◌, ◌++◌, take,
  length, ◌==◌, if◌then◌else◌,
}
use docker_applications.Common.Memory.{splice, read_at, write_at}
use docker_applications.Tracker.NavPvt.{NavPvt}
use docker_applications.Ublox.{UBlox, Answer, packet, negated, process, receive_all, send}
use docker_applications.Ublox.Receiver.{dispatch_message}

-- `wait()`
unfoldable pub wait : List ℕ → UBlox → Option (UBlox × Answer)
unfolding receive_all
wait replies u = receive_all replies (negated 0) u

-- What `wait` changes when it looks for a reply: `found`, the structure at `d`, and the state of the
-- delegate.
pub record Waiting (S : Type 0) : Type 0 where
  pub found : Bool
  pub structure : List ℕ
  pub state : S

-- `memcpy(d, payLoad_.buffer, reqLength); found = true;`
unfoldable pub copied : {S : Type 0} → ℕ → UBlox → Waiting S → Option (Waiting S)
copied req_length u w = do
  bytes ← read_at u.payload_buffer 0 req_length
  structure ← write_at w.structure 0 bytes
  some (record w { found = true; structure = structure })

module _ {S : Type 0} (func_nav_pvt : Option (NavPvt → S → Option S)) where
  unfoldable pub on_answer : ℕ → ℕ → Answer → UBlox → Waiting S → Option (Waiting S)
  unfolding dispatch_message copied
  on_answer rid req_length (negated n) u w = some w
  on_answer rid req_length (packet pid) u w =
      if pid == rid
      then (if u.payload_length == req_length then copied req_length u w else some w)
      else (do
        s ← dispatch_message func_nav_pvt (packet pid) u w.state
        some (record w { state = s }))

  -- `wait(rid, reqLength, d)`
  unfoldable pub wait_for : ℕ → ℕ → List ℕ → UBlox → Waiting S → Option (UBlox × Waiting S)
  unfolding on_answer
  wait_for rid req_length [] u w = some (u, w)
  wait_for rid req_length (c ∷ cs) u w = do
    r ← process c u
    w' ← on_answer rid req_length r.1 r.0 w
    wait_for rid req_length cs r.0 w'

-- `CfgMsg`: what it sends, and the parser after the reply; `msg` is a `uint16_t` and `rate` a
-- `uint8_t`.
unfoldable pub cfg_msg : ℕ → ℕ → List ℕ → UBlox → Option (List ℕ × UBlox)
unfolding wait
cfg_msg msg rate replies u = do
  r ← wait replies u
  some (send (0x06 ∷ 0x01 ∷ 0x03 ∷ 0 ∷ msg / 256 % 256 ∷ msg % 256 ∷ rate ∷ []), r.0)

-- A message with a structure overwrites `payLoad_.buffer`: what is sent, and what `wait` returns.
unfoldable pub send_structure : List ℕ → List ℕ → List ℕ → UBlox → Option (List ℕ × UBlox × Answer)
unfolding wait
send_structure header structure replies u = do
  buffer ← write_at u.payload_buffer 0 (header ++ structure)
  message ← read_at buffer 0 (length header + length structure)
  r ← wait replies (record u { payload_buffer = buffer })
  some (send message, r.0, r.1)

unfoldable pub set_time_pulse_parameters :
    List ℕ → List ℕ → UBlox → Option (List ℕ × UBlox × Answer)
unfolding send_structure
set_time_pulse_parameters tpp replies u = send_structure (0x06 ∷ 0x31 ∷ 32 ∷ 0 ∷ []) tpp replies u

unfoldable pub set_port_configuration_ddc :
    List ℕ → List ℕ → UBlox → Option (List ℕ × UBlox × Answer)
unfolding send_structure
set_port_configuration_ddc pcd replies u = send_structure (0x06 ∷ 0x00 ∷ 20 ∷ 0 ∷ []) pcd replies u

-- The two questions: what is sent, and the wait for a reply of the same class and identifier.
module _ {S : Type 0} (func_nav_pvt : Option (NavPvt → S → Option S)) where
  unfoldable pub get_time_pulse_parameters :
      ℕ → List ℕ → UBlox → Waiting S → List ℕ × Option (UBlox × Waiting S)
  unfolding wait_for
  get_time_pulse_parameters tp_idx replies u w =
      (send (0x06 ∷ 0x31 ∷ 1 ∷ 0 ∷ tp_idx ∷ []), wait_for func_nav_pvt 0x0631 32 replies u w)

  unfoldable pub get_port_configuration_ddc :
      List ℕ → UBlox → Waiting S → List ℕ × Option (UBlox × Waiting S)
  unfolding wait_for
  get_port_configuration_ddc replies u w =
      (send (0x06 ∷ 0x00 ∷ 0 ∷ 0 ∷ []), wait_for func_nav_pvt 0x0600 20 replies u w)
