-- ===== src/Ublox/Receiver.antt =====
-- `GetPeriodic` and `dispatchMessage` of nodes/SodaqOneDevice/ublox.cpp: the solutions among the
-- packets that the GPS receiver sends are given to a function of the sketch. What the bus delivers is
-- a list of bytes, `none` is an access out of bounds.
pub mod Quiet
pub mod Solution
pub mod Collect
pub mod Payload
use docker_applications.Common.{
  ℕ, ◌+◌, ◌*◌, Bool, true, false, ◌||◌, Option, none, some, ◌>>=◌, List, [], ◌∷◌, ◌==◌,
  if◌then◌else◌,
}
use docker_applications.Common.Bytes.{of_bytes}
use docker_applications.Common.Memory.{slice}
use docker_applications.Tracker.NavPvt.{NavPvt}
use docker_applications.Ublox.{UBlox, Answer, packet, negated, process}

-- `w` bytes of the structure at an offset, the low one first.
abbrev pub field_at : List ℕ → ℕ → ℕ → ℕ
field_at buffer offset w = of_bytes (slice offset w buffer)

-- `(NavigationPositionVelocityTimeSolution*) payLoad_.buffer`
unfoldable pub nav_pvt : List ℕ → NavPvt
nav_pvt buffer = record {
  year = field_at buffer 4 2;
  month = field_at buffer 6 1;
  day = field_at buffer 7 1;
  hour = field_at buffer 8 1;
  minute = field_at buffer 9 1;
  seconds = field_at buffer 10 1;
  valid = field_at buffer 11 1;
  fix_type = field_at buffer 20 1;
  flags = field_at buffer 21 1;
  num_sv = field_at buffer 23 1;
  lon = field_at buffer 24 4;
  lat = field_at buffer 28 4;
  h_msl = field_at buffer 36 4;
  g_speed = field_at buffer 60 4;
  heading = field_at buffer 64 4;
}

module _ {S : Type 0} where
  abbrev pub call : Option (NavPvt → S → Option S) → UBlox → S → Option S
  call none u s = some s
  call (some func_nav_pvt) u s =
      if u.payload_length == 84 || u.payload_length == 92
      then func_nav_pvt (nav_pvt u.payload_buffer) s
      else some s

  unfoldable pub dispatch_message : Option (NavPvt → S → Option S) → Answer → UBlox → S → Option S
  unfolding nav_pvt
  dispatch_message func_nav_pvt (negated n) u s = some s
  dispatch_message func_nav_pvt (packet id) u s =
      if id == 0x0107 then call func_nav_pvt u s else some s

  unfoldable pub get_periodic :
      Option (NavPvt → S → Option S) → List ℕ → UBlox → S → Option (UBlox × S)
  unfolding dispatch_message
  get_periodic func_nav_pvt [] u s = some (u, s)
  get_periodic func_nav_pvt (c ∷ cs) u s = do
    r ← process c u
    t ← dispatch_message func_nav_pvt r.1 r.0 s
    get_periodic func_nav_pvt cs r.0 t
