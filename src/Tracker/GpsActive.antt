-- ===== src/Tracker/GpsActive.antt =====
-- `setGpsActive` of nodes/SodaqOneDevice/SodaqOneDevice.ino: the GPS receiver is switched on, asked
-- for its port configuration, and told which messages to send. What it answers to each message is
-- an argument, and so is what the structure on the stack holds before. The watchdog and the modes of
-- the pins are left out. `none` is an access out of bounds.
pub mod Configured
use docker_applications.Common.{
  ℕ, Bool, true, false, Option, none, some, ◌>>=◌, List, [], ◌∷◌, if◌then◌else◌,
}
use docker_applications.Common.Memory.{splice}
use docker_applications.Tracker.NavPvt.{NavPvt}
use docker_applications.Ublox.{UBlox, reset}
use docker_applications.Ublox.Commands.{
  Waiting, cfg_msg, set_port_configuration_ddc, get_port_configuration_ddc,
}

-- The pin GPS_ENABLE, the parser, and `ublox.funcNavPvt`, a function on the state of the sketch.
pub record Gps (S : Type 0) : Type 0 where
  pub enabled : Bool
  pub parser : UBlox
  pub func_nav_pvt : Option (NavPvt → S → Option S)

-- The bytes that come back after each of the three messages. What waited on the bus before is
-- dropped by `flush`.
pub record Replies : Type 0 where
  pub to_question : List ℕ
  pub to_port : List ℕ
  pub to_rate : List ℕ

-- `enable` and `disable`; `flush` is a second reset.
abbrev pub switched : {S : Type 0} → Bool → Gps S → Gps S
switched on g = record g { enabled = on; parser = reset g.parser }

-- `pcd.outProtoMask = 1`, at offset 14 of the packed structure.
abbrev pub without_nmea : List ℕ → List ℕ
without_nmea pcd = splice 14 (1 ∷ 0 ∷ []) pcd

abbrev pub ubx_nav_pvt : ℕ
ubx_nav_pvt = 0x0107

module _ {S : Type 0} (delegate : NavPvt → S → Option S) where
  -- What follows the question: the other two messages if the structure was found.
  unfoldable pub configure :
      Replies → Gps S → UBlox × Waiting S → Option (List (List ℕ) × Gps S × S)
  unfolding set_port_configuration_ddc cfg_msg
  configure replies g (u, w) =
      if w.found
      then (do
        port ← set_port_configuration_ddc (without_nmea w.structure) replies.to_port u
        rate ← cfg_msg ubx_nav_pvt 1 replies.to_rate port.1
        some (
          port.0 ∷ rate.0 ∷ [],
          record g { parser = rate.1; func_nav_pvt = some delegate },
          w.state,
        ))
      else some ([], record g { parser = u }, w.state)

  -- The messages that are sent, with the receiver and the sketch after them.
  unfoldable pub set_gps_active :
      Replies → List ℕ → Bool → Gps S → S → Option (List (List ℕ) × Gps S × S)
  unfolding get_port_configuration_ddc configure
  set_gps_active replies pcd false g s = some ([], switched false g, s)
  set_gps_active replies pcd true g s =
      let on = switched true g in
      let asked =
        get_port_configuration_ddc g.func_nav_pvt replies.to_question on.parser
          (record { found = false; structure = pcd; state = s }) in
      do
        answered ← asked.1
        after ← configure replies on answered
        some (asked.0 ∷ after.0, after.1, after.2)
