-- ===== src/Tracker/Powerloss.antt =====
-- `getPowerlossDataAndTransmit` of nodes/SodaqOneDevice/SodaqOneDevice.ino. The battery gauge is a
-- library: whether it is valid after `ltc.Update()` is an argument, and so is whether
-- `updatePowerlossSendBuffer` could encode the message.
pub mod Edges
use docker_applications.Common.{
  ℕ, zero, suc, ◌+◌, Bool, true, false, not, ◌&&◌, List, [], ◌∷◌, if◌then◌else◌,
}

-- `powerlossSend`, and how often `transmit` was called.
pub record Power : Type 0 where
  pub powerloss_send : Bool
  pub transmits : ℕ

-- `if (updatePowerlossSendBuffer()) transmit();`
abbrev pub send_message : Bool → Power → Power
send_message encoded s = if encoded then record s { transmits = s.transmits + 1 } else s

unfoldable pub get_powerloss_data_and_transmit : Bool → Bool → Power → Power
get_powerloss_data_and_transmit is_valid encoded s =
    let lost =
      if not is_valid && not s.powerloss_send
      then send_message encoded (record s { powerloss_send = true })
      else s in
    if is_valid && lost.powerloss_send
    then send_message encoded (record lost { powerloss_send = false })
    else lost
