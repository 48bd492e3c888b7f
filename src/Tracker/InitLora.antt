-- ===== src/Tracker/InitLora.antt =====
-- `initLora` of nodes/SodaqOneDevice/SodaqOneDevice.ino. The LoRa module behind the driver
-- Sodaq_RN2483, a library, is a parameter; what the stack held in the arrays of the keys is an
-- argument. `none` is an access out of the bounds of an array. Messages, the serial port and the pins
-- of the module are left out.
pub mod FullKey
use docker_applications.Common.{
  ℕ, Bool, true, false, not, ◌&&◌, Option, none, some, ◌>>=◌, List, ◌==◌, if◌then◌else◌,
}
use docker_applications.Config.{ConfigParams}
use docker_applications.Tracker.Hex.{convert_and_check_hex_array}

-- `LoRaBee.initOTA`, `initABP`, `setUpCntr` and `setDownCntr`
pub record LoRaDriver : Type 1 where
  pub State : Type 0
  pub init_ota : List ℕ → List ℕ → List ℕ → State → Bool × State
  pub init_abp : List ℕ → List ℕ → List ℕ → State → Bool × State
  pub set_up_cntr : ℕ → State → State
  pub set_down_cntr : ℕ → State → State

-- Three arrays on the stack: the device's address or EUI, and two keys.
pub record Keys : Type 0 where
  pub dev : List ℕ
  pub app : List ℕ
  pub key : List ℕ

-- The three conversions, joined by `&&`; `n1`, `n2` and `n3` are the sizes of the arrays.
unfoldable pub convert_keys : ℕ → ℕ → ℕ → ConfigParams → Keys → Option (Bool × Keys)
convert_keys n1 n2 n3 p k = do
  first ← convert_and_check_hex_array k.dev p.dev_addr_or_eui n1
  let k1 : Keys = record k { dev = first.1 }
  if not first.0 then some (false, k1) else (do
    second ← convert_and_check_hex_array k.app p.app_s_key_or_eui n2
    let k2 : Keys = record k1 { app = second.1 }
    if not second.0 then some (false, k2) else (do
      third ← convert_and_check_hex_array k.key p.nw_s_key_or_app_key n3
      let k3 : Keys = record k2 { key = third.1 }
      some (third.0, k3)))

module _ (driver : LoRaDriver) where
  open driver use {State, init_ota, init_abp, set_up_cntr, set_down_cntr}

  -- The module is initialised whether or not the keys are valid, so that it can be put to sleep.
  unfoldable pub init_lora : ConfigParams → Keys → State → Option (Bool × State)
  unfolding convert_keys
  init_lora p k lora =
      let otaa = not (p.is_otaa_enabled == 0) in
      do
        valid ← (if otaa then convert_keys 8 8 16 p k else convert_keys 4 16 16 p k)
        let keys = valid.1
        let inited =
            if otaa
            then init_ota keys.dev keys.app keys.key lora
            else init_abp keys.dev keys.app keys.key lora
        some (
          inited.0 && valid.0,
          set_down_cntr p.frame_down_count (set_up_cntr p.frame_up_count inited.1),
        )
