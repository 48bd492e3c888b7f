-- ===== src/Config.antt =====
-- nodes/SodaqOneDevice/Config.cpp and Config.h: the configuration of the device and its copy in
-- flash. `ConfigParams` is the global `params`; `FlashStorage`, a library, is a parameter.
pub mod Crc
pub mod Store
pub mod Check
pub mod Args
use docker_applications.Common.{
  ℕ, ◌+◌, ◌*◌, ◌<◌, ◌≤◌, ◌≡◌, Bool, true, false, not, ◌&&◌, ◌||◌, Option, none, some, List, [], ◌∷◌,
  ◌++◌, replicate, ltb, ◌==◌, if◌then◌else◌,
}
use docker_applications.Common.Bytes.{le_bytes}
use Crc.{crc16ccitt}

-- Integers are kept as natural numbers, `char` arrays as the list of their bytes. `padding` is the
-- two bytes that the compiler puts before `_frameUpCount`, which lies at a multiple of four.
pub record ConfigParams : Type 0 where
  pub header : ℕ
  pub default_fix_interval : ℕ
  pub alternative_fix_interval : ℕ
  pub alternative_fix_from_hours : ℕ
  pub alternative_fix_from_minutes : ℕ
  pub alternative_fix_to_hours : ℕ
  pub alternative_fix_to_minutes : ℕ
  pub gps_fix_timeout : ℕ
  pub is_led_enabled : ℕ
  pub is_otaa_enabled : ℕ
  pub is_gps_enabled : ℕ
  pub is_ack_enabled : ℕ
  pub is_dbg_enabled : ℕ
  pub dev_addr_or_eui : List ℕ
  pub app_s_key_or_eui : List ℕ
  pub nw_s_key_or_app_key : List ℕ
  pub charge_offset : ℕ
  pub coordinate_upload_count : ℕ
  pub repeat_count : ℕ
  pub padding : List ℕ
  pub frame_up_count : ℕ
  pub frame_down_count : ℕ
  pub crc16 : ℕ

-- The bytes of the structure in memory, up to `_crc16`.
unfoldable pub image : ConfigParams → List ℕ
image p =
    le_bytes 2 p.header
    ++ le_bytes 2 p.default_fix_interval
    ++ le_bytes 2 p.alternative_fix_interval
    ++ le_bytes 1 p.alternative_fix_from_hours
    ++ le_bytes 1 p.alternative_fix_from_minutes
    ++ le_bytes 1 p.alternative_fix_to_hours
    ++ le_bytes 1 p.alternative_fix_to_minutes
    ++ le_bytes 2 p.gps_fix_timeout
    ++ le_bytes 1 p.is_led_enabled
    ++ le_bytes 1 p.is_otaa_enabled
    ++ le_bytes 1 p.is_gps_enabled
    ++ le_bytes 1 p.is_ack_enabled
    ++ le_bytes 1 p.is_dbg_enabled
    ++ p.dev_addr_or_eui
    ++ p.app_s_key_or_eui
    ++ p.nw_s_key_or_app_key
    ++ le_bytes 4 p.charge_offset
    ++ le_bytes 1 p.coordinate_upload_count
    ++ le_bytes 1 p.repeat_count
    ++ p.padding
    ++ le_bytes 4 p.frame_up_count
    ++ le_bytes 4 p.frame_down_count

abbrev pub default_header : ℕ
default_header = 0xBEEF

-- `getAlternativeFixFrom` and `getAlternativeFixTo`: seconds of the day. Bytes cannot overflow.
abbrev pub get_alternative_fix_from : ConfigParams → ℕ
get_alternative_fix_from p =
    p.alternative_fix_from_hours * 60 * 60 + p.alternative_fix_from_minutes * 60

abbrev pub get_alternative_fix_to : ConfigParams → ℕ
get_alternative_fix_to p = p.alternative_fix_to_hours * 60 * 60 + p.alternative_fix_to_minutes * 60

-- The library's flash: what it holds, and reading and writing one structure.
pub record FlashStorage : Type 1 where
  pub Flash : Type 0
  pub read_flash : Flash → ConfigParams
  pub write_flash : ConfigParams → Flash → Flash

-- `n` bytes '0' and the terminator, as `memset` and the assignment behind it leave them.
abbrev pub zeros : ℕ → List ℕ
zeros n = replicate n 0x30 ++ 0 ∷ []

abbrev pub with_defaults : ConfigParams → ConfigParams
with_defaults p = record p {
  default_fix_interval = 15;
  alternative_fix_interval = 0;
  alternative_fix_from_hours = 0;
  alternative_fix_from_minutes = 0;
  alternative_fix_to_hours = 0;
  alternative_fix_to_minutes = 0;
  gps_fix_timeout = 120;
  is_led_enabled = 0;
  is_otaa_enabled = 0;
  is_gps_enabled = 0;
  is_ack_enabled = 0;
  is_dbg_enabled = 0;
  dev_addr_or_eui = zeros 16;
  app_s_key_or_eui = zeros 32;
  nw_s_key_or_app_key = zeros 32;
  charge_offset = 0;
  coordinate_upload_count = 1;
  repeat_count = 5;
}

-- The callback that `setConfigResetCallback` registers changes `params` only.
abbrev pub call_reset_callback : Option (ConfigParams → ConfigParams) → ConfigParams → ConfigParams
call_reset_callback none p = p
call_reset_callback (some callback) p = callback p

-- `fail` after the tests of `checkConfig`, in their order; an unsigned value is never below 0. What
-- is printed is left out.
unfoldable pub check_config : ConfigParams → Bool
check_config p = not (
    ltb 23 p.alternative_fix_from_hours
    || ltb 23 p.alternative_fix_to_hours
    || ltb 59 p.alternative_fix_from_minutes
    || ltb 59 p.alternative_fix_to_minutes
    || ltb 59 p.alternative_fix_to_minutes
    || (ltb p.coordinate_upload_count 1 || ltb 4 p.coordinate_upload_count)
    || ltb 10 p.repeat_count
    || ltb 1 p.is_otaa_enabled
    || ltb 1 p.is_led_enabled
    || ltb 1 p.is_gps_enabled
    || ltb 1 p.is_ack_enabled
    || ltb 1 p.is_dbg_enabled)

module _ (fs : FlashStorage) where
  open fs use {Flash, read_flash, write_flash}

  -- `params`, the static variables of Config.cpp, and the flash.
  pub record ConfigState : Type 0 where
    pub params : ConfigParams
    pub needs_commit : Bool
    pub config_reset_callback : Option (ConfigParams → ConfigParams)
    pub flash : Flash

  unfoldable pub reset : ConfigState → ConfigState
  reset s = record s {
    params = call_reset_callback s.config_reset_callback (with_defaults s.params);
    needs_commit = true;
  }

  unfoldable pub read : ConfigState → ConfigState
  unfolding reset
  read s =
      let p = read_flash s.flash in
      let calc_crc16 = crc16ccitt (image p) in
      let s' : ConfigState = record s { params = p } in
      if not (p.header == default_header) || not (p.crc16 == calc_crc16) then reset s' else s'

  unfoldable pub commit : Bool → ConfigState → ConfigState
  commit forced s =
      if not forced && not s.needs_commit
      then s
      else (let headed : ConfigParams = record (s.params) { header = default_header } in
          let p : ConfigParams = record headed { crc16 = crc16ccitt (image headed) } in
          record s { params = p; flash = write_flash p s.flash; needs_commit = false })

  unfoldable pub set_config_reset_callback :
      (ConfigParams → ConfigParams) → ConfigState → ConfigState
  set_config_reset_callback callback s = record s { config_reset_callback = some callback }
