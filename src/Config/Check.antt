-- ===== src/Config/Check.antt =====
-- `ConfigParams::checkConfig`: which parameters leave the boot menu.
use docker_applications.Common.{◌≤◌, ◌≡◌, ◌↔◌, true, arith}
use docker_applications.Config.{
  ConfigParams, check_config, get_alternative_fix_from, get_alternative_fix_to,
}

-- The parameters that the messages of `checkConfig` ask for.
record IsChecked (p : ConfigParams) : Type 0 where
  pub from_hours : p.alternative_fix_from_hours ≤ 23
  pub from_minutes : p.alternative_fix_from_minutes ≤ 59
  pub to_hours : p.alternative_fix_to_hours ≤ 23
  pub to_minutes : p.alternative_fix_to_minutes ≤ 59
  pub coordinates : (1 ≤ p.coordinate_upload_count) × (p.coordinate_upload_count ≤ 4)
  pub repeats : p.repeat_count ≤ 10
  pub otaa : p.is_otaa_enabled ≤ 1
  pub led : p.is_led_enabled ≤ 1
  pub gps : p.is_gps_enabled ≤ 1
  pub ack : p.is_ack_enabled ≤ 1
  pub dbg : p.is_dbg_enabled ≤ 1

-- `checkConfig` accepts exactly the parameters that are in range.
check_config_iff : (p : ConfigParams) → (check_config p ≡ true) ↔ IsChecked p
unfolding check_config
check_config_iff p = (λ h. ground arith, λ h. ground arith)

-- Checked times lie within one day.
pub IsChecked-times :
    (p : ConfigParams)
    → check_config p ≡ true
    → (get_alternative_fix_from p ≤ 86340) × (get_alternative_fix_to p ≤ 86340)
IsChecked-times p h = omega (arith, (check_config_iff p).0 h)
